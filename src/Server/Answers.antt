-- ===== src/Server/Answers.antt =====
-- The answers to the lines that a client sends.
use mathlib.Core.List.{append_assoc, append-nil}
use trading_matcher.Base.{
  ℕ, suc, ◌+◌, ◌≡◌, ◌≢◌, ◌↔◌, refl, sym, ap, ◌∙◌, Text, codes, true, Option, none, some, List, [],
  ◌∷◌, ◌++◌, length, if◌then◌else◌, arith,
}
use trading_matcher.Client.{getline, has}
use trading_matcher.Client.Lines.{Lacks, getline-found, has-false}
use trading_matcher.Json.{Exception, Outcome, JsonLibrary, catching, ◌>>=◌}
use trading_matcher.Server.{Ending, read_line, prepend, process_request, answer_line, handle_client}

-- The lines as they are sent, with what comes after them.
abbrev pub sent : List Text → Text → Text
sent [] rest = rest
sent (line ∷ lines) rest = line ++ b'\n' ∷ sent lines rest

has-append : (c : ℕ) (xs ys : Text) → has c (xs ++ c ∷ ys) ≡ true
has-append c [] ys = ground arith
has-append c (x ∷ xs) ys = ground (arith, has-append c xs ys)

read_line-found :
    (line rest : Text) → Lacks b'\n' line → read_line (line ++ b'\n' ∷ rest) ≡ some (line, rest)
unfolding read_line
read_line-found line rest h =
    ap (λ b. if b then getline b'\n' (line ++ b'\n' ∷ rest) else none) (has-append b'\n' line rest)
    ∙ getline-found b'\n' line rest h

read_line-none : (text : Text) → Lacks b'\n' text → read_line text ≡ none
unfolding read_line
read_line-none text h = ap (λ b. if b then getline b'\n' text else none) (has-false b'\n' text h)

abbrev pub lines : List (Text × List Text) → List Text
lines [] = []
lines (e ∷ es) = e.0 ∷ lines es

abbrev pub answers : List (Text × List Text) → List Text
answers [] = []
answers (e ∷ es) = e.1 ++ answers es

module _ (j : JsonLibrary) (handle_order : j.Json → Outcome Text) where
  -- Each line is answered by what stands beside it.
  abbrev pub AllAnswered : List (Text × List Text) → Type 0
  AllAnswered [] = Unit
  AllAnswered (e ∷ es) =
      Lacks b'\n' e.0 × (answer_line j handle_order e.0 ≡ Outcome.returned e.1) × AllAnswered es

  one_line :
      (fuel : ℕ) (line rest : Text) (out : List Text)
      → Lacks b'\n' line
      → answer_line j handle_order line ≡ Outcome.returned out
      → handle_client j handle_order (suc fuel) (line ++ b'\n' ∷ rest)
        ≡ prepend out (handle_client j handle_order fuel rest)
  unfolding handle_client
  one_line fuel line rest out h e = rw (read_line-found line rest h, e, handle_client) refl

  prepend_append :
      (xs ys : List Text) (r : Option (List Text × Ending))
      → prepend xs (prepend ys r) ≡ prepend (xs ++ ys) r
  prepend_append xs ys none = refl
  prepend_append xs ys (some (more, ending)) =
      ap (λ l. some (l, ending)) (sym (append_assoc xs ys more))

  prepend_nil : (r : Option (List Text × Ending)) → prepend [] r ≡ r
  prepend_nil none = refl
  prepend_nil (some (more, ending)) = refl

  all_lines :
      (es : List (Text × List Text)) (fuel : ℕ) (rest : Text)
      → AllAnswered es
      → handle_client j handle_order (length es + fuel) (sent (lines es) rest)
        ≡ prepend (answers es) (handle_client j handle_order fuel rest)
  all_lines [] fuel rest v =
      ap (λ n. handle_client j handle_order n rest) {x = 0 + fuel} {y = fuel} (omega arith)
      ∙ sym (prepend_nil (handle_client j handle_order fuel rest))
  all_lines (e ∷ es) fuel rest v =
      ap (λ n. handle_client j handle_order n (e.0 ++ b'\n' ∷ sent (lines es) rest))
        {x = suc (length es) + fuel} {y = suc (length es + fuel)} (omega arith)
      ∙ one_line (length es + fuel) e.0 (sent (lines es) rest) e.1 v.0 v.1
      ∙ ap (prepend e.1) (all_lines es fuel rest v.2)
      ∙ prepend_append e.1 (answers es) (handle_client j handle_order fuel rest)

  no_line :
      (text : Text)
      → Lacks b'\n' text
      → handle_client j handle_order 1 text ≡ some ([], Ending.disconnected)
  unfolding handle_client
  no_line text h = rw (read_line-none text h, handle_client) refl

  bad_line :
      (line rest : Text) (e : Exception)
      → Lacks b'\n' line
      → answer_line j handle_order line ≡ Outcome.thrown e
      → handle_client j handle_order 1 (line ++ b'\n' ∷ rest) ≡ some ([], Ending.disconnected)
  unfolding handle_client
  bad_line line rest e h t = rw (read_line-found line rest h, t, handle_client) refl

  parse-thrown :
      (line : Text) (e : Exception)
      → line ≢ []
      → j.parse line ≡ Outcome.thrown e
      → answer_line j handle_order line ≡ Outcome.thrown e
  unfolding answer_line
  parse-thrown [] e n t = absurd (n refl)
  parse-thrown (c ∷ cs) e n t = rw (t, answer_line) refl

caught-returned :
    (handler : Text → Text) (o : Outcome Text) (e : Exception)
    → catching handler o ≢ Outcome.thrown e
caught-returned handler (Outcome.returned text) e h = absurd (cc)
caught-returned handler (Outcome.thrown f) e h = absurd (cc)
caught-returned handler Outcome.undefined e h = absurd (cc)

module _ (j : JsonLibrary) (handle_order : j.Json → Outcome Text) where
  process_request-caught :
      (request : j.Json) (e : Exception) → process_request j handle_order request ≢ Outcome.thrown e
  unfolding process_request
  process_request-caught request e h =
      caught-returned (λ what. codes "Error processing request: " ++ what) _ e h

  response-thrown :
      (o : Outcome Text) (e : Exception)
      → ((f : Exception) → o ≢ Outcome.thrown f)
      → (o >>= λ response. Outcome.returned ((response ++ b'\n' ∷ []) ∷ [])) ≢ Outcome.thrown e
  response-thrown (Outcome.returned text) e n h = absurd (cc)
  response-thrown (Outcome.thrown f) e n h = n f refl
  response-thrown Outcome.undefined e n h = absurd (cc)

-- A line that ends the connection with an exception is one that is not empty and that the parser
-- refuses: what its request throws is answered.
pub answer_line-thrown :
    (j : JsonLibrary) (handle_order : j.Json → Outcome Text) (line : Text) (e : Exception)
    → (answer_line j handle_order line ≡ Outcome.thrown e)
      ↔ ((line ≢ []) × (j.parse line ≡ Outcome.thrown e))
unfolding answer_line
answer_line-thrown j handle_order [] e = (λ h. absurd (cc), λ h. absurd (h.0 refl))
answer_line-thrown j handle_order (c ∷ cs) e = (
  λ h. ((λ q. absurd (cc)), parsed (j.parse (c ∷ cs)) h),
  λ h. parse-thrown j handle_order (c ∷ cs) e h.0 h.1,
)
  where
    parsed :
        (o : Outcome j.Json)
        → (o >>= λ request. process_request j handle_order request >>= λ response.
            Outcome.returned ((response ++ b'\n' ∷ []) ∷ []))
          ≡ Outcome.thrown e
        → o ≡ Outcome.thrown e
    parsed (Outcome.returned request) h =
        absurd
          (response-thrown j handle_order _ e (process_request-caught j handle_order request) h)
    parsed (Outcome.thrown f) h = cc
    parsed Outcome.undefined h = absurd (cc)

-- A client that sends lines which are all answered is sent the answers in order. Then it may close the
-- connection, in the middle of a line or not, or send a line that is not JSON, after which nothing
-- that follows is read: in both cases the loop ends without another answer.
pub handle_client-answers :
    (j : JsonLibrary) (handle_order : j.Json → Outcome Text) (es : List (Text × List Text))
    (last bad rest : Text) (e : Exception)
    → AllAnswered j handle_order es
    → Lacks b'\n' last
    → Lacks b'\n' bad
    → bad ≢ []
    → j.parse bad ≡ Outcome.thrown e
    → (handle_client j handle_order (length es + 1) (sent (lines es) last)
        ≡ some (answers es, Ending.disconnected))
      × (handle_client j handle_order (length es + 1) (sent (lines es) (bad ++ b'\n' ∷ rest))
          ≡ some (answers es, Ending.disconnected))
handle_client-answers j handle_order es last bad rest e v h k n t =
    let whole : some (answers es ++ [], Ending.disconnected)
        ≡ some (answers es, Ending.disconnected) =
      ap (λ l. some (l, Ending.disconnected)) (append-nil (answers es)) in
    (
      all_lines j handle_order es 1 last v
          ∙ ap (prepend (answers es)) (no_line j handle_order last h)
          ∙ whole,
      all_lines j handle_order es 1 (bad ++ b'\n' ∷ rest) v
          ∙ ap (prepend (answers es))
              (bad_line j handle_order bad rest e k (parse-thrown j handle_order bad e n t))
          ∙ whole,
    )
