-- ===== src/Client/Lines.antt =====
-- `getline` and one line of the environment file.
use trading_matcher.Base.{
  ℕ, ◌≤◌, ◌<◌, if◌then◌else◌, ◌≡◌, ◌≢◌, refl, ap, ap₂, ◌∙◌, false, ◌||◌, some, [], ◌∷◌, ◌++◌,
  length, Text, arith,
}
use trading_matcher.Client.{
  split, getline, c_str, Environment, has, is_nil, assign, setenv, store_value, store_line,
  load_line,
}

-- The byte does not occur.
abbrev pub Lacks : ℕ → Text → Type 0
Lacks c [] = Unit
Lacks c (d ∷ ds) = (d ≢ c) × Lacks c ds

pub Lacks-has : (c : ℕ) (xs : Text) → has c xs ≡ false → Lacks c xs
Lacks-has c [] e = tt
Lacks-has c (x ∷ xs) e = ground (arith, Lacks-has c xs)

pub Lacks-append : (c : ℕ) (xs ys : Text) → Lacks c xs → Lacks c ys → Lacks c (xs ++ ys)
Lacks-append c [] ys h k = k
Lacks-append c (x ∷ xs) ys h k = (h.0, Lacks-append c xs ys h.1 k)

pub split-found : (d : ℕ) (xs ys : Text) → Lacks d xs → split d (xs ++ d ∷ ys) ≡ (xs, ys)
split-found d [] ys h = ground arith
split-found d (x ∷ xs) ys h = ground (arith, split-found d xs ys h.1)

pub split-whole : (d : ℕ) (xs : Text) → Lacks d xs → split d xs ≡ (xs, [])
split-whole d [] h = refl
split-whole d (x ∷ xs) h = ground (arith, split-whole d xs h.1)

pub getline-found : (d : ℕ) (xs ys : Text) → Lacks d xs → getline d (xs ++ d ∷ ys) ≡ some (xs, ys)
unfolding getline
getline-found d [] ys h = ap some (split-found d [] ys h)
getline-found d (x ∷ xs) ys h = ap some (split-found d (x ∷ xs) ys h)

pub getline-whole : (d : ℕ) (xs : Text) → Lacks d xs → xs ≢ [] → getline d xs ≡ some (xs, [])
unfolding getline
getline-whole d [] h n = absurd (n refl)
getline-whole d (x ∷ xs) h n = ap some (split-whole d (x ∷ xs) h)

-- What is left after a line is shorter.
length-split : (d : ℕ) (xs : Text) → length (split d xs).1 ≤ length xs
length-split d [] = omega arith
length-split d (x ∷ xs) = ground (arith, length-split d xs)

pub length-getline :
    (d : ℕ) (xs line rest : Text) → getline d xs ≡ some (line, rest) → length rest < length xs
unfolding getline
length-getline d [] line rest e = cc
length-getline d (x ∷ xs) line rest e = ground (arith, length-split d xs)

pub c_str-whole : (xs : Text) → Lacks 0 xs → c_str xs ≡ xs
c_str-whole [] h = refl
c_str-whole (x ∷ xs) h = ground (arith, c_str-whole xs h.1)

pub has-false : (c : ℕ) (xs : Text) → Lacks c xs → has c xs ≡ false
has-false c [] h = refl
has-false c (x ∷ xs) h = ground (arith, has-false c xs h.1)

store_value_lem :
    (env : Environment) (key value : Text)
    → Lacks b'=' key
    → Lacks 0 key
    → Lacks 0 value
    → Lacks b'\n' value
    → store_value env key (getline b'\n' value)
      ≡ (if is_nil value || is_nil key then env else assign key value env)
unfolding getline
store_value_lem env key [] e z z' n = refl
store_value_lem env key (c ∷ cs) e z z' n =
    ap (store_value env key) (getline-whole b'\n' (c ∷ cs) n cc)
    ∙ ap₂ (λ k v. setenv k v env) (c_str-whole key z) (c_str-whole (c ∷ cs) z')
    ∙ ap (λ b. if is_nil key || b then env else assign key (c ∷ cs) env) (has-false b'=' key e)
    ∙ ap (λ b. if b then env else assign key (c ∷ cs) env) (ground arith)

-- On lines without NUL bytes: a line without `=`, one with nothing after its first `=`, and one with
-- nothing before it change no variable; so no variable can be set to the empty text. Any other line
-- sets the variable named before its first `=` to what stands after it.
pub load_line_lem :
    (env : Environment) (key value : Text)
    → Lacks b'=' key
    → Lacks 0 key
    → Lacks 0 value
    → Lacks b'\n' value
    → (load_line env key ≡ env)
      × (load_line env (key ++ b'=' ∷ value)
          ≡ (if is_nil value || is_nil key then env else assign key value env))
unfolding load_line getline
load_line_lem env key value e z z' n = (
  no_delimiter key e,
  ap (store_line env) (getline-found b'=' key value e) ∙ store_value_lem env key value e z z' n,
)
  where
    no_delimiter : (key : Text) → Lacks b'=' key → load_line env key ≡ env
    no_delimiter [] e = refl
    no_delimiter (c ∷ cs) e = ap (store_line env) (getline-whole b'=' (c ∷ cs) e cc)
