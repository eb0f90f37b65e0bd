-- ===== src/Client/Main.antt =====
-- `main` of src/networking/Client_main.cpp. The text of the order request, which the JSON library makes
-- of the symbol, is a parameter.
use trading_matcher.Base.{
  ap, ◌∙◌, false, refl, true, Bool-cases, ℕ, zero, suc, ◌<◌, ◌≡◌, ◌⊎◌, ◌↔◌, ◌≢◌, inl, inr, ltb,
  Option, none, some, List, [], ◌∷◌, ◌++◌, map, Text, codes, if◌then◌else◌, arith, length,
  Option-cases,
}
use trading_matcher.Json.{Exception}
use trading_matcher.Client.{
  Environment, Curl, Message, fetch_market_data, send_request_to_server, transfer, request_options,
  not_started,
}

-- What goes to the standard streams: the usage, what a call of the client prints, and a line.
pub data Shown : Type 0 where
  usage : Shown
  by_client : (message : Message) → Shown
  line : (text : Text) → Shown

-- How it ends: `std::terminate` is called on an exception that leaves `main`, and a `std::string` made
-- of a null pointer has no defined behaviour.
pub data End : Type 0 where
  returned : (code : ℕ) → End
  terminated : (exception : Exception) → End
  undefined : End

-- `argv[i]`, with `none` for the null pointer at its end.
abbrev pub argument : List Text → ℕ → Option Text
argument [] i = none
argument (text ∷ rest) zero = some text
argument (text ∷ rest) (suc i) = argument rest i

-- From the return of `sendRequestToServer`, or its exception, on; what is already written is `before`.
abbrev pub respond : List Shown → (Text × List Message) ⊎ Exception → List Shown × End
respond before (inl (response, printed)) = (
  before ++ map Shown.by_client printed ++ Shown.line (codes "Server response: " ++ response) ∷ [],
  End.returned 0,
)
respond before (inr exception) = (before, End.terminated exception)

-- What is written down to the call of `sendRequestToServer`.
abbrev pub shown_before : Curl → Text → Text → List Shown
shown_before curl symbol key =
    let (market_data, printed) = fetch_market_data curl key symbol in
    map Shown.by_client printed ++ Shown.line (codes "Fetched Market Data: " ++ market_data) ∷ []

module _ (env : Environment) (curl : Curl) (order_request : Text → Text ⊎ Exception) where
  -- From `fetchMarketData` on.
  abbrev pub talk : Text → Text → Text → List Shown × End
  talk server symbol key =
      respond (shown_before curl symbol key)
        (send_request_to_server curl server (order_request symbol))

  unfoldable pub client_main : List Text → List Shown × End
  client_main argv =
      if ltb (length argv) 2 then (Shown.usage ∷ [], End.returned 1) else (elim (argument argv 1) [
        | none ↦ ([], End.undefined)
        | some server ↦ elim (argument argv 2) [
          | none ↦ ([], End.undefined)
          | some symbol ↦ elim (env (codes "API_KEY")) [
            | none ↦ ([], End.undefined)
            | some key ↦ talk server symbol key
          ]
        ]
      ])

-- libcurl starts, and the text of the request cannot be made of `argv[2]`.
abbrev pub CannotDump : Curl → (Text → Text ⊎ Exception) → List Text → Exception → Type 0
CannotDump curl order_request argv exception =
    (symbol : Text) × (argument argv 2 ≡ some symbol)
    × (curl.starts ≡ true)
    × (order_request symbol ≡ inr exception)

some-injective : {s t : Text} → some s ≡ some t → s ≡ t
some-injective e = cc

dump_of :
    (curl : Curl) (order_request : Text → Text ⊎ Exception) (a b c : Text) (more : List Text)
    (x : Exception)
    → CannotDump curl order_request (a ∷ b ∷ c ∷ more) x
    → (curl.starts ≡ true) × (order_request c ≡ inr x)
dump_of curl order_request a b c more x (symbol, same, on, d) =
    (on, ap order_request (some-injective same) ∙ d)

send_cases :
    (curl : Curl) (server : Text) (dumped : Text ⊎ Exception)
    → ((sent : Text × List Message) × (send_request_to_server curl server dumped ≡ inl sent)
        × ((e : Exception) → curl.starts ≡ true → dumped ≢ inr e))
      ⊎ ((e : Exception) × (send_request_to_server curl server dumped ≡ inr e)
          × (curl.starts ≡ true)
          × (dumped ≡ inr e))
unfolding send_request_to_server
send_cases curl server (inl text) = elim (Bool-cases curl.starts) [
  | inl on ↦ inl (transfer curl (request_options server text), simp on refl, λ e s h. cc)
  | inr off ↦ inl (not_started, simp off refl, λ e s h. cc)
]
send_cases curl server (inr why) = elim (Bool-cases curl.starts) [
  | inl on ↦ inr (why, simp on refl, on, refl)
  | inr off ↦ inl (not_started, simp off refl, λ e s h. cc)
]

-- With more than two arguments and the key, only the sending decides the end.
client_main-talk :
    (env : Environment) (curl : Curl) (order_request : Text → Text ⊎ Exception) (a b c key : Text)
    (more : List Text)
    → env (codes "API_KEY") ≡ some key
    → client_main env curl order_request (a ∷ b ∷ c ∷ more) ≡ talk env curl order_request b c key
unfolding client_main
client_main-talk env curl order_request a b c key more e =
    let long : ltb (length (a ∷ b ∷ c ∷ more)) 2 ≡ false = ground arith in simp (long, e) refl

-- `main` of the client returns 1 exactly with fewer than two arguments in `argv`; it is undefined
-- exactly with two, since the test asks for two but `argv[2]` is used, and with more if API_KEY is
-- not set; with more and the key, it ends by an exception exactly if libcurl starts and `dump()` of
-- the request throws it; and in all other cases it returns 0, also if the transfers fail.
pub client_main-End :
    (env : Environment) (curl : Curl) (order_request : Text → Text ⊎ Exception) (argv : List Text)
    → let end = (client_main env curl order_request argv).1 in
      let key = env (codes "API_KEY") in
      ((end ≡ End.returned 1) ↔ (length argv < 2))
      × ((end ≡ End.undefined) ↔ ((length argv ≡ 2) ⊎ ((2 < length argv) × (key ≡ none))))
      × ((e : Exception)
          → (end ≡ End.terminated e)
            ↔ ((2 < length argv) × (key ≢ none) × CannotDump curl order_request argv e))
      × ((end ≡ End.returned 0) ↔ (
          (2 < length argv)
          × (key ≢ none)
          × (¬ ((e : Exception) × CannotDump curl order_request argv e))))
unfolding client_main
client_main-End env curl order_request [] = ground arith
client_main-End env curl order_request (a ∷ []) = ground arith
client_main-End env curl order_request (a ∷ b ∷ []) = ground arith
client_main-End env curl order_request (a ∷ b ∷ c ∷ more) =
    elim (Option-cases (env (codes "API_KEY"))) [
      | inl e ↦ rw e (ground arith)
      | inr (key, e) ↦
          let all = ap (λ x. x.1) (client_main-talk env curl order_request a b c key more e) in
          let before = shown_before curl c key in
          elim (send_cases curl b (order_request c)) [
            | inl (sent, z, never) ↦ rw (all ∙ ap (λ x. (respond before x).1) z) (
              ground arith,
              ground (arith, e),
              λ x. (
                (λ q. cc),
                λ q.
                    let d = dump_of curl order_request a b c more x q.2 in absurd (never x d.0 d.1),
              ),
              (
                (λ q. (
                  omega arith,
                  (λ w. cc),
                  λ p. let d = dump_of curl order_request a b c more p.0 p.1 in never p.0 d.0 d.1,
                )),
                λ q. refl,
              ),
            )
            | inr (why, z, on, d) ↦ rw (all ∙ ap (λ x. (respond before x).1) z) (
              ground arith,
              ground (arith, e),
              λ x. (
                (λ q. (omega arith, (λ w. cc), (c, refl, on, d ∙ ap inr (cc)))),
                λ q. let f = dump_of curl order_request a b c more x q.2 in ap End.terminated (cc),
              ),
              ((λ q. cc), λ q. absurd (q.2 (why, (c, refl, on, d)))),
            )
          ]
    ]
