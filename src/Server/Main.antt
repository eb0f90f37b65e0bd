-- ===== src/Server/Main.antt =====
-- `main` of src/networking/Server_main.cpp. `atoi` and the acceptor of Boost.Asio, which may throw, are
-- parameters; so is how `io_context.run()` ends, if it does, since the accept loop never does.
use trading_matcher.Base.{
  ℕ, ◌-◌, ◌%◌, ◌^◌, ◌≡◌, ◌≢◌, ◌⊎◌, inl, inr, refl, ltb, ℤ, pos, negsuc, List, [], ◌∷◌, Text,
  if◌then◌else◌, arith, length,
}
use trading_matcher.Json.{Outcome, Exception, what}
use trading_matcher.Server.Accept.{Acceptor, new_server}

-- What `main` does: it returns, or it serves on a port.
pub data Run : Type 0 where
  usage : (code : ℕ) → Run
  failed : (what : Text) (code : ℕ) → Run
  serves : (port : ℕ) (server : Acceptor) → Run
  lost : Run

-- The conversion of an `int` to `short`, and that of a `short` to the `unsigned short` of an endpoint.
unfoldable pub to_short : ℤ → ℤ
to_short (pos n) = let m = n % 2 ^ 16 in if ltb m (2 ^ 15) then pos m else negsuc (2 ^ 16 - 1 - m)
to_short (negsuc n) =
    let m = n % 2 ^ 16 in if ltb m (2 ^ 15) then negsuc m else pos (2 ^ 16 - 1 - m)

unfoldable pub to_port : ℤ → ℕ
to_port (pos n) = n % 2 ^ 16
to_port (negsuc n) = 2 ^ 16 - 1 - n % 2 ^ 16

module _ (atoi : Text → ℤ) (listen : ℕ → Outcome (Unit {0})) where
  abbrev pub serve : ℕ → Outcome (Unit {0}) → Run
  serve port (Outcome.returned u) = Run.serves port new_server
  serve port (Outcome.thrown exception) = Run.failed (what exception) 0
  serve port Outcome.undefined = Run.lost

  -- `argv` has the arguments, the name of the program first.
  unfoldable pub server_main : List Text → Run
  server_main [] = Run.usage 1
  server_main (name ∷ []) = Run.usage 1
  server_main (name ∷ port ∷ []) =
      let number = to_port (to_short (atoi port)) in serve number (listen number)
  server_main (name ∷ port ∷ extra ∷ more) = Run.usage 1

-- The value of an integer modulo 2^16.
abbrev pub residue : ℤ → ℕ
residue (pos n) = n % 2 ^ 16
residue (negsuc n) = 2 ^ 16 - 1 - n % 2 ^ 16

to_port_of_short : (z : ℤ) → to_port (to_short z) ≡ residue z
unfolding to_short to_port
to_port_of_short (pos n) = ground arith
to_port_of_short (negsuc n) = ground arith

Outcome-cases :
    (o : Outcome (Unit {0}))
    → (o ≡ Outcome.returned tt)
      ⊎ (((e : Exception) × (o ≡ Outcome.thrown e)) ⊎ (o ≡ Outcome.undefined))
Outcome-cases (Outcome.returned tt) = inl refl
Outcome-cases (Outcome.thrown e) = inr (inl (e, refl))
Outcome-cases Outcome.undefined = inr (inr refl)

serve_cases :
    (atoi : Text → ℤ) (listen : ℕ → Outcome (Unit {0})) (port : ℕ)
    → ((listen port ≡ Outcome.returned tt)
        × (serve atoi listen port (listen port) ≡ Run.serves port new_server))
      ⊎ (((e : Exception) × (listen port ≡ Outcome.thrown e)
            × (serve atoi listen port (listen port) ≡ Run.failed (what e) 0))
          ⊎ ((listen port ≡ Outcome.undefined) × (serve atoi listen port (listen port) ≡ Run.lost)))
serve_cases atoi listen port = elim (Outcome-cases (listen port)) [
  | inl e ↦ inl (e, rw e refl)
  | inr (inl (x, e)) ↦ inr (inl (x, e, rw e refl))
  | inr (inr e) ↦ inr (inr (e, rw e refl))
]

-- With one argument, `main` of the server listens on the number that `atoi` reads, modulo 2^16: the
-- `short` between them keeps every port from 0 to 65535, and a number outside that range is taken for
-- another port. If the acceptor throws, `main` returns 0; with another count of arguments it returns 1.
pub server_main-port :
    (atoi : Text → ℤ) (listen : ℕ → Outcome (Unit {0})) (argv : List Text)
    → ((length argv ≢ 2) × (server_main atoi listen argv ≡ Run.usage 1))
      ⊎ ((name : Text) × (text : Text) × (argv ≡ name ∷ text ∷ [])
          × (((listen (residue (atoi text)) ≡ Outcome.returned tt)
                × (server_main atoi listen argv ≡ Run.serves (residue (atoi text)) new_server))
              ⊎ (((e : Exception) × (listen (residue (atoi text)) ≡ Outcome.thrown e)
                    × (server_main atoi listen argv ≡ Run.failed (what e) 0))
                  ⊎ ((listen (residue (atoi text)) ≡ Outcome.undefined)
                      × (server_main atoi listen argv ≡ Run.lost)))))
unfolding server_main
server_main-port atoi listen [] = inl (λ e. omega (arith, e), refl)
server_main-port atoi listen (name ∷ []) = inl (λ e. omega (arith, e), refl)
server_main-port atoi listen (name ∷ text ∷ extra ∷ more) = inl (λ e. omega (arith, e), refl)
server_main-port atoi listen (name ∷ text ∷ []) = inr (
  name,
  text,
  refl,
  rw (to_port_of_short (atoi text)) (serve_cases atoi listen (residue (atoi text))),
)
