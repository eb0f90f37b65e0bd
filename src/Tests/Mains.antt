-- ===== src/Tests/Mains.antt =====
-- The two programs of src/networking, and the accept loop.
use trading_matcher.Base.{
  ℕ, ℤ, ◌≡◌, ◌≢◌, ◌⊎◌, ◌↔◌, ◌<◌, some, inr, refl, inl, pos, true, false, none, List, [], ◌∷◌, ◌==◌,
  if◌then◌else◌, Text, codes, length,
}
use trading_matcher.Json.{Outcome, Exception, what}
use trading_matcher.Client.{Environment, Curl, send_request_to_server}
use trading_matcher.Client.Main.{End, CannotDump, client_main, client_main-End}
use trading_matcher.Server.Accept.{
  Acceptor, accept_connection, new_server, accepted, Reach, Step, IsListening, Reach-IsListening,
}
use trading_matcher.Server.Main.{Run, server_main, residue, to_short, to_port, server_main-port}

-- The first accept succeeds, and the second fails.
abbrev after_two : Acceptor
after_two = accepted 1 true (accepted 0 false new_server)

after_two-Reach : Reach after_two
unfolding new_server accept_connection accepted
after_two-Reach =
    Reach.later (Reach.later Reach.here (Step.accepts 0 false (inl refl) refl))
      (Step.accepts 1 true (inl refl) refl)

Reach-IsListening_example : IsListening after_two
Reach-IsListening_example = Reach-IsListening after_two after_two-Reach

after_two_run :
    (after_two.waiting ≡ 2 ∷ []) × (after_two.serving ≡ 0 ∷ []) × (after_two.greetings ≡ 1)
unfolding new_server accept_connection accepted
after_two_run = (refl, refl, refl)

-- The port is the first byte of the text.
abbrev atoi : Text → ℤ
atoi [] = pos 0
atoi (c ∷ cs) = pos c

abbrev listen : ℕ → Outcome (Unit {0})
listen port =
    if port == 80 then Outcome.thrown (Exception.other (codes "in use")) else Outcome.returned tt

abbrev arguments : List Text
arguments = codes "server" ∷ (70000 ∷ []) ∷ []

server_main-port_example :
    ((length arguments ≢ 2) × (server_main atoi listen arguments ≡ Run.usage 1))
    ⊎ ((name : Text) × (text : Text) × (arguments ≡ name ∷ text ∷ [])
        × (((listen (residue (atoi text)) ≡ Outcome.returned tt)
              × (server_main atoi listen arguments ≡ Run.serves (residue (atoi text)) new_server))
            ⊎ (((e : Exception) × (listen (residue (atoi text)) ≡ Outcome.thrown e)
                  × (server_main atoi listen arguments ≡ Run.failed (what e) 0))
                ⊎ ((listen (residue (atoi text)) ≡ Outcome.undefined)
                    × (server_main atoi listen arguments ≡ Run.lost)))))
server_main-port_example = server_main-port atoi listen arguments

-- 70000 is taken for 4464.
server_run : server_main atoi listen arguments ≡ Run.serves 4464 new_server
unfolding server_main to_short to_port
server_run = refl

abbrev curl : Curl
curl = record { starts = true; perform = λ options. record { pieces = codes "{}" ∷ []; ok = true } }

abbrev env : Environment
env name = some (codes "k")

-- The JSON library refuses text that is not UTF-8.
abbrev request : Text → Text ⊎ Exception
request [] = inl []
request (c ∷ cs) = if c == 255 then inr (Exception.other (codes "utf8")) else inl (c ∷ cs)

abbrev three : List Text
three = codes "client" ∷ codes "localhost" ∷ (255 ∷ []) ∷ []

client_main-End_example :
    let end = (client_main env curl request three).1 in
    let key = env (codes "API_KEY") in
    ((end ≡ End.returned 1) ↔ (length three < 2))
    × ((end ≡ End.undefined) ↔ ((length three ≡ 2) ⊎ ((2 < length three) × (key ≡ none))))
    × ((e : Exception)
        → (end ≡ End.terminated e)
          ↔ ((2 < length three) × (key ≢ none) × CannotDump curl request three e))
    × ((end ≡ End.returned 0) ↔ (
        (2 < length three)
        × (key ≢ none)
        × (¬ ((e : Exception) × CannotDump curl request three e))))
client_main-End_example = client_main-End env curl request three

client_run :
    (client_main env curl request (codes "client" ∷ codes "localhost" ∷ []) ≡ ([], End.undefined))
    × ((client_main env curl request three).1 ≡ End.terminated (Exception.other (codes "utf8")))
    × ((client_main env curl request (codes "client" ∷ codes "localhost" ∷ codes "IBM" ∷ [])).1
        ≡ End.returned 0)
unfolding client_main send_request_to_server
client_run = (refl, refl, refl)
