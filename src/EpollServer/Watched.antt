-- ===== src/EpollServer/Watched.antt =====
-- The calls of the event loop leave no descriptor open and unwatched, but one that could not be added.
use mathlib.Core.List.{append_assoc}
use trading_matcher.Base.{
  ℕ, zero, suc, ◌≡◌, refl, ◌∙◌, subst, ℤ, eqb_ℤ, negsuc, inl, inr, Bool, Bool-cases, true, false,
  Option, Option-cases, some, List, [], ◌∷◌, ◌++◌, arith,
}
use trading_matcher.Network.{SocketOption, Call, Os, failed, did}
use trading_matcher.EpollServer.Setup.{handle_client_data_lem}
use trading_matcher.EpollServer.{
  EpollServer, accept_one, handle_new_connection, handle_client_data, handle_events, run_round, run,
}
use trading_matcher.EpollServer.Table.{
  replay, IsBalanced, Keeps, Keeps-refl, Keeps-trans, no_clients,
}

some-injective : {x y : List Call} → some x ≡ some y → x ≡ y
some-injective e = cc

some-first :
    {x y : List Call} {a b : Bool}
    → ◌≡◌ {A = Option (List Call × Bool)} (some (x, a)) (some (y, b))
    → x ≡ y
some-first e = cc

module _ (os : Os) (server : EpollServer) where
  accept_one-Keeps : (calls : List Call) → Keeps os calls (accept_one os server calls).0
  unfolding accept_one
  accept_one-Keeps calls =
      let asked = Call.accept4 server.listen_fd in
      let fd = (os calls asked).value in
      elim (Bool-cases (failed fd)) [
        | inl e ↦ rw e (record {
          added = asked ∷ [];
          grown = refl;
          balanced = λ t h x. ground (arith, e, h x);
        })
        | inr e ↦ rw e (record {
          added =
              asked
              ∷ Call.setsockopt fd SocketOption.no_delay 1
              ∷ Call.epoll_add server.epoll_fd fd
              ∷ [];
          grown =
              append_assoc (did calls asked) (Call.setsockopt fd SocketOption.no_delay 1 ∷ []) _
              ∙ append_assoc calls (asked ∷ []) _;
          balanced = λ t h x. ground (arith, e, h x);
        })
      ]

  handle_client_data-Keeps :
      (fd : ℤ) (calls : List Call) → Keeps os calls (handle_client_data os server fd calls)
  handle_client_data-Keeps fd calls =
      let ask = Call.read fd 4095 in
      elim (handle_client_data_lem os server fd calls) [
        | inl (more, e) ↦ record {
          added = ask ∷ Call.handler fd (os calls ask).bytes (os calls ask).value ∷ [];
          grown = e ∙ append_assoc calls (ask ∷ []) _;
          balanced = λ t h x. h x;
        }
        | inr (inl (less, again, e)) ↦ record {
          added = ask ∷ [];
          grown = e;
          balanced = λ t h x. h x;
        }
        | inr (inr (ended, e)) ↦ record {
          added = ask ∷ Call.epoll_del server.epoll_fd fd ∷ Call.close fd ∷ [];
          grown =
              e
              ∙ append_assoc (did calls ask) (Call.epoll_del server.epoll_fd fd ∷ []) _
              ∙ append_assoc calls (ask ∷ []) _;
          balanced = λ t h x. ground (arith, h x);
        }
      ]

  handle_new_connection-Keeps :
      (fuel : ℕ) (calls calls' : List Call)
      → handle_new_connection fuel os server calls ≡ some calls'
      → Keeps os calls calls'
  unfolding handle_new_connection
  handle_new_connection-Keeps zero calls calls' e = absurd (cc)
  handle_new_connection-Keeps (suc fuel) calls calls' e =
      let (next, more) = accept_one os server calls in
      elim (Bool-cases (accept_one os server calls).1) [
        | inl m ↦
            Keeps-trans os calls (accept_one os server calls).0 calls' (accept_one-Keeps calls) (
              handle_new_connection-Keeps fuel (accept_one os server calls).0 calls'
                (rw (m, handle_new_connection) at e))
        | inr m ↦
            subst (Keeps os calls) (some-injective (rw (m, handle_new_connection) at e))
              (accept_one-Keeps calls)
      ]

  handle_events-Keeps :
      (fuel : ℕ) (fds : List ℤ) (calls calls' : List Call)
      → handle_events fuel os server fds calls ≡ some calls'
      → Keeps os calls calls'
  unfolding handle_events
  handle_events-Keeps fuel [] calls calls' e =
      subst (Keeps os calls) (some-injective e) (Keeps-refl os calls)
  handle_events-Keeps fuel (fd ∷ fds) calls calls' e =
      elim (Bool-cases (eqb_ℤ fd server.listen_fd)) [
        | inl m ↦
            let f = rw (m, handle_events) at e in
            elim (Option-cases (handle_new_connection fuel os server calls)) [
              | inl n ↦ let g = rw n at f in absurd (cc)
              | inr (next, n) ↦
                  Keeps-trans os calls next calls' (handle_new_connection-Keeps fuel calls next n)
                    (handle_events-Keeps fuel fds next calls' (rw n at f))
            ]
        | inr m ↦
            let next = handle_client_data os server fd calls in
            Keeps-trans os calls next calls' (handle_client_data-Keeps fd calls)
              (handle_events-Keeps fuel fds next calls' (rw (m, handle_events) at e))
      ]

  -- A call that changes no table.
  wait-Keeps :
      (calls : List Call) (timeout_ms : ℤ)
      → Keeps os calls (did calls (Call.epoll_wait server.epoll_fd timeout_ms))
  wait-Keeps calls timeout_ms = record {
    added = Call.epoll_wait server.epoll_fd timeout_ms ∷ [];
    grown = refl;
    balanced = λ t h. h;
  }

  run_round-Keeps :
      (fuel : ℕ) (calls calls' : List Call) (more : Bool)
      → run_round fuel os server calls ≡ some (calls', more)
      → Keeps os calls calls'
  unfolding run_round
  run_round-Keeps fuel calls calls' more e =
      let wait = Call.epoll_wait server.epoll_fd (negsuc 0) in
      let asked = did calls wait in
      elim (Bool-cases (failed (os calls wait).value)) [
        | inl f ↦
            subst (Keeps os calls) (some-first (rw (f, run_round) at e))
              (wait-Keeps calls (negsuc 0))
        | inr f ↦
            let g = rw (f, run_round) at e in
            elim (Option-cases (handle_events fuel os server (os calls wait).ready asked)) [
              | inl n ↦ let h = rw n at g in absurd (cc)
              | inr (next, n) ↦ Keeps-trans os calls asked calls' (wait-Keeps calls (negsuc 0)) (
                  subst (Keeps os asked) (some-first (rw n at g))
                    (handle_events-Keeps fuel (os calls wait).ready asked next n))
            ]
      ]

  run-Keeps :
      (rounds fuel : ℕ) (calls calls' : List Call) (more : Bool)
      → run rounds fuel os server calls ≡ some (calls', more)
      → Keeps os calls calls'
  unfolding run
  run-Keeps zero fuel calls calls' more e =
      subst (Keeps os calls) (some-first e) (Keeps-refl os calls)
  run-Keeps (suc rounds) fuel calls calls' more e =
      elim (Option-cases (run_round fuel os server calls)) [
        | inl n ↦ let f = rw (n, run) at e in absurd (cc)
        | inr ((next, true), n) ↦
            let f = rw (n, run) at e in
            Keeps-trans os calls next calls' (run_round-Keeps fuel calls next true n)
              (run-Keeps rounds fuel next calls' more f)
        | inr ((next, false), n) ↦
            let f = rw (n, run) at e in
            subst (Keeps os calls) (some-first f) (run_round-Keeps fuel calls next false n)
      ]

-- However many rounds `run` has made, whatever the system has answered: each descriptor that `accept4`
-- has given since it began is open, so not closed since, exactly if it is in the epoll set or `epoll_ctl`
-- has refused to add it. An open one is unwatched only if it was refused, which the code does not look
-- at, and none is watched after it was closed.
pub run-IsBalanced :
    (rounds fuel : ℕ) (os : Os) (server : EpollServer) (calls calls' : List Call) (more : Bool)
    → run rounds fuel os server calls ≡ some (calls', more)
    → (added : List Call) × (calls' ≡ calls ++ added)
      × IsBalanced (replay os calls added no_clients)
run-IsBalanced rounds fuel os server calls calls' more e =
    let k = run-Keeps os server rounds fuel calls calls' more e in
    (k.added, k.grown, k.balanced no_clients (λ fd. refl))
