-- ===== src/Server/Accept.antt =====
-- The accept loop of src/networking/server.cpp: `Server`, `acceptConnection` and its callback. A socket
-- is the number of its `make_shared`, and a client's thread ends when it likes.
use trading_matcher.Base.{
  ℕ, suc, ◌+◌, ◌<◌, ◌≤◌, ◌≡◌, refl, sym, subst, Bool, true, false, List, [], ◌∷◌, ◌++◌,
  if◌then◌else◌, arith, In, In-append, Distinct, Distinct-push, without, In-without,
  Distinct-without, length, length-append,
}

-- `waiting` has the sockets with an `async_accept` outstanding, and `serving` those that a thread of
-- `handleClient` holds. `greetings` counts the lines "New client connected!".
pub record Acceptor : Type 0 where
  pub sockets : ℕ
  pub waiting : List ℕ
  pub serving : List ℕ
  pub greetings : ℕ

-- `acceptConnection`
unfoldable pub accept_connection : Acceptor → Acceptor
accept_connection s = record s { sockets = s.sockets + 1; waiting = s.waiting ++ s.sockets ∷ [] }

-- `Server(io_context, port)`
unfoldable pub new_server : Acceptor
unfolding accept_connection
new_server = accept_connection (record { sockets = 0; waiting = []; serving = []; greetings = 0 })

-- The callback of the `async_accept` on `socket`; `ec` says whether there was an error.
unfoldable pub accepted : ℕ → Bool → Acceptor → Acceptor
accepted socket ec s =
    let done = record s { waiting = without socket s.waiting } in
    accept_connection (
      if ec
      then done
      else record done { serving = done.serving ++ socket ∷ []; greetings = done.greetings + 1 })

pub data Step (s t : Acceptor) : Type 0 where
  accepts : (socket : ℕ) (ec : Bool) → In socket s.waiting → t ≡ accepted socket ec s → Step s t
  leaves : (socket : ℕ) → t ≡ record s { serving = without socket s.serving } → Step s t

pub data Reach : Acceptor → Type 0 where
  here : Reach new_server
  later : {s t : Acceptor} → Reach s → Step s t → Reach t

-- One accept is outstanding, on the last socket made; the sockets of the threads are earlier ones, and
-- no two threads have the same.
pub record IsListening (s : Acceptor) : Type 0 where
  pub last : ℕ
  pub made : s.sockets ≡ suc last
  pub one : s.waiting ≡ last ∷ []
  pub earlier : (socket : ℕ) → In socket s.serving → socket < last
  pub distinct : Distinct s.serving
  pub greeted : length s.serving ≤ s.greetings

length-without_le : (a : ℕ) (xs : List ℕ) → length (without a xs) ≤ length xs
length-without_le a [] = omega arith
length-without_le a (x ∷ xs) = ground (arith, length-without_le a xs)

new_server-IsListening : IsListening new_server
unfolding new_server accept_connection
new_server-IsListening = record {
  last = 0;
  made = refl;
  one = refl;
  earlier = λ socket i. absurd i;
  distinct = tt;
  greeted = omega arith;
}

own : (socket : ℕ) (s : Acceptor) → In socket s.waiting → (v : IsListening s) → socket ≡ v.last
own socket s i v = ground (arith, i, v.one, subst (In socket) v.one i)

rearmed :
    (socket : ℕ) (s : Acceptor)
    → In socket s.waiting
    → IsListening s
    → without socket s.waiting ++ s.sockets ∷ [] ≡ s.sockets ∷ []
rearmed socket s i v = rw (v.one, own socket s i v) (ground arith)

accepted-IsListening :
    (socket : ℕ) (ec : Bool) (s : Acceptor)
    → In socket s.waiting
    → IsListening s
    → IsListening (accepted socket ec s)
unfolding accepted accept_connection
accepted-IsListening socket true s i v = record {
  last = s.sockets;
  made = omega arith;
  one = rearmed socket s i v;
  earlier = λ q j. omega (arith, v.earlier q j, v.made);
  distinct = v.distinct;
  greeted = v.greeted;
}
accepted-IsListening socket false s i v = record {
  last = s.sockets;
  made = omega arith;
  one = rearmed socket s i v;
  earlier = λ q j.
      ground (arith, In-append q s.serving (socket ∷ []) j, v.earlier q, v.made, own socket s i v);
  distinct =
      Distinct-push socket s.serving v.distinct
        (λ j. omega (arith, v.earlier socket j, own socket s i v));
  greeted = omega (arith, v.greeted, length-append s.serving (socket ∷ []));
}

Step-IsListening : (s t : Acceptor) → IsListening s → Step s t → IsListening t
Step-IsListening s t v (Step.accepts socket ec i e) =
    subst IsListening (sym e) (accepted-IsListening socket ec s i v)
Step-IsListening s t v (Step.leaves socket e) = subst IsListening (sym e) (record {
  last = v.last;
  made = v.made;
  one = v.one;
  earlier = λ q i. v.earlier q (In-without q socket s.serving i).0;
  distinct = Distinct-without socket s.serving v.distinct;
  greeted = omega (arith, length-without_le socket s.serving, v.greeted);
})

-- Whatever accepts end, with an error or without, and whenever clients leave: exactly one
-- `async_accept` is outstanding, on the last socket made; no two threads serve one socket, none
-- serves the one that waits, and each has been greeted.
pub Reach-IsListening : (s : Acceptor) → Reach s → IsListening s
Reach-IsListening s Reach.here = new_server-IsListening
Reach-IsListening s (Reach.later r step) = Step-IsListening _ s (Reach-IsListening _ r) step
