-- ===== src/EpollServer/Table.antt =====
-- Which descriptors are open and watched, by the calls of a server.
use mathlib.Core.List.{append-nil, append_assoc}
use trading_matcher.Base.{
  ◌≡◌, sym, ap, ◌∙◌, subst, ℤ, eqb_ℤ, Bool, ◌||◌, true, false, List, [], ◌∷◌, ◌++◌, if◌then◌else◌,
}
use trading_matcher.Network.{Call, Reply, Os, failed, did}

-- The descriptors that `accept4` has given and that are not closed, those in the epoll set, and those
-- that `epoll_ctl` has refused to add to it.
pub record Table : Type 0 where
  pub is_open : ℤ → Bool
  pub is_watched : ℤ → Bool
  pub is_refused : ℤ → Bool

abbrev pub mark : ℤ → Bool → (ℤ → Bool) → ℤ → Bool
mark fd b f x = if eqb_ℤ fd x then b else f x

-- What a call changes, by what it was answered. A descriptor that is closed leaves the epoll set; after
-- `close` it is not open, whatever the call returns.
abbrev pub effect : Reply → Call → Table → Table
effect reply (Call.accept4 fd) t =
    if failed reply.value then t else record t { is_open = mark reply.value true t.is_open }
effect reply (Call.epoll_add epoll_fd fd) t =
    if failed reply.value then record t { is_refused = mark fd true t.is_refused } else record t {
      is_watched = mark fd true t.is_watched;
      is_refused = mark fd false t.is_refused;
    }
effect reply (Call.epoll_del epoll_fd fd) t =
    if failed reply.value then t else record t { is_watched = mark fd false t.is_watched }
effect reply (Call.close fd) t = record {
  is_open = mark fd false t.is_open;
  is_watched = mark fd false t.is_watched;
  is_refused = mark fd false t.is_refused;
}
effect reply c t = t

-- The table after more calls.
abbrev pub replay : Os → List Call → List Call → Table → Table
replay os calls [] t = t
replay os calls (c ∷ cs) t = replay os (did calls c) cs (effect (os calls c) c t)

-- Open are those in the epoll set, and those that could not be added to it.
abbrev pub IsBalanced : Table → Type 0
IsBalanced t = (fd : ℤ) → t.is_open fd ≡ (t.is_watched fd || t.is_refused fd)

-- The calls that were added leave a balanced table balanced.
pub record Keeps (os : Os) (calls calls' : List Call) : Type 0 where
  pub added : List Call
  pub grown : calls' ≡ calls ++ added
  pub balanced : (t : Table) → IsBalanced t → IsBalanced (replay os calls added t)

replay-append :
    (os : Os) (calls a b : List Call) (t : Table)
    → replay os calls (a ++ b) t ≡ replay os (calls ++ a) b (replay os calls a t)
replay-append os calls [] b t = ap (λ l. replay os l b t) (sym (append-nil calls))
replay-append os calls (c ∷ cs) b t =
    replay-append os (did calls c) cs b (effect (os calls c) c t)
    ∙ ap (λ l. replay os l b (replay os (did calls c) cs (effect (os calls c) c t)))
        (append_assoc calls (c ∷ []) cs)

-- Before the first connection.
abbrev pub no_clients : Table
no_clients = record { is_open = λ fd. false; is_watched = λ fd. false; is_refused = λ fd. false }

module _ (os : Os) where
  pub Keeps-refl : (calls : List Call) → Keeps os calls calls
  Keeps-refl calls = record { added = []; grown = sym (append-nil calls); balanced = λ t b. b }

  pub Keeps-trans : (a b c : List Call) → Keeps os a b → Keeps os b c → Keeps os a c
  Keeps-trans a b c p q = record {
    added = p.added ++ q.added;
    grown = q.grown ∙ ap (λ l. l ++ q.added) p.grown ∙ append_assoc a p.added q.added;
    balanced = λ t h.
        subst IsBalanced
          (sym (
            replay-append os a p.added q.added t
            ∙ ap (λ l. replay os l q.added (replay os a p.added t)) (sym p.grown)))
          (q.balanced (replay os a p.added t) (p.balanced t h));
  }
