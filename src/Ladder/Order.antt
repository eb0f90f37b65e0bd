-- ===== src/Ladder/Order.antt =====
-- The key order is kept by writes and erasures, and `first` and `last` are at its ends.
use trading_matcher.Base.{ℤ, eqb_ℤ_iff, ◌<ℤ◌, ◌≤ℤ◌, some, [], ◌∷◌, ◌≡◌, refl, arith}
use trading_matcher.Ladder.{Ladder, find, put, erase, first, last, Above, IsSorted}

module _ {ℓ} {V : Type ℓ} where
  pub Above-trans : (j k : ℤ) (m : Ladder V) → j <ℤ k → Above k m → Above j m
  Above-trans j k [] h a = tt
  Above-trans j k ((i, w) ∷ m) h a = ground arith

  pub IsSorted-tail : (k : ℤ) (m : Ladder V) → Above k m → IsSorted m
  IsSorted-tail k [] a = tt
  IsSorted-tail k ((i, w) ∷ m) a = a.1

  Above-put : (j k : ℤ) (v : V) (m : Ladder V) → j <ℤ k → Above j m → Above j (put k v m)
  unfolding put
  Above-put j k v [] h a = (h, tt)
  Above-put j k v ((i, w) ∷ m) h a = ground (arith, Above-put i k v m, eqb_ℤ_iff i k)

  pub IsSorted-put : (k : ℤ) (v : V) (m : Ladder V) → IsSorted m → IsSorted (put k v m)
  unfolding put
  IsSorted-put k v [] s = tt
  IsSorted-put k v ((i, w) ∷ m) s = ground (arith, Above-put i k v m, eqb_ℤ_iff i k)

  Above-erase : (j k : ℤ) (m : Ladder V) → Above j m → Above j (erase k m)
  unfolding erase
  Above-erase j k [] a = tt
  Above-erase j k ((i, w) ∷ m) a = ground (arith, Above-erase i k m a.1, Above-trans j i m)

  pub IsSorted-erase : (k : ℤ) (m : Ladder V) → IsSorted m → IsSorted (erase k m)
  unfolding erase
  IsSorted-erase k [] s = tt
  IsSorted-erase k ((i, w) ∷ m) s = ground (arith, Above-erase i k m, IsSorted-tail i m)

  -- Every key of `m` lies at or above `first`, and at or below `last`.
  Above-find : (j k : ℤ) (v : V) (m : Ladder V) → Above j m → find k m ≡ some v → j <ℤ k
  unfolding find
  Above-find j k v [] a e = cc
  Above-find j k v ((i, w) ∷ m) a e = ground (arith, eqb_ℤ_iff i k, Above-find i k v m a.1)

  pub first-le :
      (k : ℤ) (v : V) (m : Ladder V)
      → IsSorted m
      → find k m ≡ some v
      → (i : ℤ) × (w : V) × (first m ≡ some (i, w)) × (i ≤ℤ k)
  unfolding find first
  first-le k v [] s e = cc
  first-le k v ((i, w) ∷ m) s e = (i, w, refl, ground (arith, eqb_ℤ_iff i k, Above-find i k v m s))

  pub find-first : (k : ℤ) (v : V) (m : Ladder V) → first m ≡ some (k, v) → find k m ≡ some v
  unfolding find first
  find-first k v [] e = cc
  find-first k v ((i, w) ∷ m) e = ground (arith, eqb_ℤ_iff i k)

  last_of_cons :
      (i : ℤ) (w : V) (m : Ladder V) → (k : ℤ) × (v : V) × (last ((i, w) ∷ m) ≡ some (k, v))
  unfolding last
  last_of_cons i w [] = (i, w, refl)
  last_of_cons i w ((j, u) ∷ m) = last_of_cons j u m

  le-last :
      (i k : ℤ) (w v : V) (m : Ladder V) → Above i m → last ((i, w) ∷ m) ≡ some (k, v) → i ≤ℤ k
  unfolding last
  le-last i k w v [] a e = ground arith
  le-last i k w v ((j, u) ∷ m) a e = ground (arith, le-last j k u v m a.1 e)

  pub find-last :
      (k : ℤ) (v : V) (m : Ladder V) → IsSorted m → last m ≡ some (k, v) → find k m ≡ some v
  unfolding find last
  find-last k v [] s e = cc
  find-last k v ((i, w) ∷ []) s e = ground (arith, eqb_ℤ_iff i k)
  find-last k v ((i, w) ∷ (j, u) ∷ m) s e =
      ground (arith, eqb_ℤ_iff i k, find-last k v ((j, u) ∷ m) s.1 e, le-last j k u v m s.1 e)

  pub le_last_of_find :
      (h k : ℤ) (u v : V) (m : Ladder V)
      → IsSorted m
      → find h m ≡ some u
      → last m ≡ some (k, v)
      → h ≤ℤ k
  unfolding find last
  le_last_of_find h k u v [] s f e = cc
  le_last_of_find h k u v ((i, w) ∷ []) s f e = ground (arith, eqb_ℤ_iff i h)
  le_last_of_find h k u v ((i, w) ∷ (j, t) ∷ m) s f e = ground (
    arith,
    eqb_ℤ_iff i h,
    le_last_of_find h k u v ((j, t) ∷ m) s.1,
    le-last i k w v ((j, t) ∷ m) s e,
  )

  pub last-le :
      (h : ℤ) (u : V) (m : Ladder V)
      → IsSorted m
      → find h m ≡ some u
      → (k : ℤ) × (v : V) × (last m ≡ some (k, v)) × (h ≤ℤ k)
  unfolding find
  last-le h u [] s f = cc
  last-le h u ((i, w) ∷ m) s f =
      let (k, v, e) = last_of_cons i w m in (k, v, e, le_last_of_find h k u v ((i, w) ∷ m) s f e)
