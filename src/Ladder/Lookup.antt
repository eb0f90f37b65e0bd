-- ===== src/Ladder/Lookup.antt =====
-- What `find` sees of a map after a write and after an erasure.
use trading_matcher.Base.{ℤ, eqb_ℤ, eqb_ℤ_iff, if◌then◌else◌, none, some, [], ◌∷◌, ◌≡◌, refl, arith}
use trading_matcher.Ladder.{Ladder, find, put, erase, Above, IsSorted}
use trading_matcher.Ladder.Order.{Above-trans, IsSorted-tail}

module _ {ℓ} {V : Type ℓ} where
  pub find-put :
      (j k : ℤ) (v : V) (m : Ladder V)
      → find j (put k v m) ≡ (if eqb_ℤ k j then some v else find j m)
  unfolding find put
  find-put j k v [] = refl
  find-put j k v ((i, w) ∷ m) =
      ground (arith, find-put j k v m, eqb_ℤ_iff k j, eqb_ℤ_iff i k, eqb_ℤ_iff i j)

  -- Keys above `k` are not `k`.
  pub find-Above : (k : ℤ) (m : Ladder V) → Above k m → find k m ≡ none
  unfolding find
  find-Above k [] a = refl
  find-Above k ((i, w) ∷ m) a = ground (arith, eqb_ℤ_iff i k, find-Above k m, Above-trans k i m a.0)

  pub find-erase :
      (j k : ℤ) (m : Ladder V)
      → IsSorted m
      → find j (erase k m) ≡ (if eqb_ℤ k j then none else find j m)
  unfolding find erase
  find-erase j k [] s = ground arith
  find-erase j k ((i, w) ∷ m) s = ground (
    arith,
    find-Above i m s,
    find-erase j k m (IsSorted-tail i m s),
    eqb_ℤ_iff k j,
    eqb_ℤ_iff i k,
    eqb_ℤ_iff i j,
  )
