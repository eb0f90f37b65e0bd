-- ===== src/Ladder/Weight.antt =====
-- A sum over the values of a map, and what a write or an erasure at one key does to it.
use trading_matcher.Base.{ℤ, ℕ, ◌+◌, none, some, [], ◌∷◌, ◌≡◌, arith}
use trading_matcher.Ladder.{Ladder, find, put, erase, IsSorted}
use trading_matcher.Ladder.Lookup.{find-Above}
use trading_matcher.Ladder.Order.{Above-trans, IsSorted-tail}

module _ {ℓ} {V : Type ℓ} (w : V → ℕ) where
  unfoldable pub weight : Ladder V → ℕ
  weight [] = 0
  weight ((k, v) ∷ m) = w v + weight m

  pub weight-put_fresh :
      (k : ℤ) (v : V) (m : Ladder V) → find k m ≡ none → weight (put k v m) ≡ weight m + w v
  unfolding weight put find
  weight-put_fresh k v [] e = omega arith
  weight-put_fresh k v ((i, u) ∷ m) e = ground (arith, weight-put_fresh k v m)

  pub weight-put :
      (k : ℤ) (v u : V) (m : Ladder V)
      → IsSorted m
      → find k m ≡ some u
      → weight (put k v m) + w u ≡ weight m + w v
  unfolding weight put find
  weight-put k v u [] s e = cc
  weight-put k v u ((i, x) ∷ m) s e =
      ground (arith, weight-put k v u m (IsSorted-tail i m s), find-Above k m, Above-trans k i m)

  pub weight-erase :
      (k : ℤ) (u : V) (m : Ladder V) → find k m ≡ some u → weight (erase k m) + w u ≡ weight m
  unfolding weight erase find
  weight-erase k u [] e = cc
  weight-erase k u ((i, x) ∷ m) e = ground (arith, weight-erase k u m)
