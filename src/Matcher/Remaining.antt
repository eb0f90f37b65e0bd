-- ===== src/Matcher/Remaining.antt =====
-- A queue without the orders that have nothing left to trade.
use trading_matcher.Base.{
  ℕ, ◌≡◌, ◌≢◌, refl, inl, inr, ◌≤◌, List, [], ◌∷◌, ◌==◌, if◌then◌else◌, arith, In, without,
}
use trading_matcher.PriceLevel.{Heap}

abbrev pub remaining : Heap → List ℕ → List ℕ
remaining h [] = []
remaining h (r ∷ rs) = if (h r).quantity == 0 then remaining h rs else r ∷ remaining h rs

-- If all orders have something left, they all remain.
pub remaining-all :
    (h : Heap) (rs : List ℕ) → ((r : ℕ) → In r rs → (h r).quantity ≢ 0) → remaining h rs ≡ rs
remaining-all h [] f = refl
remaining-all h (r ∷ rs) f = ground (arith, f r (inl refl), remaining-all h rs (λ q i. f q (inr i)))

pub remaining-without :
    (h : Heap) (x : ℕ) (rs : List ℕ)
    → (h x).quantity ≡ 0
    → remaining h (without x rs) ≡ remaining h rs
remaining-without h x [] e = refl
remaining-without h x (r ∷ rs) e = ground (arith, remaining-without h x rs e)

-- What is filled stays filled while quantities fall.
pub remaining-remaining :
    (g h : Heap) (rs : List ℕ)
    → ((r : ℕ) → (h r).quantity ≤ (g r).quantity)
    → remaining h (remaining g rs) ≡ remaining h rs
remaining-remaining g h [] f = refl
remaining-remaining g h (r ∷ rs) f = ground (arith, f r, remaining-remaining g h rs f)
