-- ===== src/Matcher/Entries.antt =====
-- The orders of a queue, seen as entries of a market, and those with one id in a book.
use trading_matcher.Base.{
  ℕ, ◌≡◌, ◌≢◌, refl, sym, ◌∙◌, ap, subst, inl, inr, ℤ, Bool, true, false, none, some, List, [], ◌∷◌,
  ◌++◌, if◌then◌else◌, arith, In, In-without, without,
}
use trading_matcher.Order.{is_buy}
use trading_matcher.PriceLevel.{Heap}
use trading_matcher.OrderBook.{OrderBook, get_order}
use trading_matcher.OrderBook.View.{queue}
use trading_matcher.OrderBook.Invariant.{IsLinked}
use trading_matcher.Matcher.Market.{entry, entries}
use trading_matcher.Matcher.Requests.{take_id, Has}

pub entries-same :
    (h g : Heap) (xs : List ℕ) → ((x : ℕ) → In x xs → g x ≡ h x) → entries g xs ≡ entries h xs
entries-same h g [] e = refl
entries-same h g (x ∷ xs) e = rw (e x (inl refl), entries-same h g xs (λ y i. e y (inr i))) refl

pub entries-append :
    (h : Heap) (xs : List ℕ) (r : ℕ) → entries h (xs ++ r ∷ []) ≡ entries h xs ++ entry h r ∷ []
entries-append h [] r = refl
entries-append h (x ∷ xs) r = ap (λ es. entry h x ∷ es) (entries-append h xs r)

-- Where no other order has the id of `r`, the order leaves with its id.
pub entries-without :
    (h : Heap) (r id : ℕ) (xs : List ℕ)
    → ((x : ℕ) → In x xs → ((h x).id ≡ id) → x ≡ r)
    → (h r).id ≡ id
    → entries h (without r xs) ≡ take_id id (entries h xs)
entries-without h r id [] u e = refl
entries-without h r id (x ∷ xs) u e =
    ground (
      arith,
      u x (inl refl),
      e,
      ap (λ y. (h y).id),
      entries-without h r id xs (λ y i. u y (inr i)) e,
    )

pub take_id-absent :
    (h : Heap) (id : ℕ) (xs : List ℕ)
    → ((x : ℕ) → In x xs → (h x).id ≢ id)
    → take_id id (entries h xs) ≡ entries h xs
take_id-absent h id [] n = refl
take_id-absent h id (x ∷ xs) n =
    ground (arith, n x (inl refl), take_id-absent h id xs (λ y i. n y (inr i)))

pub Has-In :
    (h : Heap) (id : ℕ) (xs : List ℕ) → Has id (entries h xs) → (x : ℕ) × In x xs × ((h x).id ≡ id)
Has-In h id [] i = absurd i
Has-In h id (x ∷ xs) (inl e) = (x, inl refl, e)
Has-In h id (x ∷ xs) (inr i) = let (y, j, e) = Has-In h id xs i in (y, inr j, e)

pub In-Has : (h : Heap) (x : ℕ) (xs : List ℕ) → In x xs → Has (h x).id (entries h xs)
In-Has h x [] i = absurd i
In-Has h x (y ∷ xs) (inl e) = inl (ap (λ z. (h z).id) e)
In-Has h x (y ∷ xs) (inr i) = inr (In-Has h x xs i)

-- A queue whose order `r` joins it, or does not, where the other orders are as they were.
pub entries-joins :
    (h g : Heap) (joins : Bool) (xs : List ℕ) (r : ℕ)
    → ((x : ℕ) → In x xs → g x ≡ h x)
    → entries g (if joins then xs ++ r ∷ [] else xs)
      ≡ (if joins then entries h xs ++ entry g r ∷ [] else entries h xs)
entries-joins h g true xs r same =
    entries-append g xs r ∙ ap (λ es. es ++ entry g r ∷ []) (entries-same h g xs same)
entries-joins h g false xs r same = entries-same h g xs same

-- The market of a book whose id map leads to the orders of its queues.
module _ (h : Heap) (b : OrderBook) (v : IsLinked h b) (id : ℕ) where
  pub unknown-take_id :
      get_order b id ≡ none
      → (s : Bool) (p : ℤ) → entries h (queue b s p) ≡ take_id id (entries h (queue b s p))
  unfolding get_order
  unknown-take_id e s p =
      sym (take_id-absent h id (queue b s p) (λ x i. ground (arith, v.listed s p x i)))

  pub unknown-Has : get_order b id ≡ none → (s : Bool) (p : ℤ) → ¬ Has id (entries h (queue b s p))
  unfolding get_order
  unknown-Has e s p i =
      let (x, j, f) = Has-In h id (queue b s p) i in ground (arith, v.listed s p x j)

  module _ (r : ℕ) (known : get_order b id ≡ some r) where
    pub own_id : (h r).id ≡ id
    unfolding get_order
    own_id = (v.indexed id r known).0

    pub known-Has : Has id (entries h (queue b (is_buy (h r)) (h r).price_scaled))
    unfolding get_order
    known-Has =
        subst (λ i. Has i (entries h (queue b (is_buy (h r)) (h r).price_scaled))) own_id
          (In-Has h r (queue b (is_buy (h r)) (h r).price_scaled) (v.indexed id r known).1)

    pub known-take_id :
        (s : Bool) (p : ℤ)
        → entries h (without r (queue b s p)) ≡ take_id id (entries h (queue b s p))
    unfolding get_order
    known-take_id s p =
        entries-without h r id (queue b s p) (λ x i e. ground (arith, v.listed s p x i)) own_id

    -- The same in a store that differs at the order that leaves.
    pub others-take_id :
        (g : Heap)
        → ((x : ℕ) → x ≢ r → g x ≡ h x)
        → (s : Bool) (p : ℤ)
        → entries g (without r (queue b s p)) ≡ take_id id (entries h (queue b s p))
    others-take_id g same s p =
        entries-same h g (without r (queue b s p))
          (λ x i. same x (In-without x r (queue b s p) i).1)
        ∙ known-take_id s p
