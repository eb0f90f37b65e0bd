-- ===== src/Program/Adding.antt =====
-- A book that grows by one order at a time, each with the next id and in the next slot.
use trading_matcher.Base.{
  ℕ, suc, ◌-◌, ◌≤◌, ℤ, pos, ◌≤ℤ◌, ◌<◌, ◌^◌, ◌≡◌, ◌⊎◌, ◌≢◌, sym, ap, subst, inl, inr, Bool, some,
  none, Option-cases, arith, ◌==◌, ◌∙◌,
}
use trading_matcher.Timestamp.{Clock}
use native.Mathlib.Decide.{ℕ_discrete as dec_eq}
use trading_matcher.Order.{is_buy}
use trading_matcher.PriceLevel.{Heap}
use trading_matcher.OrderBook.{World, add_order, get_order}
use trading_matcher.OrderBook.Invariant.{IsValid, IsValid-elsewhere}
use trading_matcher.OrderBook.Size.{size}
use trading_matcher.OrderBook.Growth.{size-add_order}
use trading_matcher.OrderBook.Add.{Added, add_order-keeps, add_order-IsValid, add_order-Added}

-- What `getSpread` asks of a price.
abbrev pub IsModest : ℤ → Type 0
IsModest p = (pos 0 ≤ℤ p) × (p ≤ℤ pos (2 ^ 63 - 1))

-- What an order is made with.
pub record Sample : Type 0 where
  pub is_buy_order : Bool
  pub quantity : ℕ
  pub price : ℤ

-- The order in slot `r` is in the book under the id `r + 1`, as it was made.
pub record Placed (x : Sample) (w : World) (r : ℕ) : Type 0 where
  pub known : get_order w.book (suc r) ≡ some r
  pub side : is_buy (w.heap r) ≡ x.is_buy_order
  pub quantity : (w.heap r).quantity ≡ x.quantity
  pub price : (w.heap r).price_scaled ≡ x.price

-- A well-formed book of the first `k` samples, with ids up to `k`, in the first `k` slots.
pub record Fits (samples : ℕ → Sample) (k : ℕ) (w : World) : Type 0 where
  pub valid : IsValid w
  pub sized : size w.book ≤ k
  pub bounded : (id r : ℕ) → get_order w.book id ≡ some r → (id ≤ k) × (r < k)
  pub priced : (id r : ℕ) → get_order w.book id ≡ some r → IsModest (w.heap r).price_scaled
  pub placed : (r : ℕ) → r < k → Placed (samples r) w r

-- The order with the next id in the next slot.
module _ (clock : Clock) (k : ℕ) (w : World) (g : Heap) (reads : ℕ) (samples : ℕ → Sample)
    (f : Fits samples k w) (same : (a : ℕ) → a ≢ k → g a ≡ w.heap a) (id : (g k).id ≡ suc k)
    (some_qty : 0 < (g k).quantity) (small : (g k).quantity < 2 ^ 32)
    (modest : IsModest (g k).price_scaled) (side : is_buy (g k) ≡ (samples k).is_buy_order)
    (quantity : (g k).quantity ≡ (samples k).quantity)
    (price : (g k).price_scaled ≡ (samples k).price) where
  unfoldable pub before : World
  before = record { book = w.book; heap = g; reads = reads }

  others : (i r : ℕ) → get_order w.book i ≡ some r → g r ≡ w.heap r
  others i r e = same r (λ z. omega (arith, (f.bounded i r e).1, z))

  before-IsValid : IsValid before
  unfolding before get_order
  before-IsValid = IsValid-elsewhere w g reads others f.valid

  fresh : get_order w.book (g k).id ≡ none
  fresh = elim (Option-cases (get_order w.book (g k).id)) [
    | inl e ↦ e
    | inr (q, e) ↦ absurd (omega (arith, (f.bounded (g k).id q e).0, id))
  ]

  unfoldable pub after : World
  after = (add_order clock before (some k)).0

  after-Added : Added before k after
  unfolding before after
  after-Added = (add_order-Added clock before k before-IsValid (λ z. omega (arith, some_qty, z))).1

  known_cases :
      (i r : ℕ) → get_order after.book i ≡ some r → (r ≡ k) ⊎ (get_order w.book i ≡ some r)
  unfolding before
  known_cases i r e = ground (arith, after-Added.mapped i, e)

  priced_after : (i r : ℕ) → get_order after.book i ≡ some r → IsModest (g r).price_scaled
  priced_after i r e = elim (known_cases i r e) [
    | inl z ↦ subst (λ q. IsModest (g q).price_scaled) (sym z) modest
    | inr z ↦ subst (λ o. IsModest o.price_scaled) (sym (others i r z)) (f.priced i r z)
  ]

  -- `addOrder` keeps what the samples say.
  Placed-before :
      (r : ℕ)
      → get_order after.book (suc r) ≡ some r
      → is_buy (g r) ≡ (samples r).is_buy_order
      → (g r).quantity ≡ (samples r).quantity
      → (g r).price_scaled ≡ (samples r).price
      → Placed (samples r) after r
  unfolding after before
  Placed-before r known s q p =
      let keeps = add_order-keeps clock before (some k) r in
      record {
        known = known;
        side = ap (λ x. x == 0) keeps.1 ∙ s;
        quantity = keeps.3 ∙ q;
        price = keeps.2 ∙ p;
      }

  Placed-after : (r : ℕ) → r < suc k → Placed (samples r) after r
  unfolding before
  Placed-after r h = elim (dec_eq r k) [
    | yes e ↦
        subst (λ x. Placed (samples x) after x) (sym e)
          (Placed-before k (ground (arith, after-Added.mapped (suc k), id)) side quantity price)
    | no n ↦
        let p = f.placed r (omega (arith, h, n)) in
        let o = others (suc r) r p.known in
        Placed-before r (ground (arith, after-Added.mapped (suc r), id, p.known, n))
          (ap is_buy o ∙ p.side) (ap (λ x. x.quantity) o ∙ p.quantity)
          (ap (λ x. x.price_scaled) o ∙ p.price)
  ]

  pub add_next-Fits : Fits samples (suc k) after
  unfolding before after get_order
  add_next-Fits = record {
    valid = add_order-IsValid clock before k before-IsValid small fresh;
    sized = omega (arith, size-add_order clock before k f.valid.linked.shaped, f.sized);
    bounded = λ i r e. ground (arith, after-Added.mapped i, id, e, f.bounded i r);
    priced = λ i r e.
        subst IsModest (sym (add_order-keeps clock before (some k) r).2) (priced_after i r e);
    placed = Placed-after;
  }
