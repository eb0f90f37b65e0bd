-- ===== src/PriceLevel/Queue.antt =====
-- What the methods of a level do to its queue.
use trading_matcher.Base.{
  ◌+◌, ◌-◌, ◌%◌, ◌^◌, ℕ, ◌≡◌, some, List, [], ◌∷◌, In, Distinct, refl, true, without,
  without-absent, arith,
}
use trading_matcher.PriceLevel.{Heap, PriceLevel, take_out, remove_order}

-- The search finds the order that holds the id, and leaves the others in order.
pub take_out_lem :
    (h : Heap) (r : ℕ) (rs : List ℕ)
    → In r rs
    → Distinct rs
    → ((q : ℕ) → In q rs → (h q).id ≡ (h r).id → q ≡ r)
    → take_out h (h r).id rs ≡ some (r, without r rs)
unfolding take_out
take_out_lem h r [] i d u = absurd i
take_out_lem h r (x ∷ rs) i d u = ground (arith, u x, without-absent x rs, take_out_lem h r rs)

-- The level without one of its orders.
unfoldable pub shrunk : Heap → PriceLevel → ℕ → PriceLevel
shrunk h level r = record level {
  orders = without r level.orders;
  total_quantity = (level.total_quantity + 2 ^ 32 - (h r).quantity) % 2 ^ 32;
  order_count = (level.order_count + 2 ^ 64 - 1) % 2 ^ 64;
}

pub orders-shrunk :
    (h : Heap) (level : PriceLevel) (r : ℕ) → (shrunk h level r).orders ≡ without r level.orders
unfolding shrunk
orders-shrunk h level r = refl

-- `removeOrder` succeeds on an order of the level, and takes it out of the queue.
pub remove_order_lem :
    (h : Heap) (level : PriceLevel) (r : ℕ)
    → In r level.orders
    → Distinct level.orders
    → ((q : ℕ) → In q level.orders → (h q).id ≡ (h r).id → q ≡ r)
    → remove_order h level (h r).id ≡ (shrunk h level r, true)
unfolding remove_order shrunk
remove_order_lem h level r i d u = rw (take_out_lem h r level.orders i d u, remove_order)
