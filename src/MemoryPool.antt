-- ===== src/MemoryPool.antt =====
-- `OrderMemoryPool` of include/utils/MemoryPool.hpp. The free list is written once and never read,
-- and is not in the model.
pub mod Recycling
pub mod Numa
use trading_matcher.Base.{ℕ, ◌+◌, ◌%◌, ◌^◌, ltb, ◌==◌, if◌then◌else◌}
use trading_matcher.Order.{empty_order}
use trading_matcher.PriceLevel.{Heap, write}

-- Where an `Order*` points.
pub data Place : Type 0 where
  pooled : (index : ℕ) → Place
  heaped : (number : ℕ) → Place  -- the result of the `number`-th `new Order()`

-- `heap` has the orders that `new` made, of which the first `news`, less those deleted, are live.
pub record MemoryPool : Type 0 where
  pub pool : Heap
  pub next_free : ℕ
  pub heap : Heap
  pub news : ℕ
  pub deleted : ℕ → ℕ  -- how often `delete` was called on it

unfoldable pub new_pool : Heap → MemoryPool
new_pool memory = record {
  pool = memory;
  next_free = 0;
  heap = λ n. empty_order;
  news = 0;
  deleted = λ n. 0;
}

-- `std::memset(order, 0, sizeof(Order))` leaves what `Order()` does.
unfoldable pub allocate : ℕ → MemoryPool → MemoryPool × Place
allocate pool_size p =
    let idx = p.next_free in
    let bumped = record p { next_free = (idx + 1) % 2 ^ 64 } in
    if ltb idx pool_size
    then (record bumped { pool = write p.pool idx empty_order }, Place.pooled idx)
    else (
      record bumped { heap = write p.heap p.news empty_order; news = p.news + 1 },
      Place.heaped p.news,
    )

unfoldable pub deallocate : MemoryPool → Place → MemoryPool
deallocate p (Place.pooled i) = record p { pool = write p.pool i empty_order }
deallocate p (Place.heaped n) = record p { deleted = λ k. p.deleted k + (if k == n then 1 else 0) }

unfoldable pub reset : MemoryPool → MemoryPool
reset p = record p { next_free = 0 }
