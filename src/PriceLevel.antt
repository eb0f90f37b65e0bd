-- ===== src/PriceLevel.antt =====
-- `PriceLevel` of include/order_matching/OrderBook.hpp: the FIFO queue of the orders at one price.
-- An `Order*` is an address into a store of orders; the counters wrap as uint32_t and size_t do.
pub mod Queue
use mathlib.Core.Option
use trading_matcher.Base.{
  ℕ, ◌+◌, ◌-◌, ◌%◌, ◌^◌, Bool, true, false, Option, none, some, List, [], ◌∷◌, ◌++◌, ◌==◌,
  if◌then◌else◌,
}
use trading_matcher.Order.{Order}

-- The orders that pointers lead to.
abbrev pub Heap : Type 0
Heap = ℕ → Order

abbrev pub write : Heap → ℕ → Order → Heap
write h r o q = if r == q then o else h q

pub record PriceLevel : Type 0 where
  pub orders : List ℕ
  pub total_quantity : ℕ
  pub order_count : ℕ

-- `PriceLevel()`
abbrev pub empty_level : PriceLevel
empty_level = record { orders = []; total_quantity = 0; order_count = 0 }

-- `addOrder`
unfoldable pub push_order : Heap → PriceLevel → ℕ → PriceLevel
push_order h level r = record level {
  orders = level.orders ++ r ∷ [];
  total_quantity = (level.total_quantity + (h r).quantity) % 2 ^ 32;
  order_count = (level.order_count + 1) % 2 ^ 64;
}

-- The first order with this id, and the queue without it.
unfoldable pub take_out : Heap → ℕ → List ℕ → Option (ℕ × List ℕ)
take_out h id [] = none
take_out h id (r ∷ rs) =
    let rest = take_out h id rs in
    if (h r).id == id then some (r, rs) else Option.map (λ found. (found.0, r ∷ found.1)) rest

-- `removeOrder`
unfoldable pub remove_order : Heap → PriceLevel → ℕ → PriceLevel × Bool
remove_order h level id = elim (take_out h id level.orders) [
  | none ↦ (level, false)
  | some (r, rest) ↦ (
    record level {
      orders = rest;
      total_quantity = (level.total_quantity + 2 ^ 32 - (h r).quantity) % 2 ^ 32;
      order_count = (level.order_count + 2 ^ 64 - 1) % 2 ^ 64;
    },
    true,
  )
]

-- `isEmpty`
abbrev pub is_empty : PriceLevel → Bool
is_empty level = elim level.orders [ [] ↦ true | _ ↦ false ]

-- `getBestOrder`: the front of the queue, or null.
abbrev pub get_best_order : PriceLevel → Option ℕ
get_best_order level = elim level.orders [ [] ↦ none | r ∷ rs ↦ some r ]

abbrev pub get_total_quantity : PriceLevel → ℕ
get_total_quantity level = level.total_quantity

abbrev pub get_orders : PriceLevel → List ℕ
get_orders level = level.orders
