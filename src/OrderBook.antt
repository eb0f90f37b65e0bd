-- ===== src/OrderBook.antt =====
-- `OrderBook` of include/order_matching/OrderBook.hpp, with the store of orders that its pointers
-- lead into. `none` stands for a null pointer. Each method returns the new state and its result.
pub mod View
pub mod Invariant
pub mod Link
pub mod Add
pub mod Cancel
pub mod Modify
pub mod Best
pub mod Size
pub mod Growth
pub mod Spread
pub mod Counted
use trading_matcher.Base.{
  ℕ, ◌+◌, ℤ, pos, negsuc, ltb_ℤ, leb_ℤ, eqb_ℤ, ◌-ℤ◌, ◌^◌, ◌-◌, Bool, true, false, ◌&&◌, ◌||◌,
  Option, none, some, [], ◌==◌, if◌then◌else◌,
}
use trading_matcher.Timestamp.{Clock, get_timestamp_ns}
use trading_matcher.Order.{is_buy}
use trading_matcher.Ladder.{Ladder, find, put, erase, first, last}
use trading_matcher.PriceLevel.{
  Heap, write, PriceLevel, empty_level, push_order, remove_order, is_empty, get_best_order,
}

pub record OrderBook : Type 0 where
  pub buy_levels : Ladder PriceLevel
  pub sell_levels : Ladder PriceLevel
  pub order_map : ℕ → Option ℕ
  pub best_bid_price : ℤ
  pub best_ask_price : ℤ

-- The book, the orders in memory, and the number of clock readings made so far.
pub record World : Type 0 where
  pub book : OrderBook
  pub heap : Heap
  pub reads : ℕ

-- `OrderBook()`
abbrev pub empty_book : OrderBook
empty_book = record {
  buy_levels = [];
  sell_levels = [];
  order_map = λ _. none;
  best_bid_price = pos 0;
  best_ask_price = pos 0;
}

-- `order_map_[id] = r`, and `order_map_.erase(id)` with `none`.
abbrev pub map_id : (ℕ → Option ℕ) → ℕ → Option ℕ → ℕ → Option ℕ
map_id m id r j = if id == j then r else m j

-- `map[price]`, which makes an empty level at a new price.
abbrev pub level_at : ℤ → Ladder PriceLevel → PriceLevel
level_at price m = elim (find price m) [ none ↦ empty_level | some level ↦ level ]

abbrev pub best_of : Option (ℤ × PriceLevel) → ℤ
best_of none = pos 0
best_of (some (price, level)) = price

-- `updateBestBid`
unfoldable pub update_best_bid : OrderBook → OrderBook
update_best_bid b = record b { best_bid_price = best_of (last b.buy_levels) }

-- `updateBestAsk`
unfoldable pub update_best_ask : OrderBook → OrderBook
update_best_ask b = record b { best_ask_price = best_of (first b.sell_levels) }

-- The part of `addOrder` from the store into `order_map_` on.
unfoldable pub link : Heap → OrderBook → ℕ → OrderBook
link h b r =
    let o = h r in
    let price = o.price_scaled in
    let mapped = record b { order_map = map_id b.order_map o.id (some r) } in
    if is_buy o
    then update_best_bid (record mapped {
      buy_levels = put price (push_order h (level_at price b.buy_levels) r) b.buy_levels;
    })
    else update_best_ask (record mapped {
      sell_levels = put price (push_order h (level_at price b.sell_levels) r) b.sell_levels;
    })

-- `if (order->timestamp_ns == 0) order->timestamp_ns = hft::getTimestampNs();`
unfoldable pub stamp : Clock → World → ℕ → World
stamp clock w r =
    if eqb_ℤ (w.heap r).timestamp_ns (pos 0)
    then record w {
      heap = write w.heap r (record (w.heap r) { timestamp_ns = get_timestamp_ns clock w.reads });
      reads = w.reads + 1;
    }
    else w

-- `addOrder`
unfoldable pub add_order : Clock → World → Option ℕ → World × Bool
add_order clock w none = (w, false)
add_order clock w (some r) =
    if (w.heap r).quantity == 0
    then (w, false)
    else (let w' = stamp clock w r in (record w' { book = link w'.heap w'.book r }, true))

-- A level after `removeOrder`: an empty one is erased.
abbrev pub keep_level : ℤ → PriceLevel → Ladder PriceLevel → Ladder PriceLevel
keep_level price level m = if is_empty level then erase price m else put price level m

-- The branch of `cancelOrder` for buy orders, and the one for sell orders.
unfoldable pub cancel_bid : Heap → OrderBook → ℕ → ℤ → OrderBook × Bool
cancel_bid h b id price = elim (find price b.buy_levels) [
  | none ↦ (b, false)
  | some level ↦
      let (level', removed) = remove_order h level id in
      (update_best_bid (record b { buy_levels = keep_level price level' b.buy_levels }), removed)
]

unfoldable pub cancel_ask : Heap → OrderBook → ℕ → ℤ → OrderBook × Bool
cancel_ask h b id price = elim (find price b.sell_levels) [
  | none ↦ (b, false)
  | some level ↦
      let (level', removed) = remove_order h level id in
      (update_best_ask (record b { sell_levels = keep_level price level' b.sell_levels }), removed)
]

-- `cancelOrder`
unfoldable pub cancel_order : Heap → OrderBook → ℕ → OrderBook × Bool
cancel_order h b id = elim (b.order_map id) [
  | none ↦ (b, false)
  | some r ↦
      let price = (h r).price_scaled in
      let (b', removed) =
        if is_buy (h r) then cancel_bid h b id price else cancel_ask h b id price in
      (if removed then record b' { order_map = map_id b'.order_map id none } else b', removed)
]

-- `modifyOrder`
unfoldable pub modify_order : Clock → World → ℕ → ℤ → ℕ → World × Bool
modify_order clock w id new_price new_quantity = elim (w.book.order_map id) [
  | none ↦ (w, false)
  | some r ↦
      let order = record (w.heap r) {
        price_scaled = new_price;
        quantity = new_quantity;
        timestamp_ns = get_timestamp_ns clock w.reads;
      } in
      add_order clock
        (record {
          book = (cancel_order w.heap w.book id).0;
          heap = write w.heap r order;
          reads = w.reads + 1;
        })
        (some r)
]

-- `getBestBid` and `getBestAsk`
abbrev pub best_order_of : Option (ℤ × PriceLevel) → Option ℕ
best_order_of none = none
best_order_of (some (price, level)) = get_best_order level

unfoldable pub get_best_bid : OrderBook → Option ℕ
get_best_bid b = best_order_of (last b.buy_levels)

unfoldable pub get_best_ask : OrderBook → Option ℕ
get_best_ask b = best_order_of (first b.sell_levels)

-- `getBestBidPrice` and `getBestAskPrice`
unfoldable pub get_best_bid_price : OrderBook → ℤ
get_best_bid_price b = b.best_bid_price

unfoldable pub get_best_ask_price : OrderBook → ℤ
get_best_ask_price b = b.best_ask_price

-- The range of int64_t.
abbrev pub in_int64 : ℤ → Bool
in_int64 z = leb_ℤ (negsuc (2 ^ 63 - 1)) z && leb_ℤ z (pos (2 ^ 63 - 1))

-- `getSpread`, with `none` where the subtraction overflows.
unfoldable pub get_spread : OrderBook → Option ℤ
get_spread b =
    if eqb_ℤ b.best_bid_price (pos 0) || eqb_ℤ b.best_ask_price (pos 0)
    then some (pos 0)
    else (let d = b.best_ask_price -ℤ b.best_bid_price in if in_int64 d then some d else none)

-- `hasMatch`
unfoldable pub has_match : OrderBook → Bool
has_match b =
    ltb_ℤ (pos 0) b.best_bid_price
    && ltb_ℤ (pos 0) b.best_ask_price
    && leb_ℤ b.best_ask_price b.best_bid_price

-- `getOrder`
unfoldable pub get_order : OrderBook → ℕ → Option ℕ
get_order b id = b.order_map id
