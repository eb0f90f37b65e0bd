-- ===== src/Matcher.antt =====
-- `Matcher` of include/order_matching/Matcher.hpp.
pub mod Pair
pub mod Fill
pub mod Remaining
pub mod Traded
pub mod Round
pub mod Run
pub mod Settled
pub mod Livelock
pub mod Session
pub mod Miscount
pub mod Priority
pub mod Market
pub mod Refinement
pub mod Determined
pub mod Board
pub mod Entries
pub mod Requests
pub mod Answering
pub mod Simulation
pub mod Ledger
use trading_matcher.Base.{
  ℕ, zero, suc, ◌+◌, ◌-◌, ◌%◌, ◌^◌, ℤ, ltb_ℤ, ltb, Option, none, some, List, [], ◌∷◌, ◌++◌, ◌==◌,
  if◌then◌else◌,
}
use trading_matcher.Timestamp.{Clock, get_timestamp_ns}
use trading_matcher.Order.{Order}
use trading_matcher.PriceLevel.{Heap, write}
use trading_matcher.OrderBook.{
  OrderBook, World, cancel_order, get_best_bid, get_best_ask, has_match,
}

pub record Trade : Type 0 where
  pub buy_order_id : ℕ
  pub sell_order_id : ℕ
  pub quantity : ℕ
  pub price_scaled : ℤ
  pub timestamp_ns : ℤ

-- `last_trade_`, with `none` while it is uninitialised, and the arguments of the LOG_INFO calls, one
-- entry for each call, oldest first.
pub record Matcher : Type 0 where
  pub last_trade : Option Trade
  pub logged : List Trade

abbrev pub new_matcher : Matcher
new_matcher = record { last_trade = none; logged = [] }

abbrev pub sub_u32 : ℕ → ℕ → ℕ
sub_u32 a b = (a + 2 ^ 32 - b) % 2 ^ 32

-- `bid->quantity -= qty`
abbrev pub reduce : Heap → ℕ → ℕ → Heap
reduce h r qty = write h r (record (h r) { quantity = sub_u32 (h r).quantity qty })

-- `if (order->quantity == 0) orderBook.cancelOrder(order->id);`
unfoldable pub drop_filled : Heap → OrderBook → ℕ → OrderBook
drop_filled h b r = if (h r).quantity == 0 then (cancel_order h b (h r).id).0 else b

-- `executeTrade`
unfoldable pub execute_trade : Clock → World → Matcher → ℕ → ℕ → ℤ → ℕ → World × Matcher
execute_trade clock w m bid ask price qty =
    let trade : Trade = record {
      buy_order_id = (w.heap bid).id;
      sell_order_id = (w.heap ask).id;
      quantity = qty;
      price_scaled = price;
      timestamp_ns = get_timestamp_ns clock w.reads;
    } in
    let heap = reduce (reduce w.heap bid qty) ask qty in
    let book = drop_filled heap (drop_filled heap w.book bid) ask in
    (
      record { book = book; heap = heap; reads = w.reads + 1 },
      record { last_trade = some trade; logged = m.logged ++ trade ∷ [] },
    )

-- The older order sets the price; on equal timestamps it is the ask.
unfoldable pub match_price : Order → Order → ℤ
match_price bid ask =
    if ltb_ℤ bid.timestamp_ns ask.timestamp_ns then bid.price_scaled else ask.price_scaled

unfoldable pub match_qty : Order → Order → ℕ
match_qty bid ask = if ltb bid.quantity ask.quantity then bid.quantity else ask.quantity

-- The two orders of the next trade; `none` where `matchOrders` leaves its loop.
unfoldable pub next_pair : World → Option (ℕ × ℕ)
next_pair w =
    if has_match w.book
    then (elim (get_best_bid w.book) [
      | none ↦ none
      | some bid ↦ elim (get_best_ask w.book) [
        | none ↦ none
        | some ask ↦
            if ltb_ℤ (w.heap bid).price_scaled (w.heap ask).price_scaled
            then none
            else some (bid, ask)
      ]
    ])
    else none

-- The loop body, from the match price on.
unfoldable pub trade_pair : Clock → World → Matcher → ℕ → ℕ → World × Matcher
trade_pair clock w m bid ask =
    let b = w.heap bid in
    let a = w.heap ask in execute_trade clock w m bid ask (match_price b a) (match_qty b a)

-- `matchOrders` with `fuel` rounds of its loop, from `trade_count` on; `none` if they do not suffice.
unfoldable pub match_loop : ℕ → Clock → World → Matcher → ℕ → Option (World × Matcher × ℕ)
match_loop zero clock w m trade_count = none
match_loop (suc fuel) clock w m trade_count = elim (next_pair w) [
  | none ↦ some (w, m, trade_count)
  | some (bid, ask) ↦
      let (w', m') = trade_pair clock w m bid ask in
      match_loop fuel clock w' m' ((trade_count + 1) % 2 ^ 64)
]

unfoldable pub match_orders : ℕ → Clock → World → Matcher → Option (World × Matcher × ℕ)
match_orders fuel clock w m = match_loop fuel clock w m 0
