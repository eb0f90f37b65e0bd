-- ===== src/OrderBook/Size.antt =====
-- The number of orders that rest in a book; a cancellation takes one away.
use trading_matcher.Base.{
  ℕ, ◌≡◌, ap, ◌+◌, suc, ℤ, Bool, true, false, some, arith, length, length-without,
}
use trading_matcher.Order.{is_buy}
use trading_matcher.Ladder.{Ladder, find, IsSorted}
use trading_matcher.Ladder.Weight.{weight, weight-put, weight-erase}
use trading_matcher.PriceLevel.{Heap, PriceLevel}
use trading_matcher.PriceLevel.Queue.{shrunk, orders-shrunk}
use trading_matcher.OrderBook.{
  OrderBook, keep_level, update_best_bid, update_best_ask, cancel_order, get_order,
}
use trading_matcher.OrderBook.View.{IsShaped, ladder, with_level}
use trading_matcher.OrderBook.Invariant.{IsLinked}
use trading_matcher.OrderBook.Cancel.{unlinked, cancel_order_level, resting}

abbrev pub level_length : PriceLevel → ℕ
level_length level = length level.orders

unfoldable pub size : OrderBook → ℕ
size b = weight level_length b.buy_levels + weight level_length b.sell_levels

weight-keep_level :
    (p : ℤ) (level level' : PriceLevel) (m : Ladder PriceLevel)
    → IsSorted m
    → find p m ≡ some level
    → weight level_length (keep_level p level' m) + length level.orders
      ≡ weight level_length m + length level'.orders
weight-keep_level p level level' m s f =
    ground
      (arith, weight-put level_length p level' level m s f, weight-erase level_length p level m f)

size-with_level :
    (s : Bool) (p : ℤ) (level level' : PriceLevel) (b : OrderBook)
    → IsShaped b
    → find p (ladder s b) ≡ some level
    → size (with_level s p level' b) + length level.orders ≡ size b + length level'.orders
unfolding size with_level update_best_bid update_best_ask
size-with_level true p level level' b v f =
    omega (arith, weight-keep_level p level level' b.buy_levels (v.sorted true) f)
size-with_level false p level level' b v f =
    omega (arith, weight-keep_level p level level' b.sell_levels (v.sorted false) f)

-- Cancelling a known order leaves one order less.
pub size-cancel_order :
    (h : Heap) (b : OrderBook) (id r : ℕ)
    → IsLinked h b
    → get_order b id ≡ some r
    → suc (size (cancel_order h b id).0) ≡ size b
unfolding size get_order unlinked
size-cancel_order h b id r v known =
    let (level, f, q, c) = cancel_order_level h b v id r known in
    let s = is_buy (h r) in
    let p = (h r).price_scaled in
    let gone =
      length-without r level.orders (rw q at (v.distinct s p))
        (rw q at (resting h b v id r known)) in
    rw c (
      omega (
        arith,
        size-with_level s p level (shrunk h level r) b v.shaped f,
        gone,
        ap length (orders-shrunk h level r),
      ))
