-- ===== src/OrderBook/Growth.antt =====
-- `addOrder` makes a book longer by at most one order.
use trading_matcher.Base.{
  ℕ, suc, ◌≤◌, ◌≡◌, ap, ℤ, true, false, some, inl, inr, Bool-cases, Option-cases, arith,
  length-append, [], ◌∷◌, ◌==◌,
}
use trading_matcher.Timestamp.{Clock}
use trading_matcher.Order.{is_buy}
use trading_matcher.Ladder.{Ladder, find, put, IsSorted}
use trading_matcher.Ladder.Weight.{weight, weight-put, weight-put_fresh}
use trading_matcher.PriceLevel.{Heap, PriceLevel, push_order}
use trading_matcher.OrderBook.{
  OrderBook, World, level_at, add_order, link, stamp, update_best_bid, update_best_ask,
}
use trading_matcher.OrderBook.Add.{book-stamp}
use trading_matcher.OrderBook.View.{IsShaped}
use trading_matcher.OrderBook.Size.{size, level_length}

weight-push :
    (h : Heap) (p : ℤ) (r : ℕ) (m : Ladder PriceLevel)
    → IsSorted m
    → weight level_length (put p (push_order h (level_at p m) r) m) ≡ suc (weight level_length m)
unfolding push_order
weight-push h p r m s = elim (Option-cases (find p m)) [
  | inl e ↦ rw (e, level_at) (omega (arith, weight-put_fresh level_length p _ m e))
  | inr (level, e) ↦
      rw (e, level_at)
        (omega
          (arith, weight-put level_length p _ level m s e, length-append level.orders (r ∷ [])))
]

size-link : (h : Heap) (b : OrderBook) (r : ℕ) → IsShaped b → size (link h b r) ≡ suc (size b)
unfolding size link update_best_bid update_best_ask
size-link h b r v = elim (Bool-cases (is_buy (h r))) [
  | inl e ↦ rw e (omega (arith, weight-push h (h r).price_scaled r b.buy_levels (v.sorted true)))
  | inr e ↦ rw e (omega (arith, weight-push h (h r).price_scaled r b.sell_levels (v.sorted false)))
]

pub size-add_order :
    (clock : Clock) (w : World) (r : ℕ)
    → IsShaped w.book
    → size (add_order clock w (some r)).0.book ≤ suc (size w.book)
unfolding add_order
size-add_order clock w r v = elim (Bool-cases ((w.heap r).quantity == 0)) [
  | inl e ↦ rw e (omega arith)
  | inr e ↦ rw e (
      omega (
        arith,
        size-link (stamp clock w r).heap (stamp clock w r).book r (rw book-stamp v),
        ap size (book-stamp clock w r),
      ))
]
