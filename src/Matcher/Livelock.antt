-- ===== src/Matcher/Livelock.antt =====
-- A fully traded order whose id the book has forgotten, at the front of the best bids.
use trading_matcher.Base.{
  ℕ, zero, suc, ◌≡◌, ◌≢◌, ◌∙◌, subst, sym, ◌<◌, ◌^◌, ◌+◌, none, some, arith, Option-cases, inl, inr,
}
use trading_matcher.Timestamp.{Clock}
use trading_matcher.PriceLevel.{Heap}
use trading_matcher.OrderBook.{OrderBook, World, cancel_order, get_best_bid, get_best_ask}
use trading_matcher.OrderBook.Invariant.{SameKeys}
use trading_matcher.Matcher.{
  Matcher, next_pair, trade_pair, execute_trade, drop_filled, match_qty, match_loop, match_orders,
  reduce,
}
use trading_matcher.Matcher.Run.{match_loop-step, match_loop-zero}

-- The best bid has nothing left, and its id is not in the id map.
pub record IsStuck (w : World) (bid ask : ℕ) : Type 0 where
  pub pair : next_pair w ≡ some (bid, ask)
  pub differ : bid ≢ ask
  pub empty : (w.heap bid).quantity ≡ 0
  pub forgotten : w.book.order_map (w.heap bid).id ≡ none
  pub waiting : 0 < (w.heap ask).quantity
  pub small : (w.heap ask).quantity < 2 ^ 32

next_pair-SameKeys :
    (b : OrderBook) (h g : Heap) (i j : ℕ)
    → SameKeys h g
    → next_pair (record { book = b; heap = g; reads = i })
      ≡ next_pair (record { book = b; heap = h; reads = j })
unfolding next_pair
next_pair-SameKeys b h g i j k = elim (Option-cases (get_best_bid b)) [
  | inl e ↦ ground (arith, e)
  | inr (bid, e) ↦ elim (Option-cases (get_best_ask b)) [
    | inl f ↦ ground (arith, e, f)
    | inr (ask, f) ↦ ground (arith, e, f, k bid, k ask)
  ]
]

module _ (clock : Clock) (w : World) (m : Matcher) (bid ask : ℕ) (s : IsStuck w bid ask) where
  abbrev reduced : Heap
  reduced = reduce (reduce w.heap bid 0) ask 0

  no_amount : match_qty (w.heap bid) (w.heap ask) ≡ 0
  unfolding match_qty
  no_amount = ground (arith, s.empty, s.waiting)

  keeps_bid : drop_filled reduced w.book bid ≡ w.book
  unfolding drop_filled cancel_order
  keeps_bid = ground (arith, s.differ, s.forgotten)

  keeps_ask : drop_filled reduced w.book ask ≡ w.book
  unfolding drop_filled
  keeps_ask = ground (arith, s.differ, s.waiting, s.small)

  abbrev after : World
  after = record { book = w.book; heap = reduced; reads = w.reads + 1 }

  round : (trade_pair clock w m bid ask).0 ≡ after
  unfolding trade_pair execute_trade
  round = rw (no_amount, keeps_bid, keeps_ask)

  after-IsStuck : IsStuck after bid ask
  after-IsStuck = record {
    pair =
        next_pair-SameKeys w.book w.heap reduced (w.reads + 1) w.reads (λ r. ground arith) ∙ s.pair;
    differ = s.differ;
    empty = ground (arith, s.empty);
    forgotten = ground (arith, s.forgotten, s.differ);
    waiting = ground (arith, s.waiting, s.small);
    small = ground (arith, s.waiting, s.small);
  }

-- With a fully traded order whose id is not in the id map at the front of the best bids, and an ask
-- that it crosses with something left, no number of rounds is enough for `matchOrders`.
pub match_orders-IsStuck :
    (fuel : ℕ) (clock : Clock) (w : World) (m : Matcher) (bid ask : ℕ)
    → IsStuck w bid ask
    → match_orders fuel clock w m ≡ none
unfolding match_orders
match_orders-IsStuck fuel clock w m bid ask s = loop fuel w m 0 s
  where
    loop :
        (fuel : ℕ) (w : World) (m : Matcher) (n : ℕ)
        → IsStuck w bid ask
        → match_loop fuel clock w m n ≡ none
    loop zero w m n s = match_loop-zero clock w m n
    loop (suc fuel) w m n s =
        match_loop-step fuel clock w m n bid ask s.pair
        ∙ loop fuel _ _ _ (
            subst (λ x. IsStuck x bid ask) (sym (round clock w m bid ask s))
              (after-IsStuck clock w m bid ask s))
