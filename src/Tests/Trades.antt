-- ===== src/Tests/Trades.antt =====
-- The theorems on matching, at the orders of src/main.cpp.
use trading_matcher.Base.{
  ℕ, ◌≡◌, refl, ◌<◌, ◌≤◌, ◌%◌, ◌^◌, ℤ, pos, Option, none, some, List, [], ◌∷◌, map, arith, length,
  ◌++◌,
}
use trading_matcher.Ladder.{find, put, erase, first, last}
use trading_matcher.Ladder.Weight.{weight}
use trading_matcher.PriceLevel.{push_order, take_out, remove_order}
use trading_matcher.OrderBook.{
  World, add_order, cancel_order, link, stamp, get_order, get_best_bid, get_best_ask, has_match,
  update_best_bid, update_best_ask, cancel_bid, cancel_ask,
}
use trading_matcher.OrderBook.Best.{Crossing}
use trading_matcher.OrderBook.Size.{size}
use trading_matcher.Matcher.{
  Trade, Matcher, new_matcher, match_orders, match_loop, next_pair, trade_pair, execute_trade,
  drop_filled, match_price, match_qty,
}
use trading_matcher.Matcher.Traded.{Traded}
use trading_matcher.Matcher.Round.{trade_pair-Traded}
use trading_matcher.Matcher.Run.{Outcome, match_orders-Outcome}
use trading_matcher.OrderBook.Counted.{AllCounted, add_order-AllCounted}
use trading_matcher.Matcher.Priority.{Matching, IsSettled}
use trading_matcher.Matcher.Market.{market_of}
use trading_matcher.Matcher.Refinement.{match_orders-Matching}
use trading_matcher.Matcher.Miscount.{trade_pair-miscounts}
use trading_matcher.Tests.Counters.{one_bid-AllCounted}
use trading_matcher.Tests.Market.{
  clock, one_bid, two_bids, market, one_bid-IsValid, two_bids-IsValid, market-IsValid,
}

summary : Option (World × Matcher × ℕ) → Option (ℕ × List ℕ × List ℤ)
summary none = none
summary (some (w, m, n)) =
    some (n, map (λ t. t.quantity) m.logged, map (λ t. t.price_scaled) m.logged)

-- The run of src/main.cpp: two trades, each at the price of the older order, a bid.
main_run :
    summary (match_orders 4 clock market new_matcher)
    ≡ some (2, 50 ∷ 25 ∷ [], pos 100_750_000 ∷ pos 100_500_000 ∷ [])
unfolding summary match_orders match_loop next_pair trade_pair execute_trade drop_filled match_price
    match_qty has_match add_order stamp link update_best_bid update_best_ask cancel_order cancel_bid
    cancel_ask put find erase push_order take_out remove_order first last get_best_bid get_best_ask
main_run = refl

totals : Option (World × Matcher × ℕ) → Option (List ℕ × ℕ)
totals none = none
totals (some (w, m, n)) =
    some (map (λ entry. entry.1.total_quantity) w.book.buy_levels, (w.heap 0).quantity)

-- After it one buy order is left, of 75, in a level whose total still says 100.
main_run_totals : totals (match_orders 4 clock market new_matcher) ≡ some (100 ∷ [], 75)
unfolding totals match_orders match_loop next_pair trade_pair execute_trade drop_filled match_price
    match_qty has_match add_order stamp link update_best_bid update_best_ask cancel_order cancel_bid
    cancel_ask put find erase push_order take_out remove_order first last get_best_bid get_best_ask
main_run_totals = refl

pub market_size : size market.book < 4
unfolding size weight add_order stamp link update_best_bid update_best_ask put find push_order
market_size = omega arith

match_orders-Outcome_example :
    (w' : World) × (m' : Matcher) × (trades : List Trade) × (match_orders 4 clock market new_matcher
      ≡ some (w', m', length trades % 2 ^ 64))
    × Outcome market new_matcher trades w' m'
match_orders-Outcome_example =
    match_orders-Outcome 4 clock market new_matcher market-IsValid market_size

market-Crossing : Crossing market.heap market.book 1 2
unfolding add_order stamp link update_best_bid update_best_ask put find push_order get_order last
    first
market-Crossing = record {
  bid_front = record { side = refl; at_price = refl; known = refl; behind = ([], refl) };
  ask_front = record { side = refl; at_price = refl; known = refl; behind = ([], refl) };
  positive = omega arith;
  crossed = omega arith;
}

trade_pair-Traded_example :
    let (w', m') = trade_pair clock market new_matcher 1 2 in Traded market new_matcher 1 2 w' m'
trade_pair-Traded_example =
    trade_pair-Traded clock market new_matcher 1 2 market-IsValid market-Crossing

market-AllCounted : AllCounted market.heap market.book
market-AllCounted =
    add_order-AllCounted clock two_bids (some 2) two_bids-IsValid.linked
      (add_order-AllCounted clock one_bid (some 1) one_bid-IsValid.linked one_bid-AllCounted)

trade_pair-miscounts_example :
    ¬ AllCounted
      (trade_pair clock market new_matcher 1 2).0.heap
      (trade_pair clock market new_matcher 1 2).0.book
unfolding add_order stamp
trade_pair-miscounts_example =
    trade_pair-miscounts clock market new_matcher 1 2 market-IsValid market-Crossing
      (λ e. omega (arith, e)) market-AllCounted

match_orders-Matching_example :
    (w' : World) × (m' : Matcher) × (trades : List Trade) × (match_orders 4 clock market new_matcher
      ≡ some (w', m', length trades % 2 ^ 64))
    × (m'.logged ≡ [] ++ trades)
    × (length trades ≤ size market.book)
    × Matching (market_of market) trades (market_of w')
    × IsSettled (market_of w')
match_orders-Matching_example =
    match_orders-Matching 4 clock market new_matcher market-IsValid market_size
