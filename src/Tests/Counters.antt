-- ===== src/Tests/Counters.antt =====
-- The counters of the levels, the spread and the order of priorities, at the orders of src/main.cpp.
use trading_matcher.Base.{pos, true, false, some}
use trading_matcher.Order.{Order, make_order}
use trading_matcher.Ladder.{find}
use trading_matcher.OrderBook.Counted.{AllCounted, add_order-AllCounted}
use trading_matcher.Tests.Market.{clock, opening, one_bid, opening-IsValid}

abbrev pub early : Order
early = make_order 1 true 100 (pos 100_500_000) (pos 11) 0

abbrev pub late : Order
late = make_order 2 true 50 (pos 100_500_000) (pos 12) 0

opening-AllCounted : AllCounted opening.heap opening.book
unfolding find
opening-AllCounted true p level f = cc
opening-AllCounted false p level f = cc

pub one_bid-AllCounted : AllCounted one_bid.heap one_bid.book
one_bid-AllCounted =
    add_order-AllCounted clock opening (some 0) opening-IsValid.linked opening-AllCounted
