-- ===== src/Tests/Market.antt =====
-- The orders of src/main.cpp, and the matching run over them.
use trading_matcher.Base.{◌≡◌, refl, pos, true, false, some, ◌==◌, if◌then◌else◌, arith}
use trading_matcher.Timestamp.{Clock}
use trading_matcher.Order.{empty_order, make_order}
use trading_matcher.Ladder.{find, put, first, last}
use trading_matcher.PriceLevel.{Heap, push_order}
use trading_matcher.OrderBook.{
  World, empty_book, add_order, link, stamp, get_best_bid, get_best_ask, update_best_bid,
  update_best_ask,
}
use trading_matcher.OrderBook.Invariant.{IsValid, empty_book-IsLinked}
use trading_matcher.OrderBook.Add.{add_order-IsValid}

abbrev pub clock : Clock
clock n = record { tv_sec = pos 1; tv_nsec = pos n }

abbrev pub orders : Heap
orders r =
    if r == 0
    then make_order 1 true 100 (pos 100_500_000) (pos 11) 0
    else (if r == 1
        then make_order 2 true 50 (pos 100_750_000) (pos 12) 0
        else (if r == 2 then make_order 3 false 75 (pos 100_250_000) (pos 13) 0 else empty_order))

abbrev pub opening : World
opening = record { book = empty_book; heap = orders; reads = 0 }

abbrev pub one_bid : World
one_bid = (add_order clock opening (some 0)).0

abbrev pub two_bids : World
two_bids = (add_order clock one_bid (some 1)).0

abbrev pub market : World
market = (add_order clock two_bids (some 2)).0

pub opening-IsValid : IsValid opening
opening-IsValid = record { linked = empty_book-IsLinked orders; live = λ id r e. cc }

pub one_bid-IsValid : IsValid one_bid
one_bid-IsValid = add_order-IsValid clock opening 0 opening-IsValid (omega arith) refl

pub two_bids-IsValid : IsValid two_bids
unfolding add_order stamp link update_best_bid
two_bids-IsValid = add_order-IsValid clock one_bid 1 one_bid-IsValid (omega arith) refl

pub market-IsValid : IsValid market
unfolding add_order stamp link update_best_bid
market-IsValid = add_order-IsValid clock two_bids 2 two_bids-IsValid (omega arith) refl

market_best : (get_best_bid market.book ≡ some 1) × (get_best_ask market.book ≡ some 2)
unfolding add_order stamp link update_best_bid update_best_ask put find push_order first last
    get_best_bid get_best_ask
market_best = (refl, refl)
