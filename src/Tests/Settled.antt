-- ===== src/Tests/Settled.antt =====
-- Markets that end with orders on both sides, with a price of 0, and with an id used twice.
use trading_matcher.Base.{
  ℕ, ◌≡◌, refl, ◌⊎◌, pos, ◌≤ℤ◌, ◌<ℤ◌, true, false, Option, none, some, ◌==◌, if◌then◌else◌, arith,
}
use trading_matcher.Order.{Order, empty_order, make_order}
use trading_matcher.Ladder.{find, put, erase, first, last}
use trading_matcher.Ladder.Weight.{weight}
use trading_matcher.PriceLevel.{Heap, push_order, take_out, remove_order}
use trading_matcher.OrderBook.{
  World, empty_book, add_order, cancel_order, link, stamp, get_order, get_best_bid, get_best_ask,
  has_match, update_best_bid, update_best_ask, cancel_bid, cancel_ask,
}
use trading_matcher.OrderBook.Invariant.{IsValid, empty_book-IsLinked}
use trading_matcher.OrderBook.Add.{add_order-IsValid}
use trading_matcher.OrderBook.Size.{size}
use trading_matcher.Matcher.{
  Matcher, new_matcher, match_orders, match_loop, next_pair, trade_pair, execute_trade, drop_filled,
  match_price, match_qty,
}
use trading_matcher.Matcher.Settled.{match_orders-uncrosses, nonpositive_ask_blocks}
use trading_matcher.Matcher.Livelock.{IsStuck, match_orders-IsStuck}
use trading_matcher.Tests.Market.{clock}

abbrev three : Order → Order → Order → Heap
three a b c r = if r == 0 then a else (if r == 1 then b else (if r == 2 then c else empty_order))

abbrev opening : Heap → World
opening heap = record { book = empty_book; heap = heap; reads = 0 }

opening-IsValid : (h : Heap) → IsValid (opening h)
opening-IsValid h = record { linked = empty_book-IsLinked h; live = λ id r e. cc }

-- A buy order of 5 at 100, a sell order of 3 at 100 and one of 4 at 101.
abbrev orders : Heap
orders =
    three (make_order 1 true 5 (pos 100) (pos 1) 0) (make_order 2 false 3 (pos 100) (pos 2) 0)
      (make_order 3 false 4 (pos 101) (pos 3) 0)

abbrev one : World
one = (add_order clock (opening orders) (some 0)).0

abbrev two : World
two = (add_order clock one (some 1)).0

abbrev crossed : World
crossed = (add_order clock two (some 2)).0

one-IsValid : IsValid one
one-IsValid = add_order-IsValid clock (opening orders) 0 (opening-IsValid orders) (omega arith) refl

two-IsValid : IsValid two
unfolding add_order stamp link update_best_bid
two-IsValid = add_order-IsValid clock one 1 one-IsValid (omega arith) refl

crossed-IsValid : IsValid crossed
unfolding add_order stamp link update_best_bid update_best_ask
crossed-IsValid = add_order-IsValid clock two 2 two-IsValid (omega arith) refl

abbrev world_of : Option (World × Matcher × ℕ) → World
world_of none = crossed
world_of (some (w, m, n)) = w

abbrev matcher_of : Option (World × Matcher × ℕ) → Matcher
matcher_of none = new_matcher
matcher_of (some (w, m, n)) = m

abbrev settled : World
settled = world_of (match_orders 4 clock crossed new_matcher)

match_orders-uncrosses_example :
    ((settled.heap 0).price_scaled <ℤ (settled.heap 2).price_scaled)
    ⊎ (settled.book.best_ask_price ≤ℤ pos 0)
unfolding match_orders match_loop next_pair trade_pair execute_trade drop_filled match_price
    match_qty has_match add_order stamp link update_best_bid update_best_ask cancel_order cancel_bid
    cancel_ask put find erase push_order take_out remove_order first last get_best_bid get_best_ask
    get_order size weight
match_orders-uncrosses_example =
    match_orders-uncrosses 4 clock crossed settled new_matcher
      (matcher_of (match_orders 4 clock crossed new_matcher)) 1 1 3 0 2 crossed-IsValid
      (omega arith) refl refl refl refl refl

-- A sell order at 0 and a buy order at 100.
abbrev free_sale : World
free_sale =
    (add_order clock
      (opening (
        three (make_order 1 false 5 (pos 0) (pos 1) 0) (make_order 2 true 5 (pos 100) (pos 2) 0)
          empty_order))
      (some 0)).0

abbrev free_market : World
free_market = (add_order clock free_sale (some 1)).0

free_sale-IsValid : IsValid free_sale
free_sale-IsValid = add_order-IsValid clock (opening _) 0 (opening-IsValid _) (omega arith) refl

free_market-IsValid : IsValid free_market
unfolding add_order stamp link update_best_ask
free_market-IsValid = add_order-IsValid clock free_sale 1 free_sale-IsValid (omega arith) refl

nonpositive_ask_blocks_example :
    match_orders 5 clock free_market new_matcher ≡ some (free_market, new_matcher, 0)
unfolding add_order stamp link update_best_bid update_best_ask get_order
nonpositive_ask_blocks_example =
    nonpositive_ask_blocks 4 clock free_market new_matcher 1 0 free_market-IsValid.linked refl refl
      (omega arith)

-- Two buy orders of 5 with the id 1, a sell order of 20, and the first two rounds of matching.
abbrev twins : World
twins =
    (add_order clock
      (add_order clock
        (add_order clock
          (opening (
            three (make_order 1 true 5 (pos 100) (pos 1) 0)
              (make_order 1 true 5 (pos 100) (pos 2) 0) (make_order 2 false 20 (pos 90) (pos 3) 0)))
          (some 0)).0
        (some 1)).0
      (some 2)).0

abbrev orphaned : World
orphaned = (trade_pair clock (trade_pair clock twins new_matcher 0 2).0 new_matcher 1 2).0

orphaned-IsStuck : IsStuck orphaned 1 2
unfolding next_pair trade_pair execute_trade drop_filled match_price match_qty has_match add_order
    stamp link update_best_bid update_best_ask cancel_order cancel_bid cancel_ask put find erase
    push_order take_out remove_order first last get_best_bid get_best_ask get_order
orphaned-IsStuck = record {
  pair = refl;
  differ = omega arith;
  empty = refl;
  forgotten = refl;
  waiting = omega arith;
  small = omega arith;
}

match_orders-IsStuck_example : match_orders 1000 clock orphaned new_matcher ≡ none
match_orders-IsStuck_example =
    match_orders-IsStuck 1000 clock orphaned new_matcher 1 2 orphaned-IsStuck
