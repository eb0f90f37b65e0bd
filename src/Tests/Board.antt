-- ===== src/Tests/Board.antt =====
-- Two books with the same queues, their orders at other addresses, added in another order.
use std.Path.{fun_ext}
use trading_matcher.Base.{
  ◌*◌, ◌≡◌, refl, ◌<◌, true, false, some, pos, eqb_ℤ, ◌==◌, if◌then◌else◌, Bool-cases, arith, inl,
  inr,
}
use trading_matcher.Timestamp.{Clock}
use trading_matcher.Order.{make_order, empty_order}
use trading_matcher.Ladder.{find, put, first, last}
use trading_matcher.Ladder.Weight.{weight}
use trading_matcher.PriceLevel.{Heap, push_order}
use trading_matcher.OrderBook.{
  World, empty_book, add_order, link, stamp, update_best_bid, update_best_ask,
}
use trading_matcher.OrderBook.Invariant.{IsValid, empty_book-IsLinked}
use trading_matcher.OrderBook.Add.{add_order-IsValid}
use trading_matcher.OrderBook.Size.{size}
use trading_matcher.Matcher.{new_matcher, match_orders}
use trading_matcher.Matcher.Market.{market_of}
use trading_matcher.Matcher.Board.{Report, report, match_orders-report}
use trading_matcher.Tests.Market.{clock, market, market-IsValid}
use trading_matcher.Tests.Trades.{market_size}

abbrev moved : Heap
moved r =
    if r == 7
    then make_order 1 true 100 (pos 100_500_000) (pos 11) 4
    else (if r == 5
        then make_order 2 true 50 (pos 100_750_000) (pos 12) 4
        else (if r == 3 then make_order 3 false 75 (pos 100_250_000) (pos 13) 4 else empty_order))

abbrev opening : World
opening = record { book = empty_book; heap = moved; reads = 8 }

abbrev one : World
one = (add_order clock opening (some 3)).0

abbrev two : World
two = (add_order clock one (some 5)).0

abbrev three : World
three = (add_order clock two (some 7)).0

opening-IsValid : IsValid opening
opening-IsValid = record { linked = empty_book-IsLinked moved; live = λ id r e. cc }

one-IsValid : IsValid one
one-IsValid = add_order-IsValid clock opening 3 opening-IsValid (omega arith) refl

two-IsValid : IsValid two
unfolding add_order stamp link update_best_bid update_best_ask
two-IsValid = add_order-IsValid clock one 5 one-IsValid (omega arith) refl

three-IsValid : IsValid three
unfolding add_order stamp link update_best_bid update_best_ask
three-IsValid = add_order-IsValid clock two 7 two-IsValid (omega arith) refl

three-size : size three.book < 4
unfolding size weight add_order stamp link update_best_bid update_best_ask put find push_order
three-size = omega arith

-- The fields of the two books agree at every price, also at those where nothing waits.
same_market : market_of market ≡ market_of three
unfolding add_order stamp link update_best_bid update_best_ask put find push_order first last
same_market = fun_ext (elim [
  | true ↦ fun_ext (λ p. elim (Bool-cases (eqb_ℤ (pos 100_500_000) p)) [
    | inl e ↦ rw e refl
    | inr e ↦ elim (Bool-cases (eqb_ℤ (pos 100_750_000) p)) [
      | inl f ↦ rw (e, f) refl
      | inr f ↦ rw (e, f) refl
    ]
  ])
  | false ↦
      fun_ext (λ p. elim (Bool-cases (eqb_ℤ (pos 100_250_000) p)) [
        | inl e ↦ rw e refl
        | inr e ↦ rw e refl
      ])
])

late : Clock
late n = record { tv_sec = pos 9; tv_nsec = pos (2 * n) }

match_orders-report_example :
    (r : Report) × (report (match_orders 4 clock market new_matcher) ≡ some r)
    × (report (match_orders 6 late three new_matcher) ≡ some r)
match_orders-report_example =
    match_orders-report 4 6 clock late market three new_matcher market-IsValid three-IsValid
      market_size (omega (arith, three-size)) same_market
