-- ===== src/Tests/Book.antt =====
-- The theorems on the order book, at the orders of src/main.cpp.
use trading_matcher.Base.{
  ℕ, suc, ◌+◌, ◌%◌, ◌^◌, List, length, if◌then◌else◌, ◌≡◌, refl, ◌⊎◌, pos, ◌≤ℤ◌, true, false, none,
  some, arith,
}
use trading_matcher.OrderBook.{
  add_order, cancel_order, modify_order, link, stamp, get_order, get_best_bid, get_best_ask,
  update_best_bid, update_best_ask,
}
use trading_matcher.OrderBook.Invariant.{IsLinked, IsValid}
use trading_matcher.OrderBook.Add.{Added, add_order-Added}
use trading_matcher.OrderBook.Cancel.{Cancelled, cancel_order-Cancelled}
use trading_matcher.OrderBook.Modify.{Modified, modify_order-Modified}
use trading_matcher.OrderBook.Best.{Front, best_orders}
use trading_matcher.OrderBook.Size.{size}
use trading_matcher.Order.{is_buy}
use trading_matcher.OrderBook.{World}
use trading_matcher.Matcher.{Trade, Matcher, new_matcher, match_orders}
use trading_matcher.Matcher.Run.{Outcome, match_orders-Outcome}
use trading_matcher.Matcher.Ledger.{total, entered, withdrawn, executed, waiting, Reach-conserves}
use trading_matcher.Tests.Trades.{market_size}
use trading_matcher.Matcher.Session.{Step, Reach, session-Outcome}
use trading_matcher.Matcher.Market.{market_of}
use trading_matcher.Matcher.Requests.{Request, Answers}
use trading_matcher.Matcher.Simulation.{Reach-Answers}
use trading_matcher.Tests.Market.{
  clock, orders, one_bid, two_bids, market, one_bid-IsValid, two_bids-IsValid, market-IsValid,
}

add_order-Added_example : ((add_order clock one_bid (some 1)).1 ≡ true) × Added one_bid 1 two_bids
unfolding add_order stamp
add_order-Added_example = add_order-Added clock one_bid 1 one_bid-IsValid (omega arith)

cancel_order-Cancelled_example :
    ((get_order two_bids.book 2 ≡ none)
      × (cancel_order two_bids.heap two_bids.book 2 ≡ (two_bids.book, false)))
    ⊎ ((r : ℕ) × (get_order two_bids.book 2 ≡ some r)
        × ((cancel_order two_bids.heap two_bids.book 2).1 ≡ true)
        × Cancelled two_bids.book 2 r (cancel_order two_bids.heap two_bids.book 2).0
        × IsLinked two_bids.heap (cancel_order two_bids.heap two_bids.book 2).0)
cancel_order-Cancelled_example =
    cancel_order-Cancelled two_bids.heap two_bids.book 2 two_bids-IsValid.linked

modify_order-Modified_example :
    let (w', done) = modify_order clock market 1 (pos 100_800_000) 40 in
    ((get_order market.book 1 ≡ none) × (w' ≡ market) × (done ≡ false))
    ⊎ ((r : ℕ) × (get_order market.book 1 ≡ some r)
        × (◌≡◌ {A = ℕ} 40 0)
        × (done ≡ false)
        × Cancelled market.book 1 r w'.book)
    ⊎ ((r : ℕ) × (get_order market.book 1 ≡ some r)
        × (done ≡ true)
        × Modified market r (pos 100_800_000) 40 w')
modify_order-Modified_example =
    modify_order-Modified clock market 1 (pos 100_800_000) 40 market-IsValid

best_orders_example :
    (q : ℕ) × ((if is_buy (market.heap 2)
        then get_best_bid market.book
        else get_best_ask market.book)
      ≡ some q)
    × Front market.heap market.book
        (is_buy (market.heap 2))
        (if is_buy (market.heap 2) then market.book.best_bid_price else market.book.best_ask_price)
        q
    × ((if is_buy (market.heap 2) then (market.heap 2).price_scaled else market.book.best_ask_price)
        ≤ℤ (if is_buy (market.heap 2)
            then market.book.best_bid_price
            else (market.heap 2).price_scaled))
unfolding add_order stamp link update_best_bid update_best_ask get_order
best_orders_example = best_orders market.heap market.book 3 2 market-IsValid.linked refl

-- The three orders are added, and then one of them is cancelled.
added-Reach : Reach clock market
unfolding add_order stamp link update_best_bid
added-Reach =
    Reach.later
      (Reach.later (Reach.later (Reach.opened orders 0) (Step.adds 0 refl (omega arith) refl))
        (Step.adds 1 refl (omega arith) refl))
      (Step.adds 2 refl (omega arith) refl)

market-Reach : Reach clock (record market { book = (cancel_order market.heap market.book 2).0 })
market-Reach = Reach.later added-Reach (Step.cancels 2 refl)

Reach-Answers_example :
    Answers
      (Request.modifies 1 (pos 100_800_000) 40)
      (market_of market)
      (market_of (modify_order clock market 1 (pos 100_800_000) 40).0)
Reach-Answers_example =
    Reach-Answers clock market (modify_order clock market 1 (pos 100_800_000) 40).0 added-Reach
      (Step.modifies 1 (pos 100_800_000) 40 (omega arith) refl)

session-Outcome_example :
    let w = record market { book = (cancel_order market.heap market.book 2).0 } in
    IsValid w
    × ((w' : World) × (m' : Matcher) × (trades : List Trade) × (match_orders
            (suc (size w.book))
            clock
            w
            new_matcher
          ≡ some (w', m', length trades % 2 ^ 64))
        × Outcome w new_matcher trades w' m')
session-Outcome_example =
    session-Outcome clock (record market { book = (cancel_order market.heap market.book 2).0 })
      new_matcher market-Reach

-- The three orders are added, and matched.
matched :
    (w' : World) × (m' : Matcher) × (trades : List Trade) × (match_orders 4 clock market new_matcher
      ≡ some (w', m', length trades % 2 ^ 64))
    × Outcome market new_matcher trades w' m'
matched = match_orders-Outcome 4 clock market new_matcher market-IsValid market_size

matched-Reach : Reach clock matched.0
matched-Reach =
    Reach.later added-Reach (Step.matches 4 new_matcher matched.1 _ market_size matched.3)

Reach-conserves_example :
    total clock (entered clock 3) matched-Reach
    ≡ waiting matched.0 3
      + total clock (executed clock 3) matched-Reach
      + total clock (withdrawn clock 3) matched-Reach
Reach-conserves_example = Reach-conserves clock 3 matched.0 matched-Reach

-- Order 3 was entered with its quantity of 75.
entered_run : total clock (entered clock 3) matched-Reach ≡ 75
unfolding matched-Reach added-Reach add_order stamp
entered_run = refl
