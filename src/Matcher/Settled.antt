-- ===== src/Matcher/Settled.antt =====
-- What the end of `matchOrders` means for the orders left in the book, and the price 0.
use trading_matcher.Base.{ℕ, suc, ◌≡◌, ◌⊎◌, ◌<◌, subst, pos, ◌≤ℤ◌, ◌<ℤ◌, true, false, some, arith}
use trading_matcher.Timestamp.{Clock}
use trading_matcher.Order.{is_buy}
use trading_matcher.PriceLevel.{Heap}
use trading_matcher.OrderBook.{OrderBook, World, get_order, has_match}
use trading_matcher.OrderBook.Invariant.{IsLinked, IsValid}
use trading_matcher.OrderBook.Best.{best_bid, best_ask}
use trading_matcher.OrderBook.Size.{size}
use trading_matcher.Matcher.{Matcher, match_orders}
use trading_matcher.Matcher.Pair.{next_pair-none}
use trading_matcher.Matcher.Run.{match_loop-stop, match_orders-Outcome}

-- On a book without a match no buy order reaches a sell order, unless some ask is not positive.
no_match :
    (h : Heap) (b : OrderBook) (i j buy sell : ℕ)
    → IsLinked h b
    → has_match b ≡ false
    → get_order b i ≡ some buy
    → is_buy (h buy) ≡ true
    → get_order b j ≡ some sell
    → is_buy (h sell) ≡ false
    → ((h buy).price_scaled <ℤ (h sell).price_scaled) ⊎ (b.best_ask_price ≤ℤ pos 0)
unfolding has_match
no_match h b i j buy sell v m e s f t =
    let (q, x, front, above) = best_bid h b i buy v e s in
    let (q', x', front', below) = best_ask h b j sell v f t in ground arith

-- After `matchOrders` on a well-formed book, with more rounds than it has orders, every buy price is
-- below every sell price, unless the best ask is not positive.
pub match_orders-uncrosses :
    (fuel : ℕ) (clock : Clock) (w w' : World) (m m' : Matcher) (n i j buy sell : ℕ)
    → IsValid w
    → size w.book < fuel
    → match_orders fuel clock w m ≡ some (w', m', n)
    → get_order w'.book i ≡ some buy
    → is_buy (w'.heap buy) ≡ true
    → get_order w'.book j ≡ some sell
    → is_buy (w'.heap sell) ≡ false
    → ((w'.heap buy).price_scaled <ℤ (w'.heap sell).price_scaled)
      ⊎ (w'.book.best_ask_price ≤ℤ pos 0)
match_orders-uncrosses fuel clock w w' m m' n i j buy sell v h e =
    let (x, x', ts, f, o) = match_orders-Outcome fuel clock w m v h in
    let same : x ≡ w' = ground arith in
    no_match w'.heap w'.book i j buy sell
      (subst (λ (z : World). IsLinked z.heap z.book) same o.valid.linked)
      (subst (λ (z : World). has_match z.book ≡ false) same o.settled)

-- With one sell order at a price of 0 or less in a well-linked book, `matchOrders` ends at once without
-- a trade, whatever the other orders are.
pub nonpositive_ask_blocks :
    (fuel : ℕ) (clock : Clock) (w : World) (m : Matcher) (id sell : ℕ)
    → IsLinked w.heap w.book
    → get_order w.book id ≡ some sell
    → is_buy (w.heap sell) ≡ false
    → (w.heap sell).price_scaled ≤ℤ pos 0
    → match_orders (suc fuel) clock w m ≡ some (w, m, 0)
unfolding match_orders has_match
nonpositive_ask_blocks fuel clock w m id sell v e s p =
    let (q, x, front, below) = best_ask w.heap w.book id sell v e s in
    let off : has_match w.book ≡ false = ground arith in
    match_loop-stop fuel clock w m 0 (next_pair-none w off)
