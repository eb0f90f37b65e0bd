-- ===== src/Matcher/Refinement.antt =====
-- `matchOrders` against price-time priority.
use mathlib.Core.List.{append_assoc, append-nil}
use trading_matcher.Base.{
  ℕ, zero, suc, ◌≡◌, ◌≢◌, sym, ◌∙◌, ap, inl, inr, ◌+◌, ◌%◌, ◌<◌, ◌≤◌, ◌^◌, ℤ, eqb_ℤ, Bool, true,
  false, some, List, [], ◌∷◌, ◌++◌, if◌then◌else◌, arith, length,
}
use trading_matcher.Timestamp.{Clock}
use trading_matcher.OrderBook.{World, get_order}
use trading_matcher.OrderBook.Invariant.{IsValid}
use trading_matcher.OrderBook.Best.{Crossing}
use trading_matcher.OrderBook.Size.{size}
use trading_matcher.Matcher.{Trade, Matcher, match_loop, match_orders, trade_pair, execute_trade}
use trading_matcher.Matcher.Pair.{next_pair_cases}
use trading_matcher.Matcher.Round.{trade_pair-IsValid, trade_pair-Traded}
use trading_matcher.Matcher.Run.{match_loop-stop, match_loop-step, counted_step}
use trading_matcher.Matcher.Miscount.{same_keys}
use trading_matcher.Matcher.Market.{
  entry, entries, market_of, side-filled, bid_price-IsBest, ask_price-IsBest,
  not_has_match-IsSettled,
}
use trading_matcher.Matcher.Priority.{fill, Executes, Matching, IsSettled}

module _ (w : World) (bid ask : ℕ) (v : IsValid w) (c : Crossing w.heap w.book bid ask) where
  untouched :
      (clock : Clock) (m : Matcher) (r : ℕ)
      → r ≢ bid
      → r ≢ ask
      → entry (trade_pair clock w m bid ask).0.heap r ≡ entry w.heap r
  untouched clock m r n n' = elim ((trade_pair-Traded clock w m bid ask v c).others r) [
    | inl e ↦ absurd (n e)
    | inr (inl e) ↦ absurd (n' e)
    | inr (inr e) ↦
        ap (λ o. record { id = o.id; quantity = o.quantity; timestamp_ns = o.timestamp_ns }) e
  ]

  both_sides :
      (clock : Clock) (m : Matcher) (s : Bool) (p : ℤ)
      → let (w', m') = trade_pair clock w m bid ask in
        market_of w' s p ≡ (
          if eqb_ℤ p (if s then w.book.best_bid_price else w.book.best_ask_price)
          then fill (trade_pair-Traded clock w m bid ask v c).trade.quantity (market_of w s p)
          else market_of w s p)
  unfolding get_order trade_pair execute_trade
  both_sides clock m true p =
      let t = trade_pair-Traded clock w m bid ask v c in
      let w' = (trade_pair clock w m bid ask).0 in
      ap (entries w'.heap) (t.queued true p)
      ∙ side-filled w.heap w'.heap w.book true w.book.best_bid_price bid ask t.trade.quantity
          v.linked (λ id r e. (v.live id r e).0) c.bid_front c.ask_front.side (untouched clock m)
          (same_keys w bid ask v c bid).0 (same_keys w bid ask v c bid).2 t.from_bid p
  both_sides clock m false p =
      let t = trade_pair-Traded clock w m bid ask v c in
      let w' = (trade_pair clock w m bid ask).0 in
      ap (entries w'.heap) (t.queued false p)
      ∙ side-filled w.heap w'.heap w.book false w.book.best_ask_price ask bid t.trade.quantity
          v.linked (λ id r e. (v.live id r e).0) c.ask_front c.bid_front.side
          (λ r i j. untouched clock m r j i) (same_keys w bid ask v c ask).0
          (same_keys w bid ask v c ask).2 t.from_ask p

  round-Executes :
      (clock : Clock) (m : Matcher)
      → let (w', m') = trade_pair clock w m bid ask in
        Executes (market_of w) (trade_pair-Traded clock w m bid ask v c).trade (market_of w')
  unfolding get_order trade_pair execute_trade
  round-Executes clock m =
      let t = trade_pair-Traded clock w m bid ask v c in
      record {
        bid_price = w.book.best_bid_price;
        ask_price = w.book.best_ask_price;
        bid = entry w.heap bid;
        ask = entry w.heap ask;
        best_bid = bid_price-IsBest w v.linked bid c.bid_front;
        best_ask = ask_price-IsBest w v.linked ask c.ask_front;
        buyer = t.buyer;
        seller = t.seller;
        amount = ground (arith, t.from_bid, t.from_ask, t.one_done);
        positive = c.positive;
        crossed = c.crossed;
        price = ground (arith, t.older_sets_price, c.bid_front.at_price, c.ask_front.at_price);
        filled = both_sides clock m;
      }

match_loop-Matching :
    (fuel : ℕ) (clock : Clock) (w : World) (m : Matcher) (count n : ℕ)
    → IsValid w
    → size w.book < fuel
    → n ≡ count % 2 ^ 64
    → (w' : World) × (m' : Matcher) × (trades : List Trade) × (match_loop fuel clock w m n
        ≡ some (w', m', (count + length trades) % 2 ^ 64))
      × (m'.logged ≡ m.logged ++ trades)
      × (length trades ≤ size w.book)
      × Matching (market_of w) trades (market_of w')
      × IsSettled (market_of w')
match_loop-Matching zero clock w m count n v h k = absurd (omega arith)
match_loop-Matching (suc fuel) clock w m count n v h k = elim (next_pair_cases w v.linked) [
  | inl (e, p) ↦
      let counted : n ≡ (count + 0) % 2 ^ 64 = omega arith in
      (
        w,
        m,
        [],
        match_loop-stop fuel clock w m n p ∙ ap (λ i. some (w, m, i)) counted,
        sym (append-nil m.logged),
        omega arith,
        Matching.over (market_of w),
        not_has_match-IsSettled w v.linked e,
      )
  | inr (bid, ask, p, c) ↦
      let t = trade_pair-Traded clock w m bid ask v c in
      let next = trade_pair clock w m bid ask in
      let (w', m', ts, e, logged, few, rest, settled) =
        match_loop-Matching fuel clock next.0 next.1 (count + 1) ((n + 1) % 2 ^ 64)
          (trade_pair-IsValid clock w m bid ask v c) (omega (arith, t.fewer)) (omega arith) in
      (
        w',
        m',
        t.trade ∷ ts,
        match_loop-step fuel clock w m n bid ask p
            ∙ e
            ∙ ap (λ i. some (w', m', i)) (counted_step count (length ts)),
        logged ∙ ap (λ l. l ++ ts) t.logged ∙ append_assoc m.logged (t.trade ∷ []) ts,
        omega (arith, few, t.fewer),
        Matching.after (round-Executes w bid ask v c clock m) rest,
        settled,
      )
]

-- On every well-formed book, with one round more than the book has orders, `matchOrders` does what
-- price-time priority asks: the trades that it logs are, one after the other, between the oldest orders
-- at the best prices, which are positive and cross, each of the smaller quantity of the two and at the
-- price of the one with the older timestamp, the sell order's on equal timestamps; the queues of ids,
-- quantities and timestamps are at the end what these trades make of them, and allow no further such
-- trade. There are at most as many of these trades as orders in the book, and the count that it returns
-- is their number, modulo 2^64.
pub match_orders-Matching :
    (fuel : ℕ) (clock : Clock) (w : World) (m : Matcher)
    → IsValid w
    → size w.book < fuel
    → (w' : World) × (m' : Matcher) × (trades : List Trade) × (match_orders fuel clock w m
        ≡ some (w', m', length trades % 2 ^ 64))
      × (m'.logged ≡ m.logged ++ trades)
      × (length trades ≤ size w.book)
      × Matching (market_of w) trades (market_of w')
      × IsSettled (market_of w')
unfolding match_orders
match_orders-Matching fuel clock w m v h =
    let (w', m', ts, e, logged, few, run, settled) =
      match_loop-Matching fuel clock w m 0 0 v h (omega arith) in
    (
      w',
      m',
      ts,
      e ∙ ap (λ i. some (w', m', i)) (ap (λ i. i % 2 ^ 64) (omega arith)),
      logged,
      few,
      run,
      settled,
    )
