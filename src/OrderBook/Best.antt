-- ===== src/OrderBook/Best.antt =====
-- The best bid, the best ask, and whether they cross.
use trading_matcher.Base.{
  ℕ, ◌≡◌, refl, ap, inl, inr, ℤ, pos, ◌≤ℤ◌, ◌<ℤ◌, Bool, true, false, none, some, List, ◌∷◌,
  Option-cases, List-cases, Bool-cases, if◌then◌else◌, ◌∙◌, subst, sym, arith,
}
use trading_matcher.Order.{is_buy}
use trading_matcher.Ladder.{find, first, last}
use trading_matcher.Ladder.Order.{first-le, find-first, find-last, last-le}
use trading_matcher.PriceLevel.{Heap, PriceLevel, get_best_order}
use trading_matcher.OrderBook.{
  OrderBook, best_of, best_order_of, get_best_bid, get_best_ask, has_match, get_order,
}
use trading_matcher.OrderBook.View.{ladder, queue_of, queue}
use trading_matcher.OrderBook.Invariant.{IsLinked}

-- The order at the front of the queue at a side's best price.
pub record Front (h : Heap) (b : OrderBook) (s : Bool) (price : ℤ) (r : ℕ) : Type 0 where
  pub side : is_buy (h r) ≡ s
  pub at_price : (h r).price_scaled ≡ price
  pub known : get_order b (h r).id ≡ some r
  pub behind : (rest : List ℕ) × (queue b s price ≡ r ∷ rest)

module _ (h : Heap) (b : OrderBook) (v : IsLinked h b) where
  Front-of_level :
      (s : Bool) (p : ℤ) (level : PriceLevel)
      → find p (ladder s b) ≡ some level
      → (r : ℕ) × (get_best_order level ≡ some r) × Front h b s p r
  unfolding get_order
  Front-of_level s p level f = elim (List-cases level.orders) [
    | inl e ↦ absurd (v.shaped.nonempty s p level f e)
    | inr (r, rest, e) ↦
        let q : queue b s p ≡ r ∷ rest = ap queue_of f ∙ e in
        let (side, price, known) = v.listed s p r (rw q (inl refl)) in
        (r, rw e, record { side = side; at_price = price; known = known; behind = (rest, q) })
  ]

  -- An order in the book rests in a level of its side.
  level_of_known :
      (id r : ℕ)
      → get_order b id ≡ some r
      → (level : PriceLevel) × (find (h r).price_scaled (ladder (is_buy (h r)) b) ≡ some level)
  unfolding get_order
  level_of_known id r e = elim (Option-cases (find (h r).price_scaled (ladder (is_buy (h r)) b))) [
    | inl f ↦ absurd (rw (ap queue_of f) at (v.indexed id r e).1)
    | inr g ↦ g
  ]

module _ (h : Heap) (b : OrderBook) (v : IsLinked h b) where
  -- The best entries of the ladders, as `getBestBid` and `getBestAsk` return them.
  pub Front-of_last :
      (p : ℤ) (level : PriceLevel)
      → last b.buy_levels ≡ some (p, level)
      → (b.best_bid_price ≡ p)
        × ((q : ℕ) × (get_best_bid b ≡ some q) × Front h b true b.best_bid_price q)
  unfolding get_best_bid
  Front-of_last p level l =
      let cached : b.best_bid_price ≡ p = v.shaped.bid_cached ∙ ap best_of l in
      let (q, o, front) =
        Front-of_level h b v true p level
          (find-last p level b.buy_levels (v.shaped.sorted true) l) in
      (cached, (q, ap best_order_of l ∙ o, subst (λ x. Front h b true x q) (sym cached) front))

  pub Front-of_first :
      (p : ℤ) (level : PriceLevel)
      → first b.sell_levels ≡ some (p, level)
      → (b.best_ask_price ≡ p)
        × ((q : ℕ) × (get_best_ask b ≡ some q) × Front h b false b.best_ask_price q)
  unfolding get_best_ask
  Front-of_first p level l =
      let cached : b.best_ask_price ≡ p = v.shaped.ask_cached ∙ ap best_of l in
      let (q, o, front) = Front-of_level h b v false p level (find-first p level b.sell_levels l) in
      (cached, (q, ap best_order_of l ∙ o, subst (λ x. Front h b false x q) (sym cached) front))

-- With a buy order in a well-linked book, its price is at most the cached best bid price, and
-- `getBestBid` is the front of the queue at that price.
pub best_bid :
    (h : Heap) (b : OrderBook) (id r : ℕ)
    → IsLinked h b
    → get_order b id ≡ some r
    → is_buy (h r) ≡ true
    → (q : ℕ) × (get_best_bid b ≡ some q)
      × Front h b true b.best_bid_price q
      × ((h r).price_scaled ≤ℤ b.best_bid_price)
best_bid h b id r v e s =
    let (level, f) = level_of_known h b v id r e in
    let (p, best, l, le) =
      last-le (h r).price_scaled level b.buy_levels (v.shaped.sorted true) (rw s at f) in
    let (cached, (q, o, front)) = Front-of_last h b v p best l in
    (q, o, front, subst (λ x. (h r).price_scaled ≤ℤ x) (sym cached) le)

-- With a sell order in a well-linked book, its price is at least the cached best ask price, and
-- `getBestAsk` is the front of the queue at that price.
pub best_ask :
    (h : Heap) (b : OrderBook) (id r : ℕ)
    → IsLinked h b
    → get_order b id ≡ some r
    → is_buy (h r) ≡ false
    → (q : ℕ) × (get_best_ask b ≡ some q)
      × Front h b false b.best_ask_price q
      × (b.best_ask_price ≤ℤ (h r).price_scaled)
best_ask h b id r v e s =
    let (level, f) = level_of_known h b v id r e in
    let (p, best, l, le) =
      first-le (h r).price_scaled level b.sell_levels (v.shaped.sorted false) (rw s at f) in
    let (cached, (q, o, front)) = Front-of_first h b v p best l in
    (q, o, front, subst (λ x. x ≤ℤ (h r).price_scaled) (sym cached) le)

-- With an order in a well-linked book, the side of that order has a best order: it is the front of the
-- queue at the cached best price of the side, which is at least as good as the price of the order.
pub best_orders :
    (h : Heap) (b : OrderBook) (id r : ℕ)
    → IsLinked h b
    → get_order b id ≡ some r
    → (q : ℕ) × ((if is_buy (h r) then get_best_bid b else get_best_ask b) ≡ some q)
      × Front h b (is_buy (h r)) (if is_buy (h r) then b.best_bid_price else b.best_ask_price) q
      × ((if is_buy (h r) then (h r).price_scaled else b.best_ask_price)
          ≤ℤ (if is_buy (h r) then b.best_bid_price else (h r).price_scaled))
best_orders h b id r v e = elim (Bool-cases (is_buy (h r))) [
  | inl s ↦ rw s (best_bid h b id r v e s)
  | inr s ↦ rw s (best_ask h b id r v e s)
]

-- A side that is empty has the best price 0, which `hasMatch` refuses.
no_match_empty_bid :
    (h : Heap) (b : OrderBook) → IsLinked h b → last b.buy_levels ≡ none → has_match b ≡ false
unfolding has_match
no_match_empty_bid h b v e =
    let c : b.best_bid_price ≡ pos 0 = v.shaped.bid_cached ∙ ap best_of e in ground arith

no_match_empty_ask :
    (h : Heap) (b : OrderBook) → IsLinked h b → first b.sell_levels ≡ none → has_match b ≡ false
unfolding has_match
no_match_empty_ask h b v e =
    let c : b.best_ask_price ≡ pos 0 = v.shaped.ask_cached ∙ ap best_of e in ground arith

-- Two orders that a trade is made of: the fronts of the best queues, with crossing positive prices.
pub record Crossing (h : Heap) (b : OrderBook) (bid ask : ℕ) : Type 0 where
  pub bid_front : Front h b true b.best_bid_price bid
  pub ask_front : Front h b false b.best_ask_price ask
  pub positive : pos 0 <ℤ b.best_ask_price
  pub crossed : b.best_ask_price ≤ℤ b.best_bid_price

-- `hasMatch` says yes only if both best queues have a front, and those cross.
pub has_match-Crossing :
    (h : Heap) (b : OrderBook)
    → IsLinked h b
    → has_match b ≡ true
    → (bid : ℕ) × (ask : ℕ) × (get_best_bid b ≡ some bid)
      × (get_best_ask b ≡ some ask)
      × Crossing h b bid ask
unfolding has_match
has_match-Crossing h b v m = elim (Option-cases (last b.buy_levels)) [
  | inl e ↦ absurd (ground (arith, no_match_empty_bid h b v e))
  | inr ((p, level), e) ↦ elim (Option-cases (first b.sell_levels)) [
    | inl f ↦ absurd (ground (arith, no_match_empty_ask h b v f))
    | inr ((p', level'), f) ↦
        let (c, (q, o, front)) = Front-of_last h b v p level e in
        let (c', (q', o', front')) = Front-of_first h b v p' level' f in
        (
          q,
          q',
          o,
          o',
          record {
            bid_front = front;
            ask_front = front';
            positive = ground arith;
            crossed = ground arith;
          },
        )
  ]
]
