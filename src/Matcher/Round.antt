-- ===== src/Matcher/Round.antt =====
-- One round of the loop of `matchOrders`: a trade between the fronts of the two best queues.
use trading_matcher.Base.{
  ℕ, ◌≡◌, ◌≢◌, refl, sym, ◌∙◌, ap, ◌⊎◌, ◌+◌, ◌≤◌, ◌<◌, ◌^◌, ℤ, ◌≤ℤ◌, ◌<ℤ◌, Bool, none, some, arith,
}
use trading_matcher.Timestamp.{Clock}
use trading_matcher.PriceLevel.{Heap}
use trading_matcher.OrderBook.{OrderBook, World, get_order}
use trading_matcher.OrderBook.View.{queue}
use trading_matcher.OrderBook.Invariant.{IsLinked, IsLive, IsValid, SameKeys, IsLinked-SameKeys}
use trading_matcher.OrderBook.Best.{Crossing}
use trading_matcher.OrderBook.Size.{size}
use trading_matcher.Matcher.{
  Matcher, reduce, drop_filled, execute_trade, match_price, match_qty, trade_pair,
}
use trading_matcher.Matcher.Remaining.{remaining, remaining-all, remaining-without}
use trading_matcher.Matcher.Fill.{Dropped, drop_filled-Dropped, Dropped-known}
use trading_matcher.Matcher.Traded.{Traded}
use native.Mathlib.Decide.{ℕ_discrete as dec_eq}

module _ (w : World) (bid ask : ℕ) (v : IsValid w) (c : Crossing w.heap w.book bid ask) where
  open c use {bid_front, ask_front}

  abbrev amount : ℕ
  amount = match_qty (w.heap bid) (w.heap ask)

  abbrev reduced : Heap
  reduced = reduce (reduce w.heap bid amount) ask amount

  distinct_orders : bid ≢ ask
  distinct_orders e = ground (arith, bid_front.side, ask_front.side)

  live_bid : (0 < (w.heap bid).quantity) × ((w.heap bid).quantity < 2 ^ 32)
  unfolding get_order
  live_bid = v.live (w.heap bid).id bid bid_front.known

  live_ask : (0 < (w.heap ask).quantity) × ((w.heap ask).quantity < 2 ^ 32)
  unfolding get_order
  live_ask = v.live (w.heap ask).id ask ask_front.known

  -- The traded quantity is the smaller one, so neither subtraction wraps.
  pub amount_bounds :
      (0 < amount) × (amount ≤ (w.heap bid).quantity) × (amount ≤ (w.heap ask).quantity)
  unfolding match_qty
  amount_bounds = ground (arith, live_bid, live_ask)

  one_filled : (amount ≡ (w.heap bid).quantity) ⊎ (amount ≡ (w.heap ask).quantity)
  unfolding match_qty
  one_filled = ground arith

  pub reduced_bid : (reduced bid).quantity + amount ≡ (w.heap bid).quantity
  reduced_bid = ground (arith, distinct_orders, live_bid, amount_bounds)

  pub reduced_ask : (reduced ask).quantity + amount ≡ (w.heap ask).quantity
  reduced_ask = ground (arith, distinct_orders, live_ask, amount_bounds)

  reduced_other : (r : ℕ) → r ≢ bid → r ≢ ask → reduced r ≡ w.heap r
  reduced_other r n m = ground arith

  reduced-SameKeys : SameKeys w.heap reduced
  reduced-SameKeys r = ground arith

  linked_reduced : IsLinked reduced w.book
  linked_reduced = IsLinked-SameKeys w.heap reduced w.book reduced-SameKeys v.linked

  abbrev bid_dropped : OrderBook
  bid_dropped = drop_filled reduced w.book bid

  abbrev both_dropped : OrderBook
  both_dropped = drop_filled reduced bid_dropped ask

  bid_Dropped : Dropped reduced w.book bid bid_dropped
  bid_Dropped =
      drop_filled-Dropped reduced w.book bid linked_reduced
        (rw (← (reduced-SameKeys bid).0) bid_front.known)

  ask_known : get_order bid_dropped (reduced ask).id ≡ some ask
  ask_known = ground (
    arith,
    distinct_orders,
    bid_Dropped.mapped (reduced ask).id,
    (reduced-SameKeys bid).0,
    (reduced-SameKeys ask).0,
    bid_front.known,
    ask_front.known,
    ap (get_order w.book),
  )

  both_Dropped : Dropped reduced bid_dropped ask both_dropped
  both_Dropped = drop_filled-Dropped reduced bid_dropped ask bid_Dropped.linked ask_known

  IsLive-after : IsLive reduced both_dropped
  unfolding get_order
  IsLive-after id r e =
      let (e1, n_ask) = Dropped-known both_Dropped id r e in
      let (e2, n_bid) = Dropped-known bid_Dropped id r e1 in
      elim (dec_eq r ask) [
        | yes s ↦ ground (arith, n_ask s, reduced_ask, live_ask)
        | no n ↦ elim (dec_eq r bid) [
          | yes s ↦ ground (arith, n_bid s, reduced_bid, live_bid)
          | no m ↦ rw (reduced_other r m n) (v.live id r e2)
        ]
      ]

  falling : (r : ℕ) → (reduced r).quantity ≤ (w.heap r).quantity
  falling r = elim (dec_eq r ask) [
    | yes s ↦ rw s (omega (arith, reduced_ask))
    | no n ↦ elim (dec_eq r bid) [
      | yes s ↦ rw s (omega (arith, reduced_bid))
      | no m ↦ rw (reduced_other r m n) (omega arith)
    ]
  ]

  -- A drop takes the order out of every queue if it is filled, and changes none otherwise.
  remaining-drop :
      {b b' : OrderBook} (x : ℕ)
      → Dropped reduced b x b'
      → (s : Bool) (p : ℤ) → remaining reduced (queue b' s p) ≡ remaining reduced (queue b s p)
  remaining-drop {b} x d s p =
      ground (arith, d.queued s p, remaining-without reduced x (queue b s p))

  queue_after : (s : Bool) (p : ℤ) → queue both_dropped s p ≡ remaining reduced (queue w.book s p)
  unfolding get_order
  queue_after s p =
      let all = remaining-all reduced (queue both_dropped s p) (λ r i.
        let known = both_Dropped.linked.listed s p r i in
        ground (arith, IsLive-after (reduced r).id r known.2)) in
      sym all ∙ remaining-drop ask both_Dropped s p ∙ remaining-drop bid bid_Dropped s p

  stays :
      (id r : ℕ)
      → get_order w.book id ≡ some r
      → (get_order both_dropped id ≡ some r)
        ⊎ ((get_order both_dropped id ≡ none) × ((reduced r).quantity ≡ 0))
  stays id r e = ground (
    arith,
    bid_Dropped.mapped id,
    both_Dropped.mapped id,
    bid_front.known,
    ask_front.known,
    (reduced-SameKeys bid).0,
    (reduced-SameKeys ask).0,
  )

  size_after : size both_dropped < size w.book
  size_after =
      ground (arith, one_filled, bid_Dropped.sized, both_Dropped.sized, reduced_bid, reduced_ask)

  price_rule : ℤ
  price_rule = match_price (w.heap bid) (w.heap ask)

  older :
      ((price_rule ≡ (w.heap bid).price_scaled)
        × ((w.heap bid).timestamp_ns <ℤ (w.heap ask).timestamp_ns))
      ⊎ ((price_rule ≡ (w.heap ask).price_scaled)
          × ((w.heap ask).timestamp_ns ≤ℤ (w.heap bid).timestamp_ns))
  unfolding price_rule match_price
  older = ground arith

  others : (r : ℕ) → (r ≡ bid) ⊎ ((r ≡ ask) ⊎ (reduced r ≡ w.heap r))
  others r = ground (arith, reduced_other r)

  -- The price lies between the two limits.
  price_bounds : (w.book.best_ask_price ≤ℤ price_rule) × (price_rule ≤ℤ w.book.best_bid_price)
  unfolding price_rule match_price
  price_bounds = ground (arith, bid_front.at_price, ask_front.at_price, c.crossed)

-- A round on a well-formed book whose best prices cross leaves it well formed.
pub trade_pair-IsValid :
    (clock : Clock) (w : World) (m : Matcher) (bid ask : ℕ)
    → IsValid w
    → Crossing w.heap w.book bid ask
    → IsValid (trade_pair clock w m bid ask).0
unfolding trade_pair execute_trade
trade_pair-IsValid clock w m bid ask v c = record {
  linked = (both_Dropped w bid ask v c).linked;
  live = IsLive-after w bid ask v c;
}

-- On a well-formed book whose best prices cross, a round takes the smaller of the two fronts'
-- quantities from both, at the price of the older, which lies between the best prices; it logs that
-- one trade, drops what is filled from the queues, and leaves all other orders alone.
pub trade_pair-Traded :
    (clock : Clock) (w : World) (m : Matcher) (bid ask : ℕ)
    → IsValid w
    → Crossing w.heap w.book bid ask
    → let (w', m') = trade_pair clock w m bid ask in Traded w m bid ask w' m'
unfolding trade_pair execute_trade price_rule
trade_pair-Traded clock w m bid ask v c = record {
  trade = _;
  last = refl;
  logged = refl;
  buyer = refl;
  seller = refl;
  positive = (amount_bounds w bid ask v c).0;
  from_bid = reduced_bid w bid ask v c;
  from_ask = reduced_ask w bid ask v c;
  one_done =
      ground
        (arith, one_filled w bid ask v c, reduced_bid w bid ask v c, reduced_ask w bid ask v c);
  at_least = (price_bounds w bid ask v c).0;
  at_most = (price_bounds w bid ask v c).1;
  older_sets_price = older w bid ask v c;
  queued = queue_after w bid ask v c;
  stays = stays w bid ask v c;
  unknown = λ id e.
      ground (arith, (bid_Dropped w bid ask v c).mapped id, (both_Dropped w bid ask v c).mapped id);
  falling = falling w bid ask v c;
  others = others w bid ask v c;
  fewer = size_after w bid ask v c;
}
