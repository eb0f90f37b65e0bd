-- ===== src/Matcher/Miscount.antt =====
-- What a partial fill does to the counters of the levels: `executeTrade` lowers the quantities of the
-- orders, and not the totals of their levels.
use trading_matcher.Base.{
  ℕ, ◌≡◌, ◌≢◌, ◌⊎◌, refl, sym, ◌∙◌, ap, subst, inl, inr, ◌+◌, ◌<◌, ◌^◌, ℤ, Bool, true, false, not,
  some, List, [], ◌∷◌, ◌==◌, Bool-cases, Option-cases, arith, In, Distinct,
}
use native.Mathlib.Decide.{ℕ_discrete as dec_eq}
use trading_matcher.Timestamp.{Clock}
use trading_matcher.Order.{is_buy}
use trading_matcher.Ladder.{find}
use trading_matcher.PriceLevel.{Heap, PriceLevel}
use trading_matcher.OrderBook.{
  OrderBook, World, get_order, cancel_order, cancel_bid, cancel_ask, update_best_bid,
  update_best_ask,
}
use trading_matcher.OrderBook.View.{ladder, queue_of}
use trading_matcher.OrderBook.Invariant.{IsLinked, IsValid}
use trading_matcher.OrderBook.Best.{Front, Crossing}
use trading_matcher.OrderBook.Counted.{volume, IsCounted, AllCounted}
use trading_matcher.Matcher.{Matcher, match_qty, reduce, drop_filled, execute_trade, trade_pair}
use trading_matcher.Matcher.Round.{amount_bounds, reduced_bid, reduced_ask}

cancel_bid-ladder :
    (h : Heap) (b : OrderBook) (id : ℕ) (p : ℤ)
    → (cancel_bid h b id p).0.sell_levels ≡ b.sell_levels
unfolding cancel_bid update_best_bid
cancel_bid-ladder h b id p = elim (Option-cases (find p b.buy_levels)) [
  | inl e ↦ rw (e, cancel_bid) refl
  | inr (level, e) ↦ rw (e, cancel_bid) refl
]

cancel_ask-ladder :
    (h : Heap) (b : OrderBook) (id : ℕ) (p : ℤ) → (cancel_ask h b id p).0.buy_levels ≡ b.buy_levels
unfolding cancel_ask update_best_ask
cancel_ask-ladder h b id p = elim (Option-cases (find p b.sell_levels)) [
  | inl e ↦ rw (e, cancel_ask) refl
  | inr (level, e) ↦ rw (e, cancel_ask) refl
]

-- A cancellation leaves the ladder of the other side alone.
cancel_order-ladder :
    (h : Heap) (b : OrderBook) (id r : ℕ) (s : Bool)
    → b.order_map id ≡ some r
    → is_buy (h r) ≡ not s
    → ladder s (cancel_order h b id).0 ≡ ladder s b
unfolding cancel_order
cancel_order-ladder h b id r true e side =
    rw (e, cancel_order) (rw side (ground (arith, cancel_ask-ladder h b id (h r).price_scaled)))
cancel_order-ladder h b id r false e side =
    rw (e, cancel_order) (rw side (ground (arith, cancel_bid-ladder h b id (h r).price_scaled)))

drop_filled-ladder :
    (h : Heap) (b : OrderBook) (r : ℕ) (s : Bool)
    → b.order_map (h r).id ≡ some r
    → is_buy (h r) ≡ not s
    → ladder s (drop_filled h b r) ≡ ladder s b
unfolding drop_filled
drop_filled-ladder h b r s e side = elim (Bool-cases ((h r).quantity == 0)) [
  | inl f ↦ rw f (cancel_order-ladder h b (h r).id r s e side)
  | inr f ↦ rw f refl
]

volume-same :
    (h g : Heap) (xs : List ℕ)
    → ((r : ℕ) → In r xs → (g r).quantity ≡ (h r).quantity)
    → volume g xs ≡ volume h xs
unfolding volume
volume-same h g [] e = refl
volume-same h g (x ∷ xs) e = omega (arith, e x (inl refl), volume-same h g xs (λ r i. e r (inr i)))

-- One order of the queue lowered by `k`.
volume-lowered :
    (h g : Heap) (x k : ℕ) (xs : List ℕ)
    → (g x).quantity + k ≡ (h x).quantity
    → ¬ In x xs
    → ((r : ℕ) → In r xs → (g r).quantity ≡ (h r).quantity)
    → volume g (x ∷ xs) + k ≡ volume h (x ∷ xs)
unfolding volume
volume-lowered h g x k xs l n e = omega (arith, l, volume-same h g xs e)

-- A level that is the same before and after cannot have the right total twice.
stale :
    (h g : Heap) (level : PriceLevel) (x k : ℕ) (xs : List ℕ)
    → level.orders ≡ x ∷ xs
    → (g x).quantity + k ≡ (h x).quantity
    → ¬ In x xs
    → ((r : ℕ) → In r xs → (g r).quantity ≡ (h r).quantity)
    → 0 < k
    → k < 2 ^ 32
    → IsCounted h level
    → ¬ IsCounted g level
stale h g level x k xs o l n e p s c d = omega (
  arith,
  c.totalled,
  d.totalled,
  ap (volume h) o,
  ap (volume g) o,
  volume-lowered h g x k xs l n e,
)

pub not_self : (s : Bool) → s ≢ not s
not_self true e = absurd (cc)
not_self false e = absurd (cc)

-- The side of a trade whose order stays in the book.
side-stale :
    (h g : Heap) (b b' : OrderBook) (s : Bool) (p : ℤ) (x y k : ℕ)
    → IsLinked h b
    → Front h b s p x
    → is_buy (h y) ≡ not s
    → ladder s b' ≡ ladder s b
    → ((r : ℕ) → r ≢ x → r ≢ y → (g r).quantity ≡ (h r).quantity)
    → (g x).quantity + k ≡ (h x).quantity
    → 0 < k
    → k < 2 ^ 32
    → AllCounted h b
    → ¬ AllCounted g b'
side-stale h g b b' s p x y k v front other same e l pos_k small c d =
    let (rest, q) = front.behind in
    elim (Option-cases (find p (ladder s b))) [
      | inl f ↦ absurd (ground (arith, f, q))
      | inr (level, f) ↦
          let o : level.orders ≡ x ∷ rest = sym (ap queue_of f) ∙ q in
          let distinct : Distinct (x ∷ rest) = subst Distinct q (v.distinct s p) in
          let keep : (r : ℕ) → In r rest → (g r).quantity ≡ (h r).quantity = λ r i.
            let side : is_buy (h r) ≡ s = (v.listed s p r (subst (In r) (sym q) (inr i))).0 in
            e r (λ z. distinct.0 (subst (λ u. In u rest) z i))
              (λ z. not_self s (sym side ∙ ap (λ u. is_buy (h u)) z ∙ other)) in
          stale h g level x k rest o l distinct.0 keep pos_k small (c s p level f)
            (d s p level (ap (find p) same ∙ f))
    ]

module _ (w : World) (bid ask : ℕ) (v : IsValid w) (c : Crossing w.heap w.book bid ask) where
  abbrev amount : ℕ
  amount = match_qty (w.heap bid) (w.heap ask)

  abbrev after : Heap
  after = reduce (reduce w.heap bid amount) ask amount

  pub others-same : (r : ℕ) → r ≢ bid → r ≢ ask → (after r).quantity ≡ (w.heap r).quantity
  others-same r n m = ground arith

  pub same_keys :
      (r : ℕ)
      → ((after r).id ≡ (w.heap r).id)
        × ((after r).side ≡ (w.heap r).side)
        × ((after r).timestamp_ns ≡ (w.heap r).timestamp_ns)
  same_keys r = ground arith

  small : amount < 2 ^ 32
  unfolding get_order
  small =
      omega
        (arith, (amount_bounds w bid ask v c).1, (v.live (w.heap bid).id bid c.bid_front.known).1)

  unfilled : (b : OrderBook) (r : ℕ) → (after r).quantity ≢ 0 → drop_filled after b r ≡ b
  unfolding drop_filled
  unfilled b r n = ground (arith, n)

  -- Which ladder is left alone, by which order stays.
  bid_stays :
      (after bid).quantity ≢ 0
      → ladder true (drop_filled after (drop_filled after w.book bid) ask) ≡ ladder true w.book
  unfolding get_order
  bid_stays n =
      ap (λ b. ladder true (drop_filled after b ask)) (unfilled w.book bid n)
      ∙ drop_filled-ladder after w.book ask true
          (ap w.book.order_map (same_keys ask).0 ∙ c.ask_front.known)
          (ap (λ s. s == 0) (same_keys ask).1 ∙ c.ask_front.side)

  ask_stays :
      (after ask).quantity ≢ 0
      → ladder false (drop_filled after (drop_filled after w.book bid) ask) ≡ ladder false w.book
  unfolding get_order
  ask_stays n =
      ap (ladder false) (unfilled (drop_filled after w.book bid) ask n)
      ∙ drop_filled-ladder after w.book bid false
          (ap w.book.order_map (same_keys bid).0 ∙ c.bid_front.known)
          (ap (λ s. s == 0) (same_keys bid).1 ∙ c.bid_front.side)

  one_stays :
      (w.heap bid).quantity ≢ (w.heap ask).quantity
      → ((after bid).quantity ≢ 0) ⊎ ((after ask).quantity ≢ 0)
  one_stays n = elim (dec_eq (after bid).quantity 0) [
    | no k ↦ inl k
    | yes e ↦
        inr (λ f. n (omega (arith, e, f, reduced_bid w bid ask v c, reduced_ask w bid ask v c)))
  ]

-- After a trade between orders of different quantities, in a well-formed book whose counters are all
-- right, they are not all right.
pub trade_pair-miscounts :
    (clock : Clock) (w : World) (m : Matcher) (bid ask : ℕ)
    → IsValid w
    → Crossing w.heap w.book bid ask
    → (w.heap bid).quantity ≢ (w.heap ask).quantity
    → AllCounted w.heap w.book
    → ¬ AllCounted (trade_pair clock w m bid ask).0.heap (trade_pair clock w m bid ask).0.book
unfolding trade_pair execute_trade
trade_pair-miscounts clock w m bid ask v c n counted =
    let pos = (amount_bounds w bid ask v c).0 in
    elim (one_stays w bid ask v c n) [
      | inl stays ↦
          side-stale w.heap (after w bid ask v c) w.book _ true w.book.best_bid_price bid ask
            (amount w bid ask v c) v.linked c.bid_front c.ask_front.side
            (bid_stays w bid ask v c stays) (others-same w bid ask v c) (reduced_bid w bid ask v c)
            pos (small w bid ask v c) counted
      | inr stays ↦
          side-stale w.heap (after w bid ask v c) w.book _ false w.book.best_ask_price ask bid
            (amount w bid ask v c) v.linked c.ask_front c.bid_front.side
            (ask_stays w bid ask v c stays) (λ r i j. others-same w bid ask v c r j i)
            (reduced_ask w bid ask v c) pos (small w bid ask v c) counted
    ]
