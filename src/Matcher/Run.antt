-- ===== src/Matcher/Run.antt =====
-- The loop of `matchOrders` as a whole.
use trading_matcher.Base.{
  ℕ, zero, suc, ◌≡◌, ◌⊎◌, refl, sym, ◌∙◌, ap, inl, inr, ◌+◌, ◌%◌, ◌≤◌, ◌<◌, ◌^◌, ℤ, Bool, false,
  none, some, List, [], ◌∷◌, ◌++◌, ◌==◌, if◌then◌else◌, arith, length,
}
use mathlib.Core.List.{append-nil, append_assoc}
use trading_matcher.Timestamp.{Clock}
use trading_matcher.OrderBook.{World, get_order, has_match}
use trading_matcher.OrderBook.View.{queue}
use trading_matcher.OrderBook.Invariant.{IsValid}
use trading_matcher.OrderBook.Best.{Crossing}
use trading_matcher.OrderBook.Size.{size}
use trading_matcher.Matcher.{Trade, Matcher, next_pair, trade_pair, match_loop, match_orders}
use trading_matcher.Matcher.Pair.{next_pair_cases}
use trading_matcher.Matcher.Remaining.{remaining, remaining-all, remaining-remaining}
use trading_matcher.Matcher.Traded.{Traded}
use trading_matcher.Matcher.Round.{trade_pair-IsValid, trade_pair-Traded}

-- What order `id` has bought or sold in these trades.
abbrev pub traded : ℕ → List Trade → ℕ
traded id [] = 0
traded id (t ∷ ts) =
    (if t.buy_order_id == id then t.quantity else (if t.sell_order_id == id then t.quantity else 0))
    + traded id ts

-- The state of the book and the log after these trades.
pub record Outcome (w : World) (m : Matcher) (trades : List Trade) (w' : World) (m' : Matcher)
    : Type 0 where
  pub valid : IsValid w'
  pub settled : has_match w'.book ≡ false
  pub logged : m'.logged ≡ m.logged ++ trades
  pub queued : (s : Bool) (p : ℤ) → queue w'.book s p ≡ remaining w'.heap (queue w.book s p)
  pub falling : (r : ℕ) → (w'.heap r).quantity ≤ (w.heap r).quantity
  pub balanced :
      (id r : ℕ)
      → get_order w.book id ≡ some r
      → (w'.heap r).quantity + traded id trades ≡ (w.heap r).quantity
  pub idle : (id : ℕ) → get_order w.book id ≡ none → traded id trades ≡ 0
  pub stays :
      (id r : ℕ)
      → get_order w.book id ≡ some r
      → (get_order w'.book id ≡ some r)
        ⊎ ((get_order w'.book id ≡ none) × ((w'.heap r).quantity ≡ 0))
  pub unknown : (id : ℕ) → get_order w.book id ≡ none → get_order w'.book id ≡ none

remaining-valid :
    (w : World) (s : Bool) (p : ℤ)
    → IsValid w
    → remaining w.heap (queue w.book s p) ≡ queue w.book s p
remaining-valid w s p v =
    remaining-all w.heap (queue w.book s p)
      (λ r i. ground (arith, v.live (w.heap r).id r (v.linked.listed s p r i).2))

stay : (w : World) (m : Matcher) → IsValid w → has_match w.book ≡ false → Outcome w m [] w m
stay w m v e = record {
  valid = v;
  settled = e;
  logged = sym (append-nil m.logged);
  queued = λ s p. sym (remaining-valid w s p v);
  falling = λ r. omega arith;
  balanced = λ id r k. omega arith;
  idle = λ id k. refl;
  stays = λ id r k. inl k;
  unknown = λ id k. k;
}

module _ {w w1 : World} {m m1 : Matcher} {bid ask : ℕ} (v : IsValid w)
    (c : Crossing w.heap w.book bid ask) (t : Traded w m bid ask w1 m1) where
  abbrev share : ℕ → ℕ
  share id = traded id (t.trade ∷ [])

  -- Each order in the book has given its share of the trade.
  share_lem :
      (id r : ℕ)
      → get_order w.book id ≡ some r
      → (w1.heap r).quantity + share id ≡ (w.heap r).quantity
  unfolding get_order
  share_lem id r e = ground (
    arith,
    t.buyer,
    t.seller,
    c.bid_front.known,
    c.ask_front.known,
    (v.linked.indexed id r e).0,
    t.from_bid,
    t.from_ask,
    t.others r,
    c.bid_front.side,
    c.ask_front.side,
  )

  share_unknown : (id : ℕ) → get_order w.book id ≡ none → share id ≡ 0
  share_unknown id e = ground (arith, t.buyer, t.seller, c.bid_front.known, c.ask_front.known)

  extend :
      {w' : World} {m' : Matcher} (ts : List Trade)
      → Outcome w1 m1 ts w' m'
      → Outcome w m (t.trade ∷ ts) w' m'
  extend {w'} {m'} ts o = record {
    valid = o.valid;
    settled = o.settled;
    logged = o.logged ∙ ap (λ l. l ++ ts) t.logged ∙ append_assoc m.logged (t.trade ∷ []) ts;
    queued = λ s p.
        o.queued s p
        ∙ ap (remaining w'.heap) (t.queued s p)
        ∙ remaining-remaining w1.heap w'.heap (queue w.book s p) o.falling;
    falling = λ r. omega (arith, o.falling r, t.falling r);
    balanced = λ id r e.
        ground (arith, share_lem id r e, t.stays id r e, o.balanced id r, o.idle id, o.falling r);
    idle = λ id e. omega (arith, share_unknown id e, o.idle id (t.unknown id e));
    stays = λ id r e. elim (t.stays id r e) [
      | inl k ↦ o.stays id r k
      | inr (k, z) ↦ inr (o.unknown id k, omega (arith, o.falling r, z))
    ];
    unknown = λ id e. o.unknown id (t.unknown id e);
  }

pub match_loop-zero :
    (clock : Clock) (w : World) (m : Matcher) (count : ℕ) → match_loop zero clock w m count ≡ none
unfolding match_loop
match_loop-zero clock w m count = refl

module _ (fuel : ℕ) (clock : Clock) (w : World) (m : Matcher) (count : ℕ) where
  pub match_loop-stop :
      next_pair w ≡ none → match_loop (suc fuel) clock w m count ≡ some (w, m, count)
  unfolding match_loop
  match_loop-stop e = rw (e, match_loop)

  pub match_loop-step :
      (bid ask : ℕ)
      → next_pair w ≡ some (bid, ask)
      → let (w', m') = trade_pair clock w m bid ask in
        match_loop (suc fuel) clock w m count ≡ match_loop fuel clock w' m' ((count + 1) % 2 ^ 64)
  unfolding match_loop
  match_loop-step bid ask e = rw (e, match_loop)

-- The counter of the loop after one more trade, with `k` to come.
pub counted_step : (count k : ℕ) → (count + 1 + k) % 2 ^ 64 ≡ (count + suc k) % 2 ^ 64
counted_step count k = ap (λ i. i % 2 ^ 64) (omega arith)

-- With more rounds than orders in the book the loop ends by its test.
match_loop-Outcome :
    (fuel : ℕ) (clock : Clock) (w : World) (m : Matcher) (count n : ℕ)
    → IsValid w
    → size w.book < fuel
    → n ≡ count % 2 ^ 64
    → (w' : World) × (m' : Matcher) × (trades : List Trade) × (match_loop fuel clock w m n
        ≡ some (w', m', (count + length trades) % 2 ^ 64))
      × Outcome w m trades w' m'
match_loop-Outcome zero clock w m count n v h k = absurd (omega arith)
match_loop-Outcome (suc fuel) clock w m count n v h k = elim (next_pair_cases w v.linked) [
  | inl (e, p) ↦
      let counted : n ≡ (count + 0) % 2 ^ 64 = omega arith in
      (
        w,
        m,
        [],
        match_loop-stop fuel clock w m n p ∙ ap (λ i. some (w, m, i)) counted,
        stay w m v e,
      )
  | inr (bid, ask, p, c) ↦
      let t = trade_pair-Traded clock w m bid ask v c in
      let next = trade_pair clock w m bid ask in
      let (w', m', ts, e, o) =
        match_loop-Outcome fuel clock next.0 next.1 (count + 1) ((n + 1) % 2 ^ 64)
          (trade_pair-IsValid clock w m bid ask v c) (omega (arith, t.fewer)) (omega arith) in
      (
        w',
        m',
        t.trade ∷ ts,
        match_loop-step fuel clock w m n bid ask p
            ∙ e
            ∙ ap (λ i. some (w', m', i)) (counted_step count (length ts)),
        extend v c t ts o,
      )
]

-- `matchOrders` ends on every well-formed book, within one round more than the book has orders. The
-- count that it returns is the number of the trades that it has logged, modulo 2^64. Then the book is
-- well formed and `hasMatch` says no; each queue is what it was without the filled orders, in the
-- same order; each order has lost exactly what the logged trades give it; and each id still leads to
-- its order, or, if nothing is left of this order, to none.
pub match_orders-Outcome :
    (fuel : ℕ) (clock : Clock) (w : World) (m : Matcher)
    → IsValid w
    → size w.book < fuel
    → (w' : World) × (m' : Matcher) × (trades : List Trade) × (match_orders fuel clock w m
        ≡ some (w', m', length trades % 2 ^ 64))
      × Outcome w m trades w' m'
unfolding match_orders
match_orders-Outcome fuel clock w m v h =
    let (w', m', ts, e, o) = match_loop-Outcome fuel clock w m 0 0 v h (omega arith) in
    (w', m', ts, e ∙ ap (λ i. some (w', m', i)) (ap (λ i. i % 2 ^ 64) (omega arith)), o)
