-- ===== src/Matcher/Pair.antt =====
-- Which two orders the loop of `matchOrders` trades next, and when it stops.
use trading_matcher.Base.{ℕ, ◌≡◌, ◌⊎◌, inl, inr, true, false, none, some, Bool-cases, arith}
use trading_matcher.OrderBook.{World, has_match}
use trading_matcher.OrderBook.Invariant.{IsLinked}
use trading_matcher.OrderBook.Best.{Crossing, has_match-Crossing}
use trading_matcher.Matcher.{next_pair}

pub next_pair-none : (w : World) → has_match w.book ≡ false → next_pair w ≡ none
unfolding next_pair
next_pair-none w e = rw e

-- The two null checks and the price check of the loop never stop it on a well-formed book.
pub next_pair-some :
    (w : World)
    → IsLinked w.heap w.book
    → has_match w.book ≡ true
    → (bid : ℕ) × (ask : ℕ) × (next_pair w ≡ some (bid, ask)) × Crossing w.heap w.book bid ask
unfolding next_pair
next_pair-some w v e =
    let (bid, ask, eb, ea, c) = has_match-Crossing w.heap w.book v e in
    let front = c.bid_front in
    let front' = c.ask_front in
    (bid, ask, ground (arith, eb, ea, e, front.at_price, front'.at_price, c.crossed), c)

-- The loop goes on exactly as long as `hasMatch` says so.
pub next_pair_cases :
    (w : World)
    → IsLinked w.heap w.book
    → ((has_match w.book ≡ false) × (next_pair w ≡ none))
      ⊎ ((bid : ℕ) × (ask : ℕ) × (next_pair w ≡ some (bid, ask)) × Crossing w.heap w.book bid ask)
next_pair_cases w v = elim (Bool-cases (has_match w.book)) [
  | inl e ↦ inr (next_pair-some w v e)
  | inr e ↦ inl (e, next_pair-none w e)
]
