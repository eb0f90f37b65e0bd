-- ===== src/OrderBook/Spread.antt =====
-- `getSpread` against the best prices.
use trading_matcher.Base.{
  ◌-◌, ◌^◌, ◌≡◌, ◌⊎◌, ℤ, pos, ◌≤ℤ◌, ◌<ℤ◌, ◌-ℤ◌, ◌+ℤ◌, true, false, some, arith,
}
use trading_matcher.OrderBook.{OrderBook, get_spread, has_match}

-- Between two positive int64_t prices the subtraction cannot overflow: with both sides present the
-- spread is the ask less the bid, and it is at most 0 exactly if `hasMatch` says that they cross.
pub get_spread_lem :
    (b : OrderBook)
    → pos 0 <ℤ b.best_bid_price
    → pos 0 <ℤ b.best_ask_price
    → b.best_bid_price ≤ℤ pos (2 ^ 63 - 1)
    → b.best_ask_price ≤ℤ pos (2 ^ 63 - 1)
    → (d : ℤ) × (get_spread b ≡ some d)
      × (d +ℤ b.best_bid_price ≡ b.best_ask_price)
      × (((has_match b ≡ true) × (d ≤ℤ pos 0)) ⊎ ((has_match b ≡ false) × (pos 0 <ℤ d)))
unfolding get_spread has_match ◌-ℤ◌ ◌+ℤ◌
get_spread_lem b p q r s =
    (b.best_ask_price -ℤ b.best_bid_price, ground arith, ground arith, ground arith)
