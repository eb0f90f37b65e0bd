-- ===== src/Order/Priority.antt =====
-- The two comparison operators.
use trading_matcher.Base.{true, false, not, ◌≡◌, ◌≢◌, ◌⊎◌, eqb_ℤ_iff, eq_of_parts, ◌<ℤ◌, ◌↔◌, arith}
use trading_matcher.Order.{Order, order_lt, order_gt}

-- At one price both operators put the earlier order first, and agree. At two prices each is total, and
-- `operator>` is `operator<` with the orders exchanged.
pub price_time_priority :
    (a b : Order)
    → ((a.price_scaled ≡ b.price_scaled)
        × (order_lt a b ≡ order_gt a b)
        × ((order_lt a b ≡ true) ↔ (a.timestamp_ns <ℤ b.timestamp_ns)))
      ⊎ ((a.price_scaled ≢ b.price_scaled)
          × (order_lt a b ≡ order_gt b a)
          × (order_lt a b ≡ not (order_lt b a)))
unfolding order_lt order_gt
price_time_priority a b = ground (
  arith,
  eqb_ℤ_iff a.price_scaled b.price_scaled,
  eqb_ℤ_iff b.price_scaled a.price_scaled,
  eq_of_parts a.price_scaled b.price_scaled,
)

-- `operator>` is transitive, and never holds both ways.
pub order_gt-strict :
    (a b c : Order)
    → order_gt a b ≡ true
    → order_gt b c ≡ true
    → (order_gt a c ≡ true) × (order_gt b a ≡ false)
unfolding order_gt
order_gt-strict a b c p q = ground (
  arith,
  eqb_ℤ_iff a.price_scaled b.price_scaled,
  eqb_ℤ_iff b.price_scaled c.price_scaled,
  eqb_ℤ_iff a.price_scaled c.price_scaled,
  eqb_ℤ_iff b.price_scaled a.price_scaled,
)
