-- ===== src/Order.antt =====
-- include/order_matching/Order.hpp: the order record and its comparison operators.
-- Prices and timestamps are int64_t values, kept as integers, since the code only compares them;
-- an order's id and quantity are uint32_t values.
pub mod Priority
use trading_matcher.Base.{ℕ, ℤ, pos, Bool, ltb_ℤ, eqb_ℤ, ◌==◌, if◌then◌else◌, not}
use trading_matcher.Timestamp.Doubles.{Doubles}

pub record Order : Type 0 where
  pub id : ℕ
  pub quantity : ℕ
  pub price_scaled : ℤ
  pub timestamp_ns : ℤ
  pub side : ℕ
  pub order_type : ℕ
  pub reserved : ℕ

-- `Order()`
abbrev pub empty_order : Order
empty_order = record {
  id = 0;
  quantity = 0;
  price_scaled = pos 0;
  timestamp_ns = pos 0;
  side = 0;
  order_type = 0;
  reserved = 0;
}

-- `Order(id_, isBuyOrder_, quantity_, price_scaled_, timestamp_ns_, order_type_)`
abbrev pub make_order : ℕ → Bool → ℕ → ℤ → ℤ → ℕ → Order
make_order id is_buy_order quantity price timestamp order_type = record {
  id = id;
  quantity = quantity;
  price_scaled = price;
  timestamp_ns = timestamp;
  side = if is_buy_order then 0 else 1;
  order_type = order_type;
  reserved = 0;
}

abbrev pub is_buy : Order → Bool
is_buy o = o.side == 0

abbrev pub is_sell : Order → Bool
is_sell o = o.side == 1

-- `operator<`
unfoldable pub order_lt : Order → Order → Bool
order_lt a b =
    if not (eqb_ℤ a.price_scaled b.price_scaled)
    then ltb_ℤ a.price_scaled b.price_scaled
    else ltb_ℤ a.timestamp_ns b.timestamp_ns

-- `operator>`
unfoldable pub order_gt : Order → Order → Bool
order_gt a b =
    if not (eqb_ℤ a.price_scaled b.price_scaled)
    then ltb_ℤ b.price_scaled a.price_scaled
    else ltb_ℤ a.timestamp_ns b.timestamp_ns

-- PRICE_SCALE
abbrev pub price_scale : ℕ
price_scale = 1_000_000

-- `priceAsDouble` and `doubleToPrice`
unfoldable pub price_as_double : (d : Doubles) → Order → d.Double
price_as_double d o = d.over (d.of_int o.price_scaled) (d.of_int (pos price_scale))

unfoldable pub double_to_price : (d : Doubles) → d.Double → ℤ
double_to_price d price =
    d.to_int64 (d.plus (d.times price (d.of_int (pos price_scale))) (d.literal 5 10))
