-- ===== src/Timestamp/Doubles.antt =====
-- The arithmetic of `double` that the program uses, as an interface: nothing is assumed of it here.
use trading_matcher.Base.{ℕ, ℤ}

pub record Doubles : Type 1 where
  pub Double : Type 0
  pub literal : ℕ → ℕ → Double  -- the literal that is written as this decimal fraction
  pub of_int : ℤ → Double  -- `static_cast<double>` of an integer of 64 bits
  pub plus : Double → Double → Double
  pub times : Double → Double → Double
  pub over : Double → Double → Double
  pub to_int64 : Double → ℤ
  pub to_uint64 : Double → ℕ
