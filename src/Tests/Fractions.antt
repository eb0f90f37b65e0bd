-- ===== src/Tests/Fractions.antt =====
-- Nonnegative fractions in the place of `double`, to run what computes with it.
use trading_matcher.Base.{ℕ, ◌+◌, ◌*◌, ◌/◌, pos, pos_part}
use trading_matcher.Timestamp.Doubles.{Doubles}

pub record Fraction : Type 0 where
  pub num : ℕ
  pub den : ℕ

abbrev pub fractions : Doubles
fractions = record {
  Double = Fraction;
  literal = λ a b. record { num = a; den = b };
  of_int = λ z. record { num = pos_part z; den = 1 };
  plus = λ x y. record { num = x.num * y.den + y.num * x.den; den = x.den * y.den };
  times = λ x y. record { num = x.num * y.num; den = x.den * y.den };
  over = λ x y. record { num = x.num * y.den; den = x.den * y.num };
  to_int64 = λ x. pos (x.num / x.den);
  to_uint64 = λ x. x.num / x.den;
}
