-- ===== src/Timestamp.antt =====
-- include/utils/Timestamp.hpp: timestamps; `Timers` has the timers, and `Counters` readings of the
-- cycle counter. The answers of `clock_gettime` are a parameter, a sequence of `timespec` values, one
-- for each call.
pub mod Doubles
pub mod Timers
pub mod Cycles
pub mod Counters
pub mod Halves
use trading_matcher.Base.{ℕ, ℤ, pos, ◌+ℤ◌, ◌*ℤ◌, div_ℤ}

pub record Timespec : Type 0 where
  pub tv_sec : ℤ
  pub tv_nsec : ℤ

-- What the calls of `clock_gettime(CLOCK_REALTIME, …)` fill in, by the number of the call.
abbrev pub Clock : Type 0
Clock = ℕ → Timespec

unfoldable pub to_ns : Timespec → ℤ
unfolding ◌+ℤ◌ ◌*ℤ◌
to_ns ts = ts.tv_sec *ℤ pos 1_000_000_000 +ℤ ts.tv_nsec

-- `getTimestampNs`, at the `n`-th reading of the clock.
unfoldable pub get_timestamp_ns : Clock → ℕ → ℤ
unfolding to_ns
get_timestamp_ns clock n = to_ns (clock n)

unfoldable pub get_timestamp_us : Clock → ℕ → ℤ
unfolding get_timestamp_ns
get_timestamp_us clock n = div_ℤ (get_timestamp_ns clock n) 1000

-- `getMonotonicNs`, over the answers for CLOCK_MONOTONIC.
unfoldable pub get_monotonic_ns : Clock → ℕ → ℤ
unfolding to_ns
get_monotonic_ns clock n = to_ns (clock n)
