-- ===== src/Timestamp/Counters.antt =====
-- The ways in which include/utils/Timestamp.hpp reads the cycle counter without an intrinsic.
use trading_matcher.Base.{ℕ, ◌*◌, ◌%◌, ◌^◌, ℤ, pos, negsuc, ◌-◌}
use trading_matcher.Timestamp.{Clock, to_ns}
use trading_matcher.Timestamp.Timers.{CycleCounter}
use Prim.Native.Nat.{bit_or}

-- What the instruction leaves in its registers, by the number of the reading.
pub record Registers : Type 0 where
  pub lo : ℕ
  pub hi : ℕ

-- `((uint64_t)hi << 32) | lo`, of `rdtsc` and of `rdtscp`, which drops its third register.
unfoldable pub joined : Registers → ℕ
joined r = bit_or (r.hi * 2 ^ 32 % 2 ^ 64) r.lo

abbrev pub rdtsc : (ℕ → Registers) → CycleCounter
rdtsc registers n = joined (registers n)

-- An int64_t as a uint64_t.
abbrev pub to_unsigned : ℤ → ℕ
to_unsigned (pos n) = n % 2 ^ 64
to_unsigned (negsuc n) = 2 ^ 64 - 1 - n % 2 ^ 64

-- Where there is no counter: the time of CLOCK_MONOTONIC.
abbrev pub rdtsc_by_clock : Clock → CycleCounter
rdtsc_by_clock clock n = to_unsigned (to_ns (clock n))
