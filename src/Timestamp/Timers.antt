-- ===== src/Timestamp/Timers.antt =====
-- The latency timers and `RDTSCCalibrator` of include/utils/Timestamp.hpp. The cycle counter is a
-- parameter, by the number of the reading, as the clock is.
use trading_matcher.Base.{
  ℕ, ◌+◌, ◌-◌, ◌%◌, ◌^◌, ltb, ltb_ℤ, ℤ, pos, ◌+ℤ◌, ◌-ℤ◌, ◌*ℤ◌, div_ℤ, Bool, true, false, ◌&&◌,
  if◌then◌else◌,
}
use trading_matcher.Timestamp.{Clock, get_monotonic_ns}
use trading_matcher.Timestamp.Doubles.{Doubles}

pub record LatencyTimer : Type 0 where
  pub start_ns : ℤ

-- `LatencyTimer()`
abbrev pub new_timer : Clock → ℕ → LatencyTimer
new_timer clock n = record { start_ns = get_monotonic_ns clock n }

-- `reset`
abbrev pub reset_timer : Clock → ℕ → LatencyTimer → LatencyTimer
reset_timer clock n timer = record timer { start_ns = get_monotonic_ns clock n }

unfoldable pub elapsed_ns : Clock → ℕ → LatencyTimer → ℤ
unfolding ◌-ℤ◌
elapsed_ns clock n timer = get_monotonic_ns clock n -ℤ timer.start_ns

unfoldable pub elapsed_us : Clock → ℕ → LatencyTimer → ℤ
unfolding elapsed_ns
elapsed_us clock n timer = div_ℤ (elapsed_ns clock n timer) 1000

-- `rdtsc()`, which counts modulo 2^64.
abbrev pub CycleCounter : Type 0
CycleCounter = ℕ → ℕ

abbrev pub sub_u64 : ℕ → ℕ → ℕ
sub_u64 a b = (a + 2 ^ 64 - b) % 2 ^ 64

pub record LatencyTimerRdtsc : Type 0 where
  pub start_cycles : ℕ

abbrev pub new_rdtsc_timer : CycleCounter → ℕ → LatencyTimerRdtsc
new_rdtsc_timer tsc n = record { start_cycles = tsc n }

abbrev pub reset_rdtsc_timer : CycleCounter → ℕ → LatencyTimerRdtsc → LatencyTimerRdtsc
reset_rdtsc_timer tsc n timer = record timer { start_cycles = tsc n }

unfoldable pub elapsed_cycles : CycleCounter → ℕ → LatencyTimerRdtsc → ℕ
elapsed_cycles tsc n timer = sub_u64 (tsc n) timer.start_cycles

-- The readings made so far, of the clock and of the counter.
pub record Readings : Type 0 where
  pub clock_reads : ℕ
  pub cycle_reads : ℕ

module _ (d : Doubles) where
  open d use {Double, literal, of_int, times, over, to_int64, to_uint64}

  pub record Calibrator : Type 0 where
    pub calibrated : Bool
    pub cycles_per_ns : Double
    pub ns_per_cycle : Double

  -- The initial values of the static members.
  abbrev pub new_calibrator : Calibrator
  new_calibrator = record {
    calibrated = false;
    cycles_per_ns = literal 25 10;
    ns_per_cycle = literal 4 10;
  }

  module _ (clock : Clock) (tsc : CycleCounter) where
    -- The measurement of `calibrate`: two readings of each.
    unfoldable pub measure : Readings → Calibrator
    unfolding ◌+ℤ◌ ◌-ℤ◌ ◌*ℤ◌
    measure r =
        let ts_start = clock r.clock_reads in
        let ts_end = clock (r.clock_reads + 1) in
        let ns_elapsed =
          (ts_end.tv_sec -ℤ ts_start.tv_sec) *ℤ pos 1_000_000_000
          +ℤ (ts_end.tv_nsec -ℤ ts_start.tv_nsec) in
        let cycles_elapsed = sub_u64 (tsc (r.cycle_reads + 1)) (tsc r.cycle_reads) in
        if ltb 0 cycles_elapsed && ltb_ℤ (pos 0) ns_elapsed
        then (let rate = over (of_int (pos cycles_elapsed)) (of_int ns_elapsed) in
            record {
              calibrated = true;
              cycles_per_ns = rate;
              ns_per_cycle = over (literal 1 1) rate;
            })
        else record {
          calibrated = true;
          cycles_per_ns = literal 25 10;
          ns_per_cycle = literal 4 10;
        }

    unfoldable pub calibrate : Readings → Calibrator → Readings × Calibrator
    calibrate r c = if c.calibrated then (r, c) else (
      record { clock_reads = r.clock_reads + 2; cycle_reads = r.cycle_reads + 2 },
      measure r,
    )

    unfoldable pub cycles_to_ns : Readings → Calibrator → ℕ → Readings × Calibrator × ℤ
    cycles_to_ns r c cycles =
        let (r', c') = calibrate r c in
        (r', c', to_int64 (times (of_int (pos cycles)) c'.ns_per_cycle))

    unfoldable pub ns_to_cycles : Readings → Calibrator → ℤ → Readings × Calibrator × ℕ
    ns_to_cycles r c ns =
        let (r', c') = calibrate r c in (r', c', to_uint64 (times (of_int ns) c'.cycles_per_ns))

    -- `getTimestampNsRDTSC`
    unfoldable pub get_timestamp_ns_rdtsc : Readings → Calibrator → Readings × Calibrator × ℤ
    get_timestamp_ns_rdtsc r c =
        cycles_to_ns (record r { cycle_reads = r.cycle_reads + 1 }) c (tsc r.cycle_reads)

    -- `LatencyTimerRDTSC::elapsedNs`
    unfoldable pub rdtsc_elapsed_ns :
        Readings → Calibrator → LatencyTimerRdtsc → Readings × Calibrator × ℤ
    rdtsc_elapsed_ns r c timer =
        cycles_to_ns (record r { cycle_reads = r.cycle_reads + 1 }) c
          (elapsed_cycles tsc r.cycle_reads timer)

    unfoldable pub rdtsc_elapsed_us :
        Readings → Calibrator → LatencyTimerRdtsc → Readings × Calibrator × ℤ
    rdtsc_elapsed_us r c timer =
        let (r', c', ns) = rdtsc_elapsed_ns r c timer in (r', c', div_ℤ ns 1000)
