-- ===== src/Timestamp/Cycles.antt =====
-- Cycle counts across a wrap of the counter, and the one calibration.
use trading_matcher.Base.{ℕ, ◌+◌, ◌-◌, ◌%◌, ◌^◌, ◌≤◌, ◌<◌, ◌≡◌, ap, pos, if◌then◌else◌, true, arith}
use trading_matcher.Timestamp.{Clock}
use trading_matcher.Timestamp.Doubles.{Doubles}
use trading_matcher.Timestamp.Timers.{
  CycleCounter, LatencyTimerRdtsc, elapsed_cycles, Readings, Calibrator, measure, calibrate,
  cycles_to_ns,
}

-- The elapsed cycles are right also when the counter wraps in between, if fewer than 2^64 pass.
pub elapsed_cycles_lem :
    (tsc : CycleCounter) (n t0 t1 : ℕ) (timer : LatencyTimerRdtsc)
    → t0 ≤ t1
    → t1 < t0 + 2 ^ 64
    → timer.start_cycles ≡ t0 % 2 ^ 64
    → tsc n ≡ t1 % 2 ^ 64
    → elapsed_cycles tsc n timer ≡ t1 - t0
unfolding elapsed_cycles
elapsed_cycles_lem tsc n t0 t1 timer l h s e = ground (arith, s, e)

module _ (d : Doubles) (clock : Clock) (tsc : CycleCounter) where
  measure-calibrated : (r : Readings) → (measure d clock tsc r).calibrated ≡ true
  unfolding measure
  measure-calibrated r = ground arith

  calibrate-keeps :
      (r : Readings) (c : Calibrator d) → c.calibrated ≡ true → calibrate d clock tsc r c ≡ (r, c)
  unfolding calibrate
  calibrate-keeps r c e =
      ap
        (λ b. if b then (r, c) else (
          record { clock_reads = r.clock_reads + 2; cycle_reads = r.cycle_reads + 2 },
          measure d clock tsc r,
        ))
        e

  calibrate-calibrated :
      (r : Readings) (c : Calibrator d) → (calibrate d clock tsc r c).1.calibrated ≡ true
  unfolding calibrate
  calibrate-calibrated r c = ground (arith, measure-calibrated r)

-- The calibration is made once: whatever is converted first fixes the factors, and no later
-- conversion reads the clock or changes them.
pub calibrate_once :
    (d : Doubles) (clock : Clock) (tsc : CycleCounter) (r r' : Readings) (c : Calibrator d)
    (first later : ℕ)
    → let (after, fixed, ns) = cycles_to_ns d clock tsc r c first in
      cycles_to_ns d clock tsc r' fixed later
      ≡ (r', fixed, d.to_int64 (d.times (d.of_int (pos later)) fixed.ns_per_cycle))
unfolding cycles_to_ns
calibrate_once d clock tsc r r' c first later =
    let fixed = (calibrate d clock tsc r c).1 in
    ap (λ p. (p.0, p.1, d.to_int64 (d.times (d.of_int (pos later)) p.1.ns_per_cycle)))
      (calibrate-keeps d clock tsc r' fixed (calibrate-calibrated d clock tsc r c))
