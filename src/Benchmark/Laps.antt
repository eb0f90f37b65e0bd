-- ===== src/Benchmark/Laps.antt =====
-- Measurements one after the other.
use mathlib.Core.List.{append_assoc, append-nil}
use trading_matcher.Base.{
  ℕ, zero, suc, ◌+◌, ◌≡◌, refl, sym, ap, ◌∙◌, ℤ, ◌-ℤ◌, div_ℤ, List, [], ◌∷◌, ◌++◌, length,
}
use trading_matcher.Timestamp.{Clock, get_monotonic_ns}
use trading_matcher.Timestamp.Doubles.{Doubles}
use trading_matcher.Benchmark.{
  Benchmark, new_benchmark, start, stop, get_stats, calculate_stats, stats_of_sorted,
}
use trading_matcher.Benchmark.Sorted.{length-sort}

-- `start` and `stop`, the given number of times, from the reading `n` of the clock on.
pub laps : Clock → ℕ → ℕ → Benchmark → Benchmark
laps clock zero n b = b
laps clock (suc k) n b = laps clock k (n + 2) (stop clock (n + 1) (start clock n b))

-- The whole microseconds between the readings of each pair.
pub lap_times : Clock → ℕ → ℕ → List ℤ
lap_times clock zero n = []
lap_times clock (suc k) n =
    div_ℤ (get_monotonic_ns clock (n + 1) -ℤ get_monotonic_ns clock n) 1000
    ∷ lap_times clock k (n + 2)

length-lap_times : (clock : Clock) (k n : ℕ) → length (lap_times clock k n) ≡ k
unfolding lap_times
length-lap_times clock zero n = refl
length-lap_times clock (suc k) n = ap suc (length-lap_times clock k (n + 2))

laps-latencies :
    (clock : Clock) (k n : ℕ) (b : Benchmark)
    → (laps clock k n b).latencies_us ≡ b.latencies_us ++ lap_times clock k n
unfolding laps lap_times start stop
laps-latencies clock zero n b = sym (append-nil b.latencies_us)
laps-latencies clock (suc k) n b =
    laps-latencies clock k (n + 2) (stop clock (n + 1) (start clock n b))
    ∙ append_assoc b.latencies_us (_ ∷ []) (lap_times clock k (n + 2))

count-stats : (d : Doubles) (xs : List ℤ) → (calculate_stats d xs).count ≡ length xs
unfolding calculate_stats stats_of_sorted
count-stats d [] = refl
count-stats d (x ∷ xs) = length-sort (x ∷ xs)

-- After `k` measurements of a new benchmark, the statistics count `k`, and the latencies are the whole
-- microseconds between the two readings of each measurement, in order.
pub laps-get_stats :
    (d : Doubles) (clock : Clock) (k n : ℕ)
    → let b = laps clock k n new_benchmark in
      ((get_stats d b).count ≡ k) × (b.latencies_us ≡ lap_times clock k n)
unfolding get_stats
laps-get_stats d clock k n =
    let b = laps clock k n new_benchmark in
    let times = laps-latencies clock k n new_benchmark in
    (count-stats d b.latencies_us ∙ ap length times ∙ length-lap_times clock k n, times)
