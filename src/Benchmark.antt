-- ===== src/Benchmark.antt =====
-- include/utils/Benchmark.hpp: latency statistics, over the arithmetic of `double` as a parameter.
-- `Print` has what is written of them.
pub mod Sorted
pub mod Statistics
pub mod Laps
pub mod Print
use trading_matcher.Base.{
  ℕ, zero, suc, ◌+◌, ◌-◌, ◌/◌, ◌%◌, leb, ltb, ◌==◌, if◌then◌else◌, ℤ, pos, leb_ℤ, ◌+ℤ◌, ◌-ℤ◌, div_ℤ,
  Bool, List, [], ◌∷◌, ◌++◌, length,
}
use trading_matcher.Timestamp.{Clock, get_monotonic_ns}
use trading_matcher.Timestamp.Doubles.{Doubles}

-- `std::sort`, whose result on integers does not depend on how it sorts.
unfoldable pub insert : ℤ → List ℤ → List ℤ
insert x [] = x ∷ []
insert x (y ∷ ys) = if leb_ℤ x y then x ∷ y ∷ ys else y ∷ insert x ys

unfoldable pub sort : List ℤ → List ℤ
sort [] = []
sort (x ∷ xs) = insert x (sort xs)

-- `sorted[i]`; the positions that are read lie in the vector.
abbrev pub get_or : ℤ → List ℤ → ℕ → ℤ
get_or z [] i = z
get_or z (x ∷ xs) zero = x
get_or z (x ∷ xs) (suc i) = get_or z xs i

-- `std::accumulate(…, 0LL)`, for sums within int64_t.
unfoldable pub sum : List ℤ → ℤ
unfolding ◌+ℤ◌
sum [] = pos 0
sum (x ∷ xs) = x +ℤ sum xs

module _ (d : Doubles) where
  open d use {Double, literal, of_int, times, over, to_uint64}

  pub record LatencyStats : Type 0 where
    pub min_us : ℤ
    pub max_us : ℤ
    pub mean_us : Double
    pub median_us : Double
    pub p50_us : Double
    pub p90_us : Double
    pub p95_us : Double
    pub p99_us : Double
    pub p99_9_us : Double
    pub count : ℕ

  -- The default member values.
  abbrev pub no_stats : LatencyStats
  no_stats = record {
    min_us = pos 0;
    max_us = pos 0;
    mean_us = literal 0 10;
    median_us = literal 0 10;
    p50_us = literal 0 10;
    p90_us = literal 0 10;
    p95_us = literal 0 10;
    p99_us = literal 0 10;
    p99_9_us = literal 0 10;
    count = 0;
  }

  -- The index of a percentile: `static_cast<size_t>(p * size)`, or the last.
  abbrev pub rank : Double → ℕ → ℕ
  rank p n = let idx = to_uint64 (times p (of_int (pos n))) in if leb n idx then n - 1 else idx

  abbrev pub percentile : List ℤ → Double → Double
  percentile sorted p = of_int (get_or (pos 0) sorted (rank p (length sorted)))

  abbrev pub median : List ℤ → Double
  unfolding ◌+ℤ◌
  median sorted =
      let mid = length sorted / 2 in
      if length sorted % 2 == 0
      then over (of_int (get_or (pos 0) sorted (mid - 1) +ℤ get_or (pos 0) sorted mid))
          (literal 20 10)
      else of_int (get_or (pos 0) sorted mid)

  unfoldable pub stats_of_sorted : List ℤ → LatencyStats
  unfolding median
  stats_of_sorted sorted = record {
    min_us = get_or (pos 0) sorted 0;
    max_us = get_or (pos 0) sorted (length sorted - 1);
    mean_us = over (of_int (sum sorted)) (of_int (pos (length sorted)));
    median_us = median sorted;
    p50_us = percentile sorted (literal 50 100);
    p90_us = percentile sorted (literal 90 100);
    p95_us = percentile sorted (literal 95 100);
    p99_us = percentile sorted (literal 99 100);
    p99_9_us = percentile sorted (literal 999 1000);
    count = length sorted;
  }

  unfoldable pub calculate_stats : List ℤ → LatencyStats
  calculate_stats [] = no_stats
  calculate_stats (x ∷ xs) = stats_of_sorted (sort (x ∷ xs))

-- `Benchmark`; the name is only printed.
pub record Benchmark : Type 0 where
  pub start_ns : ℤ
  pub latencies_us : List ℤ

abbrev pub new_benchmark : Benchmark
new_benchmark = record { start_ns = pos 0; latencies_us = [] }

-- The methods that read the clock, at its reading `n`.
unfoldable pub start : Clock → ℕ → Benchmark → Benchmark
start clock n b = record b { start_ns = get_monotonic_ns clock n }

unfoldable pub stop : Clock → ℕ → Benchmark → Benchmark
unfolding ◌-ℤ◌
stop clock n b =
    let elapsed_ns = get_monotonic_ns clock n -ℤ b.start_ns in
    record b { latencies_us = b.latencies_us ++ div_ℤ elapsed_ns 1000 ∷ [] }

unfoldable pub get_stats : (d : Doubles) → Benchmark → LatencyStats d
get_stats d b = calculate_stats d b.latencies_us

unfoldable pub reset : Benchmark → Benchmark
reset b = record b { latencies_us = [] }
