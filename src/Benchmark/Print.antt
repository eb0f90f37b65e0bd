-- ===== src/Benchmark/Print.antt =====
-- `print` and `printResults` of include/utils/Benchmark.hpp. How a stream writes a number, with two
-- decimals where it is a `double`, is a parameter.
use trading_matcher.Base.{ℤ, pos, [], ◌∷◌, ◌++◌, Text, codes}
use trading_matcher.Timestamp.Doubles.{Doubles}
use trading_matcher.Benchmark.{LatencyStats, Benchmark, get_stats}

pub record Stream (d : Doubles) : Type 0 where
  pub of_integer : ℤ → Text
  pub of_double : d.Double → Text

-- `" μs\n"`, in UTF-8.
abbrev pub microseconds : Text
microseconds = b' ' ∷ 206 ∷ 188 ∷ b's' ∷ b'\n' ∷ []

module _ (d : Doubles) (stream : Stream d) where
  open stream use {of_integer, of_double}

  -- `LatencyStats::print`
  unfoldable pub print : LatencyStats d → Text
  print s =
      codes "Latency Statistics (microseconds):\n"
      ++ (codes "  Count:     " ++ of_integer (pos s.count) ++ b'\n' ∷ [])
      ++ (codes "  Min:       " ++ of_integer s.min_us ++ microseconds)
      ++ (codes "  Max:       " ++ of_integer s.max_us ++ microseconds)
      ++ (codes "  Mean:      " ++ of_double s.mean_us ++ microseconds)
      ++ (codes "  Median:    " ++ of_double s.median_us ++ microseconds)
      ++ (codes "  P50:       " ++ of_double s.p50_us ++ microseconds)
      ++ (codes "  P90:       " ++ of_double s.p90_us ++ microseconds)
      ++ (codes "  P95:       " ++ of_double s.p95_us ++ microseconds)
      ++ (codes "  P99:       " ++ of_double s.p99_us ++ microseconds)
      ++ (codes "  P99.9:     " ++ of_double s.p99_9_us ++ microseconds)

  -- `Benchmark::printResults`, with the name of the benchmark.
  unfoldable pub print_results : Text → Benchmark → Text
  print_results name b =
      (codes "\n=== Benchmark: " ++ name ++ codes " ===\n") ++ print (get_stats d b) ++ b'\n' ∷ []
