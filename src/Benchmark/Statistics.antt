-- ===== src/Benchmark/Statistics.antt =====
-- The statistics of a list of measurements.
use mathlib.Core.List.{Perm}
use mathlib.Core.List.Perm
use trading_matcher.Base.{
  ℕ, suc, ◌-◌, ◌≤◌, ◌<◌, ◌≡◌, refl, sym, ap, subst, ℤ, pos, ◌≤ℤ◌, List, [], ◌∷◌, arith, length,
}
use trading_matcher.Timestamp.Doubles.{Doubles}
use trading_matcher.Benchmark.{sort, get_or, LatencyStats, rank, stats_of_sorted, calculate_stats}
use trading_matcher.Benchmark.Sorted.{
  IsAscending, sort-IsAscending, length-sort, sort-perm, get_or-mono,
}

-- The statistics do not depend on the order of the measurements.
pub calculate_stats-perm :
    (d : Doubles) (xs ys : List ℤ) → Perm xs ys → calculate_stats d xs ≡ calculate_stats d ys
unfolding calculate_stats
calculate_stats-perm d [] ys p = ap (calculate_stats d) (Perm.nil-eq p)
calculate_stats-perm d (x ∷ xs) [] p = ap (calculate_stats d) (Perm.eq-nil p)
calculate_stats-perm d (x ∷ xs) (y ∷ ys) p = ap (stats_of_sorted d) (sort-perm p)

-- The products of the percentiles with a size, as indices, are in their order.
pub record InOrder (d : Doubles) (n : ℕ) : Type 0 where
  pub p50_p90 :
      d.to_uint64 (d.times (d.literal 50 100) (d.of_int (pos n)))
      ≤ d.to_uint64 (d.times (d.literal 90 100) (d.of_int (pos n)))
  pub p90_p95 :
      d.to_uint64 (d.times (d.literal 90 100) (d.of_int (pos n)))
      ≤ d.to_uint64 (d.times (d.literal 95 100) (d.of_int (pos n)))
  pub p95_p99 :
      d.to_uint64 (d.times (d.literal 95 100) (d.of_int (pos n)))
      ≤ d.to_uint64 (d.times (d.literal 99 100) (d.of_int (pos n)))
  pub p99_p99_9 :
      d.to_uint64 (d.times (d.literal 99 100) (d.of_int (pos n)))
      ≤ d.to_uint64 (d.times (d.literal 999 1000) (d.of_int (pos n)))

-- The percentiles are doubles of measurements, which ascend from the least to the greatest.
pub record Ascending (d : Doubles) (s : LatencyStats d) : Type 0 where
  pub p50 : (a : ℤ) × (s.p50_us ≡ d.of_int a)
  pub p90 : (a : ℤ) × (s.p90_us ≡ d.of_int a)
  pub p95 : (a : ℤ) × (s.p95_us ≡ d.of_int a)
  pub p99 : (a : ℤ) × (s.p99_us ≡ d.of_int a)
  pub p99_9 : (a : ℤ) × (s.p99_9_us ≡ d.of_int a)
  pub least : s.min_us ≤ℤ p50.0
  pub p50_p90 : p50.0 ≤ℤ p90.0
  pub p90_p95 : p90.0 ≤ℤ p95.0
  pub p95_p99 : p95.0 ≤ℤ p99.0
  pub p99_p99_9 : p99.0 ≤ℤ p99_9.0
  pub greatest : p99_9.0 ≤ℤ s.max_us

rank-lt : (d : Doubles) (p : d.Double) (n : ℕ) → 0 < n → rank d p n < n
rank-lt d p n h = ground arith

rank_mono :
    (d : Doubles) (p q : d.Double) (n : ℕ)
    → d.to_uint64 (d.times p (d.of_int (pos n))) ≤ d.to_uint64 (d.times q (d.of_int (pos n)))
    → rank d p n ≤ rank d q n
rank_mono d p q n h = ground arith

stats_of_sorted-Ascending :
    (d : Doubles) (l : List ℤ)
    → IsAscending l
    → 0 < length l
    → InOrder d (length l)
    → Ascending d (stats_of_sorted d l)
unfolding stats_of_sorted
stats_of_sorted-Ascending d l s h o =
    let n = length l in
    let at : ℕ → ℤ = get_or (pos 0) l in
    let step : (p q : d.Double) → rank d p n ≤ rank d q n → at (rank d p n) ≤ℤ at (rank d q n) =
      λ p q m. get_or-mono l (rank d p n) (rank d q n) s m (rank-lt d q n h) in
    record {
      p50 = (at (rank d (d.literal 50 100) n), refl);
      p90 = (at (rank d (d.literal 90 100) n), refl);
      p95 = (at (rank d (d.literal 95 100) n), refl);
      p99 = (at (rank d (d.literal 99 100) n), refl);
      p99_9 = (at (rank d (d.literal 999 1000) n), refl);
      least = get_or-mono l 0 (rank d (d.literal 50 100) n) s (omega arith) (rank-lt d _ n h);
      p50_p90 = step (d.literal 50 100) (d.literal 90 100) (rank_mono d _ _ n o.p50_p90);
      p90_p95 = step (d.literal 90 100) (d.literal 95 100) (rank_mono d _ _ n o.p90_p95);
      p95_p99 = step (d.literal 95 100) (d.literal 99 100) (rank_mono d _ _ n o.p95_p99);
      p99_p99_9 = step (d.literal 99 100) (d.literal 999 1000) (rank_mono d _ _ n o.p99_p99_9);
      greatest =
          get_or-mono l (rank d (d.literal 999 1000) n) (n - 1) s
            (ground (arith, rank-lt d (d.literal 999 1000) n h)) (omega arith);
    }

-- With at least one measurement, and products of the percentiles with their number that are in order:
-- the least measurement, the percentiles and the greatest measurement ascend.
pub calculate_stats-Ascending :
    (d : Doubles) (x : ℤ) (xs : List ℤ)
    → InOrder d (suc (length xs))
    → Ascending d (calculate_stats d (x ∷ xs))
unfolding calculate_stats
calculate_stats-Ascending d x xs o =
    let same : length (sort (x ∷ xs)) ≡ suc (length xs) = length-sort (x ∷ xs) in
    stats_of_sorted-Ascending d (sort (x ∷ xs)) (sort-IsAscending (x ∷ xs)) (omega (arith, same))
      (subst (InOrder d) (sym same) o)
