-- ===== src/Tests/Stats.antt =====
-- Statistics of four latencies, and an environment file.
use trading_matcher.Base.{
  inl, suc, ◌*◌, ◌≡◌, ◌≢◌, refl, pos, ◌+ℤ◌, ◌-ℤ◌, ◌*ℤ◌, none, some, List, [], ◌∷◌, length, Text,
  codes, arith, Bool, true, false, ◌||◌,
}
use trading_matcher.Timestamp.{Clock, to_ns, get_monotonic_ns}
use trading_matcher.Benchmark.{
  insert, sort, sum, stats_of_sorted, calculate_stats, new_benchmark, start, stop, get_stats, reset,
}
use trading_matcher.Benchmark.Print.{Stream, print, print_results}
use trading_matcher.Benchmark.Statistics.{Ascending, calculate_stats-Ascending}
use trading_matcher.Client.{
  Environment, getline, load_line, load_lines, load_env, is_nil, has, Curl, Message, write_callback,
  transfer, fetch_market_data, send_request_to_server,
}
use trading_matcher.Client.Lines.{Lacks-has}
use trading_matcher.Client.EnvFile.{IsEntry, print_entries, assign_all, load_env-print_entries}
use trading_matcher.Tests.Fractions.{fractions}

calculate_stats-Ascending_example :
    Ascending fractions (calculate_stats fractions (pos 9 ∷ pos 4 ∷ []))
calculate_stats-Ascending_example =
    calculate_stats-Ascending fractions (pos 9) (pos 4 ∷ []) (record {
      p50_p90 = omega arith;
      p90_p95 = omega arith;
      p95_p99 = omega arith;
      p99_p99_9 = omega arith;
    })

abbrev ticking : Clock
ticking n = record { tv_sec = pos 0; tv_nsec = pos (n * n * 1000) }

stats_run :
    let s = calculate_stats fractions (pos 9 ∷ pos 4 ∷ pos 6 ∷ pos 1 ∷ []) in
    (s.min_us ≡ pos 1)
    × (s.max_us ≡ pos 9)
    × (s.mean_us ≡ record { num = 20; den = 4 })
    × (s.median_us ≡ record { num = 100; den = 20 })
    × (s.p90_us ≡ record { num = 9; den = 1 })
unfolding calculate_stats stats_of_sorted sort insert sum ◌+ℤ◌
stats_run = (refl, refl, refl, refl, refl)

benchmark_run :
    let b = stop ticking 2 (start ticking 1 new_benchmark) in
    (b.latencies_us ≡ pos 3 ∷ []) × ((get_stats fractions (reset b)).count ≡ 0)
unfolding start stop reset get_stats calculate_stats get_monotonic_ns to_ns ◌+ℤ◌ ◌-ℤ◌ ◌*ℤ◌
benchmark_run = (refl, refl)

abbrev unset : Environment
unset name = none

abbrev entries : List (Text × Text)
entries = (codes "API", codes "k7") ∷ (codes "URL", codes "a=b") ∷ (codes "API", codes "k8") ∷ []

-- The conditions on an entry, decided.
abbrev is_bad : Text × Text → Bool
is_bad e =
    is_nil e.0
    || is_nil e.1
    || has b'=' e.0
    || has 0 e.0
    || has b'\n' e.0
    || has 0 e.1
    || has b'\n' e.1

is_nil-named : (xs : Text) → is_nil xs ≡ false → xs ≢ []
is_nil-named xs e = ground arith

entry : (e : Text × Text) → is_bad e ≡ false → IsEntry e
entry e h = record {
  named = is_nil-named e.0 (ground arith);
  name_plain = (
    Lacks-has b'=' e.0 (ground arith),
    Lacks-has 0 e.0 (ground arith),
    Lacks-has b'\n' e.0 (ground arith),
  );
  valued = is_nil-named e.1 (ground arith);
  value_plain = (Lacks-has 0 e.1 (ground arith), Lacks-has b'\n' e.1 (ground arith));
}

load_env-print_entries_example :
    load_env (suc (length (print_entries entries))) (some (print_entries entries)) unset
    ≡ some (assign_all entries unset)
load_env-print_entries_example =
    load_env-print_entries entries unset (entry _ refl, (entry _ refl, (entry _ refl, tt)))

-- An empty value leaves the older one.
env_run :
    elim (load_env 40 (some (codes "API=k7\n\nAPI=\nno line")) unset) [
      | none ↦ none
      | some env ↦ env (codes "API")
    ]
    ≡ some (codes "k7")
unfolding load_env load_lines load_line getline
env_run = refl

-- A transfer that breaks off after a piece.
abbrev broken : Curl
broken = record {
  starts = true;
  perform = λ options. record { pieces = codes "{\"a" ∷ []; ok = false };
}

transfer_run :
    (fetch_market_data broken (codes "k") (codes "IBM")
      ≡ (codes "{\"a", Message.curl_error ∷ Message.response (codes "{\"a") ∷ []))
    × (send_request_to_server broken (codes "localhost") (inl [])
        ≡ inl (codes "{\"a", Message.curl_error ∷ Message.response (codes "{\"a") ∷ []))
unfolding fetch_market_data send_request_to_server transfer write_callback
transfer_run = (refl, refl)

abbrev stream : Stream fractions
stream = record { of_integer = λ z. codes "n"; of_double = λ x. codes "d" }

-- The statistics of one measurement, and those of none.
print_run :
    (length (
        print_results fractions stream (codes "b") (stop ticking 2 (start ticking 1 new_benchmark)))
      ≡ length (print_results fractions stream (codes "b") new_benchmark))
    × (length (print fractions stream (calculate_stats fractions [])) ≡ 221)
unfolding print_results print get_stats calculate_stats stats_of_sorted start stop
print_run = (refl, refl)
