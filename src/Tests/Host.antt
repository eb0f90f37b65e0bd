-- ===== src/Tests/Host.antt =====
-- A host for the runs of `main`.
use trading_matcher.Base.{pos, true}
use trading_matcher.Console.{Host}
use trading_matcher.Tests.Fractions.{fractions}
use trading_matcher.Tests.Market.{clock}

-- All system calls answer 0, the counter runs at one cycle for each reading, and `print` repeats the
-- format.
abbrev pub host : Host
host = record {
  doubles = fractions;
  clock = clock;
  monotonic = clock;
  tsc = λ n. n;
  kernel = record {
    built_with_numa = true;
    possible_cpus = 2;
    answer = λ calls c. record { value = pos 0; bit = λ i. true };
  };
  print = λ text arguments. text;
}
