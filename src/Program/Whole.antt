-- ===== src/Program/Whole.antt =====
-- `main` up to the demonstration, with the worker of its logger between the calls.
use trading_matcher.Base.{
  ℕ, ◌<◌, ◌≡◌, sym, ap, ◌∙◌, Bool, some, List, map, arith, length, length-append, length-map, ◌++◌,
}
use trading_matcher.Timestamp.{Clock}
use trading_matcher.AsyncLogger.{Format}
use trading_matcher.AsyncLogger.Session.{Event, session}
use trading_matcher.AsyncLogger.Lossless.{said}
use trading_matcher.Console.{Host, call, trade_line}
use trading_matcher.Program.{Program, main, open_logger}
use trading_matcher.Program.Opening.{Prices}
use trading_matcher.Program.Run.{main-Ran}
use trading_matcher.Program.Delivery.{Filed, session-Filed}

-- With the three prices between 0 and the largest int64_t, when `main` has come to the call of
-- `demonstrateSPSCQueue`, up to which its thread is the only one that logs: if the log file opened,
-- then after all its calls of the logger, with rounds of the worker anywhere between, the lines in the
-- file, and after them those of the messages that still wait in the queue, are one for each call, in
-- order, with the level and at most 255 characters of the text, and the logger runs; if it did not
-- open, the logger does not run, and no message is in the file or waits, since `main` does not look at
-- what `start` returns. Nothing is written to the console.
pub main-Filed :
    (host : Host) (rounds : ℕ) (s : Program host.doubles) (n : ℕ) (clock : Clock) (format : Format)
    (opens : Bool) (events : List Event)
    → 3 < rounds
    → Prices host
    → main host rounds ≡ some (s, n)
    → said events ≡ map call s.lines
    → Filed format opens s.lines (session clock format events (open_logger opens))
main-Filed host rounds s n clock format opens events h p e spoken =
    let r = main-Ran host rounds h p in
    let joined = sym r.result ∙ e in
    let same : r.program ≡ s = cc in
    let few : length s.lines < 26 = omega (
      arith,
      ap (λ x. length x.lines) same,
      ap length r.told,
      length-append (r.earlier ++ map (trade_line host) r.trades) r.later,
      length-append r.earlier (map (trade_line host) r.trades),
      length-map (trade_line host) r.trades,
      r.few,
      r.short,
    ) in
    session-Filed clock format opens events s.lines spoken (omega (arith, few))
