-- ===== src/AsyncLogger/Restart.antt =====
-- A `start` after one that could not open its file.
use trading_matcher.Base.{ℕ, ◌≡◌, ap, refl, true, false, none, some, List, []}
use trading_matcher.Timestamp.{Clock}
use trading_matcher.SpscQueue.Fifo.{IsRing}
use trading_matcher.AsyncLogger.{AsyncLogger, LogFile, Format, queue_size, start, stop}
use trading_matcher.AsyncLogger.Flush.{pending}
use trading_matcher.AsyncLogger.Session.{Event, session, stop-session}

start-broken :
    (logger : AsyncLogger)
    → logger.running ≡ false
    → start logger (some false)
      ≡ (record logger { running = false; log_file = LogFile.broken }, false)
unfolding start
start-broken logger r =
    rw (r, start) (ap (λ b. (record logger { running = b; log_file = LogFile.broken }, false)) r)

start-console :
    (logger : AsyncLogger)
    → logger.running ≡ false
    → start logger none ≡ (record logger { running = true }, true)
unfolding start
start-console logger r = rw (r, start) refl

-- If a logger that does not run, with a sound queue, cannot open its file, `start` returns false; a
-- second `start`, without a file, then returns true. But after any calls of `log` and rounds of the
-- worker there is a number of rounds with which `stop` ends with an empty queue, and neither the file
-- nor the console has got a line: every message that was accepted or waited is lost.
pub restart_swallows :
    (clock : Clock) (format : Format) (events : List Event) (logger : AsyncLogger)
    → logger.running ≡ false
    → IsRing queue_size logger.queue
    → let (after, opened) = start logger (some false) in
      let (again, ok) = start after none in
      (opened ≡ false)
      × (ok ≡ true)
      × ((fuel : ℕ) × (stopped : AsyncLogger) × (stop fuel format
              (session clock format events again)
            ≡ some stopped)
          × (pending stopped ≡ [])
          × (stopped.output ≡ logger.output))
restart_swallows clock format events logger r v =
    let again = record logger { running = true; log_file = LogFile.broken } in
    let (fuel, d) = stop-session clock format events again v refl in
    rw
      (
        start-broken logger r,
        start-console (record logger { running = false; log_file = LogFile.broken }) refl,
      )
      (refl, refl, (fuel, d.stopped, d.result, d.emptied, d.output))
