-- ===== src/Tests/Logging.antt =====
-- A logger that is started, given two messages and stopped, and a pool of two orders.
use trading_matcher.Base.{
  ℕ, ◌+◌, ◌<◌, ◌≡◌, refl, true, false, none, some, List, [], ◌∷◌, arith, length, Distinct,
}
use trading_matcher.SpscQueue.{new_queue, push, next_index, count}
use trading_matcher.SpscQueue.Fifo.{IsRing}
use trading_matcher.AsyncLogger.{
  AsyncLogger, LogLevel, Format, new_logger, queue_size, log, start, stop,
}
use trading_matcher.AsyncLogger.Flush.{pending}
use trading_matcher.AsyncLogger.Session.{Event, session, accepted, Delivered, stop-session}
use trading_matcher.AsyncLogger.Restart.{restart_swallows}
use trading_matcher.AsyncLogger.Log.{log-Logged}
use trading_matcher.Order.{empty_order}
use trading_matcher.MemoryPool.{Place, new_pool}
use trading_matcher.MemoryPool.Recycling.{Use, From, places, slots, fresh_slots}
use trading_matcher.Tests.Market.{clock}

abbrev pub format : Format
format = record {
  localtime =
      λ s. record { tm_year = s; tm_mon = s; tm_mday = s; tm_hour = s; tm_min = s; tm_sec = s };
  print_number = λ w n. b'T' ∷ [];
  decimal = λ n. (b'0' + n) ∷ [];
}

abbrev pub running : AsyncLogger
unfolding start
running = (start new_logger none).0

running-IsRing : IsRing queue_size running.queue
unfolding start new_logger new_queue
running-IsRing = record {
  power = (16, refl);
  several = omega arith;
  read_in = omega arith;
  write_in = omega arith;
}

abbrev busy : AsyncLogger
busy = log clock 1 (log clock 1 running LogLevel.warn (b'h' ∷ b'i' ∷ [])) LogLevel.error (b'o' ∷ [])

busy-IsRing : IsRing queue_size busy.queue
busy-IsRing =
    (log-Logged clock 1 (log clock 1 running LogLevel.warn (b'h' ∷ b'i' ∷ [])) LogLevel.error
      (b'o' ∷ []) (log-Logged clock 1 running LogLevel.warn (b'h' ∷ b'i' ∷ []) running-IsRing).0).0

busy_count : (length (pending busy) < 3) × (busy.running ≡ true)
unfolding start new_logger log push next_index count new_queue
busy_count = (omega arith, refl)

abbrev program : List Use
program = Use.take ∷ Use.give (Place.pooled 0) ∷ Use.take ∷ Use.take ∷ []

fresh_slots_example :
    From 0 2 (slots (places 2 (new_pool (λ i. empty_order)) program))
    × Distinct (slots (places 2 (new_pool (λ i. empty_order)) program))
unfolding new_pool
fresh_slots_example =
    fresh_slots 2 (new_pool (λ i. empty_order)) program (omega arith) (omega arith)

-- A message, a round of the worker, one that is below the level, and another message.
abbrev events : List Event
events =
    Event.logs 1 LogLevel.info (b'a' ∷ [])
    ∷ Event.works
    ∷ Event.logs 2 LogLevel.debug (b'b' ∷ [])
    ∷ Event.logs 1 LogLevel.error (b'c' ∷ [])
    ∷ []

stop-session_example :
    (fuel : ℕ) × Delivered format running
      (accepted clock format events running)
      (stop fuel format (session clock format events running))
unfolding start new_logger
stop-session_example = stop-session clock format events running running-IsRing refl

new_logger-IsRing : IsRing queue_size new_logger.queue
unfolding new_logger new_queue
new_logger-IsRing = record {
  power = (16, refl);
  several = omega arith;
  read_in = omega arith;
  write_in = omega arith;
}

restart_swallows_example :
    let (after, opened) = start new_logger (some false) in
    let (again, ok) = start after none in
    (opened ≡ false)
    × (ok ≡ true)
    × ((fuel : ℕ) × (stopped : AsyncLogger) × (stop fuel format (session clock format events again)
          ≡ some stopped)
        × (pending stopped ≡ [])
        × (stopped.output ≡ new_logger.output))
unfolding new_logger
restart_swallows_example = restart_swallows clock format events new_logger refl new_logger-IsRing
