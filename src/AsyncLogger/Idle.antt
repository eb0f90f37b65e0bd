-- ===== src/AsyncLogger/Idle.antt =====
-- A logger that does not run.
use trading_matcher.Base.{ℕ, ◌≡◌, refl, ap, ◌∙◌, false, List, [], ◌∷◌, inl, inr, arith, Text}
use trading_matcher.Timestamp.{Clock}
use trading_matcher.SpscQueue.Fifo.{IsRing, pop_refines}
use trading_matcher.AsyncLogger.{AsyncLogger, LogLevel, Format, queue_size, log, work}
use trading_matcher.AsyncLogger.Flush.{pending, work-none}
use trading_matcher.AsyncLogger.Session.{Event, session}

log-idle :
    (clock : Clock) (thread : ℕ) (logger : AsyncLogger) (level : LogLevel) (message : Text)
    → logger.running ≡ false
    → log clock thread logger level message ≡ logger
unfolding log
log-idle clock thread logger level message r = ground (arith, r)

-- A logger that does not run ignores every call.
pub session-idle :
    (clock : Clock) (format : Format) (events : List Event) (logger : AsyncLogger)
    → IsRing queue_size logger.queue
    → logger.running ≡ false
    → pending logger ≡ []
    → session clock format events logger ≡ logger
unfolding session
session-idle clock format [] logger v r e = refl
session-idle clock format (Event.logs thread level message ∷ events) logger v r e =
    let same : log clock thread logger level message ≡ logger =
      log-idle clock thread logger level message r in
    ap (session clock format events) same ∙ session-idle clock format events logger v r e
session-idle clock format (Event.works ∷ events) logger v r e =
    let same : work format logger ≡ logger = elim (pop_refines queue_size logger.queue v) [
      | inl (f, g) ↦ work-none format logger g
      | inr (msg, f, g) ↦ absurd (cc)
    ] in
    ap (session clock format events) same ∙ session-idle clock format events logger v r e
