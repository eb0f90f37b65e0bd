-- ===== src/AsyncLogger/Lossless.antt =====
-- Few messages are never dropped.
use trading_matcher.Base.{
  ℕ, ◌+◌, ◌≤◌, ◌<◌, ◌≡◌, refl, sym, ap, inl, inr, Option-cases, ◌∙◌, subst, true, List, [], ◌∷◌,
  ◌++◌, if◌then◌else◌, map, arith, length, length-append, Text,
}
use trading_matcher.Timestamp.{Clock}
use trading_matcher.SpscQueue.{pop}
use trading_matcher.SpscQueue.Fifo.{IsRing}
use trading_matcher.AsyncLogger.{
  AsyncLogger, LogLevel, LogMessage, Format, level_value, make_message, queue_size, truncate, log,
  write_log_message, work,
}
use trading_matcher.AsyncLogger.Flush.{pending}
use trading_matcher.AsyncLogger.Log.{log-Logged}
use trading_matcher.AsyncLogger.Session.{Event, takes, accepted, work-Flows, log-keeps, log-pending}

-- The calls of a session, with the arguments as they are given.
abbrev pub said : List Event → List (LogLevel × Text)
said [] = []
said (Event.logs thread level message ∷ events) = (level, message) ∷ said events
said (Event.works ∷ events) = said events

-- What a message has of the call.
abbrev pub heard : LogMessage → LogLevel × Text
heard msg = (msg.level, msg.message)

-- What a call leaves in a message.
abbrev pub kept : LogLevel × Text → LogLevel × Text
kept (level, text) = (level, truncate 255 text)

abbrev pub Loud : LogLevel → List (LogLevel × Text) → Type 0
Loud min [] = Unit {0}
Loud min (call ∷ calls) = (level_value min ≤ level_value call.0) × Loud min calls

module _ (clock : Clock) (format : Format) where
  work-shorter :
      (logger : AsyncLogger)
      → IsRing queue_size logger.queue
      → length (pending (work format logger)) ≤ length (pending logger)
  work-shorter logger v =
      let f = work-Flows format logger v in
      omega (
        arith,
        ap length f.flow,
        length-append (pending logger) [],
        length-append f.taken (pending (work format logger)),
      )

  work-min_level : (logger : AsyncLogger) → (work format logger).min_level ≡ logger.min_level
  unfolding work write_log_message
  work-min_level logger = elim (Option-cases (pop queue_size logger.queue).1) [
    | inl e ↦ rw (e, work) refl
    | inr (msg, e) ↦ rw (e, work) refl
  ]

  log-min_level :
      (thread : ℕ) (logger : AsyncLogger) (level : LogLevel) (message : Text)
      → (log clock thread logger level message).min_level ≡ logger.min_level
  unfolding log
  log-min_level thread logger level message = ground arith

  -- A session of fewer calls than the queue has room for keeps them all, in order.
  pub accepted-all :
      (events : List Event) (logger : AsyncLogger)
      → IsRing queue_size logger.queue
      → logger.running ≡ true
      → length (pending logger) + length (said events) < queue_size
      → Loud logger.min_level (said events)
      → map heard (accepted clock format events logger) ≡ map kept (said events)
  unfolding accepted
  accepted-all [] logger v r room loud = refl
  accepted-all (Event.works ∷ events) logger v r room loud =
      let f = work-Flows format logger v in
      accepted-all events (work format logger) f.sound (f.running ∙ r)
        (omega (arith, room, work-shorter logger v))
        (subst (λ min. Loud min (said events)) (sym (work-min_level logger)) loud)
  accepted-all (Event.logs thread level message ∷ events) logger v r room loud =
      let next = log clock thread logger level message in
      let taken : takes logger level ≡ true = ground (arith, loud.0, room) in
      let msg = make_message clock logger.reads thread level message in
      let grown : pending next ≡ pending logger ++ msg ∷ [] =
        log-pending clock thread logger level message v r
        ∙ ap (λ t. pending logger ++ (if t then msg ∷ [] else [])) taken in
      let rest =
        accepted-all events next (log-Logged clock thread logger level message v).0
          ((log-keeps clock thread logger level message).0 ∙ r)
          (omega (arith, room, ap length grown, length-append (pending logger) (msg ∷ [])))
          (subst (λ min. Loud min (said events)) (sym (log-min_level thread logger level message))
            loud.1) in
      rw taken (ap (λ l. (level, truncate 255 message) ∷ l) rest)
