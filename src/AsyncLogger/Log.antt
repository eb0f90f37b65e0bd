-- ===== src/AsyncLogger/Log.antt =====
-- What `log` and `logf` do with a message.
use trading_matcher.Base.{
  Text, ℕ, zero, suc, ◌+◌, ◌-◌, ◌≤◌, ◌<◌, ◌≡◌, ◌⊎◌, refl, ap, sym, subst, inl, inr, true, false, [],
  ◌∷◌, ◌++◌, arith, length,
}
use trading_matcher.Timestamp.{Clock}
use trading_matcher.SpscQueue.{push, capacity}
use trading_matcher.SpscQueue.Fifo.{IsRing, contents, push-IsRing, push_refines}
use trading_matcher.AsyncLogger.{
  AsyncLogger, LogLevel, LogMessage, level_value, make_message, queue_size, truncate, log,
}
use trading_matcher.AsyncLogger.Flush.{pending}

-- What one call of `log` may come to: nothing, with the reason, or a message at the end of the queue.
abbrev pub Logged : AsyncLogger → LogLevel → LogMessage → AsyncLogger → Type 0
Logged logger level msg logger' =
    IsRing queue_size logger'.queue
    × (logger'.output ≡ logger.output)
    × (((pending logger' ≡ pending logger)
          × ((level_value level < level_value logger.min_level)
              ⊎ (logger.running ≡ false)
              ⊎ (length (pending logger) ≡ queue_size - 1)))
        ⊎ ((level_value logger.min_level ≤ level_value level)
            × (logger.running ≡ true)
            × (length (pending logger) < queue_size - 1)
            × (pending logger' ≡ pending logger ++ msg ∷ [])))

queued : AsyncLogger → LogMessage → AsyncLogger
queued logger msg = record logger {
  queue = (push queue_size logger.queue msg).0;
  reads = logger.reads + 1;
}

log_cases :
    (clock : Clock) (thread : ℕ) (logger : AsyncLogger) (level : LogLevel) (message : Text)
    → ((log clock thread logger level message ≡ logger)
        × ((level_value level < level_value logger.min_level) ⊎ (logger.running ≡ false)))
      ⊎ ((log clock thread logger level message
            ≡ queued logger (make_message clock logger.reads thread level message))
          × (level_value logger.min_level ≤ level_value level)
          × (logger.running ≡ true))
unfolding log queued
log_cases clock thread logger level message = ground arith

queued-Logged :
    (logger : AsyncLogger) (level : LogLevel) (msg : LogMessage)
    → IsRing queue_size logger.queue
    → level_value logger.min_level ≤ level_value level
    → logger.running ≡ true
    → Logged logger level msg (queued logger msg)
unfolding queued capacity
queued-Logged logger level msg v l r = (
  push-IsRing queue_size logger.queue msg v,
  refl,
  elim (push_refines queue_size logger.queue msg v) [
    | inl (full, e) ↦ inl (ap (λ p. contents queue_size p.0) e, inr (inr full))
    | inr (room, ok, e) ↦ inr (l, r, room, e)
  ],
)

-- With a sound queue: a message below the least level, one to a logger that is not running, and one
-- that finds the queue full are dropped; any other joins the end of the queue. Nothing is written
-- before the worker runs, and the queue stays sound.
pub log-Logged :
    (clock : Clock) (thread : ℕ) (logger : AsyncLogger) (level : LogLevel) (message : Text)
    → IsRing queue_size logger.queue
    → Logged logger level
        (make_message clock logger.reads thread level message)
        (log clock thread logger level message)
log-Logged clock thread logger level message v =
    let msg = make_message clock logger.reads thread level message in
    elim (log_cases clock thread logger level message) [
      | inl (e, why) ↦ subst (Logged logger level msg) (sym e) (v, refl, inl (refl, ground arith))
      | inr (e, l, r) ↦
          subst (Logged logger level msg) (sym e) (queued-Logged logger level msg v l r)
    ]

-- A text cut to `n` characters is a beginning of the text, of at most `n` characters, and the whole
-- text or `n` characters of it; to cut it again, as `logf` does, changes nothing.
pub truncate_lem :
    (n : ℕ) (text : Text)
    → (length (truncate n text) ≤ n)
      × (truncate n (truncate n text) ≡ truncate n text)
      × ((rest : Text) × (truncate n text ++ rest ≡ text)
          × ((rest ≡ []) ⊎ (length (truncate n text) ≡ n)))
unfolding truncate
truncate_lem zero text = (ground arith, refl, (text, refl, inr refl))
truncate_lem (suc n) [] = (ground arith, refl, ([], refl, inl refl))
truncate_lem (suc n) (c ∷ text) =
    let (short, again, (rest, whole, end)) = truncate_lem n text in
    (omega (arith, short), ap (◌∷◌ c) again, (rest, ap (◌∷◌ c) whole, ground (arith, end)))
