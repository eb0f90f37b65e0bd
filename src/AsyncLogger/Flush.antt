-- ===== src/AsyncLogger/Flush.antt =====
-- What `flush`, the worker and `stop` write.
use trading_matcher.Base.{
  ℕ, zero, suc, ◌<◌, ◌≡◌, refl, sym, ap, ◌∙◌, subst, Bool, not, ◌||◌, inl, inr, true, false, Option,
  none, some, List, [], ◌∷◌, arith, length,
}
use trading_matcher.SpscQueue.{Queue, pop, is_empty}
use trading_matcher.SpscQueue.Fifo.{IsRing, contents, pop-IsRing, pop_refines, count_lem}
use trading_matcher.AsyncLogger.{
  AsyncLogger, LogFile, LogMessage, Output, Format, queue_size, log_line, write_line,
  write_log_message, flush, work, log_worker, stop,
}

-- The messages waiting, oldest first.
abbrev pub pending : AsyncLogger → List LogMessage
pending logger = contents queue_size logger.queue

-- The output with the lines of the messages.
abbrev pub written : Format → LogFile → Output → List LogMessage → Output
written format file output [] = output
written format file output (msg ∷ msgs) =
    written format file (write_line file output (log_line format msg)) msgs

-- The outcome of a run that starts from `logger`: it ends, with all that was pending written, the
-- queue empty, and the rest as it was but for `running` and `file`.
pub record Drained (format : Format) (logger : AsyncLogger) (running : Bool) (file : LogFile)
    (outcome : Option AsyncLogger) : Type 0 where
  pub queue : Queue LogMessage
  pub sound : IsRing queue_size queue
  pub drained : contents queue_size queue ≡ []
  pub result :
      outcome
      ≡ some (record logger {
        running = running;
        queue = queue;
        log_file = file;
        output = written format logger.log_file logger.output (pending logger);
      })

-- The state after one message has been taken off the queue and written.
abbrev pub wrote : Format → AsyncLogger → LogMessage → AsyncLogger
wrote format logger msg =
    write_log_message format (record logger { queue = (pop queue_size logger.queue).0 }) msg

Drained-wrote :
    (format : Format) (logger : AsyncLogger) (msg : LogMessage) (outcome : Option AsyncLogger)
    → pending logger ≡ msg ∷ contents queue_size (pop queue_size logger.queue).0
    → Drained format (wrote format logger msg) logger.running logger.log_file outcome
    → Drained format logger logger.running logger.log_file outcome
unfolding write_log_message
Drained-wrote format logger msg outcome e d = record {
  queue = d.queue;
  sound = d.sound;
  drained = d.drained;
  result =
      d.result
      ∙ ap
          (λ msgs. some (record logger {
            queue = d.queue;
            output = written format logger.log_file logger.output msgs;
          }))
          (sym e);
}

flush-end :
    (fuel : ℕ) (format : Format) (logger : AsyncLogger)
    → pop queue_size logger.queue ≡ (logger.queue, none)
    → flush (suc fuel) format logger ≡ some logger
unfolding flush
flush-end fuel format logger e =
    rw (ap (λ p. p.1) e, flush) (ap (λ p. some (record logger { queue = p.0 })) e)

flush-more :
    (fuel : ℕ) (format : Format) (logger : AsyncLogger) (msg : LogMessage)
    → (pop queue_size logger.queue).1 ≡ some msg
    → flush (suc fuel) format logger ≡ flush fuel format (wrote format logger msg)
unfolding flush
flush-more fuel format logger msg e = rw (e, flush) refl

-- With a sound queue and more rounds than messages waiting, `flush` writes all of them, oldest first,
-- and empties the queue.
pub flush-Drained :
    (fuel : ℕ) (format : Format) (logger : AsyncLogger)
    → IsRing queue_size logger.queue
    → length (pending logger) < fuel
    → Drained format logger logger.running logger.log_file (flush fuel format logger)
unfolding pop write_log_message
flush-Drained zero format logger v h = absurd (omega arith)
flush-Drained (suc fuel) format logger v h = elim (pop_refines queue_size logger.queue v) [
  | inl (e, f) ↦ record {
    queue = logger.queue;
    sound = v;
    drained = e;
    result =
        flush-end fuel format logger f
        ∙ ap
            (λ msgs.
              some (record logger { output = written format logger.log_file logger.output msgs }))
            (sym e);
  }
  | inr (msg, e, f) ↦
      let rest =
        flush-Drained fuel format (wrote format logger msg) (pop-IsRing queue_size logger.queue v)
          (omega (arith, ap length e)) in
      subst (Drained format logger logger.running logger.log_file)
        (sym (flush-more fuel format logger msg f)) (Drained-wrote format logger msg _ e rest)
]

pub work-some :
    (format : Format) (logger : AsyncLogger) (msg : LogMessage)
    → (pop queue_size logger.queue).1 ≡ some msg
    → work format logger ≡ wrote format logger msg
unfolding work
work-some format logger msg e = rw (e, work) refl

pub work-none :
    (format : Format) (logger : AsyncLogger)
    → pop queue_size logger.queue ≡ (logger.queue, none)
    → work format logger ≡ logger
unfolding work
work-none format logger e = rw (ap (λ p. p.1) e, work) (ap (λ p. record logger { queue = p.0 }) e)

worker-end :
    (rounds fuel : ℕ) (format : Format) (logger : AsyncLogger)
    → (logger.running || not (is_empty logger.queue)) ≡ false
    → log_worker (suc rounds) fuel format logger ≡ flush fuel format logger
unfolding log_worker
worker-end rounds fuel format logger c = rw (c, log_worker) refl

worker-more :
    (rounds fuel : ℕ) (format : Format) (logger : AsyncLogger) (msg : LogMessage)
    → (logger.running || not (is_empty logger.queue)) ≡ true
    → (pop queue_size logger.queue).1 ≡ some msg
    → log_worker (suc rounds) fuel format logger
      ≡ log_worker rounds fuel format (wrote format logger msg)
unfolding log_worker
worker-more rounds fuel format logger msg c f =
    rw (c, log_worker) (ap (log_worker rounds fuel format) (work-some format logger msg f))

-- Once `running_` is false, the worker writes all messages waiting and ends.
log_worker-Drained :
    (rounds fuel : ℕ) (format : Format) (logger : AsyncLogger)
    → IsRing queue_size logger.queue
    → logger.running ≡ false
    → length (pending logger) < rounds
    → 0 < fuel
    → Drained format logger logger.running logger.log_file (log_worker rounds fuel format logger)
unfolding pop write_log_message
log_worker-Drained zero fuel format logger v r h k = absurd (omega arith)
log_worker-Drained (suc rounds) fuel format logger v r h k =
    let c = count_lem queue_size logger.queue v in
    elim (pop_refines queue_size logger.queue v) [
      | inl (e, f) ↦
          subst (Drained format logger logger.running logger.log_file)
            (sym (worker-end rounds fuel format logger (ground (arith, r, c, ap length e))))
            (flush-Drained fuel format logger v (omega (arith, ap length e)))
      | inr (msg, e, f) ↦
          let rest =
            log_worker-Drained rounds fuel format (wrote format logger msg)
              (pop-IsRing queue_size logger.queue v) r (omega (arith, ap length e)) k in
          subst (Drained format logger logger.running logger.log_file)
            (sym (worker-more rounds fuel format logger msg (ground (arith, r, c, ap length e)) f))
            (Drained-wrote format logger msg _ e rest)
    ]

stop-eq :
    (fuel : ℕ) (format : Format) (logger worked flushed : AsyncLogger)
    → logger.running ≡ true
    → log_worker fuel fuel format (record logger { running = false }) ≡ some worked
    → flush fuel format worked ≡ some flushed
    → stop fuel format logger ≡ some (record flushed { log_file = LogFile.absent })
unfolding stop
stop-eq fuel format logger worked flushed r e f = rw (r, e, f, stop) refl

-- Stopping a running logger whose queue is sound, with more rounds than messages waiting: the worker
-- ends, every message waiting goes to the output of the logger once, oldest first, the queue is empty
-- and the file is closed.
pub stop-Drained :
    (fuel : ℕ) (format : Format) (logger : AsyncLogger)
    → IsRing queue_size logger.queue
    → logger.running ≡ true
    → length (pending logger) < fuel
    → Drained format logger false LogFile.absent (stop fuel format logger)
unfolding stop
stop-Drained fuel format logger v r h =
    let stopped = record logger { running = false } in
    let d = log_worker-Drained fuel fuel format stopped v refl h (omega arith) in
    let worked = record stopped {
      queue = d.queue;
      output = written format logger.log_file logger.output (pending logger);
    } in
    let f = flush-Drained fuel format worked d.sound (omega (arith, ap length d.drained)) in
    record {
      queue = f.queue;
      sound = f.sound;
      drained = f.drained;
      result =
          stop-eq fuel format logger worked _ r d.result f.result
          ∙ ap
              (λ msgs. some (record worked {
                queue = f.queue;
                log_file = LogFile.absent;
                output = written format logger.log_file worked.output msgs;
              }))
              d.drained;
    }
