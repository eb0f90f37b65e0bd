-- ===== src/AsyncLogger/Session.antt =====
-- Producer and worker while the logger runs: calls of `log` and rounds of the worker in any order.
use mathlib.Core.List.{append_assoc, append-nil}
use trading_matcher.Base.{
  ℕ, ◌+◌, ◌-◌, ◌≡◌, refl, sym, ap, ap₂, ◌∙◌, subst, Bool, inl, inr, true, false, Option, some, List,
  [], ◌∷◌, ◌++◌, map, ltb, if◌then◌else◌, ◌&&◌, not, arith, length, Text,
}
use trading_matcher.Timestamp.{Clock}
use trading_matcher.SpscQueue.{pop}
use trading_matcher.SpscQueue.Fifo.{IsRing, pop-IsRing, pop_refines}
use trading_matcher.AsyncLogger.{
  AsyncLogger, LogLevel, LogFile, LogMessage, Output, Format, level_value, make_message, queue_size,
  write_line, log_line, write_log_message, log, work, stop,
}
use trading_matcher.AsyncLogger.Flush.{pending, written, work-some, work-none, stop-Drained}
use trading_matcher.AsyncLogger.Written.{lines_to, written-lines}
use trading_matcher.AsyncLogger.Log.{log-Logged}

pub data Event : Type 0 where
  logs : (thread : ℕ) (level : LogLevel) (message : Text) → Event
  works : Event

-- Whether the logger takes a message of this level.
abbrev pub takes : AsyncLogger → LogLevel → Bool
takes logger level =
    not (ltb (level_value level) (level_value logger.min_level))
    && ltb (length (pending logger)) (queue_size - 1)

module _ (clock : Clock) (format : Format) where
  unfoldable pub session : List Event → AsyncLogger → AsyncLogger
  session [] logger = logger
  session (Event.logs thread level message ∷ events) logger =
      session events (log clock thread logger level message)
  session (Event.works ∷ events) logger = session events (work format logger)

  -- The messages of the calls that the level and the queue let through.
  unfoldable pub accepted : List Event → AsyncLogger → List LogMessage
  accepted [] logger = []
  accepted (Event.logs thread level message ∷ events) logger =
      (if takes logger level then make_message clock logger.reads thread level message ∷ [] else [])
      ++ accepted events (log clock thread logger level message)
  accepted (Event.works ∷ events) logger = accepted events (work format logger)

-- What is known after a session: `taken` has been written, and with what waits now it is what waited
-- before and what was accepted.
pub record Flows (format : Format) (logger logger' : AsyncLogger) (msgs : List LogMessage)
    : Type 0 where
  pub sound : IsRing queue_size logger'.queue
  pub running : logger'.running ≡ logger.running
  pub same_file : logger'.log_file ≡ logger.log_file
  pub taken : List LogMessage
  pub flow : pending logger ++ msgs ≡ taken ++ pending logger'
  pub output : logger'.output ≡ written format logger.log_file logger.output taken

written-append :
    (format : Format) (file : LogFile) (output : Output) (xs ys : List LogMessage)
    → written format file output (xs ++ ys) ≡ written format file (written format file output xs) ys
written-append format file output [] ys = refl
written-append format file output (x ∷ xs) ys =
    written-append format file (write_line file output (log_line format x)) xs ys

Flows-trans :
    (format : Format) (a b c : AsyncLogger) (xs ys : List LogMessage)
    → Flows format a b xs
    → Flows format b c ys
    → Flows format a c (xs ++ ys)
Flows-trans format a b c xs ys f g = record {
  sound = g.sound;
  running = g.running ∙ f.running;
  same_file = g.same_file ∙ f.same_file;
  taken = f.taken ++ g.taken;
  flow =
      sym (append_assoc (pending a) xs ys)
      ∙ ap (λ l. l ++ ys) f.flow
      ∙ append_assoc f.taken (pending b) ys
      ∙ ap (◌++◌ f.taken) g.flow
      ∙ sym (append_assoc f.taken g.taken (pending c));
  output =
      g.output
      ∙ ap₂ (λ file output. written format file output g.taken) f.same_file f.output
      ∙ sym (written-append format a.log_file a.output f.taken g.taken);
}

pub work-Flows :
    (format : Format) (logger : AsyncLogger)
    → IsRing queue_size logger.queue
    → Flows format logger (work format logger) []
unfolding write_log_message pop
work-Flows format logger v = elim (pop_refines queue_size logger.queue v) [
  | inl (e, f) ↦
      subst (λ l. Flows format logger l []) (sym (work-none format logger f))
        (record {
          sound = v;
          running = refl;
          same_file = refl;
          taken = [];
          flow = append-nil (pending logger);
          output = refl;
        })
  | inr (msg, e, f) ↦
      subst (λ l. Flows format logger l []) (sym (work-some format logger msg f))
        (record {
          sound = pop-IsRing queue_size logger.queue v;
          running = refl;
          same_file = refl;
          taken = msg ∷ [];
          flow = append-nil (pending logger) ∙ e;
          output = refl;
        })
]

pub log-keeps :
    (clock : Clock) (thread : ℕ) (logger : AsyncLogger) (level : LogLevel) (message : Text)
    → ((log clock thread logger level message).running ≡ logger.running)
      × ((log clock thread logger level message).log_file ≡ logger.log_file)
unfolding log
log-keeps clock thread logger level message = ground arith

pub log-pending :
    (clock : Clock) (thread : ℕ) (logger : AsyncLogger) (level : LogLevel) (message : Text)
    → IsRing queue_size logger.queue
    → logger.running ≡ true
    → pending (log clock thread logger level message)
      ≡ pending logger
        ++ (if takes logger level
            then make_message clock logger.reads thread level message ∷ []
            else [])
log-pending clock thread logger level message v r =
    elim (log-Logged clock thread logger level message v).2 [
      | inl (same, why) ↦ ground (arith, same, why, r, append-nil (pending logger))
      | inr (l, on, room, e) ↦ ground (arith, l, room, e)
    ]

log-Flows :
    (clock : Clock) (format : Format) (thread : ℕ) (logger : AsyncLogger) (level : LogLevel)
    (message : Text)
    → IsRing queue_size logger.queue
    → logger.running ≡ true
    → Flows format logger (log clock thread logger level message) (
        if takes logger level
        then make_message clock logger.reads thread level message ∷ []
        else [])
log-Flows clock format thread logger level message v r =
    let (sound, output, what) = log-Logged clock thread logger level message v in
    let keeps = log-keeps clock thread logger level message in
    record {
      sound = sound;
      running = keeps.0;
      same_file = keeps.1;
      taken = [];
      flow = sym (log-pending clock thread logger level message v r);
      output = output;
    }

pub session-Flows :
    (clock : Clock) (format : Format) (events : List Event) (logger : AsyncLogger)
    → IsRing queue_size logger.queue
    → logger.running ≡ true
    → Flows format logger (session clock format events logger) (accepted clock format events logger)
unfolding session accepted
session-Flows clock format [] logger v r = record {
  sound = v;
  running = refl;
  same_file = refl;
  taken = [];
  flow = append-nil (pending logger);
  output = refl;
}
session-Flows clock format (Event.logs thread level message ∷ events) logger v r =
    let f = log-Flows clock format thread logger level message v r in
    Flows-trans format logger (log clock thread logger level message) _ _ _ f (
      session-Flows clock format events (log clock thread logger level message) f.sound
        (f.running ∙ r))
session-Flows clock format (Event.works ∷ events) logger v r =
    let f = work-Flows format logger v in
    Flows-trans format logger (work format logger) _ [] _ f
      (session-Flows clock format events (work format logger) f.sound (f.running ∙ r))

-- What a session has written, with what still waits.
pub Flows-written :
    {format : Format} {logger logger' : AsyncLogger} {msgs : List LogMessage}
    → Flows format logger logger' msgs
    → written format logger'.log_file logger'.output (pending logger')
      ≡ written format logger.log_file logger.output (pending logger ++ msgs)
Flows-written {format} {logger} {logger'} f =
    ap₂ (λ file output. written format file output (pending logger')) f.same_file f.output
    ∙ sym (written-append format logger.log_file logger.output f.taken (pending logger'))
    ∙ ap (written format logger.log_file logger.output) (sym f.flow)

-- What a stopped logger has written: the messages that waited, and then those that were accepted.
pub record Delivered (format : Format) (logger : AsyncLogger) (msgs : List LogMessage)
    (outcome : Option AsyncLogger) : Type 0 where
  pub stopped : AsyncLogger
  pub result : outcome ≡ some stopped
  pub ended : stopped.running ≡ false
  pub emptied : pending stopped ≡ []
  pub output :
      stopped.output
      ≡ lines_to logger.log_file logger.output (map (log_line format) (pending logger ++ msgs))

-- Calls of `log` and rounds of the worker in any order, on a running logger with a sound queue: there
-- is a number of rounds with which `stop` then ends, with an empty queue and a logger that does not
-- run. The lines of the messages that waited before and then of those that were accepted, each once
-- and in order, have been added to the file if it is open, and to the console if there is none; if
-- `log_file` is a stream that failed to open, nothing has been added to either.
pub stop-session :
    (clock : Clock) (format : Format) (events : List Event) (logger : AsyncLogger)
    → IsRing queue_size logger.queue
    → logger.running ≡ true
    → (fuel : ℕ) × Delivered format logger
        (accepted clock format events logger)
        (stop fuel format (session clock format events logger))
stop-session clock format events logger v r =
    let f = session-Flows clock format events logger v r in
    let logger' = session clock format events logger in
    let d =
      stop-Drained (length (pending logger') + 1) format logger' f.sound (f.running ∙ r)
        (omega arith) in
    (
      length (pending logger') + 1,
      record {
        stopped = _;
        result = d.result;
        ended = refl;
        emptied = d.drained;
        output =
            Flows-written f
            ∙ written-lines format logger.log_file logger.output
                (pending logger ++ accepted clock format events logger);
      },
    )
