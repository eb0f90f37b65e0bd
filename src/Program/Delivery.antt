-- ===== src/Program/Delivery.antt =====
-- What the lines of `main` come to in its log file.
use mathlib.Core.List.{append-nil, map-append}
use trading_matcher.Base.{
  ◌<◌, ◌≡◌, refl, sym, ap, ◌∙◌, subst, Bool, true, false, List, [], ◌∷◌, ◌++◌, if◌then◌else◌, map,
  arith, length, length-map,
}
use trading_matcher.Timestamp.{Clock}
use trading_matcher.SpscQueue.{new_queue, count}
use trading_matcher.SpscQueue.Fifo.{IsRing}
use trading_matcher.AsyncLogger.{
  AsyncLogger, LogLevel, LogFile, LogMessage, Format, queue_size, new_logger, set_level, start,
  log_line,
}
use trading_matcher.AsyncLogger.Flush.{pending, written}
use trading_matcher.AsyncLogger.Session.{Event, session, accepted, session-Flows}
use trading_matcher.AsyncLogger.Idle.{session-idle}
use trading_matcher.AsyncLogger.Written.{lines_to, written-lines}
use trading_matcher.AsyncLogger.Lossless.{said, heard, kept, Loud, accepted-all}
use trading_matcher.Console.{Line, call}
use trading_matcher.Program.{open_logger}

Loud-lines : (lines : List Line) → Loud LogLevel.debug (map call lines)
Loud-lines [] = tt
Loud-lines (Line.debug text ∷ lines) = (omega arith, Loud-lines lines)
Loud-lines (Line.info text ∷ lines) = (omega arith, Loud-lines lines)
Loud-lines (Line.warn text ∷ lines) = (omega arith, Loud-lines lines)

-- What the logger comes to after these lines. If the file opened, one message for each line has been
-- written to it or still waits; if it did not, none.
pub record Filed (format : Format) (opens : Bool) (lines : List Line) (logger : AsyncLogger)
    : Type 0 where
  pub runs : logger.running ≡ opens
  pub msgs : List LogMessage
  pub calls : map heard msgs ≡ (if opens then map kept (map call lines) else [])
  pub file :
      logger.output.file ++ map (log_line format) (pending logger) ≡ map (log_line format) msgs
  pub quiet : logger.output.console ≡ []

opened : AsyncLogger
opened = open_logger true

opened-IsRing : IsRing queue_size opened.queue
unfolding opened open_logger start set_level new_logger new_queue
opened-IsRing = record {
  power = (16, refl);
  several = omega arith;
  read_in = omega arith;
  write_in = omega arith;
}

opened-starts :
    (opened.running ≡ true)
    × (pending opened ≡ [])
    × (opened.log_file ≡ LogFile.opened)
    × (opened.output.file ≡ [])
    × (opened.min_level ≡ LogLevel.debug)
    × (opened.output.console ≡ [])
unfolding opened open_logger start set_level new_logger new_queue count
opened-starts = (refl, refl, refl, refl, refl, refl)

opened-Filed :
    (clock : Clock) (format : Format) (events : List Event) (lines : List Line)
    → said events ≡ map call lines
    → length lines < queue_size
    → Filed format true lines (session clock format events opened)
opened-Filed clock format events lines e few =
    let (runs, none_waits, file, empty, low, silent) = opened-starts in
    let v = opened-IsRing in
    let f = session-Flows clock format events opened v runs in
    let msgs = accepted clock format events opened in
    let said_count : length (said events) ≡ length lines = ap length e ∙ length-map call lines in
    let all : map heard msgs ≡ map kept (said events) =
      accepted-all clock format events opened v runs
        (omega (arith, few, said_count, ap length none_waits))
        (subst (λ calls. Loud opened.min_level calls) (sym e)
          (subst (λ min. Loud min (map call lines)) (sym low) (Loud-lines lines))) in
    let after = session clock format events opened in
    let output : after.output
        ≡ lines_to LogFile.opened opened.output (map (log_line format) f.taken) =
      f.output
      ∙ ap (λ x. written format x opened.output f.taken) file
      ∙ written-lines format LogFile.opened opened.output f.taken in
    record {
      runs = f.running ∙ runs;
      msgs = msgs;
      calls = all ∙ ap (map kept) e;
      file =
          ap (λ o. o.file ++ map (log_line format) (pending after)) output
          ∙ ap (λ l. (l ++ map (log_line format) f.taken) ++ map (log_line format) (pending after))
              empty
          ∙ sym (map-append (log_line format) f.taken (pending after))
          ∙ ap (map (log_line format)) (sym f.flow ∙ ap (λ p. p ++ msgs) none_waits);
      quiet = ap (λ o. o.console) output ∙ silent;
    }

refused : AsyncLogger
refused = open_logger false

refused-starts :
    IsRing queue_size refused.queue
    × (refused.running ≡ false)
    × (pending refused ≡ [])
    × (refused.output.file ≡ [])
    × (refused.output.console ≡ [])
unfolding refused open_logger start set_level new_logger new_queue count
refused-starts = (
  record {
    power = (16, refl);
    several = omega arith;
    read_in = omega arith;
    write_in = omega arith;
  },
  refl,
  refl,
  refl,
  refl,
)

refused-Filed :
    (clock : Clock) (format : Format) (events : List Event) (lines : List Line)
    → Filed format false lines (session clock format events refused)
refused-Filed clock format events lines =
    let (v, idle, none_waits, empty, silent) = refused-starts in
    subst (Filed format false lines)
      (sym (session-idle clock format events refused v idle none_waits))
      (record {
        runs = idle;
        msgs = [];
        calls = refl;
        file =
            ap (λ p. refused.output.file ++ map (log_line format) p) none_waits
            ∙ append-nil refused.output.file
            ∙ empty;
        quiet = silent;
      })

-- The logger of `main` under calls and rounds of its worker.
pub session-Filed :
    (clock : Clock) (format : Format) (opens : Bool) (events : List Event) (lines : List Line)
    → said events ≡ map call lines
    → length lines < queue_size
    → Filed format opens lines (session clock format events (open_logger opens))
unfolding opened refused
session-Filed clock format true events lines e few = opened-Filed clock format events lines e few
session-Filed clock format false events lines e few = refused-Filed clock format events lines
