-- ===== src/AsyncLogger.antt =====
-- `AsyncLogger` of include/utils/AsyncLogger.hpp, with its worker thread as rounds of its loop. The
-- texts that `localtime`, `snprintf` and the streams make are parameters.
pub mod Flush
pub mod Log
pub mod Written
pub mod Restart
pub mod Session
pub mod Lossless
pub mod Idle
use trading_matcher.Base.{
  ℕ, zero, suc, ◌+◌, ◌-◌, ℤ, pos, Bool, true, false, not, ◌||◌, Option, none, some, List, [], ◌∷◌,
  ◌++◌, if◌then◌else◌, ltb, Text, ◌+ℤ◌, div_ℤ, rem_ℤ,
}
use trading_matcher.Timestamp.{Clock, get_timestamp_ns}
use trading_matcher.SpscQueue.{Queue, new_queue, push, pop, is_empty, count}

pub data LogLevel : Type 0 where
  trace : LogLevel
  debug : LogLevel
  info : LogLevel
  warn : LogLevel
  error : LogLevel
  fatal : LogLevel

-- The value of the enumerator.
abbrev pub level_value : LogLevel → ℕ
level_value trace = 0
level_value debug = 1
level_value info = 2
level_value warn = 3
level_value error = 4
level_value fatal = 5

-- A text is the list of its characters, up to the terminating NUL. What `strncpy` and `snprintf` keep
-- of it in a buffer with room for `n` characters and the NUL.
unfoldable pub truncate : ℕ → Text → Text
truncate zero text = []
truncate (suc n) [] = []
truncate (suc n) (c ∷ text) = c ∷ truncate n text

pub record LogMessage : Type 0 where
  pub level : LogLevel
  pub timestamp_ns : ℤ
  pub thread_id : ℕ
  pub message : Text

-- `LogMessage()`
abbrev pub empty_message : LogMessage
empty_message = record { level = LogLevel.info; timestamp_ns = pos 0; thread_id = 0; message = [] }

-- `LogMessage(lvl, msg)`, on the thread `thread`, at the reading `reads` of the clock.
abbrev pub make_message : Clock → ℕ → ℕ → LogLevel → Text → LogMessage
make_message clock reads thread level msg = record {
  level = level;
  timestamp_ns = get_timestamp_ns clock reads;
  thread_id = thread;
  message = truncate 255 msg;
}

-- `log_file_`: null, a stream that failed to open, or an open one.
pub data LogFile : Type 0 where
  absent : LogFile
  broken : LogFile
  opened : LogFile

-- The lines written so far, oldest first.
pub record Output : Type 0 where
  pub file : List Text
  pub console : List Text

pub record AsyncLogger : Type 0 where
  pub running : Bool
  pub min_level : LogLevel
  pub queue : Queue LogMessage
  pub log_file : LogFile
  pub output : Output
  pub reads : ℕ

-- The fields of `struct tm` that are printed.
pub record Tm : Type 0 where
  pub tm_year : ℤ
  pub tm_mon : ℤ
  pub tm_mday : ℤ
  pub tm_hour : ℤ
  pub tm_min : ℤ
  pub tm_sec : ℤ

-- What the standard library makes of a time and of numbers; `print_number width` is `%0<width>d`.
pub record Format : Type 0 where
  pub localtime : ℤ → Tm
  pub print_number : ℕ → ℤ → Text
  pub decimal : ℕ → Text

abbrev pub queue_size : ℕ
queue_size = 65_536

-- `AsyncLogger()`; the places of the queue start with default messages.
unfoldable pub new_logger : AsyncLogger
unfolding new_queue
new_logger = record {
  running = false;
  min_level = LogLevel.info;
  queue = new_queue queue_size (λ i. empty_message);
  log_file = LogFile.absent;
  output = record { file = []; console = [] };
  reads = 0;
}

unfoldable pub set_level : AsyncLogger → LogLevel → AsyncLogger
set_level logger level = record logger { min_level = level }

unfoldable pub log : Clock → ℕ → AsyncLogger → LogLevel → Text → AsyncLogger
log clock thread logger level message =
    if ltb (level_value level) (level_value logger.min_level)
    then logger
    else (if not logger.running then logger else record logger {
      queue =
          (push queue_size logger.queue (make_message clock logger.reads thread level message)).0;
      reads = logger.reads + 1;
    })

-- `logf`; `formatted` is the whole text that the format and the arguments make.
unfoldable pub logf : Clock → ℕ → AsyncLogger → LogLevel → Text → AsyncLogger
logf clock thread logger level formatted =
    if ltb (level_value level) (level_value logger.min_level)
    then logger
    else log clock thread logger level (truncate 255 formatted)

-- `trace`, `debug`, `info`, `warn`, `error` and `fatal`, which the macros call.
module _ (clock : Clock) (thread : ℕ) (logger : AsyncLogger) (message : Text) where
  unfoldable pub log_trace : AsyncLogger
  log_trace = log clock thread logger LogLevel.trace message

  unfoldable pub log_debug : AsyncLogger
  log_debug = log clock thread logger LogLevel.debug message

  unfoldable pub log_info : AsyncLogger
  log_info = log clock thread logger LogLevel.info message

  unfoldable pub log_warn : AsyncLogger
  log_warn = log clock thread logger LogLevel.warn message

  unfoldable pub log_error : AsyncLogger
  log_error = log clock thread logger LogLevel.error message

  unfoldable pub log_fatal : AsyncLogger
  log_fatal = log clock thread logger LogLevel.fatal message

-- `queueSize`
unfoldable pub queue_count : AsyncLogger → ℕ
queue_count logger = count queue_size logger.queue

-- `levelToString`
abbrev pub level_to_string : LogLevel → Text
level_to_string trace = b'T' ∷ b'R' ∷ b'A' ∷ b'C' ∷ b'E' ∷ []
level_to_string debug = b'D' ∷ b'E' ∷ b'B' ∷ b'U' ∷ b'G' ∷ []
level_to_string info = b'I' ∷ b'N' ∷ b'F' ∷ b'O' ∷ b' ' ∷ []
level_to_string warn = b'W' ∷ b'A' ∷ b'R' ∷ b'N' ∷ b' ' ∷ []
level_to_string error = b'E' ∷ b'R' ∷ b'R' ∷ b'O' ∷ b'R' ∷ []
level_to_string fatal = b'F' ∷ b'A' ∷ b'T' ∷ b'A' ∷ b'L' ∷ []

unfoldable pub format_timestamp : Format → ℤ → Text
unfolding ◌+ℤ◌
format_timestamp format ns =
    let nanos = rem_ℤ ns 1_000_000_000 in
    let tm = format.localtime (div_ℤ ns 1_000_000_000) in
    truncate 63 (
      format.print_number 4 (tm.tm_year +ℤ pos 1900)
      ++ (b'-' ∷ format.print_number 2 (tm.tm_mon +ℤ pos 1))
      ++ (b'-' ∷ format.print_number 2 tm.tm_mday)
      ++ (b' ' ∷ format.print_number 2 tm.tm_hour)
      ++ (b':' ∷ format.print_number 2 tm.tm_min)
      ++ (b':' ∷ format.print_number 2 tm.tm_sec)
      ++ (b'.' ∷ format.print_number 9 nanos))

-- `[LEVEL] [TIMESTAMP] [THREAD] MESSAGE`
unfoldable pub log_line : Format → LogMessage → Text
log_line format msg =
    (b'[' ∷ level_to_string msg.level)
    ++ (b']' ∷ b' ' ∷ b'[' ∷ format_timestamp format msg.timestamp_ns)
    ++ (b']' ∷ b' ' ∷ b'[' ∷ b'T' ∷ format.decimal msg.thread_id)
    ++ (b']' ∷ b' ' ∷ msg.message)
    ++ b'\n' ∷ []

abbrev pub write_line : LogFile → Output → Text → Output
write_line opened output line = record output { file = output.file ++ line ∷ [] }
write_line broken output line = output
write_line absent output line = record output { console = output.console ++ line ∷ [] }

-- `writeLogMessage`
unfoldable pub write_log_message : Format → AsyncLogger → LogMessage → AsyncLogger
write_log_message format logger msg = record logger {
  output = write_line logger.log_file logger.output (log_line format msg);
}

-- `flush` with `fuel` rounds of its loop; `none` if they do not suffice.
unfoldable pub flush : ℕ → Format → AsyncLogger → Option AsyncLogger
flush zero format logger = none
flush (suc fuel) format logger =
    let (queue, got) = pop queue_size logger.queue in
    let logger' = record logger { queue = queue } in
    elim got [
      | none ↦ some logger'
      | some msg ↦ flush fuel format (write_log_message format logger' msg)
    ]

-- A round of the loop of `logWorker`. The flush of the stream and the sleep have no effect on the
-- lines.
unfoldable pub work : Format → AsyncLogger → AsyncLogger
work format logger =
    let (queue, got) = pop queue_size logger.queue in
    let logger' = record logger { queue = queue } in
    elim got [ none ↦ logger' | some msg ↦ write_log_message format logger' msg ]

-- `logWorker` from the moment on when `running_` is as it stays, with `rounds` rounds of its loop and
-- `fuel` of that of `flush`.
unfoldable pub log_worker : ℕ → ℕ → Format → AsyncLogger → Option AsyncLogger
log_worker zero fuel format logger = none
log_worker (suc rounds) fuel format logger = elim (logger.running || not (is_empty logger.queue)) [
  | false ↦ flush fuel format logger
  | true ↦ log_worker rounds fuel format (work format logger)
]

-- `start`, without the worker's own steps; the path is `none` if it is empty, and otherwise says
-- whether the file opens.
unfoldable pub start : AsyncLogger → Option Bool → AsyncLogger × Bool
start logger path = elim logger.running [
  | true ↦ (logger, false)
  | false ↦ elim path [
    | none ↦ (record logger { running = true }, true)
    | some true ↦ (record logger { running = true; log_file = LogFile.opened }, true)
    | some false ↦ (record logger { log_file = LogFile.broken }, false)
  ]
]

-- `stop`: the worker ends, what is left is flushed, and the file is closed.
unfoldable pub stop : ℕ → Format → AsyncLogger → Option AsyncLogger
stop fuel format logger = elim logger.running [
  | false ↦ some logger
  | true ↦ elim (log_worker fuel fuel format (record logger { running = false })) [
    | none ↦ none
    | some worked ↦ elim (flush fuel format worked) [
      | none ↦ none
      | some flushed ↦ some (record flushed { log_file = LogFile.absent })
    ]
  ]
]

-- `~AsyncLogger()`
abbrev pub destroy : ℕ → Format → AsyncLogger → Option AsyncLogger
destroy fuel format logger = stop fuel format logger
