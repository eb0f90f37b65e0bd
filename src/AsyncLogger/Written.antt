-- ===== src/AsyncLogger/Written.antt =====
-- Where the lines of messages go: to an open file, to the console without one, and nowhere if the file
-- could not be opened.
use mathlib.Core.List.{append-nil, append_assoc}
use trading_matcher.Base.{◌≡◌, refl, sym, ap, ◌∙◌, List, [], ◌∷◌, ◌++◌, map, Text}
use trading_matcher.AsyncLogger.{LogFile, LogMessage, Output, write_line, Format, log_line}
use trading_matcher.AsyncLogger.Flush.{written}

-- The output with more lines, all at once.
abbrev pub lines_to : LogFile → Output → List Text → Output
lines_to LogFile.opened output lines = record output { file = output.file ++ lines }
lines_to LogFile.absent output lines = record output { console = output.console ++ lines }
lines_to LogFile.broken output lines = output

pub written-lines :
    (format : Format) (file : LogFile) (output : Output) (msgs : List LogMessage)
    → written format file output msgs ≡ lines_to file output (map (log_line format) msgs)
written-lines format LogFile.opened output [] =
    sym (ap (λ lines. record output { file = lines }) (append-nil output.file))
written-lines format LogFile.opened output (m ∷ msgs) =
    written-lines format LogFile.opened (write_line LogFile.opened output (log_line format m)) msgs
    ∙ ap (λ lines. record output { file = lines })
        (append_assoc output.file (log_line format m ∷ []) (map (log_line format) msgs))
written-lines format LogFile.absent output [] =
    sym (ap (λ lines. record output { console = lines }) (append-nil output.console))
written-lines format LogFile.absent output (m ∷ msgs) =
    written-lines format LogFile.absent (write_line LogFile.absent output (log_line format m)) msgs
    ∙ ap (λ lines. record output { console = lines })
        (append_assoc output.console (log_line format m ∷ []) (map (log_line format) msgs))
written-lines format LogFile.broken output [] = refl
written-lines format LogFile.broken output (m ∷ msgs) =
    written-lines format LogFile.broken output msgs
