-- ===== src/Tests/Logger.antt =====
-- Messages below and above the level.
use tftpserver.Prelude.{◌≡◌, refl, true, List, [], ◌∷◌, ◌++◌, none, some, codes}
use tftpserver.Prelude.Int.{pos}
use tftpserver.Logger.{
  TftpLogger, LogCall, message, file_set, call_all, call_logger, log_format, log, log_line,
  level_text, set_log_level, set_log_file,
}
use tftpserver.Logger.Filtered.{lines, call_all-written}

abbrev new_logger : TftpLogger
new_logger = record { log_level = pos 2; log_file = none; written = [] }

abbrev logger_calls : List LogCall
logger_calls =
    message (codes "12:00") (pos 1) (codes "low")
    ∷ file_set (codes "log") true
    ∷ message (codes "12:01") (pos 4) (codes "high")
    ∷ []

one_line :
    (call_all logger_calls new_logger).written
    ≡ (some (codes "log"), codes "12:01 [ERROR] high\n") ∷ []
unfolding call_all call_logger log_format log log_line level_text set_log_level set_log_file
one_line = refl

call_all-written_example :
    (call_all logger_calls new_logger).written ≡ [] ++ lines (pos 2) none logger_calls
call_all-written_example = call_all-written logger_calls new_logger
