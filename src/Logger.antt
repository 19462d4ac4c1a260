-- ===== src/Logger.antt =====
-- src/tftp_logger.cpp and include/tftp/tftp_logger.h: TftpLogger. The text of the time is an argument
-- of each call, and so is whether a file can be opened.
pub mod Filtered
use tftpserver.Prelude.{
  Bool, not, List, [], ◌∷◌, ◌++◌, Option, none, some, Bytes, codes, take, if◌then◌else◌,
}
use tftpserver.Prelude.Int.{ℤ, pos, ltb_ℤ, eq_ℤ}

-- The file that is open, the level, and what was written: the file or, with `none`, the error output,
-- and the text, in order.
pub record TftpLogger : Type 0 where
  pub log_level : ℤ
  pub log_file : Option Bytes
  pub written : List (Option Bytes × Bytes)

unfoldable pub set_log_level : ℤ → TftpLogger → TftpLogger
set_log_level level l = record l { log_level = level }

-- The file of before is closed in any case.
unfoldable pub set_log_file : Bytes → Bool → TftpLogger → TftpLogger
set_log_file filename opens l = record l { log_file = if opens then some filename else none }

unfoldable pub level_text : ℤ → Bytes
level_text level =
    if eq_ℤ level (pos 0)
    then codes "TRACE"
    else if eq_ℤ level (pos 1)
    then codes "DEBUG"
    else if eq_ℤ level (pos 2)
    then codes "INFO"
    else if eq_ℤ level (pos 3)
    then codes "WARN"
    else if eq_ℤ level (pos 4)
    then codes "ERROR"
    else if eq_ℤ level (pos 5)
    then codes "CRITICAL"
    else codes "UNKNOWN"

unfoldable pub log_line : Bytes → ℤ → Bytes → Bytes
log_line time level message =
    time ++ (codes " [" ++ (level_text level ++ (codes "] " ++ (message ++ b'\n' ∷ []))))

unfoldable pub log : Bytes → ℤ → Bytes → TftpLogger → TftpLogger
log time level message l =
    if ltb_ℤ level l.log_level
    then l
    else record l { written = l.written ++ (l.log_file, log_line time level message) ∷ [] }

unfoldable pub should_log : ℤ → TftpLogger → Bool
should_log level l = not (ltb_ℤ level l.log_level)

-- `text` is the formatted text, which `snprintf` cuts to the buffer of 1024 bytes with its terminator.
unfoldable pub log_format : Bytes → ℤ → Bytes → TftpLogger → TftpLogger
log_format time level text l =
    if not (ltb_ℤ level l.log_level) then log time level (take 1023 text) l else l

-- A call of LogFormat, of SetLogLevel or of SetLogFile.
pub data LogCall : Type 0 where
  message : Bytes → ℤ → Bytes → LogCall
  level_set : ℤ → LogCall
  file_set : Bytes → Bool → LogCall

unfoldable pub call_logger : LogCall → TftpLogger → TftpLogger
call_logger (message time level text) l = log_format time level text l
call_logger (level_set level) l = set_log_level level l
call_logger (file_set filename opens) l = set_log_file filename opens l

unfoldable pub call_all : List LogCall → TftpLogger → TftpLogger
call_all [] l = l
call_all (c ∷ calls) l = call_all calls (call_logger c l)
