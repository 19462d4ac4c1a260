-- ===== src/Logger/Filtered.antt =====
-- What a sequence of calls leaves in the log.
use tftpserver.Prelude.{
  ◌≡◌, refl, ap, sym, ◌∙◌, true, false, List, [], ◌∷◌, ◌++◌, Option, none, some, Bytes, take,
  append_snoc, append-nil, Bool-cases, inl, inr, if◌then◌else◌,
}
use tftpserver.Prelude.Int.{ℤ, ltb_ℤ}
use tftpserver.Logger.{
  TftpLogger, log_line, log, log_format, set_log_level, set_log_file, LogCall, message, level_set,
  file_set, call_logger, call_all,
}

-- The lines, with the level and the file as they stand at each message.
abbrev pub lines : ℤ → Option Bytes → List LogCall → List (Option Bytes × Bytes)
lines log_level log_file [] = []
lines log_level log_file (message time level text ∷ calls) =
    let rest = lines log_level log_file calls in
    if ltb_ℤ level log_level then rest else (log_file, log_line time level (take 1023 text)) ∷ rest
lines log_level log_file (level_set level ∷ calls) = lines level log_file calls
lines log_level log_file (file_set filename opens ∷ calls) =
    lines log_level (if opens then some filename else none) calls

log_format_dropped :
    (time : Bytes) (level : ℤ) (text : Bytes) (l : TftpLogger)
    → ltb_ℤ level l.log_level ≡ true
    → log_format time level text l ≡ l
unfolding log_format
log_format_dropped time level text l low = simp low

log_format_written :
    (time : Bytes) (level : ℤ) (text : Bytes) (l : TftpLogger)
    → ltb_ℤ level l.log_level ≡ false
    → log_format time level text l
      ≡ record l { written = l.written ++ (l.log_file, log_line time level (take 1023 text)) ∷ [] }
unfolding log_format log
log_format_written time level text l high = simp high

-- Behind every sequence of calls of LogFormat, SetLogLevel and SetLogFile, the log holds what it held
-- before, and then one line for each message whose level is at least the level set last, in order,
-- cut to 1023 bytes of text, each in the file set last if that could be opened, else on the error
-- output.
pub call_all-written :
    (calls : List LogCall) (l : TftpLogger)
    → (call_all calls l).written ≡ l.written ++ lines l.log_level l.log_file calls
unfolding call_all call_logger set_log_level set_log_file
call_all-written [] l = sym (append-nil l.written)
call_all-written (level_set level ∷ calls) l = call_all-written calls (set_log_level level l)
call_all-written (file_set filename opens ∷ calls) l =
    call_all-written calls (set_log_file filename opens l)
call_all-written (message time level text ∷ calls) l = elim (Bool-cases (ltb_ℤ level l.log_level)) [
  | inl low ↦
      ap (λ k. (call_all calls k).written) (log_format_dropped time level text l low)
      ∙ call_all-written calls l
      ∙ rw low refl
  | inr high ↦
      let line : Option Bytes × Bytes = (l.log_file, log_line time level (take 1023 text)) in
      ap (λ k. (call_all calls k).written) (log_format_written time level text l high)
      ∙ call_all-written calls (record l { written = l.written ++ line ∷ [] })
      ∙ rw high (append_snoc l.written line (lines l.log_level l.log_file calls))
]
