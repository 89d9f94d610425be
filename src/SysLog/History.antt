-- ===== src/SysLog/History.antt =====
-- The detailed log after any sequence of messages.
use opensx_serial_server.Prelude.{
  ℕ, true, some, List, [], ◌∷◌, ◌++◌, if◌then◌else◌, length-replicate, arith,
}
use opensx_serial_server.Prelude.Text.{CString}
use opensx_serial_server.SysLog.{State, buffer_size, empty_log, log_line, is_kept, log_output_func}
use opensx_serial_server.SysLog.Detailed.{IsLog}

-- The bytes that a text adds to the log.
abbrev pub logged : CString → CString
logged text = if is_kept text then log_line text else []

abbrev pub all_logged : List CString → CString
all_logged [] = []
all_logged (text ∷ texts) = logged text ++ all_logged texts

-- Messages one after the other, the mutex taken for each.
unfoldable pub log_all : State → List CString → State
log_all s [] = s
log_all s (text ∷ texts) = log_all (log_output_func s true text (some text)).0 texts

pub empty_log-IsLog : IsLog empty_log
empty_log-IsLog = record { sized = length-replicate {A = ℕ} buffer_size 0; within = omega arith }
