-- ===== src/SysLog/Tests.antt =====
-- The theorems on the two logs at concrete inputs, and runs of the code.
use opensx_serial_server.Prelude.{
  ℕ, ◌+◌, ◌≡◌, ◌<◌, ◌++◌, min, some, get_elem?, refl, false, ◌||◌, List, [], ◌∷◌, arith, leb,
  length, length-replicate,
}
use opensx_serial_server.Prelude.Text.{CString, c_str}
use opensx_serial_server.SysLog.{State, buffer_size, empty_log, log_append, log_line}
use opensx_serial_server.SysLog.Detailed.{contents, keep_last, log_append-terminates}
use opensx_serial_server.SysLog.History.{empty_log-IsLog}
use opensx_serial_server.SysLog.Brief.{IsBrief}

abbrev unset : State
unset = record {
  has_log_mutex = false;
  has_simple_mutex = false;
  detailed = empty_log;
  brief = empty_log;
}

line_end : log_line (c_str "up") ≡ c_str "up\n"
unfolding log_line
line_end = refl

abbrev texts : List CString
texts = c_str "up" ∷ [] ∷ c_str "down\n" ∷ []

log_append-terminates_example :
    let l' = log_append empty_log (c_str "up\n") in
    (l'.position ≡ min buffer_size (empty_log.position + length (c_str "up\n")))
    × (contents l' ≡ keep_last buffer_size (contents empty_log ++ c_str "up\n"))
    × (l'.position < buffer_size → get_elem? l'.buffer.bytes l'.position ≡ some 0)
    × (l'.buffer.overrun ≡ (
        empty_log.buffer.overrun || leb buffer_size (empty_log.position + length (c_str "up\n"))))
log_append-terminates_example = log_append-terminates (c_str "up\n") empty_log-IsLog (omega arith)

empty_log-IsBrief : IsBrief empty_log
empty_log-IsBrief = record {
  sized = length-replicate {A = ℕ} buffer_size 0;
  within = omega arith;
  terminated = refl;
}
