-- ===== src/WorkMode/Active.antt =====
-- main/system/sx_work_mode.c: the mode that is active, against its calls.
use opensx_serial_server.Prelude.{
  ◌≡◌, true, false, Option, none, some, List, [], ◌∷◌, if◌then◌else◌,
}
use opensx_serial_server.Prelude.Text.{CString}
use opensx_serial_server.Prelude.Err.{EspErr, esp_ok}
use opensx_serial_server.WorkMode.{
  Mode, State, Call, start, after_start, stop, is_active, same_name,
}
use opensx_serial_server.WorkMode.Outcome.{name_of, CanStop}

abbrev pub active : State → Option (Option CString)
active s = name_of s.current

-- The active mode, and the calls replayed on the name of the mode that runs: a mode is started only where
-- none runs, and what is stopped is the one that runs.
abbrev perform : Call → Option (Option CString) → Option (Option (Option CString))
perform (start name true) none = some (some name)
perform (start name false) none = some none
perform (start name ok) (some runs) = none
perform (after_start name) none = none
perform (after_start name) (some runs) = if same_name name runs then some (some runs) else none
perform (stop name) none = none
perform (stop name) (some runs) = if same_name name runs then some none else none

abbrev bind_replay :
    Option (Option (Option CString))
    → (Option (Option CString) → Option (Option (Option CString)))
    → Option (Option (Option CString))
bind_replay none next = none
bind_replay (some r) next = next r

abbrev pub replay : List Call → Option (Option CString) → Option (Option (Option CString))
replay [] r = some r
replay (c ∷ cs) r = bind_replay (perform c r) (λ r'. replay cs r')

-- A start in terms of what runs: `before` is the active mode before it.
record Balanced (before : Option Mode) (wanted : Option Mode) (r : State × List Call × EspErr)
    : Type 0 where
  calls_fit : replay r.1 (name_of before) ≡ some (name_of r.0.current)
  can_stop : CanStop r.0.current
  active_ok :
      r.2 ≡ esp_ok → (mode : Mode) × (wanted ≡ some mode) × (is_active r.0.current mode ≡ true)
