-- ===== src/WorkMode.antt =====
-- main/system/sx_work_mode.c and main/modes/sx_builtin_modes.c: the registry of work modes and the mode
-- that is active. A `sx_work_mode_t` is its name and which of its functions are there; what `start`
-- answers is a parameter, and the calls of a mode's functions are a list.
pub mod Registry
pub mod Outcome
pub mod Active
pub mod Stored
mod Tests
use opensx_serial_server.Prelude.{
  ℕ, ◌+◌, Bool, true, false, not, ◌&&◌, ◌||◌, Option, none, some, List, [], ◌∷◌, ◌++◌, ltb,
  if◌then◌else◌, length,
}
use opensx_serial_server.Prelude.Text.{CString, c_str, str_eq}
use opensx_serial_server.Prelude.Err.{EspErr, esp_ok, err_no_mem, err_invalid_arg, err_not_found}

-- `sx_work_mode_t`; a handler is a number
pub record Mode : Type 0 where
  pub name : Option CString
  pub has_start : Bool
  pub has_stop : Bool
  pub has_after_start : Bool
  pub on_uart_data : Option ℕ
  pub on_tcp_data : Option ℕ
  pub on_mqtt_data : Option ℕ

-- `s_modes` up to `s_mode_count`, `s_current_mode`, and `s_registered` of the built-in modes
pub record State : Type 0 where
  pub modes : List Mode
  pub current : Option Mode
  pub registered : Bool

-- The calls of the functions of a mode, by its name; a start with whether it succeeded.
pub data Call : Type 0 where
  start : Option CString → Bool → Call
  after_start : Option CString → Call
  stop : Option CString → Call

abbrev pub mode_max : ℕ
mode_max = 8

-- the comparison of a registered name
abbrev pub is_named : CString → Option CString → Bool
is_named name none = false
is_named name (some other) = str_eq other name

abbrev pub first_of : Bool → Mode → Option Mode → Option Mode
first_of true mode later = some mode
first_of false mode later = later

-- the loop of `find_mode`
unfoldable pub find_in : List Mode → CString → Option Mode
find_in [] name = none
find_in (mode ∷ modes) name = first_of (is_named name mode.name) mode (find_in modes name)

-- `find_mode`; a NULL name is `none`
unfoldable pub find_mode : State → Option CString → Option Mode
find_mode s none = none
find_mode s (some []) = none
find_mode s (some (c ∷ cs)) = find_in s.modes (c ∷ cs)

abbrev pub add_mode : State → Mode → Option Mode → State × EspErr
add_mode s mode (some existing) = (s, esp_ok)
add_mode s mode none =
    if not (ltb (length s.modes) mode_max)
    then (s, err_no_mem)
    else (record s { modes = s.modes ++ mode ∷ [] }, esp_ok)

abbrev pub no_name : Option CString → Bool
no_name none = true
no_name (some []) = true
no_name (some (c ∷ cs)) = false

-- `sx_work_mode_register`
unfoldable pub register : State → Mode → State × EspErr
register s mode =
    if no_name mode.name || not mode.has_start
    then (s, err_invalid_arg)
    else add_mode s mode (find_mode s mode.name)

-- the two modes of `sx_work_mode_register_builtin_modes`
abbrev pub tcp_transparent_mode : Mode
tcp_transparent_mode = record {
  name = some (c_str "tcp_transparent");
  has_start = true;
  has_stop = true;
  has_after_start = false;
  on_uart_data = some 1;
  on_tcp_data = none;
  on_mqtt_data = none;
}

abbrev pub protocol_test_mode : Mode
protocol_test_mode = record {
  name = some (c_str "protocol_test");
  has_start = true;
  has_stop = true;
  has_after_start = false;
  on_uart_data = none;
  on_tcp_data = some 2;
  on_mqtt_data = some 3;
}

-- one registration after another, up to the first error
abbrev pub and_then_register : State × EspErr → Mode → State × EspErr
and_then_register (s, esp_ok) mode = register s mode
and_then_register (s, err) mode = (s, err)

abbrev pub done_registering : State × EspErr → State × EspErr
done_registering (s, esp_ok) = (record s { registered = true }, esp_ok)
done_registering (s, err) = (s, err)

unfoldable pub register_builtin_modes : State → State × EspErr
unfolding register
register_builtin_modes s =
    if s.registered
    then (s, esp_ok)
    else done_registering (and_then_register (register s tcp_transparent_mode) protocol_test_mode)

abbrev pub stop_mode : State → Option Mode → State × List Call
stop_mode s none = (s, [])
stop_mode s (some mode) =
    (record s { current = none }, if mode.has_stop then stop mode.name ∷ [] else [])

-- `sx_work_mode_stop_current`, and below what it answers
unfoldable pub stop_current : State → State × List Call
stop_current s = stop_mode s s.current

abbrev stop_result : (Mode → EspErr) → Option Mode → EspErr
stop_result stops none = esp_ok
stop_result stops (some mode) = if mode.has_stop then stops mode else esp_ok

pub stop_answer : (Mode → EspErr) → State → EspErr
stop_answer stops s = stop_result stops s.current

-- two modes of one name
abbrev pub same_name : Option CString → Option CString → Bool
same_name (some a) (some b) = str_eq a b
same_name _ _ = false

abbrev pub is_active : Option Mode → Mode → Bool
is_active none mode = false
is_active (some current) mode = same_name current.name mode.name

abbrev pub is_ok : EspErr → Bool
is_ok esp_ok = true
is_ok _ = false

-- the start of a mode that is not active; `err` is what `start` answers
abbrev pub start_mode : EspErr → Mode → State × List Call → State × List Call × EspErr
start_mode err mode (s, stopped) =
    if is_ok err
    then (
      record s { current = some mode },
      stopped
          ++ (start mode.name true
              ∷ (if mode.has_after_start then after_start mode.name ∷ [] else [])),
      esp_ok,
    )
    else (s, stopped ++ start mode.name false ∷ [], err)

abbrev pub start_found : (Mode → EspErr) → State → Option Mode → State × List Call × EspErr
start_found starts s none = (s, [], err_not_found)
start_found starts s (some mode) =
    if is_active s.current mode
    then (s, [], esp_ok)
    else start_mode (starts mode) mode (stop_current s)

-- `sx_work_mode_start_by_name`
unfoldable pub start_by_name : (Mode → EspErr) → State → Option CString → State × List Call × EspErr
unfolding find_mode stop_current
start_by_name starts s name =
    let s' = (register_builtin_modes s).0 in start_found starts s' (find_mode s' name)

abbrev pub is_found : Option Mode → Bool
is_found none = false
is_found (some mode) = true

-- `sx_work_mode_is_valid`
unfoldable pub is_valid : State → Option CString → State × Bool
unfolding find_mode
is_valid s name = let s' = (register_builtin_modes s).0 in (s', is_found (find_mode s' name))

-- the handlers of the active mode
abbrev handler_of : (Mode → Option ℕ) → Option Mode → Option ℕ
handler_of handler none = none
handler_of handler (some mode) = handler mode

pub get_uart_handler : State → Option ℕ
get_uart_handler s = handler_of (λ mode. mode.on_uart_data) s.current

pub get_tcp_handler : State → Option ℕ
get_tcp_handler s = handler_of (λ mode. mode.on_tcp_data) s.current

pub get_mqtt_handler : State → Option ℕ
get_mqtt_handler s = handler_of (λ mode. mode.on_mqtt_data) s.current
