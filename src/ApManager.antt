-- ===== src/ApManager.antt =====
-- main/network/sx_ap_manager.c: the access point, how long it stays open, and the timer that closes it.
-- Wait and Close hold theorems.
pub mod Wait
pub mod Close
mod Tests
use opensx_serial_server.Prelude.{
  ℕ, suc, ◌+◌, ◌-◌, ◌*◌, ◌/◌, Bool, true, false, not, ◌&&◌, ◌||◌, Option, none, some, List, [], ◌∷◌,
  ltb, leb, ◌==◌, if◌then◌else◌,
}
use opensx_serial_server.Prelude.Int.{ℤ, pos, negsuc, is_nat, above, to_nat}
use opensx_serial_server.Prelude.Text.{CString, c_str, atoi}
use opensx_serial_server.Prelude.Nvs.{Nvs, nvs_get_str}
use opensx_serial_server.Prelude.Err.{EspErr, esp_ok, esp_fail}
use opensx_serial_server.DnsServer.Life.{Life, start_dns_server, stop_dns_server}

-- the values that the setting may have
unfoldable pub is_wait_time : ℤ → Bool
is_wait_time s = is_nat s 0 || is_nat s 600 || is_nat s 1200 || is_nat s 1800 || is_nat s 3600

-- the seconds, and what is stored instead of the setting
unfoldable pub checked_wait_time : CString → ℕ × Option CString
checked_wait_time value =
    if is_wait_time (atoi value) then (to_nat (atoi value), none) else (3600, some (c_str "3600"))

abbrev pub wait_time_of : Option CString → ℕ × Option CString
wait_time_of none = (0, some (c_str "0"))
wait_time_of (some []) = (0, some (c_str "0"))
wait_time_of (some (c ∷ cs)) = checked_wait_time (c ∷ cs)

-- `load_ap_wait_time_sec`; a text that the buffer of 16 bytes does not hold leaves it empty
unfoldable pub load_ap_wait_time_sec : Nvs → ℕ × Option CString
load_ap_wait_time_sec nvs =
    if not nvs.opens then (0, none) else wait_time_of (nvs_get_str nvs (c_str "ap_wait_time") 16)

-- The statics, the timer by the time at which it is due, and the DNS server.
pub record State : Type 0 where
  pub timer_created : Bool
  pub timer_due : Option ℕ
  pub ap_on : Bool
  pub close_pending : Bool
  pub wait_time_sec : ℕ
  pub close_at_us : ℕ
  pub dns : Life

pub data Call : Type 0 where
  notify_ap_started notify_ap_stopped set_mode_sta : Call
  store_wait_time : CString → Call

-- What the world answers: the time, whether the timer can be created and started, whether a task can be
-- created, how many clients there are if the list can be read, and whether `start_softap` succeeds.
pub record Env : Type 0 where
  pub now_us : ℕ
  pub creates_timer : Bool
  pub starts_timer : Bool
  pub creates_task : Bool
  pub clients : Option ℕ
  pub softap : EspErr
  pub nvs : Nvs

-- `schedule_ap_close_timer`, and whether it answers ESP_OK
unfoldable pub schedule_ap_close_timer : Env → ℕ → State → State × Bool
schedule_ap_close_timer env delay_sec s =
    let idle = record s { timer_created = true; timer_due = none } in
    if not s.timer_created && not env.creates_timer
    then (s, false)
    else if env.starts_timer
    then (record idle { timer_due = some (env.now_us + delay_sec * 1000000) }, true)
    else (idle, false)

-- `sx_ap_manager_stop_ap`
unfoldable pub stop_ap : State → State × List Call
stop_ap s = if not s.ap_on then (s, []) else (
  record s {
    timer_due = none;
    ap_on = false;
    close_pending = false;
    close_at_us = 0;
    dns = stop_dns_server s.dns;
  },
  set_mode_sta ∷ notify_ap_stopped ∷ [],
)

-- `!ap_has_connected_clients(&has_clients) || has_clients`
abbrev pub may_have_clients : Option ℕ → Bool
may_have_clients none = true
may_have_clients (some n) = ltb 0 n

-- `ap_close_timer_callback`; the timer, which runs once, has run out
unfoldable pub ap_close_timer_callback : Env → State → State × List Call
ap_close_timer_callback env s =
    let out = record s { timer_due = none } in
    if not s.ap_on
    then (out, [])
    else if may_have_clients env.clients
    then ((schedule_ap_close_timer env 10 (record out { close_pending = true })).0, [])
    else stop_ap out

abbrev store_calls : Option CString → List Call
store_calls none = notify_ap_started ∷ []
store_calls (some value) = notify_ap_started ∷ store_wait_time value ∷ []

abbrev pub is_ok : EspErr → Bool
is_ok esp_ok = true
is_ok _ = false

-- the access point is on; how long it stays is read from the flash
unfoldable pub start_closing : Env → ℕ → State → State × EspErr
start_closing env wait s =
    let waits = record s { wait_time_sec = wait } in
    let timed = record waits { close_at_us = env.now_us + wait * 1000000; close_pending = false } in
    if wait == 0
    then (waits, esp_ok)
    else (let (s', ok) = schedule_ap_close_timer env wait timed in
        (s', if ok then esp_ok else esp_fail))

-- `sx_ap_manager_start`; any error of the timer is `esp_fail`
unfoldable pub ap_manager_start : Env → State → State × List Call × EspErr
ap_manager_start env s =
    let on = record s { ap_on = true; dns = start_dns_server env.creates_task s.dns } in
    let (wait, stored) = load_ap_wait_time_sec env.nvs in
    let (s', err) = start_closing env wait on in
    if not (is_ok env.softap) then (s, [], env.softap) else (s', store_calls stored, err)

-- `sx_ap_manager_get_remaining_sec`
unfoldable pub get_remaining_sec : ℕ → State → ℕ
get_remaining_sec now s =
    if not s.ap_on || (s.wait_time_sec == 0 || s.close_at_us == 0)
    then 0
    else if leb s.close_at_us now
    then 0
    else (s.close_at_us - now + 999999) / 1000000
