-- ===== src/Modbus/Poll.antt =====
-- main/drivers/sx_modbus.c: one cycle of `modbus_poll_task`, as the list of its calls. The delays and
-- the wait for a response are calls with their milliseconds; Modbus.Delay has their loops. The floating
-- point test `atof(s) < 1.0` on the stop bits is a parameter, as are the free heap and the clock.
use opensx_serial_server.Prelude.{
  ℕ, ◌+◌, ◌-◌, ◌/◌, ◌%◌, Bool, not, ◌||◌, Option, none, some, List, [], ◌∷◌, ◌++◌, ltb,
  if◌then◌else◌,
}
use opensx_serial_server.Prelude.Int.{ℤ, pos, below, above, to_nat, ltz}
use opensx_serial_server.Prelude.Text.{CString, c_str, str_eq, atoi}
use opensx_serial_server.Prelude.Nvs.{Nvs}
use opensx_serial_server.Modbus.Crc.{calculate_crc}

-- `ModbusItemConfig`, as far as the task reads it
pub record Item : Type 0 where
  pub enabled : Bool
  pub slave_addr : CString
  pub function_code : CString
  pub register_addr : CString
  pub register_num : CString
  pub timeout : CString
  pub baud_rate : CString
  pub data_bit : CString
  pub check_bit : CString
  pub stop_bit : CString
  pub interval_time : CString

pub data Parity : Type 0 where
  parity_disable parity_odd parity_even : Parity

-- The calls that the task makes.
pub data Call : Type 0 where
  target : ℕ → Call
  uart_reinit : ℕ → ℕ → Parity → CString → ℕ → ℕ → Call
  task_delay : ℕ → Call
  -- the semaphore of a late response is taken
  drop_responses : Call
  tx_tasks : List ℕ → Call
  wait_response : ℕ → Call
  delay_with_wdt : ℕ → Call

pub record Env : Type 0 where
  -- atof(stop_bit) < 1.0
  pub stop_bit_low : CString → Bool
  pub nvs : Nvs

abbrev pub frame_time_ms : ℕ
frame_time_ms = 50

unfoldable pub parity_of : CString → Parity
parity_of check_bit =
    if str_eq check_bit (c_str "Odd")
    then parity_odd
    else if str_eq check_bit (c_str "Even")
    then parity_even
    else parity_disable

-- the eight bytes of a request
abbrev pub with_crc : List ℕ → List ℕ
with_crc bytes = bytes ++ calculate_crc bytes % 256 ∷ calculate_crc bytes / 256 % 256 ∷ []

unfoldable pub request : ℕ → ℕ → ℕ → ℕ → List ℕ
request slave_addr function_code reg_addr reg_num = with_crc (
    slave_addr % 256
    ∷ function_code % 256
    ∷ reg_addr / 256 % 256
    ∷ reg_addr % 256
    ∷ reg_num / 256 % 256
    ∷ reg_num % 256
    ∷ [])

unfoldable pub serial_invalid : Env → Item → Bool
serial_invalid env item =
    not (above 0 (atoi item.baud_rate))
    || below (atoi item.data_bit) 5
    || above 8 (atoi item.data_bit)
    || env.stop_bit_low item.stop_bit

unfoldable pub request_invalid : Item → Bool
request_invalid item =
    below (atoi item.slave_addr) 1
    || above 247 (atoi item.slave_addr)
    || below (atoi item.function_code) 1
    || above 6 (atoi item.function_code)
    || below (atoi item.register_addr) 0
    || above 65535 (atoi item.register_addr)
    || below (atoi item.register_num) 1
    || above 125 (atoi item.register_num)

-- `interval_time_raw`
unfoldable pub interval_of : Item → ℕ
interval_of item =
    if above 0 (atoi item.interval_time) then to_nat (atoi item.interval_time) else 100

unfoldable pub timeout_of : Item → ℕ
timeout_of item =
    if below (atoi item.timeout) 100 || above 10000 (atoi item.timeout)
    then 1000
    else to_nat (atoi item.timeout)

unfoldable pub item_request : Item → List ℕ
unfolding request
item_request item =
    request (to_nat (atoi item.slave_addr)) (to_nat (atoi item.function_code))
      (to_nat (atoi item.register_addr)) (to_nat (atoi item.register_num))

-- the part of the loop's body behind the checks of the request
abbrev exchange : Item → List Call
exchange item =
    drop_responses
    ∷ tx_tasks (item_request item)
    ∷ wait_response (timeout_of item)
    ∷ delay_with_wdt (interval_of item)
    ∷ []

abbrev configure : Item → List Call
configure item =
    uart_reinit (to_nat (atoi item.baud_rate)) (to_nat (atoi item.data_bit))
      (parity_of item.check_bit) item.stop_bit frame_time_ms 512
    ∷ task_delay 50
    ∷ []

-- the body of the loop over the items
unfoldable pub command : Env → ℕ → Item → List Call
command env i item =
    if not item.enabled
    then []
    else if serial_invalid env item
    then target i ∷ []
    else if request_invalid item
    then target i ∷ configure item
    else target i ∷ (configure item ++ exchange item)

-- `for (i = 0; i < items_count && !modbus_stop_requested; i++)`; `stop i` is what the flag says
-- before the `i`-th item
unfoldable pub commands : Env → (ℕ → Bool) → ℕ → List Item → List Call
commands env stop i [] = []
commands env stop i (item ∷ items) =
    let calls = command env i item ++ commands env stop (i + 1) items in
    if stop i then [] else calls

-- one round of `while (!modbus_stop_requested)`: the free heap at its start, and the milliseconds
-- that it took; `none` leaves the loop
unfoldable pub cycle : Env → ℤ → ℕ → (ℕ → Bool) → ℕ → List Item → Option (List Call)
unfolding commands
cycle env poll_time free_heap stop elapsed_ms items =
    if ltb free_heap 2048
    then none
    else if ltz (pos elapsed_ms) poll_time
    then some (commands env stop 0 items ++ delay_with_wdt (to_nat poll_time - elapsed_ms) ∷ [])
    else some (commands env stop 0 items)
