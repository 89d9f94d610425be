-- ===== src/Modbus/Tests.antt =====
-- The theorems on the poll task at concrete items, and runs of the code.
use opensx_serial_server.Prelude.{ℕ, ◌≡◌, refl, Bool, true, false, none, some, [], ◌∷◌, All, ltb}
use opensx_serial_server.Prelude.Text.{c_str, atoi, str_eq}
use opensx_serial_server.Modbus.Delay.{modbus_delay_with_wdt, Waited, wait_response}
use opensx_serial_server.Modbus.Waiting.{Bounded, wait_response-Bounded}
use opensx_serial_server.Modbus.Poll.{
  Item, Env, commands, request, parity_odd, Call, target, uart_reinit, task_delay, drop_responses,
  tx_tasks, delay_with_wdt, command, cycle, serial_invalid, request_invalid, item_request,
  interval_of, timeout_of, parity_of,
}
use opensx_serial_server.Modbus.Poll
use opensx_serial_server.Modbus.Frames.{IsFair, commands-IsFair}
use opensx_serial_server.Modbus.Task.{State}
use opensx_serial_server.Modbus.Crc.{calculate_crc}

abbrev meter : Item
meter = record {
  enabled = true;
  slave_addr = c_str "1";
  function_code = c_str "3";
  register_addr = c_str "0";
  register_num = c_str "2";
  timeout = c_str "700";
  baud_rate = c_str "9600";
  data_bit = c_str "8";
  check_bit = c_str "Odd";
  stop_bit = c_str "1";
  interval_time = c_str "50";
}

abbrev bench : Env
bench = record { stop_bit_low = λ s. false; nvs = record { opens = false; get = λ key. none } }

meter_calls :
    command bench 4 meter
    ≡ target 4
      ∷ uart_reinit 9600 8 parity_odd (c_str "1") 50 512
      ∷ task_delay 50
      ∷ drop_responses
      ∷ tx_tasks (1 ∷ 3 ∷ 0 ∷ 0 ∷ 0 ∷ 2 ∷ 0xc4 ∷ 0x0b ∷ [])
      ∷ Poll.wait_response 700
      ∷ delay_with_wdt 50
      ∷ []
unfolding command serial_invalid request_invalid item_request interval_of timeout_of parity_of
    calculate_crc request str_eq atoi
meter_calls = refl

-- the flag says stop at its third reading
abbrev third : ℕ → Bool
third k = ltb 1 k

stopped_delay : modbus_delay_with_wdt third 1800 ≡ some (500 ∷ 500 ∷ [])
unfolding modbus_delay_with_wdt
stopped_delay = refl

wait_response-Bounded_example :
    (w : Waited) × (wait_response (λ k. false) (λ k. false) 700 ≡ some w)
    × Bounded (λ k. false) (λ k. false) 0 700 w
wait_response-Bounded_example = wait_response-Bounded (λ k. false) (λ k. false) 700

commands-IsFair_example : All IsFair (commands bench third 0 (meter ∷ meter ∷ meter ∷ []))
commands-IsFair_example = commands-IsFair bench third 0 (meter ∷ meter ∷ meter ∷ [])

abbrev polling : State
polling = record { has_handle = true; stop_requested = false; tasks = 1 }
