-- ===== src/Modes/Transparent.antt =====
-- main/modes/mode_tcp_transparent.c: serial data is queued and sent to the TCP channel. What the heap, the
-- queue and the task creation answer is the environment of a call; whether there is a request or a
-- response object, and what its `mode_config` is, are arguments of the operations on JSON.
use opensx_serial_server.Prelude.{
  ℕ, Bool, true, false, not, ◌&&◌, ◌||◌, Option, none, some, List, [], ◌∷◌, ◌++◌, length, ltb, ◌==◌,
  if◌then◌else◌,
}
use opensx_serial_server.Prelude.Nvs.{Nvs}
use opensx_serial_server.Prelude.Err.{EspErr, esp_ok, esp_fail, err_invalid_arg, err_no_mem}
use opensx_serial_server.ProtocolApi.{Payload, Call, auto, tcp_send}

-- `s_task_handle != NULL`, and what waits in `s_queue`
pub record State : Type 0 where
  pub task : Bool
  pub queue : Option (List Payload)

abbrev pub queue_size : ℕ
queue_size = 10

abbrev pub enqueue : Bool → Payload → State → Option (List Payload) → State
enqueue memory p s none = s
enqueue memory p s (some waiting) =
    if (p.len == 0) || not memory
    then s
    else if ltb (length waiting) queue_size
    then record s { queue = some (waiting ++ p ∷ []) }
    else s

-- `mode_tcp_transparent_on_uart_data`; data is `none` for NULL, `memory` the answer of `malloc`
unfoldable pub on_uart_data : Bool → Option Payload → State → State
on_uart_data memory none s = s
on_uart_data memory (some p) s = enqueue memory p s s.queue

abbrev pub forward : Nvs → State → Option (List Payload) → State × List Call
forward nvs s none = (s, [])
forward nvs s (some []) = (s, [])
forward nvs s (some (p ∷ waiting)) =
    (record s { queue = some waiting }, (tcp_send nvs auto (some p)).1)

-- a round of `tcp_transparent_task`, which waits while the queue is empty
unfoldable pub task_round : Nvs → State → State × List Call
task_round nvs s = if s.task then forward nvs s s.queue else (s, [])

-- `mode_tcp_transparent_start`
unfoldable pub start : Bool → Bool → State → State × EspErr
start makes_queue makes_task s =
    if s.task
    then (s, esp_ok)
    else if not makes_queue
    then (record s { queue = none }, esp_fail)
    else if makes_task
    then (record { task = true; queue = some [] }, esp_ok)
    else (record s { queue = none }, esp_fail)

-- `mode_tcp_transparent_stop`
unfoldable pub stop : State → State × EspErr
stop s = (record { task = false; queue = none }, esp_ok)

-- `mode_tcp_transparent_load_config`, with whether it adds its object to the response
unfoldable pub load_config : Bool → Bool → EspErr × Bool
load_config response memory =
    if not response
    then (err_invalid_arg, false)
    else if memory
    then (esp_ok, true)
    else (err_no_mem, false)

-- `mode_tcp_transparent_save_config`; `mode_config` says whether the member is an object, if there is one
unfoldable pub save_config : Bool → Option Bool → EspErr
save_config request none = if request then esp_ok else err_invalid_arg
save_config request (some is_object) = if request && is_object then esp_ok else err_invalid_arg
