-- ===== src/Modes/Fifo.antt =====
-- main/modes/mode_tcp_transparent.c: what is sent, in which order, and what is lost.
use opensx_serial_server.Prelude.{
  ℕ, ◌+◌, ◌-◌, ◌≤◌, ◌≡◌, Bool, true, not, ◌||◌, Option, none, some, List, [], ◌∷◌, ◌++◌, length,
  ltb, ◌==◌, if◌then◌else◌,
}
use opensx_serial_server.Prelude.Nvs.{Nvs}
use opensx_serial_server.ProtocolApi.{Payload, Call, auto, tcp_send}
use opensx_serial_server.Modes.Transparent.{State, on_uart_data, task_round, queue_size}

-- Data from the serial line, with whether there is memory for it, and a round of the task.
pub data Event : Type 0 where
  uart : Bool → Option Payload → Event
  turn : Event

unfoldable pub handle : Nvs → Event → State → State × List Call
handle nvs (uart memory p) s = (on_uart_data memory p s, [])
handle nvs turn s = task_round nvs s

unfoldable pub handle_all : Nvs → List Event → State → State × List Call
handle_all nvs [] s = (s, [])
handle_all nvs (e ∷ es) s =
    let (s', calls) = handle nvs e s in
    let (s'', later) = handle_all nvs es s' in (s'', calls ++ later)

-- The calls that send some data.
pub sends : Nvs → List Payload → List Call
sends nvs [] = []
sends nvs (p ∷ ps) = (tcp_send nvs auto (some p)).1 ++ sends nvs ps

abbrev taken : Bool → Option Payload → ℕ → Option Payload
taken memory none n = none
taken memory (some p) n =
    if (p.len == 0) || not memory then none else if ltb n queue_size then some p else none

abbrev with_first : Option Payload → List Payload → List Payload
with_first none ps = ps
with_first (some p) ps = p ∷ ps

abbrev grown : Option Payload → ℕ → ℕ
grown none n = n
grown (some p) n = n + 1

-- The data that is taken, by the number that waits: what is not empty, has memory, and finds fewer than
-- ten waiting.
pub accepted : List Event → ℕ → List Payload
accepted [] n = []
accepted (uart memory p ∷ es) n =
    with_first (taken memory p n) (accepted es (grown (taken memory p n) n))
accepted (turn ∷ es) n = accepted es (n - 1)

-- The state of a mode that runs.
abbrev pub waiting : List Payload → State
waiting ps = record { task = true; queue = some ps }

-- What has been sent and what is left, together, are what waited and what was taken, in order.
pub record InOrder (nvs : Nvs) (ps : List Payload) (es : List Event) (r : State × List Call)
    : Type 0 where
  pub sent : List Payload
  pub left : List Payload
  pub state : r.0 ≡ waiting left
  pub calls : r.1 ≡ sends nvs sent
  pub order : sent ++ left ≡ ps ++ accepted es (length ps)
  pub bounded : length left ≤ 10
