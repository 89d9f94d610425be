-- ===== src/Uart/Tests.antt =====
-- The theorems on the serial port at concrete settings and bytes, and runs of the code.
use mathlib.Core.List.{flatten}
use opensx_serial_server.Prelude.{
  ℕ, ◌≤◌, ◌≡◌, refl, true, false, none, some, List, [], ◌∷◌, ◌++◌, if◌then◌else◌, length, All,
  replicate, arith,
}
use opensx_serial_server.Prelude.Int.{pos, negsuc}
use opensx_serial_server.Uart.Config.{
  Hal, default_config, uart_configure, uart_get_runtime_config_snapshot,
}
use opensx_serial_server.Uart.Usable.{IsUsable, default_config-IsUsable, uart_configure-IsUsable}
use opensx_serial_server.Uart.Frames.{
  Rx, Limits, rx_start, Tick, rx_round, rx_rounds, read_fifo, cut_frame, should_process_frame,
  frame_to_process, reset_buffer,
}
use opensx_serial_server.Uart.Stream.{IsFrame, arrivals, rx_rounds-stream}
use opensx_serial_server.Uart.Queue.{Response, exits, goes_on, processing_round}
use opensx_serial_server.Uart.Backlog.{processing_round-whole}

-- the numbers of ESP-IDF
abbrev hal : Hal
hal = record {
  data_5 = 0;
  data_6 = 1;
  data_7 = 2;
  data_8 = 3;
  parity_disable = 0;
  parity_even = 2;
  parity_odd = 3;
  stop_1 = 1;
  stop_1_5 = 2;
  stop_2 = 3;
}

uart_configure-IsUsable_example : IsUsable hal (
    uart_get_runtime_config_snapshot hal true (
      uart_configure hal true
        (pos 9600)
        (pos 7)
        (pos 3)
        (pos 1)
        (negsuc 4)
        (pos 0)
        (default_config hal)))
uart_configure-IsUsable_example =
    uart_configure-IsUsable hal true true (pos 9600) (pos 7) (pos 3) (pos 1) (negsuc 4) (pos 0)
      (default_config hal) (default_config-IsUsable hal)

abbrev four : Limits
four = record { max_frame_len = 4; frame_interval_ms = 50 }

abbrev ticks : List Tick
ticks =
    record { arrived = 1 ∷ 2 ∷ 3 ∷ 4 ∷ 5 ∷ 6 ∷ []; read_us = 100; test_us = 110 }
    ∷ record { arrived = []; read_us = 2000; test_us = 2010 }
    ∷ record { arrived = []; read_us = 60000; test_us = 60010 }
    ∷ []

cut_frames : (rx_rounds four ticks rx_start).1 ≡ (1 ∷ 2 ∷ 3 ∷ 4 ∷ []) ∷ (5 ∷ 6 ∷ []) ∷ []
unfolding rx_rounds rx_round read_fifo cut_frame should_process_frame frame_to_process reset_buffer
cut_frames = refl

rx_rounds-stream_example :
    let (rx, frames) = rx_rounds four ticks rx_start in
    (flatten frames ++ (rx.frame ++ rx.fifo) ≡ arrivals ticks)
    × All (IsFrame four) frames
    × (length rx.frame ≤ four.max_frame_len)
rx_rounds-stream_example = rx_rounds-stream four ticks

abbrev waiting : Rx
waiting = record { frame = 7 ∷ []; has_data = true; last_data_us = 1000; fifo = [] }

abbrev idle_tick : Tick
idle_tick = record { arrived = []; read_us = 52000; test_us = 52100 }

abbrev two_frames : List (List ℕ)
two_frames = (1 ∷ []) ∷ (2 ∷ 3 ∷ []) ∷ []

abbrev many : List (List ℕ)
many = replicate 17 (1 ∷ [])

abbrev message : List ℕ
message = 1 ∷ 2 ∷ []

abbrev small : Response
small = record { response = none; size = 0; response_len = 0 }

processing_round-whole_example :
    let q = processing_round 4096 true true false small (message ∷ two_frames) in
    (q.handled ≡ (if true then some message else none))
    × (q.response.response ≡ some message)
    × (q.response.response_len ≡ length message)
    × (q.queue ≡ two_frames)
    × (q.ended ≡ (if false then exits else goes_on))
processing_round-whole_example =
    processing_round-whole 4096 true false small message two_frames (omega arith) (omega arith)
      (omega arith)
