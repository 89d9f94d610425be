-- ===== src/Uart/Frames.antt =====
-- main/drivers/sx_async_uart.c: the loop of `rx_task`, which cuts the bytes of the port into frames.
-- `uart_read_bytes` without a wait yields the bytes that the driver holds, as many as are asked for.
use opensx_serial_server.Prelude.{
  ℕ, ◌-◌, ◌/◌, Bool, true, false, ◌&&◌, ◌||◌, Option, none, some, List, [], ◌∷◌, ◌++◌, ltb, leb,
  if◌then◌else◌, length, take, drop, min,
}

-- The receiver: the bytes of `frame_buffer` in use, `has_data_flag`, and when data came last; with the
-- bytes that the driver holds.
pub record Rx : Type 0 where
  pub frame : List ℕ
  pub has_data : Bool
  pub last_data_us : ℕ
  pub fifo : List ℕ

-- `max_frame_len` and `frame_interval_ms`
pub record Limits : Type 0 where
  pub max_frame_len : ℕ
  pub frame_interval_ms : ℕ

abbrev pub rx_start : Rx
rx_start = record { frame = []; has_data = false; last_data_us = 0; fifo = [] }

-- part 2 of the loop: as much as has room is read, at the time `now`
unfoldable pub read_fifo : Limits → ℕ → Rx → Rx
read_fifo lim now rx =
    let read_size = min (length rx.fifo) (lim.max_frame_len - length rx.frame) in
    if ltb 0 read_size
    then record {
      frame = rx.frame ++ take read_size rx.fifo;
      has_data = true;
      last_data_us = now;
      fifo = drop read_size rx.fifo;
    }
    else rx

-- part 3: the buffer is full, or no data came for the frame interval; at the time `now`
unfoldable pub should_process_frame : Limits → ℕ → Rx → Bool
should_process_frame lim now rx =
    leb lim.max_frame_len (length rx.frame)
    || (rx.has_data && leb lim.frame_interval_ms ((now - rx.last_data_us) / 1000))

-- `frame_to_process`
unfoldable pub frame_to_process : Limits → Rx → ℕ
frame_to_process lim rx =
    if leb lim.max_frame_len (length rx.frame) then lim.max_frame_len else length rx.frame

-- the end of part 4: what is left in the buffer
unfoldable pub reset_buffer : Limits → ℕ → Rx → Rx
unfolding frame_to_process
reset_buffer lim now rx =
    if ltb (frame_to_process lim rx) (length rx.frame)
    then record rx {
      frame = drop (frame_to_process lim rx) rx.frame;
      has_data = true;
      last_data_us = now;
    }
    else record rx { frame = []; has_data = false }

-- parts 3 and 4: the frame that is cut, if any
unfoldable pub cut_frame : Limits → ℕ → Rx → Rx × Option (List ℕ)
cut_frame lim now rx =
    if should_process_frame lim now rx && ltb 0 (frame_to_process lim rx)
    then (reset_buffer lim now rx, some (take (frame_to_process lim rx) rx.frame))
    else (rx, none)

-- one round: bytes that came in since the last, the time of the reading and of the test
pub record Tick : Type 0 where
  pub arrived : List ℕ
  pub read_us : ℕ
  pub test_us : ℕ

unfoldable pub rx_round : Limits → Tick → Rx → Rx × Option (List ℕ)
unfolding read_fifo cut_frame
rx_round lim tick rx =
    cut_frame lim tick.test_us
      (read_fifo lim tick.read_us (record rx { fifo = rx.fifo ++ tick.arrived }))

abbrev pub and_frame : Option (List ℕ) → List (List ℕ) → List (List ℕ)
and_frame none frames = frames
and_frame (some frame) frames = frame ∷ frames

-- any number of rounds, with the frames in order
unfoldable pub rx_rounds : Limits → List Tick → Rx → Rx × List (List ℕ)
rx_rounds lim [] rx = (rx, [])
rx_rounds lim (tick ∷ ticks) rx =
    let (rx', frame) = rx_round lim tick rx in
    let (rx'', frames) = rx_rounds lim ticks rx' in (rx'', and_frame frame frames)
