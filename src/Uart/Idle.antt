-- ===== src/Uart/Idle.antt =====
-- main/drivers/sx_async_uart.c: when a frame is cut.
use opensx_serial_server.Prelude.{
  ℕ, ◌-◌, ◌/◌, ◌≡◌, refl, ap, false, ◌&&◌, ◌||◌, none, some, [], ◌++◌, ltb, leb, if◌then◌else◌,
  length, min, take_all, arith,
}
use opensx_serial_server.Uart.Frames.{
  Rx, Limits, read_fifo, should_process_frame, cut_frame, Tick, rx_round,
}
use opensx_serial_server.Uart.Stream.{InBuffer, frame_to_process-all}

read_nothing : (lim : Limits) (now : ℕ) (rx : Rx) → rx.fifo ≡ [] → read_fifo lim now rx ≡ rx
unfolding read_fifo
read_nothing lim now rx f = rw none_read refl
  where
    none_read : ltb 0 (min (length rx.fifo) (lim.max_frame_len - length rx.frame)) ≡ false
    none_read = ground (arith, ap length f)

cut_frame-idle :
    (lim : Limits) (now : ℕ) (rx : Rx)
    → InBuffer lim rx
    → (cut_frame lim now rx).1 ≡ (
        if ltb 0 (length rx.frame)
          && (leb lim.max_frame_len (length rx.frame)
              || leb lim.frame_interval_ms ((now - rx.last_data_us) / 1000))
        then some rx.frame
        else none)
unfolding cut_frame should_process_frame
cut_frame-idle lim now rx v = ground (
  arith,
  frame_to_process-all lim rx v,
  v.flagged,
  take_all (length rx.frame) rx.frame (omega arith),
)

-- A round in which no byte comes in cuts the whole buffer exactly where it is not empty, and is full or
-- has seen no byte for the frame interval.
pub rx_round-idle :
    (lim : Limits) (tick : Tick) (rx : Rx)
    → InBuffer lim rx
    → rx.fifo ≡ []
    → tick.arrived ≡ []
    → (rx_round lim tick rx).1 ≡ (
        if ltb 0 (length rx.frame)
          && (leb lim.max_frame_len (length rx.frame)
              || leb lim.frame_interval_ms ((tick.test_us - rx.last_data_us) / 1000))
        then some rx.frame
        else none)
unfolding rx_round
rx_round-idle lim tick rx v f a =
    rw
      (read_nothing lim tick.read_us (record rx { fifo = rx.fifo ++ tick.arrived })
        (rw (f, a) refl))
      (cut_frame-idle lim tick.test_us (record rx { fifo = rx.fifo ++ tick.arrived })
        (record { fits = v.fits; flagged = v.flagged }))
