-- ===== src/Uart/Stream.antt =====
-- main/drivers/sx_async_uart.c: the frames are the byte stream, cut.
use mathlib.Core.List.{flatten}
use opensx_serial_server.Prelude.{
  ℕ, ◌+◌, ◌-◌, ◌≤◌, ◌<◌, ◌≡◌, refl, sym, ap, ◌∙◌, true, false, ◌&&◌, Option, none, some, List, [],
  ◌∷◌, ◌++◌, append_assoc, append-nil, ltb, length, take, drop, min, length-append, length-take,
  take_all, take-append-drop, All, Bool-cases, inl, inr, arith,
}
use opensx_serial_server.Uart.Frames.{
  Rx, Limits, rx_start, read_fifo, should_process_frame, frame_to_process, reset_buffer, cut_frame,
  Tick, rx_round, and_frame, rx_rounds,
}

-- The buffer is never overrun, and the flag says whether bytes wait in it.
pub record InBuffer (lim : Limits) (rx : Rx) : Type 0 where
  pub fits : length rx.frame ≤ lim.max_frame_len
  pub flagged : rx.has_data ≡ ltb 0 (length rx.frame)

-- The bytes that are not cut yet.
abbrev pub pending : Rx → List ℕ
pending rx = rx.frame ++ rx.fifo

-- A frame that is cut.
abbrev pub IsFrame : Limits → List ℕ → Type 0
IsFrame lim frame = (0 < length frame) × (length frame ≤ lim.max_frame_len)

module _ (lim : Limits) where
  read_fifo-InBuffer : (now : ℕ) (rx : Rx) → InBuffer lim rx → InBuffer lim (read_fifo lim now rx)
  unfolding read_fifo
  read_fifo-InBuffer now rx v =
      elim (Bool-cases (ltb 0 (min (length rx.fifo) (lim.max_frame_len - length rx.frame)))) [
        | inr none_read ↦ rw none_read v
        | inl some_read ↦
            rw some_read (record { fits = read_fits; flagged = ground (arith, length_read) })
      ]
    where
      size : ℕ
      size = min (length rx.fifo) (lim.max_frame_len - length rx.frame)

      length_read : length (rx.frame ++ take size rx.fifo) ≡ length rx.frame + size
      length_read =
          omega (arith, length-append rx.frame (take size rx.fifo), length-take size rx.fifo)

      read_fits : length (rx.frame ++ take size rx.fifo) ≤ lim.max_frame_len
      read_fits = omega (arith, length_read, v.fits)

  read_fifo-pending : (now : ℕ) (rx : Rx) → pending (read_fifo lim now rx) ≡ pending rx
  unfolding read_fifo
  read_fifo-pending now rx =
      elim (Bool-cases (ltb 0 (min (length rx.fifo) (lim.max_frame_len - length rx.frame)))) [
        | inr none_read ↦ simp none_read refl
        | inl some_read ↦ simp some_read (
            append_assoc rx.frame (take size rx.fifo) (drop size rx.fifo)
            ∙ ap (λ rest. rx.frame ++ rest) (take-append-drop size rx.fifo))
      ]
    where
      size : ℕ
      size = min (length rx.fifo) (lim.max_frame_len - length rx.frame)

  -- What one test yields.
  record Cut (rx : Rx) (r : Rx × Option (List ℕ)) : Type 0 where
    in_buffer : InBuffer lim r.0
    same : flatten (and_frame r.1 []) ++ pending r.0 ≡ pending rx
    frame_ok : All (IsFrame lim) (and_frame r.1 [])

  -- The buffer holds no more than a frame, so a frame takes all of it.
  pub frame_to_process-all : (rx : Rx) → InBuffer lim rx → frame_to_process lim rx ≡ length rx.frame
  unfolding frame_to_process
  frame_to_process-all rx v = ground (arith, v.fits)

  reset_buffer-empty :
      (now : ℕ) (rx : Rx)
      → InBuffer lim rx
      → reset_buffer lim now rx ≡ record rx { frame = []; has_data = false }
  unfolding reset_buffer
  reset_buffer-empty now rx v = rw none_left refl
    where
      none_left : ltb (frame_to_process lim rx) (length rx.frame) ≡ false
      none_left = ground (arith, frame_to_process-all rx v)

  cut_frame-Cut : (now : ℕ) (rx : Rx) → InBuffer lim rx → Cut rx (cut_frame lim now rx)
  unfolding cut_frame flatten
  cut_frame-Cut now rx v =
      elim (Bool-cases (should_process_frame lim now rx && ltb 0 (frame_to_process lim rx))) [
        | inr kept ↦ rw kept (record { in_buffer = v; same = refl; frame_ok = tt })
        | inl cut ↦
            rw
              (
                cut,
                reset_buffer-empty now rx v,
                frame_to_process-all rx v,
                take_all (length rx.frame) rx.frame (omega arith),
              )
              (record {
                in_buffer = record { fits = omega arith; flagged = refl };
                same = ap (λ f. f ++ rx.fifo) (append-nil rx.frame);
                frame_ok = ((cut_some cut (frame_to_process-all rx v), v.fits), tt);
              })
      ]
    where
      cut_some :
          should_process_frame lim now rx && ltb 0 (frame_to_process lim rx) ≡ true
          → frame_to_process lim rx ≡ length rx.frame
          → 0 < length rx.frame
      cut_some cut all = ground (arith, all)

  rx_round-Cut :
      (tick : Tick) (rx : Rx)
      → InBuffer lim rx
      → Cut (record rx { fifo = rx.fifo ++ tick.arrived }) (rx_round lim tick rx)
  unfolding rx_round
  rx_round-Cut tick rx v =
      let more : Rx = record rx { fifo = rx.fifo ++ tick.arrived } in
      let read = read_fifo lim tick.read_us more in
      let v' : InBuffer lim more = record { fits = v.fits; flagged = v.flagged } in
      let c = cut_frame-Cut tick.test_us read (read_fifo-InBuffer tick.read_us more v') in
      record {
        in_buffer = c.in_buffer;
        same = c.same ∙ read_fifo-pending tick.read_us more;
        frame_ok = c.frame_ok;
      }

-- The bytes that come in during the rounds.
pub arrivals : List Tick → List ℕ
arrivals [] = []
arrivals (tick ∷ ticks) = tick.arrived ++ arrivals ticks

-- What any rounds yield.
record Streamed (lim : Limits) (rx : Rx) (ticks : List Tick) (r : Rx × List (List ℕ)) : Type 0 where
  in_buffer : InBuffer lim r.0
  same : flatten r.1 ++ pending r.0 ≡ pending rx ++ arrivals ticks
  frames_ok : All (IsFrame lim) r.1

and_frame-Streamed :
    (lim : Limits) (rx : Rx) (tick : Tick) (ticks : List Tick) (r : Rx × Option (List ℕ))
    (q : Rx × List (List ℕ))
    → Cut lim (record rx { fifo = rx.fifo ++ tick.arrived }) r
    → Streamed lim r.0 ticks q
    → Streamed lim rx (tick ∷ ticks) (q.0, and_frame r.1 q.1)
unfolding flatten arrivals
and_frame-Streamed lim rx tick ticks (rx', none) (rx'', frames) c t = record {
  in_buffer = t.in_buffer;
  same =
      t.same
      ∙ ap (λ l. l ++ arrivals ticks) c.same
      ∙ ap (λ l. l ++ arrivals ticks) (sym (append_assoc rx.frame rx.fifo tick.arrived))
      ∙ append_assoc (pending rx) tick.arrived (arrivals ticks);
  frames_ok = t.frames_ok;
}
and_frame-Streamed lim rx tick ticks (rx', some frame) (rx'', frames) c t = record {
  in_buffer = t.in_buffer;
  same =
      append_assoc frame (flatten frames) (pending rx'')
      ∙ ap (λ l. frame ++ l) t.same
      ∙ sym (append_assoc frame (pending rx') (arrivals ticks))
      ∙ ap (λ l. (l ++ pending rx') ++ arrivals ticks) (sym (append-nil frame))
      ∙ ap (λ l. l ++ arrivals ticks) c.same
      ∙ ap (λ l. l ++ arrivals ticks) (sym (append_assoc rx.frame rx.fifo tick.arrived))
      ∙ append_assoc (pending rx) tick.arrived (arrivals ticks);
  frames_ok = (c.frame_ok.0, t.frames_ok);
}

rx_rounds-Streamed :
    (lim : Limits) (ticks : List Tick) (rx : Rx)
    → InBuffer lim rx
    → Streamed lim rx ticks (rx_rounds lim ticks rx)
unfolding rx_rounds flatten arrivals
rx_rounds-Streamed lim [] rx v = record {
  in_buffer = v;
  same = sym (append-nil (pending rx));
  frames_ok = tt;
}
rx_rounds-Streamed lim (tick ∷ ticks) rx v =
    let c = rx_round-Cut lim tick rx v in
    and_frame-Streamed lim rx tick ticks (rx_round lim tick rx)
      (rx_rounds lim ticks (rx_round lim tick rx).0) c
      (rx_rounds-Streamed lim ticks (rx_round lim tick rx).0 c.in_buffer)

-- From the start of the task, after any rounds with any bytes at any times: the frames cut, the bytes
-- that wait in the buffer and those that the driver holds are together the bytes that came in, in
-- order, none lost and none twice; each frame has a byte at least and no more than the maximum.
pub rx_rounds-stream :
    (lim : Limits) (ticks : List Tick)
    → let (rx, frames) = rx_rounds lim ticks rx_start in
      (flatten frames ++ (rx.frame ++ rx.fifo) ≡ arrivals ticks)
      × All (IsFrame lim) frames
      × (length rx.frame ≤ lim.max_frame_len)
rx_rounds-stream lim ticks =
    let t = rx_rounds-Streamed lim ticks rx_start (record { fits = omega arith; flagged = refl }) in
    (t.same, t.frames_ok, t.in_buffer.fits)
