-- ===== src/SysLog/Detailed.antt =====
-- The detailed log: what the buffer holds after any messages, and where the terminator goes.
use opensx_serial_server.Prelude.{
  ℕ, ◌+◌, ◌-◌, ◌≤◌, ◌<◌, min, some, get_elem?, ◌≡◌, refl, sym, ap, ◌∙◌, true, false, ◌||◌, List, [],
  ◌∷◌, ◌++◌, leb, length, take, drop, length-append, length-take, Bool-cases, inl, inr, arith,
}
use opensx_serial_server.Prelude.Text.{CString}
use opensx_serial_server.Prelude.Buffer.{write_at}
use opensx_serial_server.Prelude.Buffer.Laws.{
  drop-append_left, take-drop, length-write_at, overrun-write_at, take-write_at, take-move_down,
  length-move_down, overrun-move_down, before-write_at, overrun-write_at_eq, length-write_at_any,
  bytes-write_at, get_elem?-append_at,
}
use opensx_serial_server.SysLog.{
  Log, buffer_size, msg_size, make_room, append_line, log_append, log_line, is_kept,
}

-- The array has its size, and the position lies in it or just behind it.
pub record IsLog (l : Log) : Type 0 where
  pub sized : length l.buffer.bytes ≡ buffer_size
  pub within : l.position ≤ buffer_size

-- The bytes logged.
abbrev pub contents : Log → List ℕ
contents l = take l.position l.buffer.bytes

-- The last `n` elements.
abbrev pub keep_last : ℕ → List ℕ → List ℕ
keep_last n xs = drop (length xs - n) xs

pub length-contents : {l : Log} → IsLog l → length (contents l) ≡ l.position
length-contents {l} v = omega (arith, length-take l.position l.buffer.bytes, v.sized, v.within)

module _ {l : Log} (line : CString) (v : IsLog l) (short : length line ≤ msg_size) where
  make_room-IsLog : IsLog (make_room l (length line))
  unfolding make_room
  make_room-IsLog = ground (
    arith,
    v.sized,
    v.within,
    length-move_down l.buffer (l.position + length line - buffer_size) (buffer_size - length line),
  )

  position-make_room : (make_room l (length line)).position + length line ≤ buffer_size
  unfolding make_room
  position-make_room = ground (arith, v.within)

  position-make_room_eq :
      (make_room l (length line)).position + length line
      ≡ min buffer_size (l.position + length line)
  unfolding make_room
  position-make_room_eq = ground (arith, v.within)

  none_excess :
      leb buffer_size (l.position + length line) ≡ false
      → 0 ≡ l.position + length line - buffer_size
  none_excess free = ground arith

  contents-make_room :
      contents (make_room l (length line))
      ≡ drop (l.position + length line - buffer_size) (contents l)
  unfolding make_room
  contents-make_room = elim (Bool-cases (leb buffer_size (l.position + length line))) [
    | inl full ↦ rw full (
        take-move_down l.buffer (l.position + length line - buffer_size) (buffer_size - length line)
          (ground (arith, v.sized, v.within))
        ∙ take-drop (buffer_size - length line) (l.position + length line - buffer_size) l.position
            l.buffer.bytes (ground (arith, v.within)))
    | inr free ↦ rw free (ap (λ k. drop k (contents l)) (none_excess free))
  ]

  overrun-make_room : (make_room l (length line)).buffer.overrun ≡ l.buffer.overrun
  unfolding make_room
  overrun-make_room = ground (
    arith,
    v.sized,
    v.within,
    overrun-move_down l.buffer (l.position + length line - buffer_size) (buffer_size - length line),
  )

module _ {l : Log} (line : CString) (v : IsLog l)
    (room : l.position + length line ≤ buffer_size) where
  pub append_line-IsLog : IsLog (append_line l line)
  unfolding append_line
  append_line-IsLog = record {
    sized =
        length-write_at_any (write_at l.buffer l.position line) (l.position + length line) (0 ∷ [])
          (omega (arith, written, v.sized))
        ∙ written
        ∙ v.sized;
    within = room;
  }
    where
      written : length (write_at l.buffer l.position line).bytes ≡ length l.buffer.bytes
      written = length-write_at l.buffer l.position line (omega (arith, v.sized))

  pub contents-append_line : contents (append_line l line) ≡ contents l ++ line
  unfolding append_line
  contents-append_line =
      before-write_at (write_at l.buffer l.position line) (l.position + length line) (0 ∷ [])
        (omega (arith, v.sized, length-write_at l.buffer l.position line (omega (arith, v.sized))))
      ∙ take-write_at l.buffer l.position line (omega (arith, v.sized)) (l.position + length line)
          refl

  -- The terminator goes to the index behind the line.
  pub overrun-append_line :
      (append_line l line).buffer.overrun
      ≡ (l.buffer.overrun || leb buffer_size (l.position + length line))
  unfolding append_line
  overrun-append_line = ground (
    arith,
    v.sized,
    overrun-write_at l.buffer l.position line (omega (arith, v.sized)),
    length-write_at l.buffer l.position line (omega (arith, v.sized)),
    overrun-write_at_eq (write_at l.buffer l.position line) (l.position + length line) (0 ∷ []),
  )

-- Where there is a free byte behind the line, the terminator stands in it.
pub append_line-terminated :
    {l : Log} (line : CString)
    → IsLog l
    → l.position + length line < buffer_size
    → get_elem? (append_line l line).buffer.bytes (l.position + length line) ≡ some 0
unfolding append_line
append_line-terminated {l} line v h =
    let w = write_at l.buffer l.position line in
    let p = l.position + length line in
    let kept : length w.bytes ≡ length l.buffer.bytes =
      length-write_at l.buffer l.position line (omega (arith, v.sized)) in
    ap (λ bytes. get_elem? bytes p) (bytes-write_at w p (0 ∷ []) (omega (arith, kept, v.sized)))
    ∙ get_elem?-append_at p (take p w.bytes) 0 (drop (p + 1) w.bytes)
        (omega (arith, length-take p w.bytes, kept, v.sized))

-- A line of a kept text has at most 256 bytes, and at least one.
pub length-log_line : (text : CString) → is_kept text ≡ true → length (log_line text) ≤ msg_size
unfolding log_line is_kept
length-log_line text h = ground (arith, length-append text (10 ∷ []))

-- One more line leaves the last 1024 bytes of what was logged, and the array in order.
module _ {l : Log} (line : CString) (v : IsLog l) (short : length line ≤ msg_size) where
  pub log_append-IsLog : IsLog (log_append l line)
  unfolding log_append
  log_append-IsLog =
      append_line-IsLog line (make_room-IsLog line v short) (position-make_room line v short)

  pub contents-log_append :
      contents (log_append l line) ≡ keep_last buffer_size (contents l ++ line)
  unfolding log_append
  contents-log_append =
      contents-append_line line (make_room-IsLog line v short) (position-make_room line v short)
      ∙ ap (λ kept. kept ++ line) (contents-make_room line v short)
      ∙ sym (
          drop-append_left (l.position + length line - buffer_size) (contents l) line
            (omega (arith, length-contents v)))
      ∙ ap (λ k. drop (k - buffer_size) (contents l ++ line))
          (omega (arith, length-contents v, length-append (contents l) line))

  overrun-log_append :
      (log_append l line).buffer.overrun
      ≡ (l.buffer.overrun || leb buffer_size (l.position + length line))
  unfolding log_append
  overrun-log_append = ground (
    arith,
    overrun-append_line line (make_room-IsLog line v short) (position-make_room line v short),
    overrun-make_room line v short,
    position-make_room_eq line v short,
  )

  terminated-log_append :
      (log_append l line).position < buffer_size
      → get_elem? (log_append l line).buffer.bytes (log_append l line).position ≡ some 0
  unfolding log_append append_line make_room
  terminated-log_append inside = append_line-terminated line (make_room-IsLog line v short) inside

  -- A line of up to 256 bytes, logged to an array in order with the position in it or just behind it: the
  -- position is behind the line, and at most 1024; before it stand the last 1024 bytes logged; and the
  -- terminator stands at it, if it is an index of `log_buffer[1024]`. The array is left, by that
  -- terminator at index 1024, exactly where the line does not leave it a free byte.
  pub log_append-terminates :
      let l' = log_append l line in
      (l'.position ≡ min buffer_size (l.position + length line))
      × (contents l' ≡ keep_last buffer_size (contents l ++ line))
      × (l'.position < buffer_size → get_elem? l'.buffer.bytes l'.position ≡ some 0)
      × (l'.buffer.overrun ≡ (l.buffer.overrun || leb buffer_size (l.position + length line)))
  unfolding log_append append_line make_room
  log_append-terminates = (
    position-make_room_eq line v short,
    contents-log_append,
    terminated-log_append,
    overrun-log_append,
  )
