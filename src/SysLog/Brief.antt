-- ===== src/SysLog/Brief.antt =====
-- The brief log: which lines it holds, and that it never leaves its array.
use opensx_serial_server.Prelude.{
  ℕ, zero, suc, ◌+◌, ◌-◌, ◌%◌, ◌^◌, ◌<◌, ◌≡◌, refl, sym, ap, ◌∙◌, true, false, Option, none, some,
  List, [], ◌∷◌, ◌++◌, ltb, leb, if◌then◌else◌, length, take, drop, get_elem?, Bool-cases,
  Option-cases, inl, inr, arith, ltb→lt, not_ltb,
}
use opensx_serial_server.Prelude.Text.{CString}
use opensx_serial_server.Prelude.Buffer.Laws.{
  take-drop, take-move_down, length-move_down, overrun-move_down,
}
use opensx_serial_server.SysLog.{
  Log, buffer_size, append_line, strchr_newline, drop_line, make_room_simple, simple_append,
}
use opensx_serial_server.SysLog.Detailed.{
  IsLog, contents, length-contents, append_line-IsLog, contents-append_line, overrun-append_line,
  append_line-terminated,
}

-- The array has its size, and the text in it ends at the position.
pub record IsBrief (l : Log) : Type 0 where
  pub sized : length l.buffer.bytes ≡ buffer_size
  pub within : l.position < buffer_size
  pub terminated : get_elem? l.buffer.bytes l.position ≡ some 0

-- The search for a newline ends at the terminator.
strchr-take :
    (bs : List ℕ) (n : ℕ) → get_elem? bs n ≡ some 0 → strchr_newline bs ≡ strchr_newline (take n bs)
unfolding strchr_newline
strchr-take [] n h = cc
strchr-take (b ∷ bs) zero h = ground arith
strchr-take (b ∷ bs) (suc n) h = ground (arith, strchr-take bs n)

strchr-lt : (bs : List ℕ) (i : ℕ) → strchr_newline bs ≡ some i → i < length bs
unfolding strchr_newline
strchr-lt [] i h = cc
strchr-lt (b ∷ bs) i h = elim (Option-cases (strchr_newline bs)) [
  | inl missing ↦ ground (arith, missing)
  | inr (j, found) ↦ ground (arith, found, strchr-lt bs j found)
]

-- The text behind its first line; nothing, where it has no line end.
after_found : List ℕ → Option ℕ → List ℕ
after_found text none = []
after_found text (some i) = drop (i + 1) text

pub after_line : List ℕ → List ℕ
after_line text = after_found text (strchr_newline text)

-- The text with room for `n` bytes: without its first line where that is needed.
pub with_room : List ℕ → ℕ → List ℕ
with_room old n = if ltb (length old + n) buffer_size then old else after_line old

-- What the log is to hold after one more line: at most one line makes room for it, and where that
-- is not enough the new line is lost.
pub add_line : List ℕ → List ℕ → List ℕ
add_line old line =
    let kept = with_room old (length line) in
    if ltb (length kept + length line) buffer_size then kept ++ line else kept

add_line-room :
    (old line kept : List ℕ)
    → kept ≡ with_room old (length line)
    → add_line old line
      ≡ (if ltb (length kept + length line) buffer_size then kept ++ line else kept)
unfolding add_line
add_line-room old line kept e =
    ap (λ (k : List ℕ). if ltb (length k + length line) buffer_size then k ++ line else k) (sym e)

module _ {l : Log} (v : IsBrief l) where
  brief-IsLog : IsLog l
  brief-IsLog = record { sized = v.sized; within = omega (arith, v.within) }

  found_within : (i : ℕ) → strchr_newline l.buffer.bytes ≡ some i → i < l.position
  found_within i e = omega (
    arith,
    length-contents brief-IsLog,
    strchr-lt (contents l) i (sym (strchr-take l.buffer.bytes l.position v.terminated) ∙ e),
  )

  -- Removing the first line moves the rest down inside the array.
  drop_line-found :
      (i : ℕ)
      → i < l.position
      → let r = drop_line l (some i) in
        IsLog r
        × (contents r ≡ drop (i + 1) (contents l))
        × (r.buffer.overrun ≡ l.buffer.overrun)
        × (r.position < buffer_size)
  unfolding drop_line
  drop_line-found i h =
      let left : (l.position + 2 ^ 32 - (i + 1)) % 2 ^ 32 ≡ l.position - (i + 1) =
        omega (arith, v.within) in
      rw left (
        record {
          sized =
              length-move_down l.buffer (i + 1) (l.position - (i + 1))
                (omega (arith, v.sized, v.within))
              ∙ v.sized;
          within = omega (arith, v.within);
        },
        take-move_down l.buffer (i + 1) (l.position - (i + 1)) (omega (arith, v.sized, v.within))
            ∙ take-drop (l.position - (i + 1)) (i + 1) l.position l.buffer.bytes (omega arith),
        overrun-move_down l.buffer (i + 1) (l.position - (i + 1))
            (omega (arith, v.sized, v.within)),
        omega (arith, v.within),
      )

  drop_line-none :
      let r = drop_line l none in
      IsLog r
      × (contents r ≡ [])
      × (r.buffer.overrun ≡ l.buffer.overrun)
      × (r.position < buffer_size)
  unfolding drop_line
  drop_line-none = (record { sized = v.sized; within = omega arith }, refl, refl, omega arith)

  drop_line-after :
      let r = drop_line l (strchr_newline l.buffer.bytes) in
      IsLog r
      × (contents r ≡ after_line (contents l))
      × (r.buffer.overrun ≡ l.buffer.overrun)
      × (r.position < buffer_size)
  unfolding after_line after_found
  drop_line-after = elim (Option-cases (strchr_newline l.buffer.bytes)) [
    | inl missing ↦
        rw (← strchr-take l.buffer.bytes l.position v.terminated) (rw missing drop_line-none)
    | inr (i, found) ↦
        rw (← strchr-take l.buffer.bytes l.position v.terminated)
          (rw found (drop_line-found i (found_within i found)))
  ]

-- A log in which a line has room takes it whole.
stored :
    {l : Log} (line : CString)
    → IsLog l
    → l.position + length line < buffer_size
    → let l' = append_line l line in
      (contents l' ≡ contents l ++ line) × (l'.buffer.overrun ≡ l.buffer.overrun) × IsBrief l'
unfolding append_line
stored {l} line v h = (
  contents-append_line line v (omega arith),
  ground (arith, overrun-append_line line v (omega arith)),
  record {
    sized = (append_line-IsLog line v (omega arith)).sized;
    within = h;
    terminated = append_line-terminated line v h;
  },
)

make_room_simple-contents :
    {l : Log} (v : IsBrief l) (n : ℕ)
    → let r = make_room_simple l n in
      IsLog r
      × (contents r ≡ with_room (contents l) n)
      × (r.buffer.overrun ≡ l.buffer.overrun)
      × (r.position < buffer_size)
unfolding make_room_simple with_room
make_room_simple-contents {l} v n = elim (Bool-cases (ltb (length (contents l) + n) buffer_size)) [
  | inl room ↦ rw (room, fits room) (brief-IsLog v, refl, refl, v.within)
  | inr full ↦ rw (full, is_full full) (drop_line-after v)
]
  where
    fits :
        ltb (length (contents l) + n) buffer_size ≡ true → leb buffer_size (l.position + n) ≡ false
    fits room = ground (arith, length-contents (brief-IsLog v))

    is_full :
        ltb (length (contents l) + n) buffer_size ≡ false → leb buffer_size (l.position + n) ≡ true
    is_full full = ground (arith, length-contents (brief-IsLog v))

-- A line leaves the brief log with the text that `add_line` states: all of it behind what was
-- there, or behind what is left without the first line, or not at all where that is still too
-- long. The array is never left, and where the line was stored the terminator stands behind it.
pub simple_append-contents :
    {l : Log} (line : CString)
    → IsBrief l
    → let l' = simple_append l line in
      (contents l' ≡ add_line (contents l) line)
      × (l'.buffer.overrun ≡ l.buffer.overrun)
      × IsLog l'
      × (length (with_room (contents l) (length line)) + length line < buffer_size → IsBrief l')
unfolding simple_append
simple_append-contents {l} line v =
    let r = make_room_simple l (length line) in
    let (w, kept, same, inside) = make_room_simple-contents v (length line) in
    let long : length (contents r) ≡ r.position = length-contents w in
    let spec = add_line-room (contents l) line (contents r) kept in
    elim (Bool-cases (ltb (r.position + length line) buffer_size)) [
      | inl room ↦ rw room (
          let (text, clean, brief) = stored line w (ltb→lt _ _ room) in
          (
            text ∙ sym (spec ∙ (rw (long, room))),
            clean ∙ same,
            record { sized = brief.sized; within = omega (arith, brief.within) },
            λ fits. brief,
          ))
      | inr full ↦ rw full (
        sym (spec ∙ (rw (long, full))),
        same,
        w,
        λ fits. absurd (not_ltb _ _ full (omega (arith, ap length kept))),
      )
    ]
