-- ===== src/Uart/Backlog.antt =====
-- main/drivers/sx_async_uart.c: what the queue loses, and what the work mode is handed.
use opensx_serial_server.Prelude.{
  ℕ, ◌+◌, ◌-◌, ◌≤◌, ◌<◌, ◌≡◌, refl, sym, ap, subst, ◌∙◌, Bool, true, false, Option, none, some,
  List, [], ◌∷◌, ◌++◌, ltb, if◌then◌else◌, length, take, min, length-append, length-drop, take_all,
  take-append-drop, Bool-cases, inl, inr, arith,
}
use opensx_serial_server.Uart.Queue.{
  queue_len, queue_send, hand_over, clean_backlog, Response, goes_on, exits, Round, reserve_in,
  process, receive, end_round, reserve_response, processing_round,
}

-- Whatever is handed over, the queue keeps to its length, and a message that it takes stands last, behind
-- all that it held.
pub hand_over-fits :
    (copied : Bool) (queue : List (List ℕ)) (frame : List ℕ)
    → length queue ≤ queue_len
    → let queue' = hand_over copied queue frame in
      (length queue' ≤ queue_len)
      × (copied ≡ true → length queue < queue_len → queue' ≡ queue ++ frame ∷ [])
      × (copied ≡ false → queue' ≡ queue)
      × (length queue ≡ queue_len → queue' ≡ queue)
unfolding hand_over queue_send
hand_over-fits copied queue frame h = ground (arith, length-append queue (frame ∷ []))

-- The cleaning keeps the newest messages in order: all of up to fifteen, and the last five of more.
pub clean_backlog-newest :
    (queue : List (List ℕ))
    → (dropped : List (List ℕ)) × (dropped ++ clean_backlog queue ≡ queue)
      × (length queue ≤ 15 → dropped ≡ [])
      × (15 < length queue → length (clean_backlog queue) ≡ 5)
unfolding clean_backlog
clean_backlog-newest queue = elim (Bool-cases (ltb 15 (length queue))) [
  | inl many ↦ rw many (
    take (length queue - 5) queue,
    take-append-drop (length queue - 5) queue,
    (λ few. absurd (ground arith)),
    λ h. omega (arith, length-drop (length queue - 5) queue),
  )
  | inr few ↦ rw few ([], refl, (λ h. refl), λ h. absurd (ground arith))
]

-- Room for a frame of up to UART_IO_BUF_SIZE bytes.
reserve-room :
    (io_buf_size rx_bytes : ℕ) (r : Response)
    → rx_bytes ≤ io_buf_size
    → (room : Response) × (reserve_response io_buf_size true rx_bytes r ≡ some room)
      × (rx_bytes ≤ room.size)
unfolding reserve_response
reserve-room io_buf_size rx_bytes r h = room r.response
  where
    room :
        (o : Option (List ℕ))
        → (room : Response) × (reserve_in io_buf_size true rx_bytes r o ≡ some room)
          × (rx_bytes ≤ room.size)
    room none =
        (record r { response = some []; size = min (rx_bytes + 32) io_buf_size }, refl, omega arith)
    room (some old) = elim (Bool-cases (ltb r.size rx_bytes)) [
      | inl small ↦
          (record r { size = min (rx_bytes + 32) io_buf_size }, (simp small refl), omega arith)
      | inr large ↦ (r, (simp large refl), ground arith)
    ]

kept_short : (queue : List (List ℕ)) → length queue ≤ 15 → clean_backlog queue ≡ queue
unfolding clean_backlog
kept_short queue h = ground arith

-- The message is stored whole, and handed over whole where there is a handler.
abbrev Whole : Bool → List ℕ → List (List ℕ) → Bool → Round → Type 0
Whole has_handler msg rest stop q =
    (q.handled ≡ (if has_handler then some msg else none))
    × (q.response.response ≡ some msg)
    × (q.response.response_len ≡ length msg)
    × (q.queue ≡ rest)
    × (q.ended ≡ (if stop then exits else goes_on))

process-Whole :
    (io_buf_size : ℕ) (has_handler : Bool) (msg : List ℕ) (room r : Response) (rest : List (List ℕ))
    (stop : Bool)
    → length msg ≤ io_buf_size
    → length msg ≤ room.size
    → Whole has_handler msg rest stop (process io_buf_size has_handler msg (some room) r rest stop)
process-Whole io_buf_size has_handler msg room r rest stop h fits =
    let whole : min (length msg) io_buf_size ≡ length msg = omega arith in
    let stored : min (length msg) room.size ≡ length msg = omega arith in
    let all : take (length msg) msg ≡ msg = take_all (length msg) msg (omega arith) in
    rw (whole, stored, all) (refl, refl, refl, refl, ended stop)
  where
    ended : (b : Bool) → end_round b ≡ (if b then exits else goes_on)
    ended true = refl
    ended false = refl

-- Where memory can be had and no backlog is cleaned away: the oldest message of up to UART_IO_BUF_SIZE
-- bytes is taken from the queue and left whole in `uart_response`. Where the active work mode has a
-- handler, the handler is given it whole; without one it is discarded. The round ends the task exactly
-- where the stop bit is set.
pub processing_round-whole :
    (io_buf_size : ℕ) (has_handler stop : Bool) (r : Response) (msg : List ℕ) (rest : List (List ℕ))
    → length rest < 15
    → 0 < length msg
    → length msg ≤ io_buf_size
    → let q = processing_round io_buf_size true has_handler stop r (msg ∷ rest) in
      (q.handled ≡ (if has_handler then some msg else none))
      × (q.response.response ≡ some msg)
      × (q.response.response_len ≡ length msg)
      × (q.queue ≡ rest)
      × (q.ended ≡ (if stop then exits else goes_on))
unfolding processing_round
processing_round-whole io_buf_size has_handler stop r [] rest few some_bytes h =
    absurd (omega arith)
processing_round-whole io_buf_size has_handler stop r (b ∷ bytes) rest few some_bytes h =
    let msg : List ℕ = b ∷ bytes in
    let (room, e, fits) = reserve-room io_buf_size (length msg) r h in
    let reserved : reserve_response io_buf_size true (min (length msg) io_buf_size) r ≡ some room =
      ap (λ n. reserve_response io_buf_size true n r) (omega arith) ∙ e in
    subst
      (λ queue. Whole has_handler msg rest stop (receive io_buf_size true has_handler stop r queue))
      (sym (kept_short (msg ∷ rest) (omega arith)))
      (subst
        (λ o. Whole has_handler msg rest stop (process io_buf_size has_handler msg o r rest stop))
        (sym reserved) (process-Whole io_buf_size has_handler msg room r rest stop h fits))

-- The empty message by which `stop_rx_task` wakes the task does not end it: the round that takes it skips
-- the test of the stop bit, and only the next round, which finds the queue empty after its wait, ends.
pub processing_round-dummy :
    (io_buf_size : ℕ) (realloc_ok has_handler : Bool) (r : Response)
    → let woken = processing_round io_buf_size realloc_ok has_handler true r ([] ∷ []) in
      (woken.ended ≡ goes_on)
      × (woken.queue ≡ [])
      × ((processing_round io_buf_size realloc_ok has_handler true woken.response woken.queue).ended
          ≡ exits)
unfolding processing_round clean_backlog
processing_round-dummy io_buf_size realloc_ok has_handler r = (refl, refl, refl)
