-- ===== src/Uart/Queue.antt =====
-- main/drivers/sx_async_uart.c: the queue from `rx_task` to `uart_processing_task`, and the loop of the
-- latter. A FreeRTOS queue is the list of its messages, oldest first.
use opensx_serial_server.Prelude.{
  ℕ, ◌+◌, ◌-◌, Bool, true, false, not, Option, none, some, List, [], ◌∷◌, ◌++◌, ltb, if◌then◌else◌,
  length, take, drop, min,
}

-- UART_QUEUE_LEN
abbrev pub queue_len : ℕ
queue_len = 20

-- `xQueueSend` without a wait; whether the message was taken
unfoldable pub queue_send : List (List ℕ) → List ℕ → List (List ℕ) × Bool
queue_send queue msg =
    if ltb (length queue) queue_len then (queue ++ msg ∷ [], true) else (queue, false)

-- a frame that is cut; `copied` says whether the copy could be allocated
unfoldable pub hand_over : Bool → List (List ℕ) → List ℕ → List (List ℕ)
hand_over copied queue frame = if copied then (queue_send queue frame).0 else queue

-- the cleaning of the queue: all but the newest five of more than fifteen are dropped
unfoldable pub clean_backlog : List (List ℕ) → List (List ℕ)
clean_backlog queue = if ltb 15 (length queue) then drop (length queue - 5) queue else queue

-- the globals of the old interface: `uart_response` with its size, and `response_len`
pub record Response : Type 0 where
  pub response : Option (List ℕ)
  pub size : ℕ
  pub response_len : ℕ

-- how one round ends
pub data Ended : Type 0 where
  goes_on exits : Ended

pub record Round : Type 0 where
  pub queue : List (List ℕ)
  pub response : Response
  -- what the handler of the work mode is given
  pub handled : Option (List ℕ)
  pub ended : Ended

-- the test of the stop bit at the end of a round
abbrev pub end_round : Bool → Ended
end_round true = exits
end_round false = goes_on

abbrev pub reserve_in : ℕ → Bool → ℕ → Response → Option (List ℕ) → Option Response
reserve_in io_buf_size realloc_ok rx_bytes r none =
    if realloc_ok
    then some (record r { response = some []; size = min (rx_bytes + 32) io_buf_size })
    else none
reserve_in io_buf_size realloc_ok rx_bytes r (some old) =
    if not (ltb r.size rx_bytes)
    then some r
    else if realloc_ok
    then some (record r { size = min (rx_bytes + 32) io_buf_size })
    else none

-- the room in `uart_response`; `realloc_ok` says whether `realloc` finds memory; `none` skips the frame
unfoldable pub reserve_response : ℕ → Bool → ℕ → Response → Option Response
reserve_response io_buf_size realloc_ok rx_bytes r =
    reserve_in io_buf_size realloc_ok rx_bytes r r.response

-- `memset`, then the copy
abbrev pub store_response : List ℕ → ℕ → Response → Response
store_response bytes rx_bytes r = record r {
  response = some (take (min rx_bytes r.size) bytes);
  response_len = rx_bytes;
}

abbrev pub process : ℕ → Bool → List ℕ → Option Response → Response → List (List ℕ) → Bool → Round
process io_buf_size has_handler msg none r rest stop = record {
  queue = rest;
  response = r;
  handled = none;
  ended = goes_on;
}
process io_buf_size has_handler msg (some room) r rest stop =
    let rx_bytes = min (length msg) io_buf_size in
    record {
      queue = rest;
      response = store_response msg rx_bytes room;
      handled = if has_handler then some (take rx_bytes msg) else none;
      ended = end_round stop;
    }

abbrev pub receive : ℕ → Bool → Bool → Bool → Response → List (List ℕ) → Round
receive io_buf_size realloc_ok has_handler stop r [] = record {
  queue = [];
  response = r;
  handled = none;
  ended = end_round stop;
}
receive io_buf_size realloc_ok has_handler stop r ([] ∷ rest) = record {
  queue = rest;
  response = r;
  handled = none;
  ended = goes_on;
}
receive io_buf_size realloc_ok has_handler stop r ((b ∷ bytes) ∷ rest) =
    process io_buf_size has_handler (b ∷ bytes)
      (reserve_response io_buf_size realloc_ok (min (length (b ∷ bytes)) io_buf_size) r) r rest stop

-- one round of `uart_processing_task`: `has_handler` says whether the active mode has a handler, without
-- which the frame is discarded; `stop` is the stop bit of the notification
unfoldable pub processing_round : ℕ → Bool → Bool → Bool → Response → List (List ℕ) → Round
unfolding clean_backlog reserve_response
processing_round io_buf_size realloc_ok has_handler stop r queue =
    receive io_buf_size realloc_ok has_handler stop r (clean_backlog queue)
