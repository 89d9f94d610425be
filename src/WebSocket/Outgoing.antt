-- ===== src/WebSocket/Outgoing.antt =====
-- main/web/sx_web_server.c: `send_uart_to_websocket`, which shows the bytes of the serial port to the
-- page in chunks. A message is the members of its object; cJSON, the heap and the queue answer to each
-- chunk by its index.
use opensx_serial_server.Prelude.{
  ℕ, zero, suc, ◌+◌, ◌-◌, ◌*◌, ◌/◌, ◌%◌, ◌^◌, Bool, not, ◌&&◌, ◌||◌, Option, none, some, List, [],
  ◌∷◌, ltb, leb, ◌==◌, if◌then◌else◌, length, take, drop,
}
use opensx_serial_server.Prelude.Text.{CString}
use opensx_serial_server.SerialChunk.{size_add}
use opensx_serial_server.WebSocket.Payload.{hex_str}

-- The members of a message of type `uart_data`; `preview` is `chunk_len`, and `frameId` the time.
pub record UartData : Type 0 where
  pub is_tx : Bool
  pub timestamp : ℕ
  pub len : ℕ
  pub chunk_index : ℕ
  pub chunk_total : ℕ
  pub chunk_len : ℕ
  pub offset : ℕ
  pub hex : CString
  pub ascii : CString

pub record Env : Type 0 where
  -- whether there is a queue
  pub has_queue : Bool
  -- the length of the text that cJSON makes, where it makes one
  pub json : ℕ → Option ℕ
  pub memory : ℕ → Bool
  pub queued : ℕ → Bool

abbrev pub chunk_size : ℕ
chunk_size = 128

abbrev pub max_msg_len : ℕ
max_msg_len = 1024

-- `ascii_str`: what is not printable is a dot
unfoldable pub ascii_str : List ℕ → CString
ascii_str [] = []
ascii_str (b ∷ bytes) = (if leb 32 b && ltb b 127 then b else b'.') ∷ ascii_str bytes

-- `chunk_total`
unfoldable pub total_chunks : ℕ → ℕ
total_chunks len = if len == 0 then 1 else size_add len (chunk_size - 1) / chunk_size

-- `offset`
unfoldable pub offset_of : ℕ → ℕ → ℕ
offset_of len i = if len == 0 then 0 else (i * chunk_size) % 2 ^ 32

-- `chunk_len`
unfoldable pub length_of : ℕ → ℕ → ℕ
unfolding offset_of
length_of len i =
    let offset = offset_of len i in
    if len == 0
    then 0
    else if ltb len (size_add offset chunk_size)
    then len - offset
    else chunk_size

-- the bytes from `chunk_ptr` on
unfoldable pub piece : List ℕ → ℕ → List ℕ
unfolding offset_of length_of
piece bytes i = take (length_of (length bytes) i) (drop (offset_of (length bytes) i) bytes)

abbrev pub message : List ℕ → Bool → ℕ → ℕ → UartData
message bytes is_tx frame_id i = record {
  is_tx = is_tx;
  timestamp = frame_id;
  len = length bytes;
  chunk_index = i;
  chunk_total = total_chunks (length bytes);
  chunk_len = length_of (length bytes) i;
  offset = offset_of (length bytes) i;
  hex = hex_str 0 (piece bytes i);
  ascii = ascii_str (piece bytes i);
}

-- what follows for a chunk whose text was made, from the chunks behind it
abbrev pub queue_chunk : Env → ℕ → Option ℕ → UartData → List UartData → List UartData
queue_chunk env i none m rest = []
queue_chunk env i (some json_len) m rest =
    if leb max_msg_len json_len || not (env.memory i)
    then []
    else if env.queued i
    then m ∷ rest
    else rest

-- the loop over the last `n` chunks, from the `i`-th on: what is put in the queue
unfoldable pub chunks_from : Env → List ℕ → Bool → ℕ → ℕ → ℕ → List UartData
unfolding piece total_chunks ascii_str
chunks_from env bytes is_tx frame_id zero i = []
chunks_from env bytes is_tx frame_id (suc n) i =
    queue_chunk env i (env.json i) (message bytes is_tx frame_id i)
      (chunks_from env bytes is_tx frame_id n (i + 1))

-- `send_uart_to_websocket`
unfoldable pub send_uart_to_websocket : Env → List ℕ → Bool → ℕ → List UartData
unfolding chunks_from
send_uart_to_websocket env bytes is_tx frame_id =
    if not env.has_queue
    then []
    else chunks_from env bytes is_tx frame_id (total_chunks (length bytes)) 0
