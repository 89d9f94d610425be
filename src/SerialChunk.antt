-- ===== src/SerialChunk.antt =====
-- main/web/sx_web_server.c: the reassembly of serial data that the browser sends in chunks
-- (`serial_chunk_*`, `process_uart_chunk`). The allocator and the mutex of FreeRTOS are the record
-- `Env`; a call of `tx_tasks` is an entry of the list of transmissions. A chunk is the list of its
-- bytes, so `chunk_len` is its length; `none` is a null pointer.
pub mod Order
pub mod Transfer
pub mod Inv
pub mod Loss
mod Tests
use opensx_serial_server.Prelude.{
  ℕ, ◌+◌, ◌%◌, ◌^◌, Bool, true, false, not, ◌&&◌, ◌||◌, Option, none, some, List, [], ◌∷◌, ◌++◌,
  ltb, leb, ◌==◌, if◌then◌else◌, length, take,
}
use opensx_serial_server.Prelude.Int.{ℤ, pos, negsuc, above, below, to_nat}
use opensx_serial_server.Prelude.Text.{CString, truncate, strn_eq}
use opensx_serial_server.Prelude.Err.{
  EspErr, esp_ok, err_no_mem, err_invalid_arg, err_invalid_state, err_timeout,
}

-- `serial_chunk_ctx_t`; `len` is the field `length`
pub record ChunkCtx : Type 0 where
  pub transfer_id : CString
  pub buffer : Option (List ℕ)
  pub len : ℕ
  pub capacity : ℕ
  pub expected_chunks : ℕ
  pub received_chunks : ℕ

-- what the operating system answers to one call
pub record Env : Type 0 where
  pub mutex_created : Bool
  pub mutex_taken : Bool
  pub realloc_ok : ℕ → Bool

pub record State : Type 0 where
  pub has_mutex : Bool
  pub ctx : ChunkCtx

abbrev pub Outcome : Type 0
Outcome = ChunkCtx × EspErr × List (List ℕ)

-- `serial_chunk_reset_locked`: freed and all zero
abbrev pub reset : ChunkCtx
reset = record {
  transfer_id = [];
  buffer = none;
  len = 0;
  capacity = 0;
  expected_chunks = 0;
  received_chunks = 0;
}

abbrev pub contents : Option (List ℕ) → List ℕ
contents none = []
contents (some bytes) = bytes

-- `size_t` is 32 bits wide
abbrev pub size_add : ℕ → ℕ → ℕ
size_add a b = (a + b) % 2 ^ 32

pub new_capacity : ℕ → ℕ
new_capacity required =
    if ltb (size_add required 512) required then required else size_add required 512

-- `serial_chunk_reserve_locked`; `none` is its `false`
pub reserve : Env → ChunkCtx → ℕ → Option ChunkCtx
reserve env c required =
    if leb required c.capacity
    then some c
    else if env.realloc_ok (new_capacity required)
    then some (record c { buffer = some (contents c.buffer); capacity = new_capacity required })
    else none

abbrev pub id_max : ℕ
id_max = 63

-- The first chunk of a transfer, or one of another transfer.
pub starts_new : ChunkCtx → ℕ → CString → Bool
starts_new c index id = index == 0 || not (strn_eq id_max c.transfer_id id)

-- the context that the chunk is checked against
pub open_transfer : ChunkCtx → ℕ → ℕ → CString → ChunkCtx
open_transfer c index total id =
    if starts_new c index id
    then record reset { transfer_id = truncate id_max id; expected_chunks = total }
    else c

-- `if (finished && final_buf && final_len > 0) tx_tasks(final_buf, final_len)`
abbrev pub flush : ChunkCtx → List (List ℕ)
flush c = if ltb 0 c.len then take c.len (contents c.buffer) ∷ [] else []

-- `memcpy` behind the bytes received so far, and the end of the transfer
pub store : ChunkCtx → List ℕ → ℕ → Outcome
store c bytes new_len =
    let c' = record c {
      buffer = some (take c.len (contents c.buffer) ++ bytes);
      len = new_len;
      received_chunks = c.received_chunks + 1;
    } in
    if leb c'.expected_chunks c'.received_chunks
    then (reset, esp_ok, flush c')
    else (c', esp_ok, [])

pub store_reserved : Option ChunkCtx → List ℕ → ℕ → Outcome
store_reserved none bytes new_len = (reset, err_no_mem, [])
store_reserved (some c) bytes new_len = store c bytes new_len

-- the part of `process_uart_chunk` that runs under the mutex
pub process_locked : Env → ChunkCtx → List ℕ → ℕ → ℕ → CString → Outcome
process_locked env ctx bytes index total id =
    let c = open_transfer ctx index total id in
    if not (total == c.expected_chunks) || not (index == c.received_chunks)
    then (reset, err_invalid_state, [])
    else (let new_len = size_add c.len (length bytes) in
        store_reserved (reserve env c new_len) bytes new_len)

abbrev pub chunk_mode : ℤ → ℤ → Option CString → Bool
chunk_mode index total none = false
chunk_mode index total (some id) = above 1 total && not (below index 0)

abbrev pub transfer_name : Option CString → CString
transfer_name none = []
transfer_name (some id) = id

-- `process_uart_chunk`, from the test of the data on
pub process_data : Env → State → List ℕ → ℤ → ℤ → Option CString → State × EspErr × List (List ℕ)
process_data env s bytes index total id =
    if not (chunk_mode index total id)
    then (s, esp_ok, bytes ∷ [])
    else if not (s.has_mutex || env.mutex_created)
    then (s, err_no_mem, [])
    else if not env.mutex_taken
    then (record s { has_mutex = true }, err_timeout, [])
    else (let (c, err, sent) =
          process_locked env s.ctx bytes (to_nat index) (to_nat total) (transfer_name id) in
        (record { has_mutex = true; ctx = c }, err, sent))

pub process_uart_chunk :
    Env → State → Option (List ℕ) → ℤ → ℤ → Option CString → State × EspErr × List (List ℕ)
process_uart_chunk env s none index total id = (s, err_invalid_arg, [])
process_uart_chunk env s (some []) index total id = (s, err_invalid_arg, [])
process_uart_chunk env s (some (b ∷ bytes)) index total id =
    process_data env s (b ∷ bytes) index total id
