-- ===== src/WebSocket/Tests.antt =====
-- The theorems on the WebSocket clients and the serial data of the page at concrete inputs, and runs.
use mathlib.Core.List.{flatten}
use opensx_serial_server.Prelude.{
  ℕ, ◌≡◌, ◌≢◌, ◌≤◌, refl, true, not, ◌==◌, none, some, List, [], ◌∷◌, map, length, All, arith,
}
use opensx_serial_server.Prelude.Text.{CString, c_str, str_eq, strn_eq, is_space, skip_spaces}
use opensx_serial_server.Prelude.Err.{esp_ok, esp_fail, err_invalid_arg}
use opensx_serial_server.TcpServer.Hex.{hex_digit}
use opensx_serial_server.SerialChunk
use opensx_serial_server.SerialChunk.Order.{Grants}
use opensx_serial_server.SerialChunk.Transfer.{done}
use opensx_serial_server.WebSocket.{
  Client, Env, released, remove_client_by_tag, fill_client_tag, take_slot, handshake, send_message,
}
use opensx_serial_server.WebSocket.Tags.{tagged}
use opensx_serial_server.WebSocket.Unique.{Event, joins, message, ws_events, ws_events_unique}
use opensx_serial_server.WebSocket.Replace.{handshake-replaces}
use opensx_serial_server.WebSocket.Rounds.{fds_of, kept, failing, send_message-all}
use opensx_serial_server.WebSocket.Payload.{
  digits16, strtol_byte, clean_str, pair_bytes, decode_instruction_payload,
}
use opensx_serial_server.WebSocket.Transfer.{ws_transfer, ws_transfer-sent}
use opensx_serial_server.WebSocket.Outgoing
use opensx_serial_server.WebSocket.Outgoing.{total_chunks, send_uart_to_websocket}
use opensx_serial_server.WebSocket.Shown.{shown, counted, Shows, send_uart-shown}

-- the system grants everything, and nothing happens meanwhile
abbrev granting : Env
granting = record {
  locked = true;
  locked_slot = true;
  server = true;
  memory = true;
  meanwhile = λ cs. cs;
}

abbrev page : ℕ → CString → Client
page fd tag = record { client_fd = some fd; in_use = true; client_tag = tag }

-- a full table
abbrev pages : List Client
pages =
    page 54 (c_str "a")
    ∷ page 55 (c_str "b")
    ∷ page 56 []
    ∷ page 57 (c_str "c")
    ∷ page 58 []
    ∷ page 59 []
    ∷ page 60 []
    ∷ page 61 []
    ∷ []

send_message-all_example :
    let (cs', sent, closed) = send_message granting (λ fd. not (fd == 55)) pages in
    (sent ≡ fds_of pages)
    × (fds_of cs' ≡ kept (λ fd. not (fd == 55)) (fds_of pages))
    × (closed ≡ failing (λ fd. not (fd == 55)) (fds_of pages))
send_message-all_example =
    send_message-all granting (λ fd. not (fd == 55)) pages refl refl (omega arith)

kept_run : kept (λ fd. not (fd == 55)) (fds_of pages) ≡ 54 ∷ 56 ∷ 57 ∷ 58 ∷ 59 ∷ 60 ∷ 61 ∷ []
unfolding kept fds_of
kept_run = refl

handshake-replaces_example :
    let (cs', err, closed) = handshake granting (some 70) (some (c_str "b")) pages in
    (err ≡ esp_ok) × (tagged (c_str "b") cs' ≡ 1)
unfolding tagged strn_eq str_eq
handshake-replaces_example =
    handshake-replaces granting (some 70) b'b' [] pages refl refl refl (λ t cs. omega arith)
      (λ cs h. h) (omega arith) (omega arith)

-- a full table refuses a client without a tag
full_run : handshake granting (some 70) none pages ≡ (pages, esp_fail, [])
unfolding handshake fill_client_tag remove_client_by_tag take_slot
full_run = refl

free_tags : (t : CString) → t ≢ [] → tagged t (released ∷ released ∷ []) ≤ 1
unfolding tagged
free_tags t n = omega arith

-- two pages with the same tag, one of which is sent a message that it does not take
abbrev events : List Event
events =
    joins (some 54) (some (c_str "a"))
    ∷ joins (some 55) (some (c_str "a"))
    ∷ message (λ fd. fd == 54)
    ∷ joins (some 56) (some (c_str "a"))
    ∷ []

ws_events_unique_example :
    tagged (c_str "a") (ws_events granting events (released ∷ released ∷ [])) ≤ 1
ws_events_unique_example =
    ws_events_unique granting events (released ∷ released ∷ []) refl (λ t cs. omega arith) free_tags
      (c_str "a") (λ e. ground (arith, e))

abbrev chunk_env : SerialChunk.Env
chunk_env = record { mutex_created = true; mutex_taken = true; realloc_ok = λ n. true }

chunk_env-Grants : Grants chunk_env
chunk_env-Grants = record { created = refl; taken = refl; memory = λ n. refl }

ws_transfer-sent_example :
    ws_transfer (λ n. true) chunk_env done 0 2 (c_str "t") ((1 ∷ 255 ∷ []) ∷ (16 ∷ []) ∷ [])
    ≡ (done, flatten ((1 ∷ 255 ∷ []) ∷ (16 ∷ []) ∷ []) ∷ [])
unfolding flatten
ws_transfer-sent_example =
    ws_transfer-sent (λ n. true) done b't' [] ((1 ∷ 255 ∷ []) ∷ (16 ∷ []) ∷ []) (λ n. refl)
      chunk_env-Grants
      (
        (omega arith, omega arith, (omega arith, (omega arith, tt))),
        ((omega arith, omega arith, (omega arith, tt)), tt),
      )
      (omega arith) (omega arith)

-- texts that `strtol` reads no digit of
decode_run :
    (decode_instruction_payload (λ n. true) true (some (c_str "-1 zz 7")) ≡ (err_invalid_arg, []))
    × (decode_instruction_payload (λ n. true) true (some (c_str "-1 zz 7g"))
        ≡ (esp_ok, 255 ∷ 0 ∷ 7 ∷ []))
unfolding decode_instruction_payload clean_str pair_bytes strtol_byte digits16 is_space skip_spaces
    hex_digit
decode_run = (refl, refl)

abbrev queue : Outgoing.Env
queue = record { has_queue = true; json = λ i. some 700; memory = λ i. true; queued = λ i. true }

queue-Shows : Shows queue
queue-Shows = record {
  has_queue = refl;
  json = λ i. (700, refl, omega arith);
  memory = λ i. refl;
  queued = λ i. refl;
}

send_uart-shown_example :
    let ms = send_uart_to_websocket queue (65 ∷ 200 ∷ []) true 7 in
    (flatten (map shown ms) ≡ 65 ∷ 200 ∷ [])
    × (length ms ≡ total_chunks 2)
    × All (λ m. m.chunk_total ≡ length ms) ms
    × (map (λ m. m.chunk_index) ms ≡ counted 0 (length ms))
send_uart-shown_example =
    send_uart-shown queue (65 ∷ 200 ∷ []) true 7 queue-Shows (omega arith, (omega arith, tt))
      (omega arith)

total_run : (total_chunks 0 ≡ 1) × (total_chunks 128 ≡ 1) × (total_chunks 129 ≡ 2)
unfolding total_chunks
total_run = (refl, refl, refl)
