-- ===== src/WebSocket/Instruction.antt =====
-- main/web/sx_web_server.c: an instruction for the serial port, as a frame of a WebSocket (`ws_handler`)
-- and as a request (`get_serial_ctl_handler`). The object that cJSON makes of the text is the members
-- that the code looks up.
use opensx_serial_server.Prelude.{
  ℕ, Bool, true, false, not, ◌&&◌, Option, none, some, List, [], ◌∷◌, if◌then◌else◌,
}
use opensx_serial_server.Prelude.Int.{ℤ, pos, negsuc, above}
use opensx_serial_server.Prelude.Text.{CString, c_str, str_eq}
use opensx_serial_server.Prelude.Err.{EspErr, esp_ok, esp_fail, err_no_mem}
use opensx_serial_server.SerialChunk.{Env, State, process_uart_chunk}
use opensx_serial_server.WebSocket.Payload.{Decoded, decode_instruction_payload}

-- A member of the object: a string, a number by its `valueint`, or something else.
pub data Member : Type 0 where
  text : CString → Member
  number : ℤ → Member
  other : Member

abbrev pub Json : Type 0
Json = CString → Option Member

abbrev pub text_of : Option Member → Option CString
text_of (some (text t)) = some t
text_of _ = none

abbrev pub number_or : ℤ → Option Member → ℤ
number_or default (some (number n)) = n
number_or default _ = default

-- `transfer_id_str`
abbrev pub non_empty : Option CString → Option CString
non_empty (some (c ∷ cs)) = some (c ∷ cs)
non_empty _ = none

-- a string that is this one
abbrev pub is_text : CString → Option CString → Bool
is_text word none = false
is_text word (some t) = str_eq t word

-- `is_uart_tx`
abbrev pub is_uart_tx : Option Member → Bool
is_uart_tx none = true
is_uart_tx (some member) = is_text (c_str "uart_tx") (text_of (some member))

pub data Notice : Type 0 where
  acked invalid_json instruction_missing missing_transfer_id no_memory invalid_payload : Notice
  chunk_no_memory chunk_failed : Notice

-- the acknowledgement that `ws_send_uart_ack` sends; whether it is one of success is in the notice
pub record Ack : Type 0 where
  pub transfer_id : Option CString
  pub chunk_index : ℤ
  pub chunk_total : ℤ
  pub notice : Notice

-- The context of the chunks, the answer, the acknowledgement, and what is sent to the port.
pub record Step : Type 0 where
  pub state : State
  pub err : EspErr
  pub ack : Option Ack
  pub sent : List (List ℕ)

-- What the handler read of the message.
pub record Request : Type 0 where
  pub transfer_id : Option CString
  pub index : ℤ
  pub total : ℤ

abbrev ack_of : Request → Notice → Option Ack
ack_of r notice = some (record {
  transfer_id = r.transfer_id;
  chunk_index = r.index;
  chunk_total = r.total;
  notice = notice;
})

-- the error of a failed step
abbrev failed : Bool → EspErr
failed memory = if memory then err_no_mem else esp_fail

abbrev pub is_no_mem : EspErr → Bool
is_no_mem err_no_mem = true
is_no_mem _ = false

abbrev pub is_ok : EspErr → Bool
is_ok esp_ok = true
is_ok _ = false

-- the end of `ws_handler`, from the answer of `process_uart_chunk`
abbrev pub ws_chunk : Request → State × EspErr × List (List ℕ) → Step
ws_chunk r (s, err, sent) =
    if is_ok err
    then record { state = s; err = esp_ok; ack = ack_of r acked; sent = sent }
    else record {
      state = s;
      err = failed (is_no_mem err);
      ack = ack_of r (if is_no_mem err then chunk_no_memory else chunk_failed);
      sent = sent;
    }

abbrev pub ws_decoded : Env → State → Request → Decoded → Step
ws_decoded env s r (err, bytes) =
    if is_ok err
    then ws_chunk r (process_uart_chunk env s (some bytes) r.index r.total r.transfer_id)
    else record {
      state = s;
      err = failed (is_no_mem err);
      ack = ack_of r (if is_no_mem err then no_memory else invalid_payload);
      sent = [];
    }

abbrev refuse : State → Option Ack → Step
refuse s ack = record { state = s; err = esp_fail; ack = ack; sent = [] }

abbrev pub is_none : Option CString → Bool
is_none none = true
is_none (some t) = false

abbrev pub ws_instruction : (ℕ → Bool) → Env → State → Request → Bool → Option CString → Step
ws_instruction memory env s r hex none = refuse s (ack_of r instruction_missing)
ws_instruction memory env s r hex (some t) =
    if above 1 r.total && is_none r.transfer_id
    then refuse s (ack_of r missing_transfer_id)
    else ws_decoded env s r (decode_instruction_payload memory hex (some t))

abbrev pub request_of : ℤ → ℤ → Json → Request
request_of index total json = record {
  transfer_id = non_empty (text_of (json (c_str "transferId")));
  index = number_or index (json (c_str "chunkIndex"));
  total = number_or total (json (c_str "chunkTotal"));
}

-- `is_hex_mode`
abbrev pub hex_mode : Json → Bool
hex_mode json = is_text (c_str "hex") (text_of (json (c_str "sendType")))

-- `ws_handler` at a frame of text, from `cJSON_Parse` on; `none` is text that is no JSON
unfoldable pub ws_text : (ℕ → Bool) → Env → State → Option Json → Step
ws_text memory env s none = refuse s (
    some (record {
      transfer_id = none;
      chunk_index = pos 0;
      chunk_total = pos 0;
      notice = invalid_json;
    }))
ws_text memory env s (some json) =
    if not (is_uart_tx (json (c_str "type")))
    then record { state = s; err = esp_ok; ack = none; sent = [] }
    else ws_instruction memory env s (request_of (pos 0) (pos 1) json) (hex_mode json)
        (text_of (json (c_str "instruction")))

-- How `get_serial_ctl_handler` answers: the code 200, or an error.
pub data Reply : Type 0 where
  done missing no_mem invalid no_transfer_id no_chunk_mem chunk_error : Reply

-- The context of the chunks, the answer to the request, and what is sent to the port.
abbrev pub Answer : Type 0
Answer = State × Option Reply × List (List ℕ)

abbrev ctl_chunk : State × EspErr × List (List ℕ) → Answer
ctl_chunk (s, err, sent) = (
  s,
  some (if is_ok err then done else if is_no_mem err then no_chunk_mem else chunk_error),
  sent,
)

abbrev ctl_decoded : Env → State → Request → Decoded → Answer
ctl_decoded env s r (err, bytes) =
    if is_no_mem err
    then (s, some no_mem, [])
    else if not (is_ok err)
    then (s, some invalid, [])
    else if above 1 r.total && is_none r.transfer_id
    then (s, some no_transfer_id, [])
    else ctl_chunk (process_uart_chunk env s (some bytes) r.index r.total r.transfer_id)

abbrev ctl_instruction : (ℕ → Bool) → Env → State → Request → Bool → Option CString → Answer
ctl_instruction memory env s r hex none = (s, some missing, [])
ctl_instruction memory env s r hex (some t) =
    ctl_decoded env s r (decode_instruction_payload memory hex (some t))

-- `get_serial_ctl_handler`, from `cJSON_Parse` on; a text that is no JSON has no answer
unfoldable pub serial_ctl : (ℕ → Bool) → Env → State → Option Json → Answer
serial_ctl memory env s none = (s, none, [])
serial_ctl memory env s (some json) =
    ctl_instruction memory env s (request_of (negsuc 0) (negsuc 0) json) (hex_mode json)
      (text_of (json (c_str "instruction")))
