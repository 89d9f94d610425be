-- ===== src/WebSocket/Transfer.antt =====
-- main/web/sx_web_server.c: bytes for the serial port that the page sends in several instructions.
use mathlib.Core.List.{flatten}
use opensx_serial_server.Prelude.{
  ℕ, ◌+◌, ◌^◌, ◌≡◌, ◌≤◌, ◌<◌, refl, ap, ◌∙◌, Bool, true, false, ◌&&◌, none, some, List, [], ◌∷◌,
  ◌++◌, if◌then◌else◌, length, All, Bool-cases, inl, inr, arith,
}
use opensx_serial_server.Prelude.Int.{pos, above}
use opensx_serial_server.Prelude.Text.{CString, c_str, str_eq}
use opensx_serial_server.Prelude.Err.{EspErr, esp_ok}
use opensx_serial_server.SerialChunk.{Env, State, process_uart_chunk}
use opensx_serial_server.SerialChunk.Order.{Grants}
use opensx_serial_server.SerialChunk.Transfer.{done, send_from, transfer_in_order}
use opensx_serial_server.WebSocket.Payload.{decode_instruction_payload, hex_str, decode-hex_str}
use opensx_serial_server.WebSocket.Instruction.{
  is_none, text, number, Json, Request, Step, is_ok, ws_chunk, ws_instruction, ws_text,
}

-- An instruction of the page, in hexadecimal.
abbrev pub hex_message : ℕ → ℕ → CString → List ℕ → Json
hex_message index total id chunk key =
    if str_eq key (c_str "type")
    then some (text (c_str "uart_tx"))
    else if str_eq key (c_str "instruction")
    then some (text (hex_str 0 chunk))
    else if str_eq key (c_str "sendType")
    then some (text (c_str "hex"))
    else if str_eq key (c_str "chunkIndex")
    then some (number (pos index))
    else if str_eq key (c_str "chunkTotal")
    then some (number (pos total))
    else if str_eq key (c_str "transferId")
    then some (text id)
    else none

-- The transfer of chunks, each in a frame of its own: the context, and what is sent to the port.
unfoldable pub ws_transfer :
    (ℕ → Bool) → Env → State → ℕ → ℕ → CString → List (List ℕ) → State × List (List ℕ)
ws_transfer memory env s index total id [] = (s, [])
ws_transfer memory env s index total id (chunk ∷ rest) =
    let step = ws_text memory env s (some (hex_message index total id chunk)) in
    let (s', later) = ws_transfer memory env step.state (index + 1) total id rest in
    (s', step.sent ++ later)

chunk_step :
    (r : Request) (o : State × EspErr × List (List ℕ))
    → ((ws_chunk r o).state ≡ o.0) × ((ws_chunk r o).sent ≡ o.2)
chunk_step r (s, err, sent) = elim (Bool-cases (is_ok err)) [
  | inl e ↦ rw e (refl, refl)
  | inr e ↦ rw e (refl, refl)
]

and_false : (b : Bool) → (b && false) ≡ false
and_false true = refl
and_false false = refl

instructed :
    (memory : ℕ → Bool) (env : Env) (s : State) (r : Request) (t : CString) (chunk : List ℕ)
    → is_none r.transfer_id ≡ false
    → decode_instruction_payload memory true (some t) ≡ (esp_ok, chunk)
    → ws_instruction memory env s r true (some t)
      ≡ ws_chunk r (process_uart_chunk env s (some chunk) r.index r.total r.transfer_id)
instructed memory env s r t chunk e d = simp (e, and_false (above 1 r.total), d) refl

frame :
    (memory : ℕ → Bool) (env : Env) (s : State) (index total c : ℕ) (id chunk : List ℕ)
    → decode_instruction_payload memory true (some (hex_str 0 chunk)) ≡ (esp_ok, chunk)
    → let step = ws_text memory env s (some (hex_message index total (c ∷ id) chunk)) in
      let o = process_uart_chunk env s (some chunk) (pos index) (pos total) (some (c ∷ id)) in
      (step.state ≡ o.0) × (step.sent ≡ o.2)
unfolding ws_text str_eq
frame memory env s index total c id chunk d =
    let r : Request = record {
      transfer_id = some (c ∷ id);
      index = pos index;
      total = pos total;
    } in
    let o = process_uart_chunk env s (some chunk) (pos index) (pos total) (some (c ∷ id)) in
    let same = instructed memory env s r (hex_str 0 chunk) chunk refl d in
    let (a, b) = chunk_step r o in
    (ap (λ (x : Step). x.state) same ∙ a, ap (λ (x : Step). x.sent) same ∙ b)

-- Bytes that fit a frame.
abbrev pub IsChunk : List ℕ → Type 0
IsChunk chunk = (0 < length chunk) × (length chunk ≤ 128) × All (λ x. x < 256) chunk

decoded :
    (memory : ℕ → Bool) (chunk : List ℕ)
    → ((n : ℕ) → memory n ≡ true)
    → IsChunk chunk
    → decode_instruction_payload memory true (some (hex_str 0 chunk)) ≡ (esp_ok, chunk)
decoded memory [] m h = absurd (omega (arith, h.0))
decoded memory (b ∷ bytes) m h = decode-hex_str memory b bytes m h.2 h.1

transfer-send_from :
    (memory : ℕ → Bool) (env : Env) (s : State) (index total c : ℕ) (id : CString)
    (chunks : List (List ℕ))
    → ((n : ℕ) → memory n ≡ true)
    → All IsChunk chunks
    → ws_transfer memory env s index total (c ∷ id) chunks
      ≡ send_from env s index total (c ∷ id) chunks
unfolding ws_transfer send_from
transfer-send_from memory env s index total c id [] m a = refl
transfer-send_from memory env s index total c id (chunk ∷ rest) m a =
    let (p, q) = frame memory env s index total c id chunk (decoded memory chunk m a.0) in
    rw (p, q)
      (ap
        (λ (x : State × List (List ℕ)). (
          x.0,
          (process_uart_chunk env s (some chunk) (pos index) (pos total) (some (c ∷ id))).2 ++ x.1,
        ))
        (transfer-send_from memory env
          (process_uart_chunk env s (some chunk) (pos index) (pos total) (some (c ∷ id))).0
          (index + 1) total c id rest m a.1))

not_empty : (chunks : List (List ℕ)) → All IsChunk chunks → All (λ chunk. 0 < length chunk) chunks
not_empty [] a = tt
not_empty (chunk ∷ rest) a = (a.0.0, not_empty rest a.1)

-- Two or more chunks of one to 128 bytes, fewer than 2 ^ 32 bytes in all, that the page sends in order as
-- frames of hexadecimal text under one identifier that is not empty, reach the serial port as one
-- transmission of all their bytes in order, while memory and the mutex are granted and whatever transfer
-- was under way before.
pub ws_transfer-sent :
    (memory : ℕ → Bool) {env : Env} (s : State) (c : ℕ) (id : CString) (chunks : List (List ℕ))
    → ((n : ℕ) → memory n ≡ true)
    → Grants env
    → All IsChunk chunks
    → 1 < length chunks
    → length (flatten chunks) < 2 ^ 32
    → ws_transfer memory env s 0 (length chunks) (c ∷ id) chunks ≡ (done, flatten chunks ∷ [])
ws_transfer-sent memory {env} s c id chunks m g a many b =
    transfer-send_from memory env s 0 (length chunks) c id chunks m a
    ∙ transfer_in_order s (c ∷ id) chunks g (not_empty chunks a) many b
