-- ===== src/TcpClient/Packets.antt =====
-- main/protocols/sx_tcp_client.c: what `send_register_packet` and `tcp_heartbeat_task` send. `memory` says
-- whether the allocations succeed, `mac` is the text of the address.
use opensx_serial_server.Prelude.{
  ℕ, ◌<◌, ◌≡◌, refl, ap, ◌∙◌, Bool, true, false, not, Option, none, some, List, [], ◌∷◌, ltb,
  lt→ltb, if◌then◌else◌, length,
}
use opensx_serial_server.Prelude.Int.{below, to_nat}
use opensx_serial_server.Prelude.Text.{CString, c_str, str_eq, atoi}
use opensx_serial_server.Prelude.Nvs.{Nvs}
use opensx_serial_server.TcpClient.Hex.{hex_to_bin}

-- What is sent, and whether a byte was written behind an allocated block.
pub record Sent : Type 0 where
  pub bytes : Option (List ℕ)
  pub overrun : Bool

abbrev nothing : Sent
nothing = record { bytes = none; overrun = false }

abbrev pub unless_empty : List ℕ → Option (List ℕ)
unless_empty [] = none
unless_empty (b ∷ bytes) = some (b ∷ bytes)

-- the packet, in its format, into buffers of 128 bytes
unfoldable pub packet_bytes : CString → CString → Option (List ℕ)
packet_bytes format packet =
    if str_eq format (c_str "hex")
    then unless_empty (hex_to_bin packet 128)
    else unless_empty packet

-- an empty packet has a block of one byte, which the text of the address is copied to
abbrev pub register_with : CString → CString → CString → Sent
register_with mac format [] = record {
  bytes = packet_bytes format mac;
  overrun = ltb 0 (length mac);
}
register_with mac format (c ∷ cs) = record { bytes = packet_bytes format (c ∷ cs); overrun = false }

abbrev register_as : Bool → CString → CString → Option CString → Sent
register_as memory mac packet none = nothing
register_as memory mac packet (some format) =
    if not memory
    then nothing
    else if str_eq format (c_str "none")
    then nothing
    else register_with mac format packet

abbrev register_packet : Nvs → Bool → CString → Option CString → Sent
register_packet nvs memory mac none = record { bytes = unless_empty mac; overrun = false }
register_packet nvs memory mac (some packet) =
    register_as memory mac packet (nvs.get (c_str "reg_format"))

-- `send_register_packet`
unfoldable pub send_register_packet : Nvs → Bool → CString → Sent
send_register_packet nvs memory mac =
    if not nvs.opens then nothing else register_packet nvs memory mac (nvs.get (c_str "reg_packet"))

-- What the heartbeat runs with.
pub record Beat : Type 0 where
  pub heart_packet : Option CString
  pub heart_format : Option CString
  pub heart_interval : ℕ

abbrev if_memory : Bool → Option CString → Option CString
if_memory true value = value
if_memory false value = none

abbrev or_text : Bool → CString → Option CString → Option CString
or_text memory default none = if memory then some default else none
or_text memory default (some value) = some value

-- the interval in seconds, 30 where it is missing or not above 0
unfoldable pub interval_seconds : Option CString → ℕ
interval_seconds none = 30
interval_seconds (some text) = if below (atoi text) 1 then 30 else to_nat (atoi text)

abbrev is_none_text : Option CString → Bool
is_none_text none = false
is_none_text (some format) = str_eq format (c_str "none")

-- How the task begins: the flash does not open, the setting turns it off, or it beats.
pub data Begin : Type 0 where
  no_flash disabled : Begin
  beats : Beat → Begin

-- the settings at the start of `tcp_heartbeat_task`
unfoldable pub heartbeat_settings : Nvs → Bool → CString → Begin
heartbeat_settings nvs memory mac =
    let packet = if_memory memory (nvs.get (c_str "heart_packet")) in
    let format = if_memory memory (nvs.get (c_str "heart_format")) in
    if not nvs.opens
    then no_flash
    else if is_none_text format
    then disabled
    else beats (record {
      heart_packet = or_text memory mac packet;
      heart_format = or_text memory (c_str "ascii") format;
      heart_interval = interval_seconds (if_memory memory (nvs.get (c_str "heart_interval")));
    })

abbrev pub beat_text : Option CString → Option CString → Option (List ℕ)
beat_text none format = none
beat_text (some packet) none = unless_empty packet
beat_text (some []) (some format) = none
beat_text (some (c ∷ cs)) (some format) = packet_bytes format (c ∷ cs)

-- what a round of the heartbeat sends
unfoldable pub beat_bytes : Beat → Option (List ℕ)
beat_bytes b = beat_text b.heart_packet b.heart_format

-- The flash opens and holds a packet and a format other than `none`, and there is memory.
pub record Registers (nvs : Nvs) (packet format : CString) : Type 0 where
  pub opens : nvs.opens ≡ true
  pub packet_stored : nvs.get (c_str "reg_packet") ≡ some packet
  pub format_stored : nvs.get (c_str "reg_format") ≡ some format
  pub enabled : str_eq format (c_str "none") ≡ false

abbrev pub is_empty : CString → Bool
is_empty [] = true
is_empty (c ∷ cs) = false

pub registered :
    (nvs : Nvs) (mac packet format : CString)
    → Registers nvs packet format
    → send_register_packet nvs true mac ≡ register_with mac format packet
unfolding send_register_packet
registered nvs mac packet format r =
    simp (r.opens, r.packet_stored, r.format_stored, r.enabled) refl

-- A register packet that is stored is sent by a write behind its block of memory exactly when it is
-- empty: then the text of the address is copied to a block of one byte.
pub send_register_packet-overrun :
    (nvs : Nvs) (mac packet format : CString)
    → Registers nvs packet format
    → 0 < length mac
    → (send_register_packet nvs true mac).overrun ≡ is_empty packet
send_register_packet-overrun nvs mac [] format r h =
    ap (λ s. s.overrun) (registered nvs mac [] format r) ∙ lt→ltb 0 (length mac) h
send_register_packet-overrun nvs mac (c ∷ cs) format r h =
    ap (λ s. s.overrun) (registered nvs mac (c ∷ cs) format r)
