-- ===== src/TcpClient/HexPackets.antt =====
-- main/protocols/sx_tcp_client.c: packets that are given in hexadecimal.
use opensx_serial_server.Prelude.{
  ℕ, ◌/◌, ◌%◌, ◌≤◌, ◌<◌, ◌≡◌, ◌≢◌, refl, ap, ◌∙◌, true, some, List, [], ◌∷◌, length, All,
}
use opensx_serial_server.Prelude.Text.{CString, c_str, str_eq}
use opensx_serial_server.Prelude.Nvs.{Nvs}
use opensx_serial_server.TcpClient.Written.{
  HasDigits, separator, digit, IsHexText, plain, with_0x, with_0X, nibbles_of, hex_to_bin-written,
}
use opensx_serial_server.TcpClient.Packets.{
  Registers, send_register_packet, register_with, registered, packet_bytes, beat_bytes, beat_text,
  unless_empty,
}

-- The format `hex` is chosen, and the bytes are one to 128.
module _ (text : CString) (b : ℕ) (bytes : List ℕ) (t : IsHexText text (nibbles_of (b ∷ bytes)))
    (a : All (λ n. n < 256) (b ∷ bytes)) (h : length (b ∷ bytes) ≤ 128) where
  packet_bytes-written : packet_bytes (c_str "hex") text ≡ some (b ∷ bytes)
  unfolding packet_bytes str_eq
  packet_bytes-written = ap unless_empty (hex_to_bin-written text (b ∷ bytes) 128 t a h)

some_text : (text : CString) (d : ℕ) (ds : List ℕ) → HasDigits text (d ∷ ds) → text ≢ []
some_text [] d ds t e = elim t [ ]
some_text (_ ∷ text) d ds (separator c s t) e = cc
some_text (_ ∷ text) _ ds (digit c d i t) e = cc

-- A text of some digits is not empty.
written_text : (text : CString) (d : ℕ) (ds : List ℕ) → IsHexText text (d ∷ ds) → text ≢ []
written_text text d ds (plain t) e = some_text text d ds t e
written_text (_ ∷ _ ∷ text) d ds (with_0x t) e = cc
written_text (_ ∷ _ ∷ text) d ds (with_0X t) e = cc

registers_text :
    (mac format text : CString)
    → text ≢ []
    → (register_with mac format text).bytes ≡ packet_bytes format text
registers_text mac format [] n = absurd (n refl)
registers_text mac format (c ∷ cs) n = refl

beats_text :
    (format text : CString)
    → text ≢ []
    → beat_text (some text) (some format) ≡ packet_bytes format text
beats_text format [] n = absurd (n refl)
beats_text format (c ∷ cs) n = refl

-- While there is memory for the copies: a packet of one to 128 bytes that is given in hexadecimal, in either
-- case, with separators anywhere (characters that are no digit and no x) and with or without 0x before
-- it, is what is sent: once after the connection, if the flash opens and holds it as the register packet
-- with the format `hex`; and in every round, if the heartbeat runs with it and the format `hex`.
pub packets-written :
    (nvs : Nvs) (mac : CString) (interval : ℕ) (text : CString) (b : ℕ) (bytes : List ℕ)
    → Registers nvs text (c_str "hex")
    → IsHexText text (nibbles_of (b ∷ bytes))
    → All (λ n. n < 256) (b ∷ bytes)
    → length (b ∷ bytes) ≤ 128
    → ((send_register_packet nvs true mac).bytes ≡ some (b ∷ bytes))
      × (beat_bytes (record {
        heart_packet = some text;
        heart_format = some (c_str "hex");
        heart_interval = interval;
      })
          ≡ some (b ∷ bytes))
unfolding beat_bytes
packets-written nvs mac interval text b bytes r t a h =
    let sent = packet_bytes-written text b bytes t a h in
    let n = written_text text (b / 16) (b % 16 ∷ nibbles_of bytes) t in
    (
      ap (λ t. t.bytes) (registered nvs mac text (c_str "hex") r)
          ∙ registers_text mac (c_str "hex") text n
          ∙ sent,
      beats_text (c_str "hex") text n ∙ sent,
    )
