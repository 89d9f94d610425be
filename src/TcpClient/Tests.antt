-- ===== src/TcpClient/Tests.antt =====
-- The theorems on the TCP client at concrete packets and connections.
use opensx_serial_server.Prelude.{
  ℕ, ◌<◌, ◌≡◌, refl, true, false, none, some, [], ◌∷◌, if◌then◌else◌, arith,
}
use opensx_serial_server.Prelude.Text.{CString, c_str, str_eq}
use opensx_serial_server.Prelude.Nvs.{Nvs}
use opensx_serial_server.TcpServer.Hex
use opensx_serial_server.TcpClient.Written.{
  IsSeparator, separator, digit, decimal, upper_case, lower_case, over, IsHexText, with_0x,
  nibbles_of,
}
use opensx_serial_server.TcpClient.Packets.{Registers, send_register_packet, beat_bytes}
use opensx_serial_server.TcpClient.HexPackets.{packets-written}
use opensx_serial_server.TcpClient.Link.{
  Link, stale, beating, stop, opened, connected, lost, beat_fails, link, link_all, link_all-stale,
}

-- two bytes in both cases, with separators
abbrev items : CString
items = c_str "0x 4f-4 B\n"

items-IsHexText : IsHexText items (nibbles_of (79 ∷ 75 ∷ []))
items-IsHexText = with_0x (
    separator b' ' (free b' ' (omega arith)) (
      digit b'4' 4 (decimal (omega arith) refl) (
        digit b'f' 15 (lower_case (omega arith) (omega arith) refl) (
          separator b'-' (free b'-' (omega arith)) (
            digit b'4' 4 (decimal (omega arith) refl) (
              separator b' ' (free b' ' (omega arith)) (
                digit b'B' 11 (upper_case (omega arith) (omega arith) refl)
                  (separator 10 (free 10 (omega arith)) over))))))))
  where
    free : (c : ℕ) → c < 48 → IsSeparator c
    free c h = record {
      no_decimal = λ d. omega arith;
      no_upper = λ d. omega arith;
      no_lower = λ d. omega arith;
      no_x = λ e. omega arith;
      no_big_x = λ e. omega arith;
    }

abbrev flash : CString → CString → Nvs
flash packet format = record {
  opens = true;
  get = λ k.
      if str_eq k (c_str "reg_packet")
      then some packet
      else if str_eq k (c_str "reg_format")
      then some format
      else none;
}

flash-Registers :
    (packet format : CString)
    → str_eq format (c_str "none") ≡ false
    → Registers (flash packet format) packet format
unfolding str_eq
flash-Registers packet format e = record {
  opens = refl;
  packet_stored = refl;
  format_stored = refl;
  enabled = e;
}

hex_is_on : str_eq (c_str "hex") (c_str "none") ≡ false
unfolding str_eq
hex_is_on = refl

packets-written_example :
    ((send_register_packet (flash items (c_str "hex")) true (c_str "A1B2C3D4E5F6")).bytes
      ≡ some (79 ∷ 75 ∷ []))
    × (beat_bytes (record {
      heart_packet = some items;
      heart_format = some (c_str "hex");
      heart_interval = 30;
    })
        ≡ some (79 ∷ 75 ∷ []))
packets-written_example =
    packets-written (flash items (c_str "hex")) (c_str "A1B2C3D4E5F6") 30 items 79 (75 ∷ [])
      (flash-Registers items (c_str "hex") hex_is_on) items-IsHexText
      (omega arith, (omega arith, tt)) (omega arith)

abbrev up : Link
up = record {
  task = true;
  stop_requested = false;
  sock = some 54;
  conn = true;
  beat = beating (some 54);
  misuse = false;
}

link_all-stale_example :
    ((link_all (beat_fails ∷ lost ∷ opened (some 54) ∷ connected true ∷ []) up).beat ≡ stale)
    × ((link stop (link_all (beat_fails ∷ lost ∷ opened (some 54) ∷ connected true ∷ []) up)).misuse
        ≡ true)
link_all-stale_example =
    link_all-stale (lost ∷ opened (some 54) ∷ connected true ∷ []) up (some 54) refl
      (tt, (tt, (tt, tt)))
