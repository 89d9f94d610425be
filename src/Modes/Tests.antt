-- ===== src/Modes/Tests.antt =====
-- The theorems on the work modes at concrete events.
use opensx_serial_server.Prelude.{ℕ, true, none, some, List, [], ◌∷◌}
use opensx_serial_server.Prelude.Nvs.{Nvs}
use opensx_serial_server.ProtocolApi.{Payload}
use opensx_serial_server.Modes.Fifo.{Event, uart, turn}

abbrev no_settings : Nvs
no_settings = record { opens = true; get = λ k. none }

abbrev byte : ℕ → Payload
byte b = record { bytes = b ∷ []; len = 1 }

abbrev events : List Event
events = uart true (some (byte 1)) ∷ turn ∷ uart true none ∷ uart true (some (byte 2)) ∷ []
