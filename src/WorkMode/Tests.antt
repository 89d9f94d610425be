-- ===== src/WorkMode/Tests.antt =====
-- The theorems on the work modes at the built-in modes, and runs of the code.
use opensx_serial_server.Prelude.{◌≡◌, refl, true, some, [], ◌∷◌}
use opensx_serial_server.Prelude.Text.{c_str, str_eq}
use opensx_serial_server.Prelude.Err.{esp_ok}
use opensx_serial_server.WorkMode.{
  State, start, stop, tcp_transparent_mode, protocol_test_mode, register_builtin_modes, find_in,
  start_by_name,
}

abbrev transparent : State
transparent = record {
  modes = tcp_transparent_mode ∷ protocol_test_mode ∷ [];
  current = some tcp_transparent_mode;
  registered = true;
}

change_mode : start_by_name (λ mode. esp_ok) transparent (some (c_str "protocol_test")) ≡ (
  record transparent { current = some protocol_test_mode },
  stop (some (c_str "tcp_transparent")) ∷ start (some (c_str "protocol_test")) true ∷ [],
  esp_ok,
)
unfolding start_by_name register_builtin_modes find_in str_eq
change_mode = refl
