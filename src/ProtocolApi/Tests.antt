-- ===== src/ProtocolApi/Tests.antt =====
-- The theorem on the TCP channel at concrete settings.
use opensx_serial_server.Prelude.{ℕ, ◌≡◌, refl, true, false, none, some, [], ◌∷◌, if◌then◌else◌}
use opensx_serial_server.Prelude.Int.{is_nat}
use opensx_serial_server.Prelude.Text.{CString, c_str, str_eq, atoi}
use opensx_serial_server.Prelude.Nvs.{nvs_get_str}
use opensx_serial_server.Protocols.{Env, init, uses_tcp, on_network_state, down, local}
use opensx_serial_server.ProtocolApi.{
  Payload, tcp_server_message, tcp_client_message, validate_payload, tcp_send, auto,
}
use opensx_serial_server.ProtocolApi.Channel.{tcpconn, tcp_send-channel}

abbrev tcp_settings : Env
tcp_settings = record {
  nvs = record {
    opens = true;
    get = λ k. if str_eq k (c_str "use_tcp") then some (c_str "1") else none;
  };
  mqtt_starts = true;
}

abbrev hello : Payload
hello = record { bytes = c_str "hello"; len = 5 }

uses : uses_tcp tcp_settings.nvs ≡ true
unfolding uses_tcp nvs_get_str str_eq atoi
uses = refl

hello_valid : validate_payload (some hello) ≡ some hello
unfolding validate_payload
hello_valid = refl

tcp_send-channel_example :
    let s = (on_network_state tcp_settings down local init).0 in
    let calls = (tcp_send tcp_settings.nvs auto (some hello)).1 in
    ((c : ℕ) (cs : CString)
      → tcpconn tcp_settings.nvs ≡ some (c ∷ cs)
      → (s.tcp_client_started ≡ is_nat (atoi (c ∷ cs)) 1)
        × (s.tcp_server_started ≡ is_nat (atoi (c ∷ cs)) 0)
        × (calls ≡ (
            if is_nat (atoi (c ∷ cs)) 1
            then tcp_client_message hello ∷ []
            else tcp_server_message hello ∷ [])))
    × (tcpconn tcp_settings.nvs ≡ none
        → (s.tcp_client_started ≡ true)
          × (s.tcp_server_started ≡ false)
          × (calls ≡ tcp_server_message hello ∷ []))
tcp_send-channel_example = tcp_send-channel tcp_settings hello refl uses hello_valid

-- the second half applies at these settings
no_channel : tcpconn tcp_settings.nvs ≡ none
unfolding nvs_get_str str_eq
no_channel = refl
