-- ===== src/Protocols/Tests.antt =====
-- The theorems on the protocol manager at concrete settings, and runs of the code.
use opensx_serial_server.Prelude.{◌≡◌, refl, true, false, none, some, [], ◌∷◌, if◌then◌else◌}
use opensx_serial_server.Prelude.Text.{c_str, str_eq, atoi}
use opensx_serial_server.Prelude.Nvs.{Nvs, nvs_get_str}
use opensx_serial_server.Protocols.{
  down, external, Flags, start_udp_server, start_tcp_server, mqtt_app_start, Env, init,
  on_network_state, uses_mqtt, uses_tcp, tcp_mode,
}
use opensx_serial_server.Protocols.Runs.{replay, asked, on_network_state-asked}

-- TCP server and MQTT over TCP are chosen
abbrev flash : Nvs
flash = record {
  opens = true;
  get = λ key.
      if str_eq key (c_str "use_tcp")
      then some (c_str "1")
      else if str_eq key (c_str "tcpconn")
      then some (c_str "0")
      else if str_eq key (c_str "use_mqtt")
      then some (c_str "1")
      else if str_eq key (c_str "mqtt_type")
      then some (c_str "0")
      else none;
}

abbrev settings : Env
settings = record { nvs = flash; mqtt_starts = true }

abbrev all_up : Flags
all_up = record {
  local_started = true;
  external_started = true;
  tcp_server_started = true;
  tcp_client_started = false;
  mqtt_started = true;
}

first_external :
    on_network_state settings down external init
    ≡ (all_up, start_udp_server ∷ start_tcp_server ∷ mqtt_app_start ∷ [])
unfolding on_network_state uses_tcp tcp_mode uses_mqtt nvs_get_str str_eq atoi
first_external = refl

flash_mqtt : uses_mqtt flash ≡ true
unfolding uses_mqtt nvs_get_str str_eq atoi
flash_mqtt = refl

on_network_state-asked_example :
    let (s', calls) = on_network_state settings down external init in
    replay calls (asked init) ≡ some (asked s')
on_network_state-asked_example = on_network_state-asked settings down external init
