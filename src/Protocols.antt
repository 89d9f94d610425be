-- ===== src/Protocols.antt =====
-- main/protocols/sx_protocol_manager.c: which network protocols run in which network state. The five
-- statics are the record `Flags`; the calls of the protocol modules are a list; what `nvs` holds
-- and whether `mqtt_app_start` succeeds is the environment of a call.
pub mod Inv
pub mod Runs
mod Tests
use opensx_serial_server.Prelude.{
  ℕ, Bool, true, false, not, ◌&&◌, ◌||◌, Option, none, some, List, [], ◌∷◌, ◌++◌, if◌then◌else◌,
}
use opensx_serial_server.Prelude.Int.{ℤ, pos, is_nat}
use opensx_serial_server.Prelude.Text.{CString, c_str, atoi}
use opensx_serial_server.Prelude.Nvs.{Nvs, nvs_get_str}

-- `sx_net_state_t`
pub data NetState : Type 0 where
  down local external : NetState

abbrev pub is_down : NetState → Bool
is_down down = true
is_down _ = false

abbrev pub same_state : NetState → NetState → Bool
same_state down down = true
same_state local local = true
same_state external external = true
same_state _ _ = false

pub record Flags : Type 0 where
  pub local_started : Bool
  pub external_started : Bool
  pub tcp_server_started : Bool
  pub tcp_client_started : Bool
  pub mqtt_started : Bool

pub data Call : Type 0 where
  start_udp_server start_tcp_server start_tcp_client mqtt_app_start : Call
  kill_udp_server stop_tcp_client stop_tcp_server mqtt_app_stop : Call

pub record Env : Type 0 where
  pub nvs : Nvs
  pub mqtt_starts : Bool

abbrev when : Bool → List Call → List Call
when true calls = calls
when false calls = []

abbrev read_is : Option CString → ℕ → Bool
read_is none n = false
read_is (some text) n = is_nat (atoi text) n

-- the value of a text that is neither missing nor empty
abbrev read_or : Option CString → ℤ → ℤ
read_or none default = default
read_or (some []) default = default
read_or (some (c ∷ cs)) default = atoi (c ∷ cs)

-- `char use_tcp[8]` and the like
abbrev setting : Nvs → CString → Option CString
setting nvs key = nvs_get_str nvs key 8

unfoldable pub uses_tcp : Nvs → Bool
uses_tcp nvs = read_is (setting nvs (c_str "use_tcp")) 1

-- `tcp_mode`, TCP_MODE_CLIENT by default
unfoldable pub tcp_mode : Nvs → ℤ
tcp_mode nvs = read_or (setting nvs (c_str "tcpconn")) (pos 1)

pub uses_mqtt : Nvs → Bool
uses_mqtt nvs =
    read_is (setting nvs (c_str "use_mqtt")) 1 && read_is (setting nvs (c_str "mqtt_type")) 0

pub start_local_protocols : Env → Flags → Flags × List Call
start_local_protocols env s =
    if s.local_started
    then (s, [])
    else if not env.nvs.opens
    then (record s { local_started = true }, start_udp_server ∷ [])
    else (let server =
          uses_tcp env.nvs && is_nat (tcp_mode env.nvs) 0 && not s.tcp_server_started in
        let client = uses_tcp env.nvs && is_nat (tcp_mode env.nvs) 1 && not s.tcp_client_started in
        (
          record s {
            local_started = true;
            tcp_server_started = s.tcp_server_started || server;
            tcp_client_started = s.tcp_client_started || client;
          },
          start_udp_server
              ∷ (when server (start_tcp_server ∷ []) ++ when client (start_tcp_client ∷ [])),
        ))

pub start_external_protocols : Env → Flags → Flags × List Call
start_external_protocols env s =
    if s.external_started
    then (s, [])
    else if not env.nvs.opens
    then (s, [])
    else (let attempt = uses_mqtt env.nvs && not s.mqtt_started in
        let running = s.mqtt_started || (attempt && env.mqtt_starts) in
        (
          record s { mqtt_started = running; external_started = running },
          when attempt (mqtt_app_start ∷ []),
        ))

pub stop_local_protocols : Flags → Flags × List Call
stop_local_protocols s =
    if not s.local_started && not s.tcp_server_started && not s.tcp_client_started
    then (s, [])
    else (
      record s { local_started = false; tcp_server_started = false; tcp_client_started = false },
      kill_udp_server ∷ stop_tcp_client ∷ stop_tcp_server ∷ [],
    )

pub stop_external_protocols : Flags → Flags × List Call
stop_external_protocols s =
    if not s.external_started && not s.mqtt_started
    then (s, [])
    else (record s { external_started = false; mqtt_started = false }, mqtt_app_stop ∷ [])

-- `sx_protocol_manager_init`
abbrev pub init : Flags
init = record {
  local_started = false;
  external_started = false;
  tcp_server_started = false;
  tcp_client_started = false;
  mqtt_started = false;
}

-- one action after another
abbrev pub then_do : Flags × List Call → (Flags → Flags × List Call) → Flags × List Call
then_do (s, calls) action = let (s', later) = action s in (s', calls ++ later)

abbrev pub only_if : Bool → (Flags → Flags × List Call) → Flags → Flags × List Call
only_if true action s = action s
only_if false action s = (s, [])

abbrev is_external : NetState → Bool
is_external external = true
is_external _ = false

-- the new state, where it is another one than the old
abbrev on_change : Env → NetState → NetState → Flags → Flags × List Call
on_change env old down s = then_do (stop_external_protocols s) stop_local_protocols
on_change env old local s =
    then_do (only_if (is_down old) (start_local_protocols env) s)
      (only_if (is_external old) stop_external_protocols)
on_change env old external s =
    then_do (only_if (is_down old) (start_local_protocols env) s) (start_external_protocols env)

abbrev on_same : Env → NetState → Flags → Flags × List Call
on_same env down s = (s, [])
on_same env local s = start_local_protocols env s
on_same env external s = then_do (start_local_protocols env s) (start_external_protocols env)

-- `sx_protocol_manager_on_network_state`
unfoldable pub on_network_state : Env → NetState → NetState → Flags → Flags × List Call
unfolding start_local_protocols start_external_protocols stop_local_protocols
    stop_external_protocols
on_network_state env old new s =
    if same_state old new then on_same env new s else on_change env old new s

-- `sx_protocol_manager_stop_all`
unfoldable pub stop_all : Flags → Flags × List Call
unfolding stop_local_protocols stop_external_protocols
stop_all s = then_do (stop_external_protocols s) stop_local_protocols
