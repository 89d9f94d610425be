-- ===== src/Network/State.antt =====
-- main/network/sx_network_manager.c and its header: the status, the events, and the helpers that write
-- the status.
use opensx_serial_server.Prelude.{
  ℕ, Bool, true, false, not, Option, none, some, [], ◌∷◌, if◌then◌else◌,
}
use opensx_serial_server.Prelude.Int.{is_nat}
use opensx_serial_server.Prelude.Text.{CString, c_str, truncate, atoi}
use opensx_serial_server.Prelude.Nvs.{Nvs, nvs_get_str}
use opensx_serial_server.Protocols
use opensx_serial_server.Protocols.{
  NetState, down, local, external, is_down, same_state, Flags, Call, on_network_state,
}

-- `sx_net_if_t`
pub data NetIf : Type 0 where
  none_if wifi eth : NetIf

abbrev pub is_wifi : NetIf → Bool
is_wifi wifi = true
is_wifi _ = false

abbrev pub same_if : NetIf → NetIf → Bool
same_if none_if none_if = true
same_if wifi wifi = true
same_if eth eth = true
same_if _ _ = false

abbrev pub is_local : NetState → Bool
is_local local = true
is_local _ = false

-- `sx_network_status_t` (`dns1` and `dns2` are never written), and the globals that mirror it
pub record Status : Type 0 where
  pub active_if : NetIf
  pub net_state : NetState
  pub ap_on : Bool
  pub wifi_connected : Bool
  pub wifi_got_ip : Bool
  pub eth_got_ip : Bool
  pub eth_static_ip_valid : Bool
  pub gateway_ping_ok : Bool
  pub internet_ping_ok : Bool
  pub ip : CString
  pub netmask : CString
  pub gateway : CString
  pub ap_wait_time_sec : ℕ
  pub ap_remaining_sec : ℕ
  pub is_network_connected : Bool
  pub is_intranet_mode : Bool
  pub is_wifi_active : Bool
  pub got_ip_addrs : CString
  pub got_ip_netmask : CString
  pub got_ip_gw : CString

-- the addresses of an event
pub record IpInfo : Type 0 where
  pub ip : CString
  pub netmask : CString
  pub gateway : CString

-- `sx_net_event_type_t`, with the addresses where the code reads them
pub data Event : Type 0 where
  boot wifi_connected_evt wifi_disconnected eth_link_up eth_link_down : Event
  ap_started ap_stopped periodic_check : Event
  wifi_got_ip_evt eth_got_ip_evt eth_static_ip_ready : IpInfo → Event

pub record Env : Type 0 where
  pub protocols : Protocols.Env
  pub ap_is_on : Bool
  pub ap_wait : ℕ
  pub ap_remaining : ℕ
  -- the rest of `ping_ip_string`: the address is valid and one ping to it is answered
  pub ping : CString → Bool
  -- `resolve_hostname_ip` of the host for the check
  pub resolved : Option CString
  -- what other tasks do to the status while no lock is held
  pub meanwhile : Status → Status

pub record World : Type 0 where
  pub status : Status
  pub flags : Flags

abbrev pub dashes : CString
dashes = c_str "---"

abbrev shown : CString → CString
shown [] = dashes
shown (c ∷ cs) = c ∷ cs

unfoldable pub status_copy_ip : IpInfo → Status → Status
status_copy_ip e s = record s {
  ip = truncate 15 e.ip;
  netmask = truncate 15 e.netmask;
  gateway = truncate 15 e.gateway;
  got_ip_addrs = shown (truncate 15 e.ip);
  got_ip_netmask = shown (truncate 15 e.netmask);
  got_ip_gw = shown (truncate 15 e.gateway);
}

unfoldable pub status_clear_ip : Status → Status
status_clear_ip s = record s {
  ip = dashes;
  netmask = dashes;
  gateway = dashes;
  got_ip_addrs = dashes;
  got_ip_netmask = dashes;
  got_ip_gw = dashes;
}

unfoldable pub sync_legacy_flags : Env → Status → Status
sync_legacy_flags env s = record s {
  is_network_connected = not (is_down s.net_state);
  is_intranet_mode = is_local s.net_state;
  is_wifi_active = is_wifi s.active_if;
  ap_on = env.ap_is_on;
  ap_wait_time_sec = env.ap_wait;
  ap_remaining_sec = env.ap_remaining;
}

-- `set_network_state`; its answer is whether the state changed
unfoldable pub set_network_state : Env → NetState → Status → Status × Bool
set_network_state env new s =
    (sync_legacy_flags env (record s { net_state = new }), not (same_state s.net_state new))

-- `load_configured_interface`
unfoldable pub load_configured_interface : Nvs → NetIf
load_configured_interface nvs =
    if nvs.opens
    then (elim (nvs_get_str nvs (c_str "netconn") 8) [
      | none ↦ eth
      | some text ↦ if is_nat (atoi text) 2 then wifi else eth
    ])
    else eth
