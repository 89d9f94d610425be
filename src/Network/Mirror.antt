-- ===== src/Network/Mirror.antt =====
-- The globals that other files read (`is_network_connected` and its kin) mirror the status.
use opensx_serial_server.Prelude.{◌≡◌, refl, Bool, true, false, not, arith}
use opensx_serial_server.Protocols.{is_down}
use opensx_serial_server.Network.State.{
  Status, Env, Event, boot, wifi_connected_evt, wifi_disconnected, wifi_got_ip_evt, eth_link_up,
  eth_link_down, eth_got_ip_evt, eth_static_ip_ready, ap_started, ap_stopped, periodic_check, World,
  is_wifi, is_local, sync_legacy_flags, set_network_state, status_clear_ip,
}
use opensx_serial_server.Network.Check.{
  evaluate_state, apply_checked, evaluate_current_state, Checked,
}
use opensx_serial_server.Network.Handle.{set_down, link_down, handle_event}
use opensx_serial_server.Network.Classify.{Undisturbed, matches_self}

pub record Mirrors (s : Status) : Type 0 where
  pub connected : s.is_network_connected ≡ not (is_down s.net_state)
  pub intranet : s.is_intranet_mode ≡ is_local s.net_state
  pub by_wifi : s.is_wifi_active ≡ is_wifi s.active_if

apply_checked-Mirrors :
    (env : Env) (c : Checked) (w : World) → Mirrors (apply_checked env c w).0.status
unfolding apply_checked set_network_state sync_legacy_flags
apply_checked-Mirrors env (new, g, i) w = ground arith

evaluate-Mirrors :
    (env : Env) (w : World) → Undisturbed env → Mirrors (evaluate_current_state env w).0.status
unfolding evaluate_current_state
evaluate-Mirrors env w u =
    rw (u w.status, matches_self w.status)
      (apply_checked-Mirrors env (evaluate_state env w.status) w)

set_down-Mirrors : (env : Env) (w : World) (s : Status) → Mirrors (set_down env w s).0.status
unfolding set_down set_network_state sync_legacy_flags
set_down-Mirrors env w s = ground arith

link_down-Mirrors :
    (static_ip : Bool) (env : Env) (w : World) (s : Status)
    → Undisturbed env
    → Mirrors (link_down static_ip env w s).0.status
link_down-Mirrors true env w s u = evaluate-Mirrors env _ u
link_down-Mirrors false env w s u = set_down-Mirrors env w (status_clear_ip s)

-- After every event, where no other task disturbs a check, `is_network_connected`,
-- `is_intranet_mode` and `is_wifi_active` say what the status says, whatever they said before.
pub handle_event-Mirrors :
    (env : Env) (e : Event) (w : World) → Undisturbed env → Mirrors (handle_event env e w).0.status
unfolding handle_event sync_legacy_flags
handle_event-Mirrors env boot w u = record { connected = refl; intranet = refl; by_wifi = refl }
handle_event-Mirrors env wifi_connected_evt w u = record {
  connected = refl;
  intranet = refl;
  by_wifi = refl;
}
handle_event-Mirrors env wifi_disconnected w u = set_down-Mirrors env w _
handle_event-Mirrors env (wifi_got_ip_evt i) w u = evaluate-Mirrors env _ u
handle_event-Mirrors env eth_link_up w u = record {
  connected = refl;
  intranet = refl;
  by_wifi = refl;
}
handle_event-Mirrors env eth_link_down w u =
    link_down-Mirrors w.status.eth_static_ip_valid env w _ u
handle_event-Mirrors env (eth_got_ip_evt i) w u = evaluate-Mirrors env _ u
handle_event-Mirrors env (eth_static_ip_ready i) w u = evaluate-Mirrors env _ u
handle_event-Mirrors env ap_started w u = record {
  connected = refl;
  intranet = refl;
  by_wifi = refl;
}
handle_event-Mirrors env ap_stopped w u = record {
  connected = refl;
  intranet = refl;
  by_wifi = refl;
}
handle_event-Mirrors env periodic_check w u = evaluate-Mirrors env w u
