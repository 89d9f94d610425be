-- ===== src/Network/Handle.antt =====
-- main/network/sx_network_manager.c: the handling of one event (`handle_event`).
use opensx_serial_server.Prelude.{Bool, true, false, List, [], if◌then◌else◌}
use opensx_serial_server.Protocols.{down, Call}
use opensx_serial_server.Network.State.{
  wifi, eth, Status, Event, boot, wifi_connected_evt, wifi_disconnected, eth_link_up, eth_link_down,
  ap_started, ap_stopped, periodic_check, wifi_got_ip_evt, eth_got_ip_evt, eth_static_ip_ready, Env,
  World, status_copy_ip, status_clear_ip, sync_legacy_flags, set_network_state,
  load_configured_interface,
}
use opensx_serial_server.Network.Check.{notify, evaluate_current_state}

-- a new state set by the event itself
unfoldable pub set_down : Env → World → Status → World × List Call
set_down env w s =
    let (s', changed) = set_network_state env down s in
    let w' = record w { status = s' } in
    if changed then notify env s.net_state down w' else (w', [])

abbrev only : World → World × List Call
only w = (w, [])

abbrev pub link_down : Bool → Env → World → Status → World × List Call
link_down true env w s = evaluate_current_state env (record w { status = s })
link_down false env w s = set_down env w (status_clear_ip s)

-- `handle_event`
unfoldable pub handle_event : Env → Event → World → World × List Call
handle_event env boot w =
    let s = record w.status {
      active_if = load_configured_interface env.protocols.nvs;
      net_state = down;
    } in
    only (record w { status = sync_legacy_flags env (status_clear_ip s) })
handle_event env wifi_connected_evt w = only (record w {
  status = sync_legacy_flags env (record w.status { active_if = wifi; wifi_connected = true });
})
handle_event env wifi_disconnected w = set_down env w (
    status_clear_ip (record w.status {
      active_if = wifi;
      wifi_connected = false;
      wifi_got_ip = false;
      gateway_ping_ok = false;
      internet_ping_ok = false;
    }))
handle_event env (wifi_got_ip_evt e) w = evaluate_current_state env (record w {
  status =
      status_copy_ip e
        (record w.status { active_if = wifi; wifi_connected = true; wifi_got_ip = true });
})
handle_event env eth_link_up w =
    only (record w { status = sync_legacy_flags env (record w.status { active_if = eth }) })
handle_event env eth_link_down w =
    link_down w.status.eth_static_ip_valid env w
      (record w.status { active_if = eth; eth_got_ip = false; internet_ping_ok = false })
handle_event env (eth_got_ip_evt e) w = evaluate_current_state env (record w {
  status = status_copy_ip e (record w.status { active_if = eth; eth_got_ip = true });
})
handle_event env (eth_static_ip_ready e) w = evaluate_current_state env (record w {
  status = status_copy_ip e (record w.status { active_if = eth; eth_static_ip_valid = true });
})
handle_event env ap_started w =
    only (record w { status = sync_legacy_flags env (record w.status { ap_on = true }) })
handle_event env ap_stopped w =
    only (record w { status = sync_legacy_flags env (record w.status { ap_on = false }) })
handle_event env periodic_check w = evaluate_current_state env w
