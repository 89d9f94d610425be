-- ===== src/Network/Check.antt =====
-- main/network/sx_network_manager.c: the check of the network (`evaluate_current_state`).
use opensx_serial_server.Prelude.{
  Bool, true, false, not, ◌&&◌, ◌||◌, none, some, List, [], ◌∷◌, if◌then◌else◌,
}
use opensx_serial_server.Prelude.Text.{CString, c_str, str_eq}
use opensx_serial_server.Protocols.{
  NetState, down, local, external, is_down, Call, on_network_state,
}
use opensx_serial_server.Network.State.{
  NetIf, none_if, wifi, eth, same_if, Status, Env, World, dashes, set_network_state,
}

-- `ping_ip_string`
unfoldable pub ping_ip_string : Env → CString → Bool
ping_ip_string env [] = false
ping_ip_string env (c ∷ cs) =
    not (str_eq (c ∷ cs) dashes) && not (str_eq (c ∷ cs) (c_str "0.0.0.0")) && env.ping (c ∷ cs)

-- `check_internet_external`
unfoldable pub check_internet_external : Env → Bool
check_internet_external env = elim env.resolved [ none ↦ false | some ip ↦ ping_ip_string env ip ]

-- the state, `gateway_ping_ok` and `internet_ping_ok`
abbrev pub Checked : Type 0
Checked = NetState × Bool × Bool

abbrev by_internet : Bool → NetState
by_internet true = external
by_internet false = local

unfoldable pub evaluate_wifi_state : Env → Status → Checked
evaluate_wifi_state env s =
    if not s.wifi_connected || not s.wifi_got_ip
    then (down, false, false)
    else if not (ping_ip_string env s.gateway)
    then (down, false, false)
    else (by_internet (check_internet_external env), true, check_internet_external env)

unfoldable pub evaluate_eth_state : Env → Status → Checked
evaluate_eth_state env s =
    if not s.eth_got_ip && not s.eth_static_ip_valid
    then (down, false, false)
    else (by_internet (check_internet_external env), false, check_internet_external env)

abbrev evaluate_if : NetIf → Env → Status → Checked
evaluate_if none_if env s = (down, false, false)
evaluate_if wifi env s = evaluate_wifi_state env s
evaluate_if eth env s = evaluate_eth_state env s

unfoldable pub evaluate_state : Env → Status → Checked
unfolding evaluate_wifi_state evaluate_eth_state
evaluate_state env s = evaluate_if s.active_if env s

abbrev pub same_bool : Bool → Bool → Bool
same_bool true b = b
same_bool false b = not b

unfoldable pub status_matches_snapshot : Status → Status → Bool
status_matches_snapshot s snapshot =
    same_if s.active_if snapshot.active_if
    && same_bool s.wifi_connected snapshot.wifi_connected
    && same_bool s.wifi_got_ip snapshot.wifi_got_ip
    && same_bool s.eth_got_ip snapshot.eth_got_ip
    && same_bool s.eth_static_ip_valid snapshot.eth_static_ip_valid
    && str_eq s.ip snapshot.ip
    && str_eq s.gateway snapshot.gateway

-- a call of the protocol manager
abbrev pub notify : Env → NetState → NetState → World → World × List Call
notify env old new w =
    let (flags, calls) = on_network_state env.protocols old new w.flags in
    (record w { flags = flags }, calls)

-- the second half of `evaluate_current_state`, with the status found under the lock
unfoldable pub apply_checked : Env → Checked → World → World × List Call
apply_checked env (new, gateway_ok, internet_ok) w =
    let s = record w.status { gateway_ping_ok = gateway_ok; internet_ping_ok = internet_ok } in
    let (s', changed) = set_network_state env new s in
    let w' = record w { status = s' } in
    if changed || not (is_down new) then notify env w.status.net_state new w' else (w', [])

-- `evaluate_current_state`
unfoldable pub evaluate_current_state : Env → World → World × List Call
evaluate_current_state env w =
    let checked = evaluate_state env w.status in
    let w' = record w { status = env.meanwhile w.status } in
    if status_matches_snapshot w'.status w.status then apply_checked env checked w' else (w', [])
