-- ===== src/Network/Inv.antt =====
-- The network state and the protocols stay in step, whatever events come in whatever order.
use opensx_serial_server.Prelude.{
  ◌≡◌, refl, sym, subst, Bool, true, false, not, ◌||◌, List, [], ◌∷◌, arith, All, Bool-cases, inl,
  inr,
}
use opensx_serial_server.Protocols.{init, NetState, down, same_state, is_down}
use opensx_serial_server.Protocols.Inv.{Follows, Follows-init, on_network_state-Follows}
use opensx_serial_server.Network.State.{
  none_if, Status, Env, Event, boot, wifi_connected_evt, wifi_disconnected, wifi_got_ip_evt,
  eth_link_up, eth_link_down, eth_got_ip_evt, eth_static_ip_ready, ap_started, ap_stopped,
  periodic_check, World, status_copy_ip, status_clear_ip, sync_legacy_flags, set_network_state,
}
use opensx_serial_server.Network.Check.{
  Checked, apply_checked, evaluate_current_state, evaluate_state, status_matches_snapshot,
}
use opensx_serial_server.Network.Handle.{set_down, link_down, handle_event}

-- The flags of the protocol manager are those of the network state.
abbrev pub InStep : World → Type 0
InStep w = Follows w.status.net_state w.flags

-- Other tasks leave the network state alone (only the network task writes it).
abbrev pub LeavesState : Env → Type 0
LeavesState env = (s : Status) → (env.meanwhile s).net_state ≡ s.net_state

quiet_same :
    (old new : NetState) → (not (same_state old new) || not (is_down new)) ≡ false → old ≡ new
quiet_same down down h = refl
quiet_same _ _ h = ground arith

same_state-eq : (old new : NetState) → not (same_state old new) ≡ false → old ≡ new
same_state-eq down down h = refl
same_state-eq _ _ h = ground arith

apply_checked-InStep :
    (env : Env) (c : Checked) (w : World) → InStep w → InStep (apply_checked env c w).0
unfolding apply_checked set_network_state sync_legacy_flags
apply_checked-InStep env (new, g, i) w v =
    elim (Bool-cases (not (same_state w.status.net_state new) || not (is_down new))) [
      | inl told ↦ rw told (on_network_state-Follows env.protocols w.status.net_state new v)
      | inr quiet ↦
          rw quiet (subst (λ n. Follows n w.flags) (quiet_same w.status.net_state new quiet) v)
    ]

evaluate-InStep :
    (env : Env) (w : World) → LeavesState env → InStep w → InStep (evaluate_current_state env w).0
unfolding evaluate_current_state
evaluate-InStep env w l v =
    let w' : World = record w { status = env.meanwhile w.status } in
    let v' : InStep w' = subst (λ n. Follows n w.flags) (sym (l w.status)) v in
    elim (Bool-cases (status_matches_snapshot w'.status w.status)) [
      | inl same ↦ rw same (apply_checked-InStep env (evaluate_state env w.status) w' v')
      | inr changed ↦ rw changed v'
    ]

set_down-InStep :
    (env : Env) (w : World) (s : Status)
    → s.net_state ≡ w.status.net_state
    → InStep w
    → InStep (set_down env w s).0
unfolding set_down set_network_state sync_legacy_flags
set_down-InStep env w s e v =
    let v' : Follows s.net_state w.flags = subst (λ n. Follows n w.flags) (sym e) v in
    elim (Bool-cases (not (same_state s.net_state down))) [
      | inl told ↦ rw told (on_network_state-Follows env.protocols s.net_state down v')
      | inr quiet ↦
          rw quiet (subst (λ n. Follows n w.flags) (same_state-eq s.net_state down quiet) v')
    ]

link_down-InStep :
    (static_ip : Bool) (env : Env) (w : World) (s : Status)
    → s.net_state ≡ w.status.net_state
    → LeavesState env
    → InStep w
    → InStep (link_down static_ip env w s).0
unfolding status_clear_ip
link_down-InStep true env w s e l v =
    evaluate-InStep env (record w { status = s }) l (subst (λ n. Follows n w.flags) (sym e) v)
link_down-InStep false env w s e l v = set_down-InStep env w (status_clear_ip s) e v

-- The event that the start of the manager posts; it finds the network down.
abbrev pub IsBoot : Event → Type 0
IsBoot boot = Unit
IsBoot _ = ⊥

-- One event, whatever the ping, the resolver, the flash and MQTT answer, keeps the protocols in
-- step with the network state; a boot event only where the network is down.
pub handle_event-InStep :
    (env : Env) (e : Event) (w : World)
    → LeavesState env
    → (IsBoot e → w.status.net_state ≡ down)
    → Follows w.status.net_state w.flags
    → Follows (handle_event env e w).0.status.net_state (handle_event env e w).0.flags
unfolding handle_event sync_legacy_flags status_clear_ip status_copy_ip
handle_event-InStep env boot w l b v = subst (λ n. Follows n w.flags) (b tt) v
handle_event-InStep env wifi_connected_evt w l b v = v
handle_event-InStep env wifi_disconnected w l b v = set_down-InStep env w _ refl v
handle_event-InStep env (wifi_got_ip_evt i) w l b v = evaluate-InStep env _ l v
handle_event-InStep env eth_link_up w l b v = v
handle_event-InStep env eth_link_down w l b v =
    link_down-InStep w.status.eth_static_ip_valid env w _ refl l v
handle_event-InStep env (eth_got_ip_evt i) w l b v = evaluate-InStep env _ l v
handle_event-InStep env (eth_static_ip_ready i) w l b v = evaluate-InStep env _ l v
handle_event-InStep env ap_started w l b v = v
handle_event-InStep env ap_stopped w l b v = v
handle_event-InStep env periodic_check w l b v = evaluate-InStep env w l v

-- The events in the order in which the task takes them, each with what is answered meanwhile.
unfoldable pub run : List (Env × Event) → World → World
run [] w = w
run ((env, e) ∷ events) w = run events (handle_event env e w).0

-- The statics of both files at the start.
abbrev pub zeroed : Status
zeroed = record {
  active_if = none_if;
  net_state = down;
  ap_on = false;
  wifi_connected = false;
  wifi_got_ip = false;
  eth_got_ip = false;
  eth_static_ip_valid = false;
  gateway_ping_ok = false;
  internet_ping_ok = false;
  ip = [];
  netmask = [];
  gateway = [];
  ap_wait_time_sec = 0;
  ap_remaining_sec = 0;
  is_network_connected = false;
  is_intranet_mode = false;
  is_wifi_active = false;
  got_ip_addrs = [];
  got_ip_netmask = [];
  got_ip_gw = [];
}

abbrev pub at_start : World
at_start = record { status = zeroed; flags = init }

-- An event that is no boot, while no other task writes the network state.
abbrev pub IsLater : Env × Event → Type 0
IsLater (env, e) = LeavesState env × ¬ (IsBoot e)

run-InStep :
    (events : List (Env × Event)) (w : World)
    → All IsLater events
    → InStep w
    → InStep (run events w)
unfolding run
run-InStep [] w a v = v
run-InStep ((env, e) ∷ events) w a v =
    run-InStep events (handle_event env e w).0 a.1
      (handle_event-InStep env e w a.0.0 (λ b. absurd (a.0.1 b)) v)

-- From the start, after the boot event and any further events in any order: without a network no
-- protocol is marked as started; in every other state the local protocols are; MQTT is only in the
-- external state.
pub run-Follows :
    (env : Env) (events : List (Env × Event))
    → LeavesState env
    → All IsLater events
    → let w = run ((env, boot) ∷ events) at_start in Follows w.status.net_state w.flags
unfolding run
run-Follows env events l a =
    run-InStep events (handle_event env boot at_start).0 a
      (handle_event-InStep env boot at_start l (λ b. refl) Follows-init)
