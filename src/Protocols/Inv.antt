-- ===== src/Protocols/Inv.antt =====
-- The flags follow the network state.
use opensx_serial_server.Prelude.{◌≡◌, ◌≢◌, true, false, arith}
use opensx_serial_server.Protocols.{
  NetState, down, local, Flags, Env, init, on_network_state, stop_all,
}

-- Nothing runs without a network, the local protocols run in every other state, and MQTT only with
-- a way out.
pub record Follows (n : NetState) (s : Flags) : Type 0 where
  pub nothing_down : n ≡ down → s ≡ init
  pub local_up : n ≢ down → s.local_started ≡ true
  pub no_mqtt_local : n ≡ local → s.mqtt_started ≡ false
  pub external_is_mqtt : s.external_started ≡ s.mqtt_started

pub Follows-init : Follows down init
Follows-init = ground arith

-- A change of the network state, to whatever state, leaves the flags in step with it.
pub on_network_state-Follows :
    (env : Env) (old new : NetState) {s : Flags}
    → Follows old s
    → Follows new (on_network_state env old new s).0
unfolding on_network_state
on_network_state-Follows env down down v = ground arith
on_network_state-Follows env _ _ v = ground arith

pub stop_all-init : (s : Flags) → (stop_all s).0 ≡ init
unfolding stop_all
stop_all-init s = ground arith
