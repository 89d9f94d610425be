-- ===== src/Protocols/Runs.antt =====
-- The flags tell what has been asked for: the calls are replayed on a record of the servers that were
-- asked to start. Whether a server does start is its own affair, and no part of this.
use opensx_serial_server.Prelude.{
  ◌≡◌, refl, Bool, true, false, Option, none, some, List, [], ◌∷◌, if◌then◌else◌, arith,
}
use opensx_serial_server.Protocols.{
  NetState, down, local, external, Flags, Call, Env, on_network_state, uses_mqtt, start_udp_server,
  start_tcp_server, start_tcp_client, mqtt_app_start, kill_udp_server, stop_tcp_client,
  stop_tcp_server, mqtt_app_stop,
}

-- The servers that have been asked to start and not to stop since; MQTT may fail to start, and is left to
-- its flag.
pub record Asked : Type 0 where
  pub udp : Bool
  pub server : Bool
  pub client : Bool

-- One call; `none` is a second start of what has not been asked to stop since its first.
abbrev perform : Call → Asked → Option Asked
perform start_udp_server r = if r.udp then none else some (record r { udp = true })
perform start_tcp_server r = if r.server then none else some (record r { server = true })
perform start_tcp_client r = if r.client then none else some (record r { client = true })
perform kill_udp_server r = some (record r { udp = false })
perform stop_tcp_server r = some (record r { server = false })
perform stop_tcp_client r = some (record r { client = false })
perform mqtt_app_start r = some r
perform mqtt_app_stop r = some r

abbrev pub replay : List Call → Asked → Option Asked
replay [] r = some r
replay (c ∷ cs) r = elim (perform c r) [ none ↦ none | some r' ↦ replay cs r' ]

-- What the flags say has been asked for.
abbrev pub asked : Flags → Asked
asked s = record {
  udp = s.local_started;
  server = s.tcp_server_started;
  client = s.tcp_client_started;
}

-- Whatever the network does: no UDP server, TCP server or TCP client that was asked to start is asked to
-- start again before it is asked to stop, and where the flags say before the calls what has been asked
-- for last, they say it after the calls as well. Nothing is said of whether a server asked to start does
-- so.
pub on_network_state-asked :
    (env : Env) (old new : NetState) (s : Flags)
    → let (s', calls) = on_network_state env old new s in replay calls (asked s) ≡ some (asked s')
unfolding on_network_state
on_network_state-asked env down down s = ground arith
on_network_state-asked env _ _ s = ground arith

-- A repeated report of an unchanged state starts MQTT as soon as it can be started.
pub external_retries :
    (env : Env) (s : Flags)
    → s.external_started ≡ false
    → env.nvs.opens ≡ true
    → uses_mqtt env.nvs ≡ true
    → env.mqtt_starts ≡ true
    → let (s', calls) = on_network_state env external external s in
      (s'.mqtt_started ≡ true) × (s'.external_started ≡ true)
unfolding on_network_state
external_retries env s h o u m = ground arith

-- Where all is started, a repeated report of the same state makes no call and changes nothing.
pub same_state_idle :
    (env : Env) (n : NetState) (s : Flags)
    → s.local_started ≡ true
    → (n ≡ external → s.external_started ≡ true)
    → on_network_state env n n s ≡ (s, [])
unfolding on_network_state
same_state_idle env down s l e = refl
same_state_idle env local s l e = ground arith
same_state_idle env external s l e = ground (arith, e refl)
