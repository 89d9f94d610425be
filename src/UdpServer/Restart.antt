-- ===== src/UdpServer/Restart.antt =====
-- main/protocols/sx_udp_server.c under main/protocols/sx_protocol_manager.c: a network that goes and comes
-- back, with the end of the old task before or after the new start.
use opensx_serial_server.Prelude.{◌≡◌, true, false, none, [], ◌∷◌, ◌++◌, arith}
use opensx_serial_server.Protocols.{
  NetState, down, local, external, is_down, Flags, Env, on_network_state,
}
use opensx_serial_server.UdpServer.Life.{Life, start, kill, ended, over, live, live_all, udp_events}

stop_events :
    (env : Env) (up : NetState) (s : Flags)
    → is_down up ≡ false
    → s.local_started ≡ true
    → (udp_events (on_network_state env up down s).1 ≡ kill ∷ [])
      × ((on_network_state env up down s).0.local_started ≡ false)
unfolding on_network_state
stop_events env down s u l = cc
stop_events env local s u l = ground arith
stop_events env external s u l = ground arith

start_events :
    (env : Env) (s : Flags)
    → s.local_started ≡ false
    → (udp_events (on_network_state env down local s).1 ≡ start true ∷ [])
      × ((on_network_state env down local s).0.local_started ≡ true)
unfolding on_network_state
start_events env s l = ground arith

in_time :
    (s : Life)
    → s.task ≡ true
    → live_all (kill ∷ ended ∷ start true ∷ []) s
      ≡ record { task = true; stop_requested = false; sock = none }
unfolding live_all live
in_time s t = ground arith

too_late : (s : Life) → s.task ≡ true → live_all (kill ∷ start true ∷ ended ∷ []) s ≡ over
unfolding live_all live
too_late s t = ground arith

-- The network goes down and a local one comes: where the old task of the UDP server ends in between, a
-- new one runs afterwards; where it ends after the start, none does, and the protocol manager holds the
-- local protocols for started either way.
pub on_network_state-restart :
    (env env' : Env) (up : NetState) (s : Flags) (l : Life)
    → is_down up ≡ false
    → s.local_started ≡ true
    → l.task ≡ true
    → let (s', stops) = on_network_state env up down s in
      let (s'', starts) = on_network_state env' down local s' in
      (s''.local_started ≡ true)
      × (live_all (udp_events stops ++ (ended ∷ udp_events starts)) l
          ≡ record { task = true; stop_requested = false; sock = none })
      × (live_all (udp_events stops ++ (udp_events starts ++ ended ∷ [])) l ≡ over)
on_network_state-restart env env' up s l u b t =
    let stopped = stop_events env up s u b in
    let started = start_events env' (on_network_state env up down s).0 stopped.1 in
    (started.1, rw (stopped.0, started.0) (in_time l t), rw (stopped.0, started.0) (too_late l t))
