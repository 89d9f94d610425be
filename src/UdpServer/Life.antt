-- ===== src/UdpServer/Life.antt =====
-- main/protocols/sx_udp_server.c: start, kill and the loop of `udp_server_task`, as the protocol manager
-- drives them. What the task does on its own is an event; the socket is its number.
use opensx_serial_server.Prelude.{
  ℕ, ◌≡◌, refl, Bool, true, false, Option, none, some, List, [], ◌∷◌, ◌++◌, if◌then◌else◌, arith,
}
use opensx_serial_server.Protocols.{
  NetState, down, local, external, Flags, Env, on_network_state, start_udp_server, kill_udp_server,
}
use opensx_serial_server.Protocols

-- `xHandleUDPServerTask != NULL`, `s_udp_server_stop_requested`, `s_udp_server_sock`
pub record Life : Type 0 where
  pub task : Bool
  pub stop_requested : Bool
  pub sock : Option ℕ

pub data Event : Type 0 where
  -- a call of `start_udp_server`, and whether the task could be created; a call of `kill_udp_server`
  start : Bool → Event
  kill : Event
  -- the task has made a socket; its `bind` or its `recvfrom` failed; no socket could be made
  opened : ℕ → Event
  dropped no_socket : Event
  -- the task finds the request to stop and ends
  ended : Event

-- `start_udp_server`
unfoldable pub start_server : Bool → Life → Life
start_server created s = if s.task then s else record s { stop_requested = false; task = created }

-- `kill_udp_server`
unfoldable pub kill_server : Life → Life
kill_server s = if s.task then record s { stop_requested = true; sock = none } else s

-- the end of `udp_server_task`
abbrev pub over : Life
over = record { task = false; stop_requested = false; sock = none }

-- what the task does, while it runs
unfoldable pub task_event : Event → Life → Life
task_event (opened n) s = record s { sock = some n }
task_event dropped s = record s { sock = none }
task_event no_socket s = over
task_event ended s = if s.stop_requested then over else s
task_event _ s = s

unfoldable pub live : Event → Life → Life
unfolding start_server kill_server task_event
live (start created) s = start_server created s
live kill s = kill_server s
live e s = if s.task then task_event e s else s

unfoldable pub live_all : List Event → Life → Life
live_all [] s = s
live_all (e ∷ es) s = live_all es (live e s)

-- A socket or a request to stop belongs to a task.
pub record IsOwned (s : Life) : Type 0 where
  pub stops_task : s.stop_requested ≡ true → s.task ≡ true
  pub task_socket : s.task ≡ false → s.sock ≡ none

live-IsOwned : (e : Event) (s : Life) → IsOwned s → IsOwned (live e s)
unfolding live
live-IsOwned (start created) s v = ground arith
live-IsOwned kill s v = ground arith
live-IsOwned (opened n) s v = ground arith
live-IsOwned dropped s v = ground arith
live-IsOwned no_socket s v = ground arith
live-IsOwned ended s v = ground arith

-- Whatever is called and whatever the task does, in any order: a request to stop has a task that can
-- see it, and no socket is left without a task.
pub live_all-IsOwned : (es : List Event) (s : Life) → IsOwned s → IsOwned (live_all es s)
unfolding live_all
live_all-IsOwned [] s v = v
live_all-IsOwned (e ∷ es) s v = live_all-IsOwned es (live e s) (live-IsOwned e s v)

-- The calls of the protocol manager that reach this server; a task can be created.
abbrev pub udp_events : List Protocols.Call → List Event
udp_events [] = []
udp_events (start_udp_server ∷ cs) = start true ∷ udp_events cs
udp_events (kill_udp_server ∷ cs) = kill ∷ udp_events cs
udp_events (_ ∷ cs) = udp_events cs

live_all-append :
    (xs ys : List Event) (s : Life) → live_all (xs ++ ys) s ≡ live_all ys (live_all xs s)
unfolding live_all
live_all-append [] ys s = refl
live_all-append (x ∷ xs) ys s = live_all-append xs ys (live x s)
