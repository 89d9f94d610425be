-- ===== src/TcpClient/Link.antt =====
-- main/protocols/sx_tcp_client.c: the connection, its task, and the task of the heartbeat. What the tasks
-- find on the socket is an event.
use opensx_serial_server.Prelude.{
  ℕ, ◌≡◌, ◌≢◌, refl, Bool, true, false, not, ◌||◌, Option, none, some, List, [], ◌∷◌, ◌==◌,
  if◌then◌else◌, All, arith,
}

-- `xHandleTaskTCPHeartbeat`: NULL, a task with its copy of the socket, or a task that has ended
pub data BeatTask : Type 0 where
  no_beat stale : BeatTask
  beating : Option ℕ → BeatTask

-- `xHandleTaskTCPClient != NULL`, `s_tcp_client_stop_requested`, `global_client_sock`, `tcp_server_conn`,
-- the heartbeat, and whether a task has been deleted that had ended before
pub record Link : Type 0 where
  pub task : Bool
  pub stop_requested : Bool
  pub sock : Option ℕ
  pub conn : Bool
  pub beat : BeatTask
  pub misuse : Bool

pub data Event : Type 0 where
  -- calls of `start_tcp_client`, with whether the task is created, and of `stop_tcp_client`
  start : Bool → Event
  stop : Event
  -- `socket` answers, `connect` fails or succeeds (and a heartbeat can be created), `recv` ends
  opened : Option ℕ → Event
  connect_failed : Event
  connected : Bool → Event
  lost : Event
  -- the task ends by the request to stop
  task_ends : Event
  -- the heartbeat finds that it is turned off, fails for good, or wakes from its delay
  beat_disabled beat_fails beat_wakes : Event

-- `start_tcp_client`
unfoldable pub start_tcp_client : Bool → Link → Link
start_tcp_client created s =
    if s.task then s else record s { stop_requested = false; task = created }

abbrev pub is_stale : BeatTask → Bool
is_stale stale = true
is_stale _ = false

-- `stop_tcp_client`
unfoldable pub stop_tcp_client : Link → Link
stop_tcp_client s = record s {
  stop_requested = true;
  conn = false;
  sock = none;
  beat = no_beat;
  misuse = s.misuse || is_stale s.beat;
}

-- a heartbeat is created if there is no handle of one
abbrev pub new_beat : Bool → Option ℕ → BeatTask → BeatTask
new_beat created sock no_beat = if created then beating sock else no_beat
new_beat created sock beat = beat

abbrev pub same_sock : Option ℕ → Option ℕ → Bool
same_sock none none = true
same_sock none (some b) = false
same_sock (some a) none = false
same_sock (some a) (some b) = a == b

-- the test after the delay of the heartbeat
unfoldable pub after_delay : Bool → Option ℕ → BeatTask → BeatTask
after_delay conn sock (beating own) =
    if not conn || not (same_sock own sock) then no_beat else beating own
after_delay conn sock beat = beat

-- a heartbeat that runs ends with the handle in this state
abbrev pub ends_as : BeatTask → BeatTask → BeatTask
ends_as end (beating own) = end
ends_as end beat = beat

-- a step of `tcp_client`
unfoldable pub client_event : Event → Link → Link
client_event (opened answer) s = record s { sock = answer }
client_event connect_failed s = record s { sock = none; conn = false }
client_event (connected created) s = record s { conn = true; beat = new_beat created s.sock s.beat }
client_event lost s = record s { sock = none; conn = false }
client_event task_ends s =
    if s.stop_requested
    then record s { task = false; stop_requested = false; sock = none; conn = false }
    else s
client_event _ s = s

unfoldable pub link : Event → Link → Link
unfolding start_tcp_client stop_tcp_client client_event after_delay
link (start created) s = start_tcp_client created s
link stop s = stop_tcp_client s
link beat_disabled s = record s { beat = ends_as no_beat s.beat }
link beat_fails s = record s { beat = ends_as stale s.beat }
link beat_wakes s = record s { beat = after_delay s.conn s.sock s.beat }
link e s = if s.task then client_event e s else s

unfoldable pub link_all : List Event → Link → Link
link_all [] s = s
link_all (e ∷ es) s = link_all es (link e s)

abbrev pub NoStop : Event → Type 0
NoStop stop = ⊥
NoStop _ = Unit

stale_step : (e : Event) (s : Link) → s.beat ≡ stale → NoStop e → (link e s).beat ≡ stale
unfolding link
stale_step (start created) s b n = ground arith
stale_step stop s b n = elim n [ ]
stale_step (opened k) s b n = ground arith
stale_step connect_failed s b n = ground arith
stale_step (connected created) s b n = ground arith
stale_step lost s b n = ground arith
stale_step task_ends s b n = ground arith
stale_step beat_disabled s b n = ground arith
stale_step beat_fails s b n = ground arith
stale_step beat_wakes s b n = ground arith

stops_stale : (s : Link) → s.beat ≡ stale → (link stop s).misuse ≡ true
unfolding link
stops_stale s b = ground arith

stale_stays :
    (es : List Event) (s : Link) → s.beat ≡ stale → All NoStop es → (link_all es s).beat ≡ stale
unfolding link_all
stale_stays [] s b n = b
stale_stays (e ∷ es) s b n = stale_stays es (link e s) (stale_step e s b n.0) n.1

fails_stale : (s : Link) (own : Option ℕ) → s.beat ≡ beating own → (link beat_fails s).beat ≡ stale
unfolding link
fails_stale s own b = rw b refl

-- After a heartbeat has failed for good, whatever happens without a call of `stop_tcp_client`, new
-- connections included: no heartbeat is created again, and the next `stop_tcp_client` deletes a task that
-- has ended.
pub link_all-stale :
    (es : List Event) (s : Link) (own : Option ℕ)
    → s.beat ≡ beating own
    → All NoStop es
    → ((link_all (beat_fails ∷ es) s).beat ≡ stale)
      × ((link stop (link_all (beat_fails ∷ es) s)).misuse ≡ true)
unfolding link_all
link_all-stale es s own b n =
    let after = stale_stays es (link beat_fails s) (fails_stale s own b) n in
    (after, stops_stale (link_all es (link beat_fails s)) after)

-- A connection that replaces another, on another socket and before the heartbeat of the old one wakes,
-- is left without a heartbeat: none is created at the connection, and the old one ends when it wakes.
pub link_all-reconnected :
    (s : Link) (own n : ℕ)
    → s.task ≡ true
    → s.beat ≡ beating (some own)
    → own ≢ n
    → let s' = link_all (lost ∷ opened (some n) ∷ connected true ∷ beat_wakes ∷ []) s in
      (s'.conn ≡ true) × (s'.sock ≡ some n) × (s'.beat ≡ no_beat)
unfolding link_all link
link_all-reconnected s own n t b d = ground arith
