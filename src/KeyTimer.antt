-- ===== src/KeyTimer.antt =====
-- main/system/sx_timer_tasks.c: `key_timer_callback`, which looks at the key every 10 ms: a short press
-- restarts the device, five seconds reset it. The statics are the record `Key`; the creation of a task
-- is a call, with whether it succeeded. The task, which clears the flags right before it restarts the
-- device, is not modelled, nor the overflow of the count after 248 days.
pub mod Press
mod Tests
use opensx_serial_server.Prelude.{
  ℕ, suc, ◌+◌, Bool, true, false, not, ◌&&◌, List, [], ◌∷◌, ◌++◌, ltb, leb, if◌then◌else◌,
}

-- `KeyState == 1`, `press_time`, `reset_task_running`, `reset_requested` and `restart_requested`
pub record Key : Type 0 where
  pub is_down : Bool
  pub press_time : ℕ
  pub task_running : Bool
  pub reset_requested : Bool
  pub restart_requested : Bool

pub data Call : Type 0 where
  reset_task restart_task : Bool → Call

-- the key is down: the count goes on, and at five seconds the reset is asked for
unfoldable pub key_down : Bool → Key → Key × List Call
key_down created k =
    let count = k.press_time + 1 in
    if not k.is_down
    then (record k { is_down = true; press_time = 0 }, [])
    else if leb 500 count && not k.task_running
    then (
      record k { press_time = 0; reset_requested = created; task_running = created },
      reset_task created ∷ [],
    )
    else (record k { press_time = count }, [])

-- the key is up: a press of less than a second asks for a restart
unfoldable pub key_up : Bool → Key → Key × List Call
key_up created k =
    let up = record k { is_down = false; press_time = 0 } in
    if not k.is_down
    then (k, [])
    else if k.task_running
    then (k, [])
    else if ltb 0 k.press_time && ltb k.press_time 100
    then (
      record up { restart_requested = created; task_running = created },
      restart_task created ∷ [],
    )
    else (up, [])

-- `key_timer_callback`; `low` says whether the level of the pin is 0
unfoldable pub key_timer_callback : Bool → Bool → Key → Key × List Call
unfolding key_down key_up
key_timer_callback low created k = if low then key_down created k else key_up created k

-- any number of calls, with the level and the answer of each
unfoldable pub key_run : List (Bool × Bool) → Key → Key × List Call
key_run [] k = (k, [])
key_run ((low, created) ∷ ticks) k =
    let (k', calls) = key_timer_callback low created k in
    let (k'', later) = key_run ticks k' in (k'', calls ++ later)
