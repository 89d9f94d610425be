-- ===== src/Network/Queue.antt =====
-- main/network/sx_network_manager.c: the queue of events, and the start of the queue and its task.
-- A post that waits for room is a post behind what the task takes meanwhile.
use opensx_serial_server.Prelude.{
  ℕ, ◌≡◌, Bool, true, false, not, ◌||◌, Option, none, some, List, [], ◌∷◌, ◌++◌, ltb, if◌then◌else◌,
  length, arith,
}
use opensx_serial_server.Prelude.Err.{EspErr, esp_ok, esp_fail, err_no_mem, err_invalid_state}
use opensx_serial_server.Network.State.{Event, boot}

abbrev pub net_queue_len : ℕ
net_queue_len = 12

-- `s_net_queue`, `s_status_mutex != NULL`, `s_net_task != NULL`, and `s_periodic_timer`, with whether the
-- timer runs
pub record Manager : Type 0 where
  pub queue : Option (List Event)
  pub has_mutex : Bool
  pub has_task : Bool
  pub timer : Option Bool

-- what the creations and the start of the timer answer
pub record Start : Type 0 where
  pub mutex_made : Bool
  pub queue_made : Bool
  pub task_made : Bool
  pub timer_created : EspErr
  pub timer_started : EspErr

abbrev pub put : Event → List Event → List Event × EspErr
put e q = if ltb (length q) net_queue_len then (q ++ (e ∷ []), esp_ok) else (q, esp_fail)

abbrev queued : Manager → List Event × EspErr → Manager × EspErr
queued m (q, err) = (record m { queue = some q }, err)

abbrev post : Event → Manager → Option (List Event) → Manager × EspErr
post e m none = (m, err_invalid_state)
post e m (some q) = queued m (put e q)

-- `sx_network_manager_post_event`
unfoldable pub post_event : Event → Manager → Manager × EspErr
post_event e m = post e m m.queue

abbrev pub is_ok : EspErr → Bool
is_ok esp_ok = true
is_ok _ = false

-- where one of the steps of the start fails, the statics so far and the error
abbrev pub Begun : Type 0
Begun = Manager × Option EspErr

abbrev with_mutex : Start → Manager → Begun
with_mutex a m =
    if m.has_mutex || a.mutex_made
    then (record m { has_mutex = true }, none)
    else (m, some err_no_mem)

abbrev with_queue : Start → Begun → Begun
with_queue a (m, some err) = (m, some err)
with_queue a (m, none) = made m.queue
  where
    made : Option (List Event) → Begun
    made (some q) = (m, none)
    made none = if a.queue_made then (record m { queue = some [] }, none) else (m, some err_no_mem)

abbrev with_task : Start → Begun → Begun
with_task a (m, some err) = (m, some err)
with_task a (m, none) =
    if m.has_task || a.task_made then (record m { has_task = true }, none) else (m, some err_no_mem)

abbrev with_timer : Start → Begun → Begun
with_timer a (m, some err) = (m, some err)
with_timer a (m, none) = made m.timer
  where
    made : Option Bool → Begun
    made (some runs) = (m, none)
    made none =
        if not (is_ok a.timer_created)
        then (m, some a.timer_created)
        else if is_ok a.timer_started
        then (record m { timer = some true }, none)
        else (record m { timer = some false }, some a.timer_started)

abbrev booted : Begun → Manager × EspErr
booted (m, some err) = (m, err)
booted (m, none) = post boot m m.queue

-- `sx_network_manager_init`
unfoldable pub manager_init : Start → Manager → Manager × EspErr
manager_init a m = booted (with_timer a (with_task a (with_queue a (with_mutex a m))))

-- The timer that a step of the start leaves.
abbrev Stopped : Begun → Type 0
Stopped b = b.0.timer ≡ some false

put_back :
    (m : Manager) (q : Option (List Event))
    → m.timer ≡ some false
    → (post boot m q).0.timer ≡ some false
put_back m none h = h
put_back m (some q) h = h

mutex_step : (a : Start) (m : Manager) → m.timer ≡ some false → Stopped (with_mutex a m)
mutex_step a m h = ground (arith, h)

queue_step : (a : Start) (b : Begun) → Stopped b → Stopped (with_queue a b)
queue_step a (m, some err) h = h
queue_step a (m, none) h = ground (arith, h)

task_step : (a : Start) (b : Begun) → Stopped b → Stopped (with_task a b)
task_step a (m, some err) h = h
task_step a (m, none) h = ground (arith, h)

timer_step : (a : Start) (b : Begun) → Stopped b → Stopped (with_timer a b)
timer_step a (m, some err) h = h
timer_step a (m, none) h = ground (arith, h)

boot_step : (b : Begun) → Stopped b → (booted b).0.timer ≡ some false
boot_step (m, some err) h = h
boot_step (m, none) h = put_back m m.queue h

-- A timer of the checks that was created but could not be started is never started: no later call of
-- `sx_network_manager_init` does, whatever is granted to it.
pub manager_init-stopped :
    (a : Start) (m : Manager) → m.timer ≡ some false → (manager_init a m).0.timer ≡ some false
unfolding manager_init
manager_init-stopped a m h =
    boot_step (with_timer a (with_task a (with_queue a (with_mutex a m)))) (
      timer_step a (with_task a (with_queue a (with_mutex a m))) (
        task_step a (with_queue a (with_mutex a m))
          (queue_step a (with_mutex a m) (mutex_step a m h))))
