-- ===== src/KeyTimer/Press.antt =====
-- main/system/sx_timer_tasks.c: what a press of the key does, by its length.
use opensx_serial_server.Prelude.{
  ℕ, zero, suc, ◌+◌, ◌≤◌, ◌<◌, ◌≡◌, refl, ap, ◌∙◌, Bool, true, false, List, [], ◌∷◌, ◌++◌, ltb,
  ◌==◌, if◌then◌else◌, replicate, append-nil, Bool-cases, ltb→lt, not_ltb, inl, inr, arith,
}
use opensx_serial_server.KeyTimer.{Key, Call, reset_task, restart_task, key_timer_callback, key_run}

-- A task that was created.
abbrev is_created : Call → ℕ
is_created (reset_task true) = 1
is_created (restart_task true) = 1
is_created _ = 0

pub created_count : List Call → ℕ
created_count [] = 0
created_count (c ∷ cs) = is_created c + created_count cs

abbrev bit : Bool → ℕ
bit true = 1
bit false = 0

created_count-append :
    (xs ys : List Call) → created_count (xs ++ ys) ≡ created_count xs + created_count ys
unfolding created_count
created_count-append [] ys = omega arith
created_count-append (x ∷ xs) ys = omega (arith, created_count-append xs ys)

-- One look at the key creates a task only where none runs.
callback-count :
    (low created : Bool) (k : Key)
    → let (k', calls) = key_timer_callback low created k in
      bit k.task_running + created_count calls ≡ bit k'.task_running
unfolding key_timer_callback created_count
callback-count low created k = ground arith

run-count :
    (ticks : List (Bool × Bool)) (k : Key)
    → let (k', calls) = key_run ticks k in
      bit k.task_running + created_count calls ≡ bit k'.task_running
unfolding key_run created_count
run-count [] k = omega arith
run-count ((low, created) ∷ ticks) k =
    let (k', calls) = key_timer_callback low created k in
    let (k'', later) = key_run ticks k' in
    omega
      (arith, callback-count low created k, run-count ticks k', created_count-append calls later)

-- Whatever is done with the key, at most one task to restart or reset is created, and none where one
-- runs already; and where one was created, it is marked as running.
pub key_run-once :
    (ticks : List (Bool × Bool)) (k : Key)
    → let (k', calls) = key_run ticks k in
      (created_count calls ≤ 1)
      × (k.task_running ≡ true → created_count calls ≡ 0)
      × (created_count calls ≡ 1 → k'.task_running ≡ true)
key_run-once ticks k = ground (arith, run-count ticks k)

-- The key is down for `n` more looks, and each creation succeeds.
abbrev pub held : ℕ → List (Bool × Bool)
held n = replicate n (true, true)

-- The key as it lies: up, and no task.
abbrev pub at_rest : Key
at_rest = record {
  is_down = false;
  press_time = 0;
  task_running = false;
  reset_requested = false;
  restart_requested = false;
}

-- What a press of a length is to do: seen down at `n` looks behind the first.
abbrev pub outcome : ℕ → List Call
outcome n =
    if n == 0
    then []
    else if ltb n 100
    then restart_task true ∷ []
    else if ltb n 500
    then []
    else reset_task true ∷ []

abbrev counted : ℕ → Key
counted t = record at_rest { is_down = true; press_time = t }

abbrev pub release : List (Bool × Bool)
release = (false, true) ∷ []

run-step :
    (low created : Bool) (ticks : List (Bool × Bool)) (k k' : Key) (calls : List Call)
    → key_timer_callback low created k ≡ (k', calls)
    → (key_run ((low, created) ∷ ticks) k).1 ≡ calls ++ (key_run ticks k').1
unfolding key_run
run-step low created ticks k k' calls e = ap (λ r. r.1 ++ (key_run ticks r.0).1) e

-- While a task runs the key does nothing.
abbrev busy : ℕ → Bool → Bool → Key
busy t reset restart = record {
  is_down = true;
  press_time = t;
  task_running = true;
  reset_requested = reset;
  restart_requested = restart;
}

busy_step :
    (t : ℕ) (reset restart : Bool)
    → key_timer_callback true true (busy t reset restart) ≡ (busy (t + 1) reset restart, [])
unfolding key_timer_callback
busy_step t reset restart = ground arith

busy-release : (t : ℕ) (reset restart : Bool) → (key_run release (busy t reset restart)).1 ≡ []
unfolding key_run key_timer_callback
busy-release t reset restart = refl

busy_run :
    (n t : ℕ) (reset restart : Bool) → (key_run (held n ++ release) (busy t reset restart)).1 ≡ []
busy_run zero t reset restart = busy-release t reset restart
busy_run (suc n) t reset restart =
    run-step true true (held n ++ release) (busy t reset restart) _ _ (busy_step t reset restart)
    ∙ busy_run n (t + 1) reset restart

count_step :
    (t : ℕ) → t + 1 < 500 → key_timer_callback true true (counted t) ≡ (counted (t + 1), [])
unfolding key_timer_callback
count_step t h = ground arith

reset_step :
    (t : ℕ)
    → 500 ≤ t + 1
    → key_timer_callback true true (counted t) ≡ (busy 0 true false, reset_task true ∷ [])
unfolding key_timer_callback
reset_step t h = ground arith

released : (t : ℕ) → t < 500 → (key_timer_callback false true (counted t)).1 ≡ outcome t
unfolding key_timer_callback
released t h = ground arith

release-calls : (k : Key) → (key_run release k).1 ≡ (key_timer_callback false true k).1
unfolding key_run
release-calls k = append-nil (key_timer_callback false true k).1

long : (t : ℕ) → 500 ≤ t → reset_task true ∷ [] ≡ outcome t
long t h = ground arith

outcome_eq : (m n : ℕ) → m ≡ n → outcome m ≡ outcome n
outcome_eq m n e = ap outcome e

press_from : (n t : ℕ) → t < 500 → (key_run (held n ++ release) (counted t)).1 ≡ outcome (t + n)
press_from zero t h = release-calls (counted t) ∙ released t h ∙ outcome_eq t (t + 0) (omega arith)
press_from (suc n) t h = elim (Bool-cases (ltb (t + 1) 500)) [
  | inl goes_on ↦
      let below_500 = ltb→lt (t + 1) 500 goes_on in
      run-step true true (held n ++ release) (counted t) _ _ (count_step t below_500)
      ∙ press_from n (t + 1) below_500
      ∙ outcome_eq (t + 1 + n) (t + suc n) (omega arith)
  | inr full ↦
      let reached = not_ltb (t + 1) 500 full in
      run-step true true (held n ++ release) (counted t) _ _ (reset_step t (omega (arith, reached)))
      ∙ ap (λ later. reset_task true ∷ later) (busy_run n 0 true false)
      ∙ long (t + suc n) (omega (arith, reached))
]

first_look : key_timer_callback true true at_rest ≡ (counted 0, [])
unfolding key_timer_callback
first_look = refl

-- A press of a key at rest, seen down at `n` looks behind the first and then released, while every
-- creation of a task succeeds: one look alone does nothing, less than a hundred create the task that
-- restarts, less than five hundred do nothing, and five hundred or more create the task that resets,
-- once, however long the key is held.
pub press-outcome : (n : ℕ) → (key_run (held (suc n) ++ release) at_rest).1 ≡ outcome n
press-outcome n =
    run-step true true (held n ++ release) at_rest _ _ first_look
    ∙ press_from n 0 (omega arith)
    ∙ outcome_eq (0 + n) n (omega arith)
