-- ===== src/Modbus/Task.antt =====
-- main/drivers/sx_modbus.c: the start and the stop of the poll task. The task itself runs beside; what
-- counts here is how many poll tasks there are, and when one leaves after a stop is asked for.
use opensx_serial_server.Prelude.{
  ℕ, zero, suc, ◌+◌, ◌-◌, ◌≡◌, Bool, true, false, not, ◌&&◌, if◌then◌else◌, Bool-cases, inl, inr,
  arith,
}
use opensx_serial_server.Prelude.Err.{EspErr, esp_ok, esp_fail, err_invalid_arg}

-- `modbus_task_handle != NULL`, `modbus_stop_requested`, and the poll tasks that exist
pub record State : Type 0 where
  pub has_handle : Bool
  pub stop_requested : Bool
  pub tasks : ℕ

-- The task leaves: it clears the flag and its handle, and deletes itself.
abbrev leave : State → State
leave s = record s { has_handle = false; stop_requested = false; tasks = s.tasks - 1 }

-- `leaves i`: the running task leaves between the `i`-th look at its handle and the one before.
pub wait_exit : ℕ → (ℕ → Bool) → ℕ → State → State
wait_exit zero leaves i s = record s {
  has_handle = false;
  stop_requested = false;
  tasks = s.tasks - 1;
}
wait_exit (suc n) leaves i s =
    if leaves i && s.has_handle
    then record (leave s) { stop_requested = false }
    else wait_exit n leaves (i + 1) s

-- `stop_modbus_tasks`: at most 200 looks, then the task is deleted from outside
unfoldable pub stop_modbus_tasks : (ℕ → Bool) → State → State
unfolding wait_exit
stop_modbus_tasks leaves s =
    if not s.has_handle then s else wait_exit 200 leaves 0 (record s { stop_requested = true })

-- `start_modbus_task`; `config_ok` says that neither the configuration nor its items are NULL,
-- `created` that the task could be created
unfoldable pub start_modbus_task : Bool → Bool → (ℕ → Bool) → State → State × EspErr
unfolding stop_modbus_tasks
start_modbus_task config_ok created leaves s =
    if not config_ok
    then (s, err_invalid_arg)
    else (let clear = record (if s.has_handle then stop_modbus_tasks leaves s else s) {
      stop_requested = false;
    } in
        if created
        then (record clear { has_handle = true; tasks = clear.tasks + 1 }, esp_ok)
        else (clear, esp_fail))

-- The handle is that of the one task, or there is none.
abbrev pub IsSingle : State → Type 0
IsSingle s = s.tasks ≡ (if s.has_handle then 1 else 0)

wait_exit-stopped :
    (n : ℕ) (leaves : ℕ → Bool) (i : ℕ) (s : State)
    → s.has_handle ≡ true
    → IsSingle s
    → wait_exit n leaves i s ≡ record { has_handle = false; stop_requested = false; tasks = 0 }
unfolding wait_exit
wait_exit-stopped zero leaves i s h v = ground arith
wait_exit-stopped (suc n) leaves i s h v = ground (arith, wait_exit-stopped n leaves (i + 1) s h v)

-- After a start there is one poll task where the start answers ESP_OK, and none where the task could
-- not be created, whatever ran before and whenever it leaves; a call without a configuration changes
-- nothing.
pub start_modbus_task-IsSingle :
    (config_ok created : Bool) (leaves : ℕ → Bool) (s : State)
    → IsSingle s
    → let (s', err) = start_modbus_task config_ok created leaves s in
      IsSingle s'
      × (err ≡ esp_ok → (s'.tasks ≡ 1) × (s'.stop_requested ≡ false))
      × (err ≡ esp_fail → s'.tasks ≡ 0)
      × (err ≡ err_invalid_arg → s' ≡ s)
unfolding start_modbus_task stop_modbus_tasks
start_modbus_task-IsSingle config_ok created leaves s v = elim (Bool-cases s.has_handle) [
  | inl runs ↦
      ground (arith, wait_exit-stopped 200 leaves 0 (record s { stop_requested = true }) runs v)
  | inr idle ↦ ground arith
]
