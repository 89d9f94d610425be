-- ===== src/MqttClient.antt =====
-- main/protocols/sx_mqtt_client.c: `mqtt_apply_config_payload`, the settings that a message may change. The
-- object that cJSON makes of the message is its members; a write to the flash is a call.
pub mod Keys
pub mod Life
mod Tests
use opensx_serial_server.Prelude.{
  ℕ, ◌+◌, ◌-◌, ◌≡◌, refl, Bool, true, false, not, ◌&&◌, ◌||◌, Option, none, some, List, [], ◌∷◌,
  ◌++◌, ltb, ◌==◌, if◌then◌else◌, take,
}
use opensx_serial_server.Prelude.Int.{ℤ, pos, above, below, to_nat}
use opensx_serial_server.Prelude.Text.{CString, c_str, str_eq, truncate, atoi}
use opensx_serial_server.Prelude.Nvs.{Nvs, nvs_get_str}
use opensx_serial_server.WorkMode
use opensx_serial_server.WorkMode.Stored.{Read, nvs_get_work_mode}

-- A member: a string, a number by its text under "%.15g" and by its integer part, a truth value, or
-- something else.
pub data Value : Type 0 where
  text : CString → Value
  number : CString → ℤ → Value
  truth : Bool → Value
  other : Value

-- The members in order, each with its name where it has one, and whether there is a `mode_config`.
pub record Object : Type 0 where
  pub items : List (Option CString × Value)
  pub mode_config : Bool

pub data Node : Type 0 where
  object : Object → Node
  scalar : Node

-- The message: its strings under "action", "cmd" and "type", what it has under a name, and the whole.
pub record Message : Type 0 where
  pub string_at : CString → Option CString
  pub child : CString → Option Node
  pub whole : Node

-- A text, or a number that is printed.
pub data Setting : Type 0 where
  words : CString → Setting
  decimal : ℤ → Setting

pub data Call : Type 0 where
  nvs_set_str : CString → Setting → Call
  -- `sx_work_mode_save_config` for a mode
  save_config : CString → Call
  commit : Call
  -- the answer, with its topic, quality and retain flag
  publish : CString → ℤ → ℤ → Call
  restart : Call

pub record Env : Type 0 where
  pub memory : Bool
  pub nvs : Nvs
  pub registry : WorkMode.State
  -- what the flash holds for the work mode, and under a key at the end
  pub stored_mode : Read
  pub after : Nvs
  -- whether a write succeeds
  pub writes : CString → Bool
  pub saves : CString → Bool
  pub commits : Bool

abbrev is_config : Option CString → Bool
is_config none = false
is_config (some t) = str_eq t (c_str "config")

-- `declared_config`
unfoldable pub declared : Message → Bool
declared m =
    is_config (m.string_at (c_str "action"))
    || is_config (m.string_at (c_str "cmd"))
    || is_config (m.string_at (c_str "type"))

abbrev or_else : Option Node → Option Node → Option Node
or_else none b = b
or_else (some a) b = some a

-- `config_obj`
unfoldable pub config_obj : Message → Option Node
unfolding declared
config_obj m =
    let plain = or_else (m.child (c_str "config")) (m.child (c_str "nvs")) in
    if declared m then or_else (m.child (c_str "data")) (or_else plain (some m.whole)) else plain

-- The mode that is selected so far, whether the flash has been written, and the calls.
pub record Progress : Type 0 where
  pub mode : CString
  pub updated : Bool
  pub calls : List Call

-- a write that succeeds
abbrev pub write : Env → CString → Setting → Progress → Progress
write env key v p =
    if env.writes key
    then record p { updated = true; calls = p.calls ++ (nvs_set_str key v ∷ []) }
    else p

abbrev pub mode_key : CString
mode_key = c_str "w_mode"

abbrev pub set_mode : Env → CString → Progress → Progress
set_mode env v p =
    if (WorkMode.is_valid env.registry (some v)).1 && env.writes mode_key
    then record {
      mode = truncate 31 v;
      updated = true;
      calls = p.calls ++ (nvs_set_str mode_key (words v) ∷ []);
    }
    else p

abbrev pub work_mode_item : Env → Value → Progress → Progress
work_mode_item env (text v) p = set_mode env v p
work_mode_item env _ p = p

abbrev pub poll_time_of : Value → ℤ
poll_time_of (text v) = atoi v
poll_time_of (number printed n) = n
poll_time_of _ = pos 0

-- the interval within a second and an hour
abbrev pub clamp : ℤ → ℤ
clamp n = if below n 1000 then pos 1000 else if above 3600000 n then pos 3600000 else n

abbrev pub poll_time_item : Env → ℤ → Progress → Progress
poll_time_item env n p =
    if above 0 n then write env (c_str "poll_time") (decimal (clamp n)) p else p

-- the keys that a message may not change
unfoldable pub is_protected : CString → Bool
is_protected key =
    str_eq key (c_str "device_sn")
    || str_eq key (c_str "mqttconn")
    || str_eq key (c_str "mqtt_type")
    || str_eq key (c_str "modbus_items")
    || str_eq key (c_str "tcp_send")

abbrev pub other_item : Env → CString → Value → Progress → Progress
other_item env key (text v) p = write env key (words v) p
other_item env key (number printed n) p = write env key (words printed) p
other_item env key (truth b) p = write env key (words (if b then c_str "1" else c_str "0")) p
other_item env key other p = p

-- a round of `cJSON_ArrayForEach`
unfoldable pub apply_item : Env → Option CString × Value → Progress → Progress
unfolding is_protected
apply_item env (none, v) p = p
apply_item env (some key, v) p =
    if str_eq key (c_str "work_mode") || str_eq key mode_key
    then work_mode_item env v p
    else if str_eq key (c_str "poll_time")
    then poll_time_item env (poll_time_of v) p
    else if str_eq key (c_str "mode_config")
    then p
    else if is_protected key
    then p
    else other_item env key v p

unfoldable pub apply_items : Env → List (Option CString × Value) → Progress → Progress
apply_items env [] p = p
apply_items env (item ∷ items) p = apply_items env items (apply_item env item p)

abbrev pub save_mode : Env → Bool → Progress → Progress
save_mode env false p = p
save_mode env true p = record p {
  updated = p.updated || env.saves p.mode;
  calls = p.calls ++ (save_config p.mode ∷ []);
}

abbrev or_zero : Option CString → ℤ
or_zero none = pos 0
or_zero (some t) = atoi t

abbrev answer_to : Env → Option CString → List Call
answer_to env none = []
answer_to env (some []) = []
answer_to env (some (c ∷ topic)) =
    publish (c ∷ topic) (or_zero (nvs_get_str env.after (c_str "qos") 8))
      (or_zero (nvs_get_str env.after (c_str "retain") 8))
    ∷ []

-- the end of the function
abbrev pub finish : Env → Progress → List Call
finish env p =
    if not p.updated
    then p.calls
    else if not env.commits
    then p.calls ++ (commit ∷ [])
    else p.calls
      ++ (commit
          ∷ (answer_to env (nvs_get_str env.after (c_str "mqtt_sub_topic") 128) ++ (restart ∷ [])))

abbrev pub initial : Env → Progress
initial env = record {
  mode = (nvs_get_work_mode env.registry 32 env.stored_mode).1;
  updated = false;
  calls = [];
}

abbrev pub apply_object : Env → Option Node → Bool × List Call
apply_object env none = (false, [])
apply_object env (some scalar) = (false, [])
apply_object env (some (object o)) =
    if env.nvs.opens
    then (true, finish env (save_mode env o.mode_config (apply_items env o.items (initial env))))
    else (true, [])

-- `mqtt_apply_config_payload`, with the message where cJSON reads one; whether it was a configuration
unfoldable pub apply_config_payload : Env → Option Message → Bool × List Call
unfolding config_obj apply_items apply_item
apply_config_payload env none = (false, [])
apply_config_payload env (some m) =
    if env.memory then apply_object env (config_obj m) else (false, [])
