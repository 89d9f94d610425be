-- ===== src/MqttClient/Tests.antt =====
-- The theorem on the settings at a concrete message, and what the code does with it.
use opensx_serial_server.Prelude.{◌≡◌, refl, true, false, none, some, [], ◌∷◌, if◌then◌else◌}
use opensx_serial_server.Prelude.Int.{pos}
use opensx_serial_server.Prelude.Text.{c_str, str_eq, atoi}
use opensx_serial_server.Prelude.Nvs.{Nvs, nvs_get_str}
use opensx_serial_server.WorkMode.Stored.{found, at_start, nvs_get_work_mode}
use opensx_serial_server.WorkMode.{is_valid, find_mode, find_in, register_builtin_modes, register}
use opensx_serial_server.MqttClient.{
  text, truth, Object, object, Message, words, decimal, nvs_set_str, commit, restart, Env,
  apply_config_payload, config_obj, declared, apply_items, apply_item, is_protected,
}
use opensx_serial_server.MqttClient.Keys.{IsAllowed, apply_config_payload-IsAllowed}

abbrev flash : Nvs
flash = record { opens = true; get = λ k. none }

abbrev env : Env
env = record {
  memory = true;
  nvs = flash;
  registry = at_start;
  stored_mode = found (c_str "tcp_transparent");
  after = flash;
  writes = λ k. true;
  saves = λ m. true;
  commits = true;
}

-- an interval that is too short, a protected key, a mode that is not registered, and a truth value
abbrev object_sent : Object
object_sent = record {
  items =
      (some (c_str "poll_time"), text (c_str "5"))
      ∷ (some (c_str "device_sn"), text (c_str "x"))
      ∷ (some (c_str "work_mode"), text (c_str "none"))
      ∷ (some (c_str "dhcp"), truth true)
      ∷ [];
  mode_config = false;
}

abbrev sent : Message
sent = record {
  string_at = λ k. none;
  child = λ k. if str_eq k (c_str "config") then some (object object_sent) else none;
  whole = object object_sent;
}

apply_config_payload-IsAllowed_example : IsAllowed env (apply_config_payload env (some sent)).1
apply_config_payload-IsAllowed_example = apply_config_payload-IsAllowed env (some sent)

sent_run : apply_config_payload env (some sent) ≡ (
  true,
  nvs_set_str (c_str "poll_time") (decimal (pos 1000))
      ∷ nvs_set_str (c_str "dhcp") (words (c_str "1"))
      ∷ commit
      ∷ restart
      ∷ [],
)
unfolding apply_config_payload config_obj declared apply_items apply_item is_protected str_eq atoi
    is_valid find_mode find_in register_builtin_modes register nvs_get_work_mode nvs_get_str
sent_run = refl
