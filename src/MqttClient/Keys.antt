-- ===== src/MqttClient/Keys.antt =====
-- main/protocols/sx_mqtt_client.c: what a message can write to the flash.
use opensx_serial_server.Prelude.{
  ◌≡◌, refl, Bool, true, false, not, ◌&&◌, ◌||◌, Option, none, some, List, [], ◌∷◌, ◌++◌,
  if◌then◌else◌, All, Bool-cases, inl, inr, arith,
}
use opensx_serial_server.Prelude.Int.{ℤ, above, below}
use opensx_serial_server.Prelude.Text.{CString, c_str, str_eq}
use opensx_serial_server.Prelude.Nvs.{nvs_get_str}
use opensx_serial_server.WorkMode
use opensx_serial_server.MqttClient.{
  Value, text, number, truth, other, object, scalar, Node, Message, Setting, words, decimal, Call,
  nvs_set_str, save_config, commit, restart, Env, Progress, write, mode_key, set_mode,
  work_mode_item, poll_time_of, clamp, poll_time_item, is_protected, other_item, apply_item,
  apply_items, save_mode, answer_to, finish, initial, apply_object, config_obj,
  apply_config_payload,
}

-- The keys that a message may not change.
abbrev pub reserved : List CString
reserved =
    c_str "device_sn"
    ∷ c_str "mqttconn"
    ∷ c_str "mqtt_type"
    ∷ c_str "modbus_items"
    ∷ c_str "tcp_send"
    ∷ []

abbrev pub is_among : List CString → CString → Bool
is_among [] key = false
is_among (k ∷ ks) key = str_eq key k || is_among ks key

-- The flash may get a text under a key that is neither reserved nor read in a way of its own, the name of
-- a work mode there is, and an interval within a second and an hour.
unfoldable pub is_allowed : Env → Call → Bool
is_allowed env (nvs_set_str key (words v)) =
    not (is_among reserved key)
    && not (str_eq key (c_str "poll_time"))
    && not (str_eq key (c_str "work_mode"))
    && not (str_eq key (c_str "mode_config"))
    && (if str_eq key mode_key then (WorkMode.is_valid env.registry (some v)).1 else true)
is_allowed env (nvs_set_str key (decimal n)) =
    str_eq key (c_str "poll_time") && not (below n 1000) && not (above 3600000 n)
is_allowed env _ = true

abbrev pub IsAllowed : Env → List Call → Type 0
IsAllowed env calls = All (λ c. is_allowed env c ≡ true) calls

both : (env : Env) (a b : List Call) → IsAllowed env a → IsAllowed env b → IsAllowed env (a ++ b)
both env [] b h k = k
both env (c ∷ a) b h k = (h.0, both env a b h.1 k)

written :
    (env : Env) (key : CString) (v : Setting) (p : Progress)
    → is_allowed env (nvs_set_str key v) ≡ true
    → IsAllowed env p.calls
    → IsAllowed env (write env key v p).calls
written env key v p h a = elim (Bool-cases (env.writes key)) [
  | inl e ↦ rw e (both env p.calls (nvs_set_str key v ∷ []) a (h, tt))
  | inr e ↦ rw e a
]

mode_allowed :
    (env : Env) (v : CString)
    → (WorkMode.is_valid env.registry (some v)).1 ≡ true
    → is_allowed env (nvs_set_str mode_key (words v)) ≡ true
unfolding is_allowed str_eq
mode_allowed env v h = h

mode_set :
    (env : Env) (v : CString) (p : Progress)
    → IsAllowed env p.calls
    → IsAllowed env (set_mode env v p).calls
mode_set env v p a = elim (Bool-cases (WorkMode.is_valid env.registry (some v)).1) [
  | inl e ↦ elim (Bool-cases (env.writes mode_key)) [
    | inl f ↦
        rw (e, f)
          (both env p.calls (nvs_set_str mode_key (words v) ∷ []) a (mode_allowed env v e, tt))
    | inr f ↦ rw (e, f) a
  ]
  | inr e ↦ rw e a
]

clamped : (n : ℤ) → (not (below (clamp n) 1000) && not (above 3600000 (clamp n))) ≡ true
clamped n = elim (Bool-cases (below n 1000)) [
  | inl e ↦ rw e refl
  | inr e ↦ elim (Bool-cases (above 3600000 n)) [
    | inl f ↦ rw (e, f) refl
    | inr f ↦ rw (e, f) (rw (e, f) refl)
  ]
]

poll_allowed :
    (env : Env) (n : ℤ)
    → is_allowed env (nvs_set_str (c_str "poll_time") (decimal (clamp n))) ≡ true
unfolding is_allowed str_eq
poll_allowed env n = clamped n

poll_set :
    (env : Env) (n : ℤ) (p : Progress)
    → IsAllowed env p.calls
    → IsAllowed env (poll_time_item env n p).calls
poll_set env n p a = elim (Bool-cases (above 0 n)) [
  | inl e ↦ rw e (written env (c_str "poll_time") (decimal (clamp n)) p (poll_allowed env n) a)
  | inr e ↦ rw e a
]

mode_item :
    (env : Env) (v : Value) (p : Progress)
    → IsAllowed env p.calls
    → IsAllowed env (work_mode_item env v p).calls
mode_item env (text v) p a = mode_set env v p a
mode_item env (number x n) p a = a
mode_item env (truth b) p a = a
mode_item env other p a = a

-- The key of a text that no branch before takes.
record IsGeneral (key : CString) : Type 0 where
  no_mode : (str_eq key (c_str "work_mode") || str_eq key mode_key) ≡ false
  no_poll : str_eq key (c_str "poll_time") ≡ false
  no_config : str_eq key (c_str "mode_config") ≡ false
  free : is_protected key ≡ false

plain_allowed :
    (env : Env) (key v : CString)
    → IsGeneral key
    → is_allowed env (nvs_set_str key (words v)) ≡ true
unfolding is_allowed is_protected
plain_allowed env key v h = ground (arith, h.no_mode, h.no_poll, h.no_config, h.free)

plain_item :
    (env : Env) (key : CString) (v : Value) (p : Progress)
    → IsGeneral key
    → IsAllowed env p.calls
    → IsAllowed env (other_item env key v p).calls
plain_item env key (text v) p h a = written env key (words v) p (plain_allowed env key v h) a
plain_item env key (number x n) p h a = written env key (words x) p (plain_allowed env key x h) a
plain_item env key (truth b) p h a =
    let v = if b then c_str "1" else c_str "0" in
    written env key (words v) p (plain_allowed env key v h) a
plain_item env key other p h a = a

item_allowed :
    (env : Env) (item : Option CString × Value) (p : Progress)
    → IsAllowed env p.calls
    → IsAllowed env (apply_item env item p).calls
unfolding apply_item
item_allowed env (none, v) p a = a
item_allowed env (some key, v) p a =
    elim (Bool-cases (str_eq key (c_str "work_mode") || str_eq key mode_key)) [
      | inl e ↦ rw e (mode_item env v p a)
      | inr e ↦ elim (Bool-cases (str_eq key (c_str "poll_time"))) [
        | inl f ↦ rw (e, f) (poll_set env (poll_time_of v) p a)
        | inr f ↦ elim (Bool-cases (str_eq key (c_str "mode_config"))) [
          | inl g ↦ rw (e, f, g) a
          | inr g ↦ elim (Bool-cases (is_protected key)) [
            | inl h ↦ rw (e, f, g, h) a
            | inr h ↦
                rw (e, f, g, h)
                  (plain_item env key v p
                    (record { no_mode = e; no_poll = f; no_config = g; free = h }) a)
          ]
        ]
      ]
    ]

items_allowed :
    (env : Env) (items : List (Option CString × Value)) (p : Progress)
    → IsAllowed env p.calls
    → IsAllowed env (apply_items env items p).calls
unfolding apply_items
items_allowed env [] p a = a
items_allowed env (item ∷ items) p a =
    items_allowed env items (apply_item env item p) (item_allowed env item p a)

saved :
    (env : Env) (b : Bool) (p : Progress)
    → IsAllowed env p.calls
    → IsAllowed env (save_mode env b p).calls
unfolding is_allowed
saved env false p a = a
saved env true p a = both env p.calls (save_config p.mode ∷ []) a (refl, tt)

answer_allowed :
    (env : Env) (topic : Option CString) → IsAllowed env (answer_to env topic ++ (restart ∷ []))
unfolding is_allowed
answer_allowed env none = (refl, tt)
answer_allowed env (some []) = (refl, tt)
answer_allowed env (some (c ∷ topic)) = (refl, (refl, tt))

finished : (env : Env) (p : Progress) → IsAllowed env p.calls → IsAllowed env (finish env p)
unfolding is_allowed
finished env p a = elim (Bool-cases p.updated) [
  | inl e ↦ elim (Bool-cases env.commits) [
    | inl f ↦
        rw (e, f)
          (both env p.calls
            (commit
              ∷ (answer_to env (nvs_get_str env.after (c_str "mqtt_sub_topic") 128)
                  ++ (restart ∷ [])))
            a (refl, answer_allowed env (nvs_get_str env.after (c_str "mqtt_sub_topic") 128)))
    | inr f ↦ rw (e, f) (both env p.calls (commit ∷ []) a (refl, tt))
  ]
  | inr e ↦ rw e a
]

object_allowed : (env : Env) (o : Option Node) → IsAllowed env (apply_object env o).1
unfolding is_allowed apply_items apply_item
object_allowed env none = tt
object_allowed env (some scalar) = tt
object_allowed env (some (object o)) = elim (Bool-cases env.nvs.opens) [
  | inl e ↦ rw e (
      finished env (save_mode env o.mode_config (apply_items env o.items (initial env))) (
        saved env o.mode_config (apply_items env o.items (initial env))
          (items_allowed env o.items (initial env) tt)))
  | inr e ↦ rw e tt
]

-- Whatever a message says: none of the reserved keys is written, the work mode only by the name of a
-- mode that is registered, and the poll interval only between a second and an hour.
pub apply_config_payload-IsAllowed :
    (env : Env) (m : Option Message) → IsAllowed env (apply_config_payload env m).1
unfolding apply_config_payload is_allowed
apply_config_payload-IsAllowed env none = tt
apply_config_payload-IsAllowed env (some m) = elim (Bool-cases env.memory) [
  | inl e ↦ rw e (object_allowed env (config_obj m))
  | inr e ↦ rw e tt
]
