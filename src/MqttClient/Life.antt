-- ===== src/MqttClient/Life.antt =====
-- main/protocols/sx_mqtt_client.c: the client, by its start, its stop, and the events of its connection.
use opensx_serial_server.Prelude.{
  ◌≡◌, refl, Bool, true, false, not, ◌&&◌, ◌||◌, List, [], ◌∷◌, if◌then◌else◌, arith,
}
use opensx_serial_server.Prelude.Text.{CString, c_str}

-- `client != NULL`, `mqtt_actually_connected`, `xMqttHandle != NULL`, and "mqttconn" in the flash
pub record Life : Type 0 where
  pub client : Bool
  pub connected : Bool
  pub sender : Bool
  pub mqttconn : CString

-- What the steps of the start answer.
pub record Begin : Type 0 where
  pub flash : Bool
  pub opens : Bool
  -- the settings are stored, and there is memory for them
  pub stored : Bool
  pub memory : Bool
  pub made : Bool
  pub registered : Bool
  pub started : Bool

-- `mqtt_app_start`; a client that cannot be registered or started is destroyed
unfoldable pub mqtt_app_start : Begin → Life → Life × Bool
mqtt_app_start a s =
    if s.client
    then (s, true)
    else if not a.flash
    then (s, false)
    else if not a.opens
    then (s, false)
    else if not a.stored || not a.memory
    then (s, false)
    else if not a.made
    then (s, false)
    else if not a.registered
    then (record s { client = false }, false)
    else if a.started
    then (record s { client = true }, true)
    else (record s { client = false }, false)

abbrev pub saved_as : Bool → CString → Life → Life
saved_as true value s = record s { mqttconn = value }
saved_as false value s = s

-- `mqtt_app_stop`; whether the flash takes the state
unfoldable pub mqtt_app_stop : Bool → Life → Life
mqtt_app_stop saves s =
    saved_as saves (c_str "0") (record s { sender = false; client = false; connected = false })

-- How the flash answers a write of the state: it is written, it has no space, or it fails.
pub data Write : Type 0 where
  written failed : Write
  -- no space; whether the second write is taken
  full : Bool → Write

abbrev pub write_one : Write → Life → Life
write_one written s = record s { mqttconn = c_str "1" }
write_one failed s = s
write_one (full again) s = saved_as again (c_str "1") s

-- MQTT_EVENT_CONNECTED; `sends` is atoi(nvs_mqtt_send) == 2, `created` whether the task is created
abbrev pub on_connected : Write → Bool → Bool → Life → Life
on_connected w sends created s =
    let s' = write_one w (record s { connected = true }) in
    if sends && not s'.sender then record s' { sender = created } else s'

pub data Event : Type 0 where
  start : Begin → Event
  stop : Bool → Event
  -- events of the client, with whether its settings can be read
  connects : Bool → Write → Bool → Bool → Event
  disconnects : Bool → Bool → Event

-- An event of the connection comes while there is a client.
unfoldable pub mqtt_event : Event → Life → Life
unfolding mqtt_app_start mqtt_app_stop
mqtt_event (start a) s = (mqtt_app_start a s).0
mqtt_event (stop saves) s = mqtt_app_stop saves s
mqtt_event (connects reads w sends created) s =
    if s.client && reads then on_connected w sends created s else s
mqtt_event (disconnects reads saves) s =
    if s.client && reads then saved_as saves (c_str "0") (record s { connected = false }) else s

unfoldable pub mqtt_events : List Event → Life → Life
mqtt_events [] s = s
mqtt_events (e ∷ es) s = mqtt_events es (mqtt_event e s)

-- `is_mqtt_actually_connected`
unfoldable pub is_actually_connected : Life → Bool
is_actually_connected s = if not s.client then false else s.connected

-- `get_mqtt_connection_status`
abbrev pub get_connection_status : Life → Bool
get_connection_status s = s.connected

-- Without a client there is neither a connection nor the task that sends.
abbrev pub IsLife : Life → Type 0
IsLife s = ((not s.client && s.connected) ≡ false) × ((not s.client && s.sender) ≡ false)

step : (e : Event) (s : Life) → IsLife s → IsLife (mqtt_event e s)
unfolding mqtt_event mqtt_app_start mqtt_app_stop
step (start a) s h = (ground (arith, h.0), ground (arith, h.1))
step (stop true) s h = (refl, refl)
step (stop false) s h = (refl, refl)
step (connects reads written sends created) s h = (ground (arith, h.0), ground (arith, h.1))
step (connects reads failed sends created) s h = (ground (arith, h.0), ground (arith, h.1))
step (connects reads (full true) sends created) s h = (ground (arith, h.0), ground (arith, h.1))
step (connects reads (full false) sends created) s h = (ground (arith, h.0), ground (arith, h.1))
step (disconnects reads true) s h = (ground (arith, h.0), ground (arith, h.1))
step (disconnects reads false) s h = (ground (arith, h.0), ground (arith, h.1))

steps : (es : List Event) (s : Life) → IsLife s → IsLife (mqtt_events es s)
unfolding mqtt_events
steps [] s h = h
steps (e ∷ es) s h = steps es (mqtt_event e s) (step e s h)

agree : (s : Life) → IsLife s → is_actually_connected s ≡ get_connection_status s
unfolding is_actually_connected
agree s h = ground (arith, h.0)

-- The statics at the start; the flash may hold the state of an earlier run.
abbrev pub at_start : CString → Life
at_start value = record { client = false; connected = false; sender = false; mqttconn = value }

-- From the start of the program, whatever is started, stopped and received: the two functions that tell
-- whether MQTT is connected agree, and without a client the sending task does not run.
pub mqtt_events-agree :
    (es : List Event) (value : CString)
    → let s = mqtt_events es (at_start value) in
      (is_actually_connected s ≡ get_connection_status s) × ((not s.client && s.sender) ≡ false)
mqtt_events-agree es value =
    let h = steps es (at_start value) (refl, refl) in
    (agree (mqtt_events es (at_start value)) h, h.1)
