-- ===== src/Modes/EchoTest.antt =====
-- main/modes/mode_protocol_test.c: data from TCP and MQTT is sent back.
use opensx_serial_server.Prelude.{
  ℕ, zero, suc, Bool, true, false, Option, none, some, List, [], ◌∷◌, if◌then◌else◌,
}
use opensx_serial_server.Prelude.Int.{ℤ, pos, is_nat}
use opensx_serial_server.Prelude.Text.{CString, c_str, atoi, truncate}
use opensx_serial_server.Prelude.Nvs.{Nvs, nvs_get_str}
use opensx_serial_server.Prelude.Err.{EspErr, esp_ok, err_no_mem, err_invalid_state}
use opensx_serial_server.ProtocolApi.{Payload, Call, auto, tcp_send, mqtt_publish_api, read_string}

-- `s_http_test_task != NULL` and `s_http_test_stop`
pub record State : Type 0 where
  pub task : Bool
  pub stop_requested : Bool

-- `mode_protocol_test_start`
unfoldable pub start : Bool → State → State × EspErr
start makes_task s = if s.task then (s, esp_ok) else (
  record { task = makes_task; stop_requested = false },
  if makes_task then esp_ok else err_no_mem,
)

-- the waits of `mode_protocol_test_stop`: 60 of 100 ms; the task ends after some of them
unfoldable pub wait_exit : ℕ → ℕ → State → State × ℕ
wait_exit zero ends_after s = (s, 0)
wait_exit (suc i) zero s = (record { task = false; stop_requested = s.stop_requested }, 0)
wait_exit (suc i) (suc ends_after) s =
    let rest = wait_exit i ends_after s in if s.task then (rest.0, suc rest.1) else (s, 0)

-- `mode_protocol_test_stop`, with the number of waits
unfoldable pub stop : ℕ → State → State × ℕ
stop ends_after s = wait_exit 60 ends_after (record s { stop_requested = true })

-- `mode_protocol_test_on_tcp_data`
unfoldable pub on_tcp_data : Nvs → Option Payload → EspErr × List Call
on_tcp_data nvs p = tcp_send nvs auto p

abbrev int_or : Option CString → ℤ → ℤ
int_or none fallback = fallback
int_or (some value) fallback = atoi value

-- `nvs_read_int`
unfoldable pub nvs_read_int : Nvs → CString → ℤ → ℤ
nvs_read_int nvs key fallback = int_or (nvs_get_str nvs key 16) fallback

-- the configured topic, or else the one that the message came with
unfoldable pub echo_topic : CString → Option CString → CString
echo_topic (c ∷ cs) topic = c ∷ cs
echo_topic [] none = []
echo_topic [] (some topic) = truncate 127 topic

abbrev pub publish_echo : CString → Option Payload → ℤ → Bool → ℤ → EspErr × List Call
publish_echo [] p qos retain msg_id = (err_invalid_state, [])
publish_echo (c ∷ cs) p qos retain msg_id = mqtt_publish_api (some (c ∷ cs)) p qos retain msg_id

-- `mode_protocol_test_on_mqtt_data`
unfoldable pub on_mqtt_data : Nvs → ℤ → Option CString → Option Payload → EspErr × List Call
on_mqtt_data nvs msg_id topic p =
    if nvs.opens
    then publish_echo (echo_topic (read_string nvs (c_str "mqtt_sub_topic") 128) topic) p
        (nvs_read_int nvs (c_str "qos") (pos 0))
        (is_nat (nvs_read_int nvs (c_str "retain") (pos 0)) 1) msg_id
    else publish_echo (echo_topic [] topic) p (pos 0) false msg_id
