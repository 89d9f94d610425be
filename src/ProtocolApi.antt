-- ===== src/ProtocolApi.antt =====
-- main/protocols/sx_protocol_api.c: what the work modes send by. Data is `none` for NULL; a call that
-- passes data on is a `Call`. Channel compares the choice of the TCP channel with the protocol manager.
pub mod Channel
mod Tests
use opensx_serial_server.Prelude.{
  ℕ, ◌-◌, ◌^◌, Bool, true, false, not, ◌&&◌, ◌||◌, Option, none, some, List, [], ◌∷◌, ltb, ◌==◌,
  if◌then◌else◌,
}
use opensx_serial_server.Prelude.Int.{ℤ, pos, is_nat, below}
use opensx_serial_server.Prelude.Text.{CString, c_str, atoi}
use opensx_serial_server.Prelude.Nvs.{Nvs, nvs_get_str}
use opensx_serial_server.Prelude.Err.{
  EspErr, esp_ok, esp_fail, err_invalid_arg, err_invalid_state, err_not_found,
}

pub record Payload : Type 0 where
  pub bytes : List ℕ
  pub len : ℕ

pub data Call : Type 0 where
  tcp_server_message tcp_client_message : Payload → Call
  -- topic, data, qos, retain
  mqtt_publish : CString → Payload → ℤ → Bool → Call
  -- url, content type, data
  http_post : CString → CString → Payload → Call
  -- host, port, data
  udp_send : CString → ℕ → Payload → Call

-- `validate_payload`; INT_MAX is 2 ^ 31 - 1
unfoldable pub validate_payload : Option Payload → Option Payload
validate_payload none = none
validate_payload (some p) = if (p.len == 0) || ltb (2 ^ 31 - 1) p.len then none else some p

-- `nvs_read_string`, with the text that it leaves in the buffer
abbrev pub text_or_empty : Option CString → CString
text_or_empty none = []
text_or_empty (some text) = text

abbrev pub read_string : Nvs → CString → ℕ → CString
read_string nvs key size = text_or_empty (nvs_get_str nvs key size)

abbrev mode_or_server : CString → ℤ
mode_or_server [] = pos 0
mode_or_server (c ∷ cs) = atoi (c ∷ cs)

-- `read_tcp_mode_from_nvs`; TCP_MODE_SERVER is 0
unfoldable pub read_tcp_mode : Nvs → ℤ
read_tcp_mode nvs =
    if not nvs.opens then pos 0 else mode_or_server (read_string nvs (c_str "tcpconn") 8)

-- a call with valid data, or ESP_ERR_INVALID_ARG
abbrev pub checked : Option Payload → (Payload → EspErr × List Call) → EspErr × List Call
checked none action = (err_invalid_arg, [])
checked (some p) action = action p

-- `sx_protocol_tcp_server_send`, `sx_protocol_tcp_client_send`
unfoldable pub tcp_server_send : Option Payload → EspErr × List Call
tcp_server_send p = checked (validate_payload p) (λ q. (esp_ok, tcp_server_message q ∷ []))

unfoldable pub tcp_client_send : Option Payload → EspErr × List Call
tcp_client_send p = checked (validate_payload p) (λ q. (esp_ok, tcp_client_message q ∷ []))

-- `sx_protocol_tcp_target_t`, and any other value
pub data Target : Type 0 where
  auto server client invalid : Target

-- `sx_protocol_tcp_send`; TCP_MODE_CLIENT is 1
unfoldable pub tcp_send : Nvs → Target → Option Payload → EspErr × List Call
unfolding tcp_server_send tcp_client_send
tcp_send nvs server p = tcp_server_send p
tcp_send nvs client p = tcp_client_send p
tcp_send nvs invalid p = (err_invalid_arg, [])
tcp_send nvs auto p = if is_nat (read_tcp_mode nvs) 1 then tcp_client_send p else tcp_server_send p

-- a text that must be there and not be empty
abbrev pub named : Option CString → Option CString
named none = none
named (some []) = none
named (some (c ∷ cs)) = some (c ∷ cs)

abbrev publish_to : Option CString → ℤ → Bool → ℤ → Payload → EspErr × List Call
publish_to none qos retain msg_id p = (err_invalid_arg, [])
publish_to (some topic) qos retain msg_id p =
    (if below msg_id 0 then esp_fail else esp_ok, mqtt_publish topic p qos retain ∷ [])

-- `sx_protocol_mqtt_publish`; `msg_id` is the answer of `mqtt_publish_topic`
unfoldable pub mqtt_publish_api :
    Option CString → Option Payload → ℤ → Bool → ℤ → EspErr × List Call
mqtt_publish_api topic p qos retain msg_id =
    checked (validate_payload p) (publish_to (named topic) qos retain msg_id)

abbrev pub content_type_of : Option CString → CString
content_type_of none = c_str "application/octet-stream"
content_type_of (some []) = c_str "application/octet-stream"
content_type_of (some (c ∷ cs)) = c ∷ cs

-- `made` says whether `esp_http_client_init` yields a client, `performed` what its request answers
abbrev post_to : CString → Bool → Bool → EspErr → Option CString → Payload → EspErr × List Call
post_to [] enabled made performed content_type p = (err_invalid_state, [])
post_to (c ∷ cs) enabled made performed content_type p =
    if not enabled
    then (err_invalid_state, [])
    else if made
    then (performed, http_post (c ∷ cs) (content_type_of content_type) p ∷ [])
    else (esp_fail, [])

-- `sx_protocol_http_post_configured`; `open_error` is what `nvs_open` answers where it fails
unfoldable pub http_post_configured :
    Nvs → EspErr → Bool → EspErr → Option Payload → Option CString → EspErr × List Call
http_post_configured nvs open_error made performed p content_type =
    checked (validate_payload p) (λ q.
      if not nvs.opens
      then (open_error, [])
      else post_to (read_string nvs (c_str "http_url") 256)
          (is_nat (atoi (read_string nvs (c_str "use_http") 8)) 1) made performed content_type q)

-- What the resolver, `socket` and `sendto` answer.
pub record UdpEnv : Type 0 where
  pub resolves : Bool
  pub socket_made : Bool
  pub sent : ℤ

abbrev send_to : Option CString → ℕ → UdpEnv → Payload → EspErr × List Call
send_to none port env p = (err_invalid_arg, [])
send_to (some host) port env p =
    if port == 0
    then (err_invalid_arg, [])
    else if not env.resolves
    then (err_not_found, [])
    else if not env.socket_made
    then (esp_fail, [])
    else (if is_nat env.sent p.len then esp_ok else esp_fail, udp_send host port p ∷ [])

-- `sx_protocol_udp_send_to`
unfoldable pub udp_send_to : UdpEnv → Option CString → ℕ → Option Payload → EspErr × List Call
udp_send_to env host port p = checked (validate_payload p) (send_to (named host) port env)
