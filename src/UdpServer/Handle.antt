-- ===== src/UdpServer/Handle.antt =====
-- main/protocols/sx_udp_server.c: the answer of `udp_server_task` to a datagram.
use opensx_serial_server.Prelude.{
  ℕ, Bool, false, not, ◌||◌, Option, none, some, List, [], ◌∷◌, ◌++◌, if◌then◌else◌,
}
use opensx_serial_server.Prelude.Text.{CString, c_str, str_eq}
use opensx_serial_server.UdpServer.Datagram.{
  Node, scalar, object, Message, member, text_of, node_text, Answer, result_ok, result_failed,
  auth_required, invalid_parm, no_valid_fields, nvs_failure, unsupported_command, internal_error,
  change_ok, change_failed, invalid_network_params, device_info, Call, send, restart, abort, Device,
  scan, exec, set, unknown, device_of,
}
use opensx_serial_server.UdpServer.Session.{
  State, Env, Auth, auth_session_clear, auth_session_valid, login, login_answer, is_aborted,
  is_some,
}
use opensx_serial_server.UdpServer.Save.{
  Saved, Settings, update_device_identity, save_network_settings,
}

-- the answer to an update of the identity
unfoldable pub update_answer : Answer → Answer → Saved → Answer
update_answer done nothing s = if s.ok then (if s.changed then done else nothing) else nvs_failure

-- `cmd` is a string
unfoldable pub command_answer : Env → Auth → CString → Option Node → State → State × List Call
command_answer env auth cmd none s = (
  s,
  send (
        if not (str_eq cmd (c_str "set_device_type"))
        then unsupported_command
        else if not auth.auth_ok
        then auth_required
        else invalid_parm)
      ∷ [],
)
command_answer env auth cmd (some (scalar v)) s = (
  s,
  send (
        if not (str_eq cmd (c_str "set_device_type"))
        then unsupported_command
        else if not auth.auth_ok
        then auth_required
        else invalid_parm)
      ∷ [],
)
command_answer env auth cmd (some (object parm)) s =
    let saved = update_device_identity env (object parm) s.flash in
    if not (str_eq cmd (c_str "set_device_type"))
    then (s, send unsupported_command ∷ [])
    else if not auth.auth_ok
    then (s, send auth_required ∷ [])
    else (
      record s { flash = saved.flash },
      send (update_answer result_ok no_valid_fields saved) ∷ [],
    )

-- `process_exec_request`
unfoldable pub process_exec_request : Env → Option CString → Answer
process_exec_request env none = invalid_parm
process_exec_request env (some parm) =
    if str_eq parm (c_str "device_info")
    then elim env.device_ip [ none ↦ internal_error | some payload ↦ device_info payload ]
    else unsupported_command

abbrev pub or_default : Option CString → CString → CString
or_default (some value) default = value
or_default none default = default

-- the settings that are saved, with the defaults of those that may be missing
unfoldable pub settings_of :
    Node → Option CString → Option CString → Option CString → Option CString → Option Settings
settings_of parm (some name) (some ip) (some mask) (some gateway) = some (record {
  is_dhcp = or_default (text_of (member parm (c_str "is_dhcp"))) (c_str "2");
  name = name;
  ip = ip;
  mask = mask;
  gateway = gateway;
  primary_dns = or_default (text_of (member parm (c_str "primary_dns"))) (c_str "8.8.8.8");
  secondary_dns =
      or_default (text_of (member parm (c_str "secondary_dns"))) (c_str "114.114.114.114");
})
settings_of parm _ _ _ _ = none

unfoldable pub parm_settings : Node → Option Settings
parm_settings parm =
    settings_of parm (text_of (member parm (c_str "name"))) (text_of (member parm (c_str "ip")))
      (text_of (member parm (c_str "mask"))) (text_of (member parm (c_str "gateway")))

-- `network_present`
unfoldable pub network_present : Node → Bool
network_present parm =
    is_some (member parm (c_str "name"))
    || is_some (member parm (c_str "ip"))
    || is_some (member parm (c_str "mask"))
    || is_some (member parm (c_str "gateway"))
    || is_some (member parm (c_str "primary_dns"))
    || is_some (member parm (c_str "secondary_dns"))
    || is_some (member parm (c_str "is_dhcp"))

-- some setting of the network is there
unfoldable pub set_network : Env → Option Settings → State → State × List Call
set_network env none s = (s, send invalid_network_params ∷ [])
set_network env (some n) s =
    let (flash, done) = save_network_settings env n s.flash in
    if done
    then (record { session = auth_session_clear; flash = flash }, send change_ok ∷ restart ∷ [])
    else (record s { flash = flash }, send change_failed ∷ [])

unfoldable pub set_identity : Env → Node → State → State × List Call
set_identity env parm s =
    let saved = update_device_identity env parm s.flash in
    (record s { flash = saved.flash }, send (update_answer change_ok invalid_parm saved) ∷ [])

-- `parm` is there, the sender is authorised, and `command` is the string that it names, if any
unfoldable pub set_parm : Env → Node → Option CString → State → State × List Call
set_parm env parm (some command) s =
    if str_eq command (c_str "reboot")
    then (record s { session = auth_session_clear }, send change_ok ∷ restart ∷ [])
    else (s, send unsupported_command ∷ [])
set_parm env parm none s =
    if network_present parm then set_network env (parm_settings parm) s else set_identity env parm s

unfoldable pub set_answer : Env → Auth → Option Node → State → State × List Call
set_answer env auth none s = (s, send change_failed ∷ [])
set_answer env auth (some parm) s =
    if not auth.auth_ok
    then (s, send change_failed ∷ [])
    else set_parm env parm (text_of (member parm (c_str "command"))) s

abbrev pub info_calls : Option CString → List Call
info_calls none = []
info_calls (some payload) = send (device_info payload) ∷ []

-- `device` is a string
unfoldable pub device_answer : Env → Auth → Device → Option Node → State → State × List Call
device_answer env auth scan parm s = (s, info_calls env.device_ip)
device_answer env auth exec parm s = (s, send (process_exec_request env (node_text parm)) ∷ [])
device_answer env auth set parm s = set_answer env auth parm s
device_answer env auth unknown parm s = (s, [])

-- the answer where `cmd` and `device` are strings or not
unfoldable pub dispatch :
    Env → Auth → Option CString → Option CString → Option Node → State → State × List Call
dispatch env auth (some cmd) device parm s = command_answer env auth cmd parm s
dispatch env auth none (some device) parm s = device_answer env auth (device_of device) parm s
dispatch env auth none none parm s = (
  s,
  if auth.auth_payload then send (if auth.auth_ok then result_ok else result_failed) ∷ [] else [],
)

unfoldable pub answer : Env → Auth → Option Answer → Message → State → State × List Call
answer env auth (some udpmsg) m s = (s, send udpmsg ∷ [])
answer env auth none m s =
    dispatch env auth (node_text (m.exact (c_str "cmd"))) (node_text (m.exact (c_str "device")))
      (m.loose (c_str "parm")) s

-- a message with a user name and a password, or without; `auth_ok` says whether a session is valid
unfoldable pub authenticated :
    Env → ℕ → Message → Bool → Option CString → Option CString → State → State × List Call
authenticated env addr m auth_ok (some username) (some password) s =
    let (s', result) = login env addr username password s in
    let command_present =
      is_some (node_text (m.exact (c_str "cmd")))
      || is_some (node_text (m.exact (c_str "device"))) in
    let auth = login_answer command_present result in
    if is_aborted result then (s', abort ∷ []) else answer env auth auth.udpmsg m s'
authenticated env addr m auth_ok _ _ s =
    answer env (record { auth_ok = auth_ok; auth_payload = false; udpmsg = none }) none m s

-- a datagram; `none` where `cJSON_Parse` refuses it
unfoldable pub handle_datagram : Env → ℕ → Option Message → State → State × List Call
handle_datagram env addr none s = (s, [])
handle_datagram env addr (some m) s =
    let (session, auth_ok) = auth_session_valid env.now_us addr s.session in
    authenticated env addr m auth_ok (node_text (m.loose (c_str "username")))
      (node_text (m.loose (c_str "password"))) (record s { session = session })

pub record Datagram : Type 0 where
  pub env : Env
  pub client_addr : ℕ
  pub message : Option Message

-- the datagrams of a time
unfoldable pub handle_all : List Datagram → State → State × List Call
handle_all [] s = (s, [])
handle_all (d ∷ ds) s =
    let (s', calls) = handle_datagram d.env d.client_addr d.message s in
    let (s'', later) = handle_all ds s' in (s'', calls ++ later)
