-- ===== src/UdpServer/Session.antt =====
-- main/protocols/sx_udp_server.c: `auth_session_*`, and the login of `udp_server_task`.
use opensx_serial_server.Prelude.{
  ℕ, ◌+◌, ◌*◌, Bool, true, false, not, ◌&&◌, Option, none, some, ltb, ◌==◌, if◌then◌else◌,
}
use opensx_serial_server.Prelude.Text.{CString, c_str, str_eq}
use opensx_serial_server.UdpServer.Datagram.{Answer, result_ok, result_failed, auth_failed}

-- `udp_auth_session_t`
pub record Session : Type 0 where
  pub active : Bool
  pub client_addr : ℕ
  pub expires_at_us : ℕ

-- `auth_session_clear`
abbrev pub auth_session_clear : Session
auth_session_clear = record { active = false; client_addr = 0; expires_at_us = 0 }

-- `auth_session_start`, at the time `now`
unfoldable pub auth_session_start : ℕ → ℕ → Session
auth_session_start now client_addr = record {
  active = true;
  client_addr = client_addr;
  expires_at_us = now + 60 * 1000 * 1000;
}

-- `auth_session_valid`, at the time `now`
unfoldable pub auth_session_valid : ℕ → ℕ → Session → Session × Bool
auth_session_valid now client_addr s =
    if not s.active
    then (s, false)
    else if ltb s.expires_at_us now
    then (auth_session_clear, false)
    else (s, s.client_addr == client_addr)

abbrev pub Flash : Type 0
Flash = CString → Option CString

-- `nvs_set_str`
unfoldable pub stored : Flash → CString → CString → Flash
stored flash key value k = if str_eq k key then some value else flash k

-- The static `auth_session` and the flash.
pub record State : Type 0 where
  pub session : Session
  pub flash : Flash

-- What the world answers while a datagram is handled: the time at the check of the session and at the
-- login, whether the namespace opens, whether a key can be read and be set, whether a commit and the
-- allocations of the login succeed, and what `send_device_ip` yields.
pub record Env : Type 0 where
  pub now_us : ℕ
  pub login_us : ℕ
  pub opens : Bool
  pub reads : Bool
  pub sets : CString → Bool
  pub commits : Bool
  pub memory : Bool
  pub device_ip : Option CString

pub data Login : Type 0 where
  passed refused aborted : Login

-- no password is stored: the default login is, by calls under `ESP_ERROR_CHECK`
unfoldable pub store_default_login : Env → State → State × Login
store_default_login env s =
    let named = record s { flash = stored s.flash (c_str "lgname") (c_str "admin") } in
    let both = record named { flash = stored named.flash (c_str "lgpwd") (c_str "12345678") } in
    if not (env.sets (c_str "lgname"))
    then (s, aborted)
    else if not (env.sets (c_str "lgpwd"))
    then (named, aborted)
    else (both, if env.commits then refused else aborted)

-- a password is stored; `malloc` of no byte, for a name that is missing, yields NULL
unfoldable pub compare_login :
    Env → ℕ → CString → CString → Option CString → CString → State → State × Login
compare_login env addr username password none lgpwd s = (s, refused)
compare_login env addr username password (some lgname) lgpwd s =
    if env.memory && (str_eq username lgname && str_eq password lgpwd)
    then (record s { session = auth_session_start env.login_us addr }, passed)
    else (s, refused)

abbrev with_password : Env → ℕ → CString → CString → Option CString → State → State × Login
with_password env addr username password none s = store_default_login env s
with_password env addr username password (some lgpwd) s =
    compare_login env addr username password (s.flash (c_str "lgname")) lgpwd s

-- the login of a message with a user name and a password
unfoldable pub login : Env → ℕ → CString → CString → State → State × Login
login env addr username password s =
    if not env.opens
    then (s, aborted)
    else if not env.reads
    then (s, refused)
    else with_password env addr username password (s.flash (c_str "lgpwd")) s

-- `auth_ok`, `auth_payload` and the answer that is ready already
pub record Auth : Type 0 where
  pub auth_ok : Bool
  pub auth_payload : Bool
  pub udpmsg : Option Answer

-- the answer to a login, and with it whether the command is looked at
unfoldable pub login_answer : Bool → Login → Auth
login_answer command_present passed = record {
  auth_ok = true;
  auth_payload = true;
  udpmsg = if command_present then none else some result_ok;
}
login_answer command_present _ = record {
  auth_ok = false;
  auth_payload = true;
  udpmsg = some (if command_present then auth_failed else result_failed);
}

abbrev pub is_aborted : Login → Bool
is_aborted aborted = true
is_aborted _ = false

abbrev pub is_some {ℓ} : {A : Type ℓ} → Option A → Bool
is_some none = false
is_some (some a) = true
