-- ===== src/UdpServer/Login.antt =====
-- main/protocols/sx_udp_server.c: what a login allows, to whom and how long.
use opensx_serial_server.Prelude.{
  ℕ, ◌+◌, ◌≡◌, refl, ap, true, ◌&&◌, none, some, [], ◌∷◌, leb, ◌==◌, if◌then◌else◌, Bool-cases, inl,
  inr, arith,
}
use opensx_serial_server.Prelude.Text.{CString, c_str, str_eq, str_eq_iff}
use opensx_serial_server.UdpServer.Datagram.{
  Node, Message, member, text_of, node_text, change_ok, change_failed, result_ok, send, restart,
  device_of,
}
use opensx_serial_server.UdpServer.Session.{
  State, Env, passed, auth_session_start, auth_session_valid, login, compare_login, login_answer,
}
use opensx_serial_server.UdpServer.Handle.{
  set_answer, set_parm, device_answer, dispatch, answer, authenticated, handle_datagram,
}

-- A message with a login and no command.
pub record IsLogin (name password : CString) (m : Message) : Type 0 where
  pub username : node_text (m.loose (c_str "username")) ≡ some name
  pub password_text : node_text (m.loose (c_str "password")) ≡ some password
  pub no_cmd : node_text (m.exact (c_str "cmd")) ≡ none
  pub no_device : node_text (m.exact (c_str "device")) ≡ none

-- A command to restart, without a login.
pub record IsReboot (parm : Node) (m : Message) : Type 0 where
  pub no_username : node_text (m.loose (c_str "username")) ≡ none
  pub no_cmd : node_text (m.exact (c_str "cmd")) ≡ none
  pub set_device : node_text (m.exact (c_str "device")) ≡ some (c_str "set")
  pub parm_there : m.loose (c_str "parm") ≡ some parm
  pub reboots : text_of (member parm (c_str "command")) ≡ some (c_str "reboot")

-- The flash answers, and there is memory.
pub record Works (env : Env) : Type 0 where
  pub opens : env.opens ≡ true
  pub reads : env.reads ≡ true
  pub memory : env.memory ≡ true

str_eq_self : (s : CString) → str_eq s s ≡ true
str_eq_self s = (str_eq_iff s s).1 refl

login-passed :
    (env : Env) (addr : ℕ) (name password : CString) (s : State)
    → Works env
    → s.flash (c_str "lgname") ≡ some name
    → s.flash (c_str "lgpwd") ≡ some password
    → login env addr name password s
      ≡ (record s { session = auth_session_start env.login_us addr }, passed)
unfolding login compare_login
login-passed env addr name password s w n p =
    simp (w.opens, w.reads, w.memory, p, n, str_eq_self name, str_eq_self password) refl

-- A login alone is answered, and starts a session.
login-answered :
    (env : Env) (addr : ℕ) (name password : CString) (m : Message) (s : State)
    → Works env
    → s.flash (c_str "lgname") ≡ some name
    → s.flash (c_str "lgpwd") ≡ some password
    → IsLogin name password m
    → handle_datagram env addr (some m) s
      ≡ (record s { session = auth_session_start env.login_us addr }, send result_ok ∷ [])
unfolding handle_datagram authenticated login_answer answer
login-answered env addr name password m s w n p l =
    simp
      (
        l.username,
        l.password_text,
        l.no_cmd,
        l.no_device,
        login-passed env addr name password
            (record s { session = (auth_session_valid env.now_us addr s.session).0 }) w n p,
      )
      refl

reboot_command :
    (env : Env) (addr : ℕ) (parm : Node) (m : Message) (s : State)
    → IsReboot parm m
    → (handle_datagram env addr (some m) s).1 ≡ (
        if (auth_session_valid env.now_us addr s.session).1
        then send change_ok ∷ restart ∷ []
        else send change_failed ∷ [])
unfolding handle_datagram authenticated answer dispatch device_answer device_of set_answer set_parm
    str_eq
reboot_command env addr parm m s r =
    elim (Bool-cases (auth_session_valid env.now_us addr s.session).1) [
      | inl e ↦ simp (r.no_username, r.no_cmd, r.set_device, r.parm_there, r.reboots, e) refl
      | inr e ↦ simp (r.no_username, r.no_cmd, r.set_device, r.parm_there, r.reboots, e) refl
    ]

session_lasts :
    (start now addr other : ℕ)
    → (auth_session_valid now other (auth_session_start start addr)).1
      ≡ (addr == other && leb now (start + 60000000))
unfolding auth_session_valid auth_session_start
session_lasts start now addr other = ground arith

-- While the flash opens and can be read and there is memory for the login: a login that matches the
-- stored one is answered, and a command to restart that comes next, without a
-- login, restarts the device exactly when it comes from the address of the login, at most sixty seconds
-- after it; any other is answered by `failed` alone.
pub login-allows :
    (env later : Env) (addr other : ℕ) (name password : CString) (m n : Message) (parm : Node)
    (s : State)
    → Works env
    → s.flash (c_str "lgname") ≡ some name
    → s.flash (c_str "lgpwd") ≡ some password
    → IsLogin name password m
    → IsReboot parm n
    → let (s', calls) = handle_datagram env addr (some m) s in
      (calls ≡ send result_ok ∷ [])
      × ((handle_datagram later other (some n) s').1 ≡ (
          if addr == other && leb later.now_us (env.login_us + 60000000)
          then send change_ok ∷ restart ∷ []
          else send change_failed ∷ []))
login-allows env later addr other name password m n parm s w ln lp l r =
    rw (login-answered env addr name password m s w ln lp l) (
      refl,
      rw
          (reboot_command later other parm n
            (record s { session = auth_session_start env.login_us addr }) r)
          (ap (λ b. if b then send change_ok ∷ restart ∷ [] else send change_failed ∷ [])
            (session_lasts env.login_us later.now_us addr other)),
    )
