-- ===== src/UdpServer/Guard.antt =====
-- main/protocols/sx_udp_server.c: nothing is changed and nothing restarted without the stored login.
use opensx_serial_server.Prelude.{
  ℕ, ◌≡◌, refl, sym, ap, subst, ◌∙◌, Bool, true, false, ◌&&◌, Option, none, some, List, [], ◌∷◌,
  ◌++◌, if◌then◌else◌, All, Bool-cases, inl, inr, arith,
}
use opensx_serial_server.Prelude.Text.{CString, c_str, str_eq, str_eq_iff}
use opensx_serial_server.UdpServer.Datagram.{
  Node, scalar, object, Message, node_text, Answer, Call, restart, abort, Device, scan, exec, set,
  unknown, device_of,
}
use opensx_serial_server.UdpServer.Session.{
  State, Env, Auth, Login, passed, refused, aborted, Session, auth_session_valid, login,
  compare_login, login_answer, is_aborted,
}
use opensx_serial_server.UdpServer.Handle.{
  info_calls, command_answer, set_answer, device_answer, dispatch, answer, authenticated,
  handle_datagram, Datagram, handle_all,
}

-- The call restarts nothing: neither by a command nor by a failed ESP_ERROR_CHECK.
abbrev pub IsQuiet : Call → Type 0
IsQuiet restart = ⊥
IsQuiet abort = ⊥
IsQuiet _ = Unit

-- The state is as before and nothing restarts.
abbrev pub IsIdle : State → State × List Call → Type 0
IsIdle s r = (r.0 ≡ s) × All IsQuiet r.1

info_calls-IsQuiet : (payload : Option CString) → All IsQuiet (info_calls payload)
info_calls-IsQuiet none = tt
info_calls-IsQuiet (some p) = (tt, tt)

device_answer-IsIdle :
    (env : Env) (auth : Auth) (d : Device) (parm : Option Node) (s : State)
    → auth.auth_ok ≡ false
    → IsIdle s (device_answer env auth d parm s)
unfolding device_answer set_answer
device_answer-IsIdle env auth scan parm s h = (refl, info_calls-IsQuiet env.device_ip)
device_answer-IsIdle env auth exec parm s h = (refl, (tt, tt))
device_answer-IsIdle env auth set none s h = (refl, (tt, tt))
device_answer-IsIdle env auth set (some parm) s h = rw h (refl, (tt, tt))
device_answer-IsIdle env auth unknown parm s h = (refl, tt)

command_answer-IsIdle :
    (env : Env) (auth : Auth) (cmd : CString) (parm : Option Node) (s : State)
    → auth.auth_ok ≡ false
    → IsIdle s (command_answer env auth cmd parm s)
unfolding command_answer
command_answer-IsIdle env auth cmd none s h = (refl, (tt, tt))
command_answer-IsIdle env auth cmd (some (scalar v)) s h = (refl, (tt, tt))
command_answer-IsIdle env auth cmd (some (object parm)) s h =
    elim (Bool-cases (str_eq cmd (c_str "set_device_type"))) [
      | inl e ↦ rw (e, h) (refl, (tt, tt))
      | inr e ↦ rw e (refl, (tt, tt))
    ]

dispatch-IsIdle :
    (env : Env) (auth : Auth) (cmd device : Option CString) (parm : Option Node) (s : State)
    → auth.auth_ok ≡ false
    → IsIdle s (dispatch env auth cmd device parm s)
unfolding dispatch
dispatch-IsIdle env auth (some cmd) device parm s h = command_answer-IsIdle env auth cmd parm s h
dispatch-IsIdle env auth none (some device) parm s h =
    device_answer-IsIdle env auth (device_of device) parm s h
dispatch-IsIdle env auth none none parm s h = elim (Bool-cases auth.auth_payload) [
  | inl e ↦ rw e (refl, (tt, tt))
  | inr e ↦ rw e (refl, tt)
]

answer-IsIdle :
    (env : Env) (auth : Auth) (udpmsg : Option Answer) (m : Message) (s : State)
    → auth.auth_ok ≡ false
    → IsIdle s (answer env auth udpmsg m s)
unfolding answer
answer-IsIdle env auth (some udpmsg) m s h = (refl, (tt, tt))
answer-IsIdle env auth none m s h =
    dispatch-IsIdle env auth (node_text (m.exact (c_str "cmd")))
      (node_text (m.exact (c_str "device"))) (m.loose (c_str "parm")) s h

-- A login that is stored.
pub record HasLogin (name password : CString) (s : State) : Type 0 where
  pub name_stored : s.flash (c_str "lgname") ≡ some name
  pub password_stored : s.flash (c_str "lgpwd") ≡ some password

abbrev NotPassed : Login → Type 0
NotPassed refused = Unit
NotPassed _ = ⊥

refused_login :
    (env : Env) (addr : ℕ) (m : Message) (command_present : Bool) (s s' : State) (result : Login)
    → s' ≡ s
    → NotPassed result
    → IsIdle s (
        if is_aborted result
        then (s', abort ∷ [])
        else answer env
            (login_answer command_present result)
            (login_answer command_present result).udpmsg
            m
            s')
unfolding login_answer
refused_login env addr m command_present s s' passed e n = elim n [ ]
refused_login env addr m command_present s s' aborted e n = elim n [ ]
refused_login env addr m command_present s s' refused e n =
    rw e (answer-IsIdle env (login_answer command_present refused) _ m s refl)

-- The message names the login.
abbrev pub Carries : CString → CString → Message → Type 0
Carries name password m =
    (node_text (m.loose (c_str "username")) ≡ some name)
    × (node_text (m.loose (c_str "password")) ≡ some password)

module _ {name password : CString} where
  same_login :
      (u p : CString) → (str_eq u name && str_eq p password) ≡ true → (u ≡ name) × (p ≡ password)
  same_login u p e = ground (arith, str_eq_iff u name, str_eq_iff p password)

  compare-refused :
      (env : Env) (addr : ℕ) (u p : CString) (s : State)
      → ¬ ((u ≡ name) × (p ≡ password))
      → compare_login env addr u p (some name) password s ≡ (s, refused)
  unfolding compare_login
  compare-refused env addr u p s h = elim (Bool-cases (str_eq u name && str_eq p password)) [
    | inl e ↦ absurd (h (same_login u p e))
    | inr e ↦ ground (arith, e)
  ]

  login-refused :
      (env : Env) (addr : ℕ) (u p : CString) (s : State)
      → env.opens ≡ true
      → HasLogin name password s
      → ¬ ((u ≡ name) × (p ≡ password))
      → ((login env addr u p s).0 ≡ s) × NotPassed (login env addr u p s).1
  unfolding login
  login-refused env addr u p s opens l h =
      let e = l.name_stored in
      let e' = l.password_stored in
      elim (Bool-cases env.reads) [
        | inr bad ↦ rw (opens, bad) (refl, tt)
        | inl reads ↦ simp (opens, reads, e', e, compare-refused env addr u p s h) (refl, tt)
      ]

  authenticated-IsIdle :
      (env : Env) (addr : ℕ) (m : Message) (username pass : Option CString) (s : State)
      → env.opens ≡ true
      → HasLogin name password s
      → ¬ ((username ≡ some name) × (pass ≡ some password))
      → IsIdle s (authenticated env addr m false username pass s)
  unfolding authenticated
  authenticated-IsIdle env addr m (some u) (some p) s o l h =
      let kept = login-refused env addr u p s o l (λ e. h (ap some e.0, ap some e.1)) in
      refused_login env addr m _ s (login env addr u p s).0 (login env addr u p s).1 kept.0 kept.1
  authenticated-IsIdle env addr m (some u) none s o l h = answer-IsIdle env _ none m s refl
  authenticated-IsIdle env addr m none pass s o l h = answer-IsIdle env _ none m s refl

no_session :
    (now addr : ℕ) (s : Session) → s.active ≡ false → auth_session_valid now addr s ≡ (s, false)
unfolding auth_session_valid
no_session now addr s h = ground (arith, h)

-- Whatever the datagram is, it does not carry the login.
abbrev pub Lacks : CString → CString → Option Message → Type 0
Lacks name password none = Unit
Lacks name password (some m) = ¬ (Carries name password m)

handle_datagram-IsIdle :
    (name password : CString) (env : Env) (addr : ℕ) (message : Option Message) (s : State)
    → s.session.active ≡ false
    → env.opens ≡ true
    → HasLogin name password s
    → Lacks name password message
    → IsIdle s (handle_datagram env addr message s)
unfolding handle_datagram
handle_datagram-IsIdle name password env addr none s a o l h = (refl, tt)
handle_datagram-IsIdle name password env addr (some m) s a o l h =
    rw (no_session env.now_us addr s.session a) (authenticated-IsIdle env addr m _ _ s o l h)

All-append-IsQuiet : (xs ys : List Call) → All IsQuiet xs → All IsQuiet ys → All IsQuiet (xs ++ ys)
All-append-IsQuiet [] ys p q = q
All-append-IsQuiet (x ∷ xs) ys p q = (p.0, All-append-IsQuiet xs ys p.1 q)

-- While a login is stored, nobody is logged in and the namespace of the flash opens for every datagram:
-- datagrams that do not carry that login, from any addresses and as many as there are, leave the flash and
-- the session as they are and restart nothing, neither by a command nor by a failed ESP_ERROR_CHECK.
pub handle_all-intruder :
    (name password : CString) (ds : List Datagram) (s : State)
    → s.session.active ≡ false
    → HasLogin name password s
    → All (λ d. d.env.opens ≡ true) ds
    → All (λ d. Lacks name password d.message) ds
    → ((handle_all ds s).0 ≡ s) × All IsQuiet (handle_all ds s).1
unfolding handle_all
handle_all-intruder name password [] s a l o h = (refl, tt)
handle_all-intruder name password (d ∷ ds) s a l o h =
    let idle = handle_datagram-IsIdle name password d.env d.client_addr d.message s a o.0 l h.0 in
    let later = handle_all-intruder name password ds s a l o.1 h.1 in
    (
      ap (λ t. (handle_all ds t).0) idle.0 ∙ later.0,
      All-append-IsQuiet (handle_datagram d.env d.client_addr d.message s).1
          (handle_all ds (handle_datagram d.env d.client_addr d.message s).0).1 idle.1
          (subst (λ t. All IsQuiet (handle_all ds t).1) (sym idle.0) later.1),
    )
