-- ===== src/UdpServer/Stores.antt =====
-- main/protocols/sx_udp_server.c: what the flash holds after a command, and the first login.
use opensx_serial_server.Prelude.{
  ℕ, ◌≡◌, refl, sym, ap, subst, ◌⊎◌, ◌∙◌, Bool, true, false, not, ◌&&◌, none, some, List, [], ◌∷◌,
  if◌then◌else◌, All, inl, inr, arith,
}
use opensx_serial_server.Prelude.Text.{CString, c_str, str_eq}
use opensx_serial_server.UdpServer.Datagram.{change_ok, change_failed, Call, send, restart}
use opensx_serial_server.UdpServer.Session.{
  State, Env, Flash, stored, passed, refused, auth_session_clear, auth_session_start, login,
  compare_login, store_default_login,
}
use opensx_serial_server.UdpServer.Save.{
  Settings, settings_list, nvs_set, set_all, save_network_settings,
}
use opensx_serial_server.UdpServer.Handle.{set_network}

stored_all : List (CString × CString) → Flash → Flash
stored_all [] flash = flash
stored_all ((key, value) ∷ rest) flash = stored_all rest (stored flash key value)

set_all_done :
    (env : Env) (list : List (CString × CString)) (flash : Flash)
    → (set_all env list flash).1 ≡ true
    → (set_all env list flash).0 ≡ stored_all list flash
unfolding set_all stored_all nvs_set
set_all_done env [] flash h = refl
set_all_done env ((key, value) ∷ rest) flash h =
    ground (arith, set_all_done env rest (stored flash key value))

abbrev Differs : CString → CString × CString → Type 0
Differs k item = str_eq k item.0 ≡ false

stored_all-other :
    (k : CString) (list : List (CString × CString)) (flash : Flash)
    → All (Differs k) list
    → stored_all list flash k ≡ flash k
unfolding stored_all stored
stored_all-other k [] flash h = refl
stored_all-other k ((key, value) ∷ rest) flash h =
    stored_all-other k rest (stored flash key value) h.1 ∙ rw h.0 refl

-- The flash holds the settings, and is as before at any other key.
pub record Holds (n : Settings) (before after : Flash) : Type 0 where
  pub is_dhcp : after (c_str "is_dhcp") ≡ some n.is_dhcp
  pub name : after (c_str "host_names") ≡ some n.name
  pub ip : after (c_str "static_ip") ≡ some n.ip
  pub mask : after (c_str "static_netmask") ≡ some n.mask
  pub gateway : after (c_str "static_gateway") ≡ some n.gateway
  pub primary_dns : after (c_str "primary_dns") ≡ some n.primary_dns
  pub secondary_dns : after (c_str "secondary_dns") ≡ some n.secondary_dns
  pub others : (k : CString) → All (Differs k) (settings_list n) → after k ≡ before k

stored_all-Holds :
    (n : Settings) (flash : Flash) → Holds n flash (stored_all (settings_list n) flash)
unfolding stored_all stored str_eq
stored_all-Holds n flash = record {
  is_dhcp = refl;
  name = refl;
  ip = refl;
  mask = refl;
  gateway = refl;
  primary_dns = refl;
  secondary_dns = refl;
  others = λ k h. stored_all-other k (settings_list n) flash h;
}

abbrev saved_result : Bool → Bool → Flash → Flash → Bool → Flash × Bool
saved_result opens commits old new done = if not opens then (old, false) else (new, done && commits)

saved_if :
    (opens commits : Bool) (old new : Flash) (done : Bool)
    → (saved_result opens commits old new done).1 ≡ true
    → (done ≡ true) × ((saved_result opens commits old new done).0 ≡ new)
saved_if true commits old new true h = (refl, refl)
saved_if true commits old new false h = cc
saved_if false commits old new done h = cc

save-Holds :
    (env : Env) (n : Settings) (flash : Flash)
    → (save_network_settings env n flash).1 ≡ true
    → Holds n flash (save_network_settings env n flash).0
unfolding save_network_settings
save-Holds env n flash h =
    let r = set_all env (settings_list n) flash in
    let saved = saved_if env.opens env.commits flash r.0 r.1 h in
    subst (λ f. Holds n flash f) (sym (saved.1 ∙ set_all_done env (settings_list n) flash saved.0))
      (stored_all-Holds n flash)

abbrev network_result : State → Flash → Bool → State × List Call
network_result s after done =
    if done
    then (record { session = auth_session_clear; flash = after }, send change_ok ∷ restart ∷ [])
    else (record s { flash = after }, send change_failed ∷ [])

network_branch :
    (n : Settings) (s : State) (after : Flash) (done : Bool)
    → (done ≡ true → Holds n s.flash after)
    → let (s', calls) = network_result s after done in
      ((calls ≡ send change_ok ∷ restart ∷ [])
        × (s'.session ≡ auth_session_clear)
        × Holds n s.flash s'.flash)
      ⊎ ((calls ≡ send change_failed ∷ []) × (s'.session ≡ s.session))
network_branch n s after true h = inl (refl, refl, h refl)
network_branch n s after false h = inr (refl, refl)

-- A command with the settings of the network either stores all seven of them, changes no other key,
-- ends the session, and restarts the device; or is answered by `failed`, leaves the session, and does
-- not restart.
pub set_network-stores :
    (env : Env) (n : Settings) (s : State)
    → let (s', calls) = set_network env (some n) s in
      ((calls ≡ send change_ok ∷ restart ∷ [])
        × (s'.session ≡ auth_session_clear)
        × Holds n s.flash s'.flash)
      ⊎ ((calls ≡ send change_failed ∷ []) × (s'.session ≡ s.session))
unfolding set_network
set_network-stores env n s =
    let (flash, done) = save_network_settings env n s.flash in
    network_branch n s flash done (save-Holds env n s.flash)

-- The flash answers and takes what is written, and there is memory.
pub record Writes (env : Env) : Type 0 where
  pub opens : env.opens ≡ true
  pub reads : env.reads ≡ true
  pub memory : env.memory ≡ true
  pub sets : (k : CString) → env.sets k ≡ true
  pub commits : env.commits ≡ true

abbrev with_default : State → State
with_default s = record s {
  flash =
      stored (stored s.flash (c_str "lgname") (c_str "admin")) (c_str "lgpwd") (c_str "12345678");
}

first_refused :
    (env : Env) (addr : ℕ) (username password : CString) (s : State)
    → Writes env
    → s.flash (c_str "lgpwd") ≡ none
    → login env addr username password s ≡ (with_default s, refused)
unfolding login store_default_login
first_refused env addr username password s w missing =
    simp (w.opens, w.reads, w.sets, w.commits, missing) refl

second_passed :
    (env : Env) (addr : ℕ) (s : State)
    → Writes env
    → login env addr (c_str "admin") (c_str "12345678") (with_default s)
      ≡ (record (with_default s) { session = auth_session_start env.login_us addr }, passed)
unfolding login compare_login stored str_eq
second_passed env addr s w = simp (w.opens, w.reads, w.memory) refl

-- On a device that stores no password, the first login is refused, the default one included, and
-- leaves the default one stored; the same login with `admin` and `12345678` passes from then on.
pub first_login-refused :
    (env later : Env) (addr : ℕ) (username password : CString) (s : State)
    → Writes env
    → Writes later
    → s.flash (c_str "lgpwd") ≡ none
    → let (s', first) = login env addr username password s in
      (first ≡ refused) × ((login later addr (c_str "admin") (c_str "12345678") s').1 ≡ passed)
first_login-refused env later addr username password s w w' missing =
    rw (first_refused env addr username password s w missing)
      (refl, ap (λ r. r.1) (second_passed later addr s w'))
