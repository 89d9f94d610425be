-- ===== src/UdpServer/Tests.antt =====
-- The theorems on the UDP server at concrete messages, and runs of the code.
use opensx_serial_server.Prelude.{
  ℕ, ◌+◌, ◌≡◌, refl, true, false, ◌&&◌, Option, none, some, List, [], ◌∷◌, ◌++◌, leb, ◌==◌,
  if◌then◌else◌, All,
}
use opensx_serial_server.Prelude.Text.{CString, c_str, str_eq}
use opensx_serial_server.Protocols.{NetState, down, local, external, on_network_state, init}
use opensx_serial_server.Protocols
use opensx_serial_server.UdpServer.Datagram.{
  text, Node, scalar, object, Message, send, restart, result_ok, change_ok, change_failed,
}
use opensx_serial_server.UdpServer.Session.{State, Env, Flash, auth_session_clear}
use opensx_serial_server.UdpServer.Save.{Settings, save_network_settings, set_all, nvs_set}
use opensx_serial_server.UdpServer.Handle.{Datagram, handle_datagram, handle_all, set_network}
use opensx_serial_server.UdpServer.Guard.{IsQuiet, HasLogin, Lacks, handle_all-intruder}
use opensx_serial_server.UdpServer.Login.{IsLogin, IsReboot, Works, login-allows}
use opensx_serial_server.UdpServer.Stores.{Writes}
use opensx_serial_server.UdpServer.Life.{Life, ended, over, live_all, udp_events}
use opensx_serial_server.UdpServer.Restart.{on_network_state-restart}

abbrev at_time : ℕ → Env
at_time t = record {
  now_us = t;
  login_us = t;
  opens = true;
  reads = true;
  sets = λ k. true;
  commits = true;
  memory = true;
  device_ip = none;
}

abbrev find : List (CString × Node) → CString → Option Node
find [] key = none
find ((k, v) ∷ rest) key = if str_eq k key then some v else find rest key

abbrev message : List (CString × Node) → Message
message members = record { exact = find members; loose = find members }

abbrev reboot_parm : Node
reboot_parm = object (record {
  exact = λ k. if str_eq k (c_str "command") then some (text (c_str "reboot")) else none;
  loose = λ k. if str_eq k (c_str "command") then some (text (c_str "reboot")) else none;
})

abbrev reboot_message : Message
reboot_message =
    message ((c_str "device", scalar (text (c_str "set"))) ∷ (c_str "parm", reboot_parm) ∷ [])

abbrev login_message : CString → Message
login_message password = message (
    (c_str "username", scalar (text (c_str "admin")))
    ∷ (c_str "password", scalar (text password))
    ∷ [])

abbrev owner_flash : Flash
owner_flash k =
    if str_eq k (c_str "lgname")
    then some (c_str "admin")
    else if str_eq k (c_str "lgpwd")
    then some (c_str "secret")
    else none

abbrev owned : State
owned = record { session = auth_session_clear; flash = owner_flash }

owned-HasLogin : HasLogin (c_str "admin") (c_str "secret") owned
unfolding str_eq
owned-HasLogin = record { name_stored = refl; password_stored = refl }

abbrev attempts : List Datagram
attempts =
    (record { env = at_time 5; client_addr = 7; message = some reboot_message })
    ∷ (record { env = at_time 9; client_addr = 7; message = none })
    ∷ []

reboot-Lacks : Lacks (c_str "admin") (c_str "secret") (some reboot_message)
unfolding str_eq
reboot-Lacks h = cc h.0

handle_all-intruder_example :
    ((handle_all attempts owned).0 ≡ owned) × All IsQuiet (handle_all attempts owned).1
handle_all-intruder_example =
    handle_all-intruder (c_str "admin") (c_str "secret") attempts owned refl owned-HasLogin
      (refl, (refl, tt)) (reboot-Lacks, (tt, tt))

logs_in : IsLogin (c_str "admin") (c_str "secret") (login_message (c_str "secret"))
unfolding str_eq
logs_in = record { username = refl; password_text = refl; no_cmd = refl; no_device = refl }

asks-IsReboot : IsReboot reboot_parm reboot_message
unfolding str_eq
asks-IsReboot = record {
  no_username = refl;
  no_cmd = refl;
  set_device = refl;
  parm_there = refl;
  reboots = refl;
}

at_time-Works : Works (at_time 5)
at_time-Works = record { opens = refl; reads = refl; memory = refl }

login-allows_example :
    let (s', calls) = handle_datagram (at_time 5) 7 (some (login_message (c_str "secret"))) owned in
    (calls ≡ send result_ok ∷ [])
    × ((handle_datagram (at_time 60000006) 7 (some reboot_message) s').1 ≡ (
        if 7 == 7 && leb 60000006 (5 + 60000000)
        then send change_ok ∷ restart ∷ []
        else send change_failed ∷ []))
login-allows_example =
    login-allows (at_time 5) (at_time 60000006) 7 7 (c_str "admin") (c_str "secret")
      (login_message (c_str "secret")) reboot_message reboot_parm owned at_time-Works
      owned-HasLogin.name_stored owned-HasLogin.password_stored logs_in asks-IsReboot

abbrev settings : Settings
settings = record {
  is_dhcp = c_str "2";
  name = c_str "box";
  ip = c_str "10.0.0.2";
  mask = c_str "255.0.0.0";
  gateway = c_str "10.0.0.1";
  primary_dns = c_str "8.8.8.8";
  secondary_dns = c_str "114.114.114.114";
}

settings_stored : (set_network (at_time 5) (some settings) owned).1 ≡ send change_ok ∷ restart ∷ []
unfolding set_network save_network_settings set_all nvs_set
settings_stored = refl

abbrev fresh : State
fresh = record { session = auth_session_clear; flash = λ k. none }

at_time-Writes : (t : ℕ) → Writes (at_time t)
at_time-Writes t = record {
  opens = refl;
  reads = refl;
  memory = refl;
  sets = λ k. refl;
  commits = refl;
}

abbrev empty_nvs : Protocols.Env
empty_nvs = record { nvs = record { opens = true; get = λ k. none }; mqtt_starts = true }

abbrev serving : Life
serving = record { task = true; stop_requested = false; sock = some 3 }

on_network_state-restart_example :
    let (s', stops) =
      on_network_state empty_nvs local down (record init { local_started = true }) in
    let (s'', starts) = on_network_state empty_nvs down local s' in
    (s''.local_started ≡ true)
    × (live_all (udp_events stops ++ (ended ∷ udp_events starts)) serving
        ≡ record { task = true; stop_requested = false; sock = none })
    × (live_all (udp_events stops ++ (udp_events starts ++ ended ∷ [])) serving ≡ over)
on_network_state-restart_example =
    on_network_state-restart empty_nvs empty_nvs local (record init { local_started = true })
      serving refl refl refl
