-- ===== src/ApManager/Tests.antt =====
-- The theorems on the access point at concrete times.
use opensx_serial_server.Prelude.{
  ℕ, ◌≡◌, refl, true, false, Option, none, some, List, [], ◌∷◌, arith,
}
use opensx_serial_server.Prelude.Text.{CString, c_str, atoi}
use opensx_serial_server.Prelude.Nvs.{Nvs, nvs_get_str}
use opensx_serial_server.Prelude.Err.{esp_ok}
use opensx_serial_server.ApManager.{
  State, Env, is_wait_time, checked_wait_time, load_ap_wait_time_sec,
}
use opensx_serial_server.ApManager.Wait.{Starts}

abbrev flash : CString → Nvs
flash value = record { opens = true; get = λ k. some value }

abbrev at_time : ℕ → Option ℕ → Env
at_time t clients = record {
  now_us = t;
  creates_timer = true;
  starts_timer = true;
  creates_task = true;
  clients = clients;
  softap = esp_ok;
  nvs = flash (c_str "600");
}

abbrev boot : State
boot = record {
  timer_created = false;
  timer_due = none;
  ap_on = false;
  close_pending = false;
  wait_time_sec = 0;
  close_at_us = 0;
  dns = record { task = false; stop_requested = false; sock = none };
}

ten_minutes : (load_ap_wait_time_sec (flash (c_str "600"))).0 ≡ 600
unfolding load_ap_wait_time_sec nvs_get_str checked_wait_time is_wait_time atoi
ten_minutes = refl

boot-Starts : Starts (at_time 1000 none) 600
boot-Starts = record {
  softap = refl;
  creates = refl;
  starts = refl;
  reads = ten_minutes;
  waits = λ e. omega arith;
}

-- the list cannot be read, then a client is there, then none
abbrev three_expiries : List Env
three_expiries = at_time 10 none ∷ at_time 20 (some 1) ∷ at_time 30 (some 0) ∷ []

abbrev open_point : State
open_point = record boot { ap_on = true; wait_time_sec = 600 }
