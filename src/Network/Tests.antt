-- ===== src/Network/Tests.antt =====
-- The theorems on the network task at concrete events.
use opensx_serial_server.Prelude.{◌≡◌, ◌≢◌, ◌↔◌, refl, true, false, none, List, [], ◌∷◌}
use opensx_serial_server.Prelude.Text.{c_str}
use opensx_serial_server.Prelude.Nvs.{Nvs}
use opensx_serial_server.Protocols.{down, local, external, init}
use opensx_serial_server.Protocols.Inv.{Follows}
use opensx_serial_server.Network.State.{
  IpInfo, Event, World, Env, boot, wifi, wifi_got_ip_evt, wifi_connected_evt, periodic_check,
}
use opensx_serial_server.Network.Handle.{handle_event}
use opensx_serial_server.Network.Inv.{IsBoot, LeavesState, run, at_start, zeroed, run-Follows}
use opensx_serial_server.Network.Classify.{HasLink, Online, check_state}

abbrev no_flash : Nvs
no_flash = record { opens = false; get = λ key. none }

-- every ping is answered, the resolver is silent
abbrev lan : Env
lan = record {
  protocols = record { nvs = no_flash; mqtt_starts = true };
  ap_is_on = false;
  ap_wait = 0;
  ap_remaining = 0;
  ping = λ ip. true;
  resolved = none;
  meanwhile = λ s. s;
}

-- another task loses the WiFi link during the check
abbrev disturbed : Env
disturbed = record lan { meanwhile = λ s. record s { wifi_connected = false } }

abbrev lease : IpInfo
lease = record { ip = c_str "10.0.0.7"; netmask = c_str "255.0.0.0"; gateway = c_str "10.0.0.1" }

abbrev online : World
online = record {
  status = record zeroed {
    active_if = wifi;
    wifi_connected = true;
    wifi_got_ip = true;
    gateway = c_str "10.0.0.1";
  };
  flags = init;
}

abbrev later : List (Env × Event)
later = (lan, wifi_connected_evt) ∷ (lan, wifi_got_ip_evt lease) ∷ (lan, periodic_check) ∷ []

quiet : (e : Event) → (IsBoot e → ⊥) → LeavesState lan × ¬ (IsBoot e)
quiet e h = ((λ s. refl), h)

run-Follows_example :
    let w = run ((lan, boot) ∷ later) at_start in Follows w.status.net_state w.flags
run-Follows_example =
    run-Follows lan later (λ s. refl)
      (
        quiet wifi_connected_evt (λ b. b),
        (quiet (wifi_got_ip_evt lease) (λ b. b), (quiet periodic_check (λ b. b), tt)),
      )

check_state_example :
    let n = (handle_event lan periodic_check online).0.status.net_state in
    (n ≢ down ↔ HasLink lan online.status)
    × (n ≡ external → Online lan)
    × (n ≡ local → ¬ (Online lan))
check_state_example = check_state lan online (λ s. refl)
