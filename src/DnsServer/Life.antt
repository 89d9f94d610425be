-- ===== src/DnsServer/Life.antt =====
-- main/network/sx_dns_server.c: `start_dns_server` and `stop_dns_server`, as the access point calls them.
use opensx_serial_server.Prelude.{Bool, true, false, Option, none, if◌then◌else◌}
use opensx_serial_server.Prelude.{ℕ}

-- `s_dns_task_handle != NULL`, `s_dns_stop_requested`, `s_dns_sock`
pub record Life : Type 0 where
  pub task : Bool
  pub stop_requested : Bool
  pub sock : Option ℕ

-- `start_dns_server`; `created` is the answer of `xTaskCreate`
unfoldable pub start_dns_server : Bool → Life → Life
start_dns_server created s =
    if s.task then s else record s { stop_requested = false; task = created }

-- `stop_dns_server`
unfoldable pub stop_dns_server : Life → Life
stop_dns_server s = if s.task then record s { stop_requested = true; sock = none } else s
