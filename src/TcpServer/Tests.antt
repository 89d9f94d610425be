-- ===== src/TcpServer/Tests.antt =====
-- The theorems on the TCP server at concrete clients, and runs of the code.
use opensx_serial_server.Prelude.{ℕ, ◌≡◌, refl, true, false, not, none, some, [], ◌∷◌, ◌==◌}
use opensx_serial_server.Prelude.Int.{ℤ, pos}
use opensx_serial_server.Prelude.Text.{c_str}
use opensx_serial_server.TcpServer.{
  safe_close_socket, Env, Server, max_clients, init_clients, close_all_clients, can_accept_client,
  add_client, remove_client, broadcast_to_all_clients,
}
use opensx_serial_server.TcpServer.Hex.{hex_to_bin, skip_prefix}
use opensx_serial_server.TcpServer.Send.{written, try_again, failed, Sent, send_to_client}
use opensx_serial_server.TcpServer.Table.{used, IsValid}
use opensx_serial_server.TcpServer.Rounds.{
  Reach, idle, adds, removes, closes, broadcasts, starts, Reach-IsValid,
}
use opensx_serial_server.TcpServer.Restart.{restart-stale}
use opensx_serial_server.TcpServer.Visits.{Quiet}
use opensx_serial_server.TcpServer.Sockets.{sockets}
use opensx_serial_server.TcpServer.Deliver.{deliveries, reached, broadcast-delivers}
use opensx_serial_server.TcpServer.Stale.{one_client, remove_client-stale}

-- the socket 9 is broken
abbrev quiet_env : Env
quiet_env = record {
  sends = λ sock. not (sock == 9);
  relocks = λ i. true;
  meanwhile = λ i s. s;
  try_again = λ sock. false;
}

quiet_env-Quiet : Quiet quiet_env
quiet_env-Quiet = record { again = λ i. refl; alone = λ i s. refl }

one_client-IsValid : IsValid (one_client 9 none)
unfolding used
one_client-IsValid = record {
  size = refl;
  slots = (refl, (refl, (refl, (refl, (refl, (refl, tt))))));
  counted = refl;
}

abbrev half_sent : Sent
half_sent = record { whole = false; bytes = 1 ∷ 2 ∷ [] }

partial : send_to_client (1 ∷ 2 ∷ 3 ∷ []) (written 2 ∷ try_again ∷ failed ∷ []) ≡ some half_sent
unfolding send_to_client
partial = refl

undisturbed : (i : ℕ) (s : Server) → Reach s (quiet_env.meanwhile i s)
undisturbed i s = idle s

-- a client joins, all are sent a message, one leaves, and the server is stopped and started again
abbrev last_table : Server
last_table =
    init_clients
      (close_all_clients true
        (remove_client
          (broadcast_to_all_clients (1 ∷ []) quiet_env (add_client (one_client 9 none) 4 none).0).0
          (pos 1)).0).0

stop_start : Reach (one_client 9 none) last_table
unfolding close_all_clients
stop_start = adds 4 none (
    broadcasts (1 ∷ []) quiet_env undisturbed
      (removes (pos 1) (closes true (starts refl (idle last_table)))))

Reach-IsValid_example : IsValid last_table
Reach-IsValid_example = Reach-IsValid stop_start one_client-IsValid

restart-stale_example :
    let s' = init_clients (close_all_clients false (one_client 9 none)).0 in
    (used s'.clients ≡ 0)
    × (s'.count ≡ pos (used (one_client 9 none).clients))
    × ((index : ℤ) → remove_client s' index ≡ (s', []))
    × (used (one_client 9 none).clients ≡ max_clients
        → (free_heap : ℕ) → can_accept_client free_heap s' ≡ false)
restart-stale_example = restart-stale (one_client 9 none) one_client-IsValid

room : can_accept_client 30000 (one_client 9 none) ≡ true
unfolding can_accept_client
room = refl

broadcast-delivers_example :
    let (s', calls) = broadcast_to_all_clients (1 ∷ 2 ∷ []) quiet_env (one_client 9 none) in
    (calls ≡ deliveries quiet_env.sends (1 ∷ 2 ∷ []) (sockets (one_client 9 none).clients))
    × (sockets s'.clients ≡ reached quiet_env.sends (sockets (one_client 9 none).clients))
broadcast-delivers_example =
    broadcast-delivers (1 ∷ 2 ∷ []) quiet_env (one_client 9 none) quiet_env-Quiet refl

remove_client-stale_example :
    let (s1, calls) = broadcast_to_all_clients (1 ∷ []) quiet_env (one_client 9 none) in
    let (s2, index) = add_client s1 4 none in
    let (s3, closed) = remove_client s2 (pos 0) in
    (index ≡ some 0)
    × (sockets s2.clients ≡ 4 ∷ [])
    × (closed ≡ safe_close_socket 4 ∷ [])
    × (sockets s3.clients ≡ [])
remove_client-stale_example = remove_client-stale 9 4 none (1 ∷ []) quiet_env refl quiet_env-Quiet

odd_text : hex_to_bin (c_str "ABC") 128 ≡ []
unfolding hex_to_bin skip_prefix
odd_text = refl
