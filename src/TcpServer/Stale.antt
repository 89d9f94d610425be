-- ===== src/TcpServer/Stale.antt =====
-- main/protocols/sx_tcp_server.c: two ways in which a connected client is dropped that did nothing
-- wrong.
use opensx_serial_server.Prelude.{
  ℕ, ◌<◌, ◌≡◌, refl, ap, ◌∙◌, true, false, Option, none, some, List, [], ◌∷◌, length, replicate,
  map, lt→ltb,
}
use opensx_serial_server.Prelude.Int.{pos}
use opensx_serial_server.Prelude.Text.{CString, c_str, str_eq}
use opensx_serial_server.TcpServer.{
  Server, max_clients, safe_close_socket, free_slot, Env, add_client, remove_client,
  broadcast_to_all_clients, heartbeat, heartbeat_round, take_slot, each_client,
}
use opensx_serial_server.TcpServer.Hex.{hex_to_bin}
use opensx_serial_server.TcpServer.Visits.{Quiet, Visit}
use opensx_serial_server.TcpServer.Sockets.{sockets, calls_of, kept_by, round-sockets}

-- A table whose one client stands in the first slot.
abbrev pub one_client : ℕ → Option ℕ → Server
one_client sock handle = record {
  clients =
      record { sock = some sock; task_handle = handle; in_use = true } ∷ replicate 5 free_slot;
  count = pos 1;
}

-- A broadcast on which the send to the only client fails frees its slot, and the next connection takes
-- that slot. When the task of the lost client then ends, it removes the slot that it was given, and
-- with it the new client, whose socket is closed.
pub remove_client-stale :
    (lost new : ℕ) (handle : Option ℕ) (message : List ℕ) (env : Env)
    → env.sends lost ≡ false
    → Quiet env
    → let (s1, calls) = broadcast_to_all_clients message env (one_client lost handle) in
      let (s2, index) = add_client s1 new none in
      let (s3, closed) = remove_client s2 (pos 0) in
      (index ≡ some 0)
      × (sockets s2.clients ≡ new ∷ [])
      × (closed ≡ safe_close_socket new ∷ [])
      × (sockets s3.clients ≡ [])
unfolding broadcast_to_all_clients each_client add_client take_slot remove_client sockets
remove_client-stale lost new handle message env f q =
    simp (f, q.again 0, q.alone 0) (refl, refl, refl, refl)

module _ (visit : Visit) (gives_up : (sock : ℕ) → visit sock ≡ ([], true)) where
  calls_of-closes : (socks : List ℕ) → calls_of visit socks ≡ map safe_close_socket socks
  calls_of-closes [] = refl
  calls_of-closes (sock ∷ socks) =
      simp (gives_up sock) (ap (◌∷◌ (safe_close_socket sock)) (calls_of-closes socks))

  kept_by-none : (socks : List ℕ) → kept_by visit socks ≡ []
  kept_by-none [] = refl
  kept_by-none (sock ∷ socks) = simp (gives_up sock) (kept_by-none socks)

unconverted :
    (heart_packet : CString) (env : Env) (sock : ℕ)
    → 0 < length heart_packet
    → hex_to_bin heart_packet 128 ≡ []
    → env.try_again sock ≡ false
    → heartbeat env heart_packet (c_str "hex") sock ≡ ([], true)
unfolding str_eq
unconverted heart_packet env sock l h a = simp (h, a, lt→ltb 0 (length heart_packet) l) refl

-- A heartbeat text that `hex_to_bin` does not convert, in the format "hex", is sent to nobody; but
-- `send_result` keeps its first value -1, so every client is given up and its socket closed, as if a
-- send had failed, unless the last `errno` happens to be EAGAIN.
pub heartbeat_round-unconverted :
    (heart_packet : CString) (env : Env) (s : Server)
    → Quiet env
    → length s.clients ≡ max_clients
    → 0 < length heart_packet
    → hex_to_bin heart_packet 128 ≡ []
    → ((sock : ℕ) → env.try_again sock ≡ false)
    → let (s', calls) = heartbeat_round heart_packet (c_str "hex") env s in
      (calls ≡ map safe_close_socket (sockets s.clients)) × (sockets s'.clients ≡ [])
unfolding heartbeat_round
heartbeat_round-unconverted heart_packet env s q n l h a =
    let visit = heartbeat env heart_packet (c_str "hex") in
    let gives_up = λ (sock : ℕ). unconverted heart_packet env sock l h (a sock) in
    let (c, e) = round-sockets visit env s q n in
    (
      c ∙ calls_of-closes visit gives_up (sockets s.clients),
      e ∙ kept_by-none visit gives_up (sockets s.clients),
    )
