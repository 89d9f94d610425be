-- ===== src/TcpServer/Deliver.antt =====
-- main/protocols/sx_tcp_server.c: what a broadcast sends, and to whom.
use opensx_serial_server.Prelude.{
  ℕ, ◌≡◌, refl, ap, ◌∙◌, Bool, not, List, [], ◌∷◌, ◌++◌, if◌then◌else◌, length, Bool-cases, inl,
  inr,
}
use opensx_serial_server.TcpServer.{
  Server, max_clients, Call, send, safe_close_socket, Env, broadcast_to_all_clients,
}
use opensx_serial_server.TcpServer.Visits.{Quiet, Visit}
use opensx_serial_server.TcpServer.Sockets.{sockets, calls_of, kept_by, round-sockets}

-- What a broadcast is to do: one send to each client in order, each that fails followed by a close.
pub deliveries : (ℕ → Bool) → List ℕ → List ℕ → List Call
deliveries sends message [] = []
deliveries sends message (sock ∷ socks) =
    send sock message
    ∷ ((if sends sock then [] else safe_close_socket sock ∷ []) ++ deliveries sends message socks)

-- The clients that a broadcast reached.
pub reached : (ℕ → Bool) → List ℕ → List ℕ
reached sends [] = []
reached sends (sock ∷ socks) =
    if sends sock then sock ∷ reached sends socks else reached sends socks

module _ (message : List ℕ) (env : Env) where
  abbrev sending : Visit
  sending sock = (send sock message ∷ [], not (env.sends sock))

  calls_of-deliveries :
      (socks : List ℕ) → calls_of sending socks ≡ deliveries env.sends message socks
  unfolding deliveries
  calls_of-deliveries [] = refl
  calls_of-deliveries (sock ∷ socks) = elim (Bool-cases (env.sends sock)) [
    | inl ok ↦ simp ok (ap (◌∷◌ (send sock message)) (calls_of-deliveries socks))
    | inr failed ↦
        simp failed
          (ap (λ l. send sock message ∷ (safe_close_socket sock ∷ l)) (calls_of-deliveries socks))
  ]

  kept_by-reached : (socks : List ℕ) → kept_by sending socks ≡ reached env.sends socks
  unfolding reached
  kept_by-reached [] = refl
  kept_by-reached (sock ∷ socks) = elim (Bool-cases (env.sends sock)) [
    | inl ok ↦ simp ok (ap (◌∷◌ sock) (kept_by-reached socks))
    | inr failed ↦ simp failed (kept_by-reached socks)
  ]

-- A broadcast that nothing disturbs sends the message once to each connected client, in the order of
-- the slots, and closes exactly the sockets on which that fails; the other clients stay, in order.
pub broadcast-delivers :
    (message : List ℕ) (env : Env) (s : Server)
    → Quiet env
    → length s.clients ≡ max_clients
    → let (s', calls) = broadcast_to_all_clients message env s in
      (calls ≡ deliveries env.sends message (sockets s.clients))
      × (sockets s'.clients ≡ reached env.sends (sockets s.clients))
unfolding broadcast_to_all_clients
broadcast-delivers message env s q l =
    let (c, e) = round-sockets (sending message env) env s q l in
    (
      c ∙ calls_of-deliveries message env (sockets s.clients),
      e ∙ kept_by-reached message env (sockets s.clients),
    )
