-- ===== src/TcpServer/Sockets.antt =====
-- main/protocols/sx_tcp_server.c: a round over the table in terms of the connected sockets.
use opensx_serial_server.Prelude.{
  ℕ, ◌≡◌, refl, ap, ◌∙◌, Option, none, some, List, [], ◌∷◌, ◌++◌, if◌then◌else◌, length, Bool-cases,
  inl, inr,
}
use opensx_serial_server.TcpServer.{Slot, Server, max_clients, Call, Env, each_client, connected}
use opensx_serial_server.TcpServer.Visits.{
  Quiet, Visit, visited_slot, close_lost, visited_calls, after_round, round_calls, round-Yields,
}

abbrev pub and_sock : Option ℕ → List ℕ → List ℕ
and_sock none socks = socks
and_sock (some sock) socks = sock ∷ socks

-- The sockets of the clients, in the order of their slots.
unfoldable pub sockets : List Slot → List ℕ
sockets [] = []
sockets (slot ∷ slots) = and_sock (connected (some slot)) (sockets slots)

-- The calls of a round over sockets, and the sockets whose client is kept.
abbrev pub calls_of : Visit → List ℕ → List Call
calls_of visit [] = []
calls_of visit (sock ∷ socks) =
    ((visit sock).0 ++ close_lost sock (visit sock).1) ++ calls_of visit socks

abbrev pub kept_by : Visit → List ℕ → List ℕ
kept_by visit [] = []
kept_by visit (sock ∷ socks) =
    if (visit sock).1 then kept_by visit socks else sock ∷ kept_by visit socks

round_calls-sockets :
    (visit : Visit) (slots : List Slot) → round_calls visit slots ≡ calls_of visit (sockets slots)
unfolding round_calls sockets
round_calls-sockets visit [] = refl
round_calls-sockets visit (slot ∷ slots) =
    one (connected (some slot)) (round_calls-sockets visit slots)
  where
    one :
        (o : Option ℕ)
        → round_calls visit slots ≡ calls_of visit (sockets slots)
        → visited_calls visit o ++ round_calls visit slots
          ≡ calls_of visit (and_sock o (sockets slots))
    one none ih = ih
    one (some sock) ih = ap (λ l. ((visit sock).0 ++ close_lost sock (visit sock).1) ++ l) ih

sockets-after_round :
    (visit : Visit) (slots : List Slot)
    → sockets (after_round visit slots) ≡ kept_by visit (sockets slots)
unfolding after_round sockets
sockets-after_round visit [] = refl
sockets-after_round visit (slot ∷ slots) =
    one (connected (some slot)) refl (sockets-after_round visit slots)
  where
    one :
        (o : Option ℕ)
        → connected (some slot) ≡ o
        → sockets (after_round visit slots) ≡ kept_by visit (sockets slots)
        → and_sock
            (connected (some (visited_slot visit slot o)))
            (sockets (after_round visit slots))
          ≡ kept_by visit (and_sock o (sockets slots))
    one none e ih = rw e ih
    one (some sock) e ih = elim (Bool-cases (visit sock).1) [
      | inl lost ↦ simp lost ih
      | inr kept ↦ simp (kept, e) (ap (◌∷◌ sock) ih)
    ]

-- A round in terms of the sockets.
pub round-sockets :
    (visit : Visit) (env : Env) (s : Server)
    → Quiet env
    → length s.clients ≡ max_clients
    → let (s', calls) = each_client visit env max_clients 0 s in
      (calls ≡ calls_of visit (sockets s.clients))
      × (sockets s'.clients ≡ kept_by visit (sockets s.clients))
round-sockets visit env s q l =
    let (e, c) = round-Yields visit env s q l in
    (c ∙ round_calls-sockets visit s.clients, ap sockets e ∙ sockets-after_round visit s.clients)
