-- ===== src/TcpServer/Restart.antt =====
-- main/protocols/sx_tcp_server.c: a start after a stop that did not get the mutex.
use opensx_serial_server.Prelude.{
  ℕ, zero, suc, ◌≡◌, refl, false, not, ◌||◌, Option, none, some, [], get_elem?, replicate,
  Bool-cases, inl, inr, arith,
}
use opensx_serial_server.Prelude.Int.{ℤ, pos, below, to_nat}
use opensx_serial_server.TcpServer.{
  Slot, Server, max_clients, free_slot, init_clients, close_all_clients, remove_slot, remove_client,
  can_accept_client,
}
use opensx_serial_server.TcpServer.Table.{used, IsValid}

free_at :
    (n i : ℕ) (slot : Slot) → get_elem? (replicate n free_slot) i ≡ some slot → slot.in_use ≡ false
free_at zero i slot e = cc
free_at (suc n) zero slot e = ground (arith, e)
free_at (suc n) (suc i) slot e = free_at n i slot e

nothing_removed :
    (i : ℕ) (s : Server) (o : Option Slot)
    → get_elem? (replicate max_clients free_slot) i ≡ o
    → remove_slot i s o ≡ (s, [])
nothing_removed i s none e = refl
nothing_removed i s (some slot) e = rw (free_at max_clients i slot e) refl

remove_client-none :
    (s : Server) (index : ℤ) → remove_client (init_clients s) index ≡ (init_clients s, [])
unfolding remove_client init_clients
remove_client-none s index = elim (Bool-cases (below index 0 || not (below index max_clients))) [
  | inl out ↦ rw out refl
  | inr within ↦ rw within (nothing_removed (to_nat index) (init_clients s) _ refl)
]

-- From a table in order, a stop that does not take the mutex and then a start leave no slot in use, but
-- `tcp_client_count` at the number of clients of before. After that, `remove_client` changes nothing for
-- any index, so the end of an old client's task does not lower the count; and where there were six
-- clients, no connection is let in.
pub restart-stale :
    (s : Server)
    → IsValid s
    → let s' = init_clients (close_all_clients false s).0 in
      (used s'.clients ≡ 0)
      × (s'.count ≡ pos (used s.clients))
      × ((index : ℤ) → remove_client s' index ≡ (s', []))
      × (used s.clients ≡ max_clients → (free_heap : ℕ) → can_accept_client free_heap s' ≡ false)
unfolding init_clients close_all_clients used can_accept_client
restart-stale s v =
    (refl, v.counted, remove_client-none s, λ six free_heap. ground (arith, v.counted, six))
