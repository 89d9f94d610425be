-- ===== src/TcpServer/Accept.antt =====
-- main/protocols/sx_tcp_server.c: a new connection.
use opensx_serial_server.Prelude.{
  ℕ, ◌<◌, ◌≡◌, ap, true, false, Option, none, some, List, length, get_elem?, set, arith,
}
use opensx_serial_server.TcpServer.{Slot, Server, take_slot, taken, add_client, can_accept_client}
use opensx_serial_server.TcpServer.Table.{used, IsValid, TookIf, take_slot-TookIf}

-- The slot of a new client.
abbrev pub new_slot : ℕ → Option ℕ → Slot
new_slot sock handle = record { sock = some sock; task_handle = handle; in_use = true }

-- The new client has a slot that was free, and no other slot is touched.
pub record Accepted (s : Server) (sock : ℕ) (handle : Option ℕ) (r : Server × Option ℕ)
    : Type 0 where
  pub index : ℕ
  pub old : Slot
  pub answers : r.1 ≡ some index
  pub found : get_elem? s.clients index ≡ some old
  pub was_free : old.in_use ≡ false
  pub written : r.0.clients ≡ set s.clients index (new_slot sock handle)

accepted :
    (s : Server) (sock : ℕ) (handle : Option ℕ) (r : Option (ℕ × List Slot))
    → used s.clients < length s.clients
    → TookIf (new_slot sock handle) 0 s.clients r
    → Accepted s sock handle (taken s r)
accepted s sock handle none h t = absurd (omega (arith, t))
accepted s sock handle (some (j, slots)) h t = record {
  index = t.at;
  old = t.old;
  answers = ap some (omega (arith, t.index));
  found = t.found;
  was_free = t.was_free;
  written = t.written;
}

accepting-room :
    (s : Server) (free_heap : ℕ)
    → IsValid s
    → can_accept_client free_heap s ≡ true
    → used s.clients < length s.clients
unfolding can_accept_client
accepting-room s free_heap v h = ground (arith, v.size, v.counted)

-- Where `tcp_server_can_accept_client` lets a connection in, `add_client` has a slot for it: one that
-- was free, all others left as they were. So an accepted connection is never turned away for want of
-- a slot, and no client is overwritten.
pub add_client-Accepted :
    (s : Server) (free_heap sock : ℕ) (handle : Option ℕ)
    → IsValid s
    → can_accept_client free_heap s ≡ true
    → Accepted s sock handle (add_client s sock handle)
unfolding add_client
add_client-Accepted s free_heap sock handle v h =
    accepted s sock handle (take_slot (new_slot sock handle) 0 s.clients)
      (accepting-room s free_heap v h) (take_slot-TookIf (new_slot sock handle) 0 s.clients)
