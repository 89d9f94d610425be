-- ===== src/TcpServer/Rounds.antt =====
-- main/protocols/sx_tcp_server.c: the operations that go over the whole table, and any sequence of
-- operations.
use opensx_serial_server.Prelude.{
  ℕ, zero, suc, ◌+◌, ◌≡◌, refl, sym, ap, ◌∙◌, Bool, true, false, Option, none, some, List, [], ◌∷◌,
  length, get_elem?, replicate, All, Bool-cases, inl, inr, arith,
}
use opensx_serial_server.Prelude.Int.{ℤ, pos}
use opensx_serial_server.Prelude.Text.{CString}
use opensx_serial_server.TcpServer.{
  Slot, Server, max_clients, Call, add_client, remove_client, close_slot, close_slots,
  close_all_clients, Env, lose, each_client, Rest, on_relock, on_visit, on_slot, connected,
  broadcast_to_all_clients, heartbeat, init_clients, set_task_handle, free_slot, heartbeat_round,
}
use opensx_serial_server.TcpServer.Table.{
  IsSlot, used, IsValid, freed-IsValid, add_client-IsValid, remove_client-IsValid,
}
use opensx_serial_server.TcpServer.Handles.{set_task_handle-IsValid}

-- What other tasks do while a socket is closed keeps the table in order.
abbrev pub Keeps : Env → Type 0
Keeps env = (i : ℕ) (s : Server) → IsValid s → IsValid (env.meanwhile i s)

abbrev RestKeeps : Rest → Type 0
RestKeeps rest = (s : Server) → IsValid s → IsValid (rest s).0

lose-IsValid :
    (i : ℕ) (s : Server) (o : Option Slot) (sock : ℕ)
    → get_elem? s.clients i ≡ o
    → connected o ≡ some sock
    → IsValid s
    → IsValid (lose i s o)
lose-IsValid i s none sock e c v = v
lose-IsValid i s (some slot) sock e c v = elim (Bool-cases slot.in_use) [
  | inl busy ↦
      freed-IsValid s i slot (record slot { in_use = false; sock = none }) v e busy refl refl
  | inr free ↦ absurd (ground (arith, free))
]

on_visit-IsValid :
    (rest : Rest) (env : Env) (i sock : ℕ) (s : Server) (r : List Call × Bool)
    → RestKeeps rest
    → Keeps env
    → connected (get_elem? s.clients i) ≡ some sock
    → IsValid s
    → IsValid (on_visit rest env i sock s r).0
on_visit-IsValid rest env i sock s (calls, false) k m c v = k s v
on_visit-IsValid rest env i sock s (calls, true) k m c v =
    relocked (env.relocks i) (lose i s (get_elem? s.clients i))
      (lose-IsValid i s (get_elem? s.clients i) sock refl c v)
  where
    relocked : (b : Bool) (s' : Server) → IsValid s' → IsValid (on_relock rest env i s' b).0
    relocked false s' v' = v'
    relocked true s' v' = k (env.meanwhile i s') (m i s' v')

on_slot-IsValid :
    (rest : Rest) (visit : ℕ → List Call × Bool) (env : Env) (i : ℕ) (s : Server) (o : Option ℕ)
    → RestKeeps rest
    → Keeps env
    → connected (get_elem? s.clients i) ≡ o
    → IsValid s
    → IsValid (on_slot rest visit env i s o).0
on_slot-IsValid rest visit env i s none k m c v = k s v
on_slot-IsValid rest visit env i s (some sock) k m c v =
    on_visit-IsValid rest env i sock s (visit sock) k m c v

each_client-IsValid :
    (visit : ℕ → List Call × Bool) (env : Env) (n i : ℕ) (s : Server)
    → Keeps env
    → IsValid s
    → IsValid (each_client visit env n i s).0
unfolding each_client
each_client-IsValid visit env zero i s m v = v
each_client-IsValid visit env (suc n) i s m v =
    on_slot-IsValid (each_client visit env n (i + 1)) visit env i s
      (connected (get_elem? s.clients i)) (λ s' v'. each_client-IsValid visit env n (i + 1) s' m v')
      m refl v

-- The slots that are left have none in use.
record Emptied (slots : List Slot) (slots' : List Slot) : Type 0 where
  size : length slots' ≡ length slots
  slots_ok : All IsSlot slots'
  empty : used slots' ≡ 0

close_slots-Emptied : (slots : List Slot) → All IsSlot slots → Emptied slots (close_slots slots).0
unfolding close_slots used
close_slots-Emptied [] a = record { size = refl; slots_ok = tt; empty = refl }
close_slots-Emptied (slot ∷ slots) a =
    closed slot.sock (close_slots slots) refl a.0 (close_slots-Emptied slots a.1)
  where
    closed :
        (o : Option ℕ) (r : List Slot × List Call)
        → slot.sock ≡ o
        → IsSlot slot
        → Emptied slots r.0
        → Emptied (slot ∷ slots) (close_slot slot o r).0
    closed none (slots', calls) e w t = record {
      size = ap suc t.size;
      slots_ok = (w, t.slots_ok);
      empty = ground (arith, t.empty);
    }
    closed (some sock) (slots', calls) e w t = elim (Bool-cases slot.in_use) [
      | inl busy ↦ simp busy (record {
        size = ap suc t.size;
        slots_ok = (refl, t.slots_ok);
        empty = ground (arith, t.empty);
      })
      | inr free ↦ absurd (ground (arith, free))
    ]

pub close_all_clients-IsValid :
    (locked : Bool) (s : Server) → IsValid s → IsValid (close_all_clients locked s).0
unfolding close_all_clients
close_all_clients-IsValid false s v = v
close_all_clients-IsValid true s v =
    let t = close_slots-Emptied s.clients v.slots in
    record { size = t.size ∙ v.size; slots = t.slots_ok; counted = ap pos (sym t.empty) }

replicate-slots :
    (n : ℕ)
    → let slots = replicate n free_slot in (length slots ≡ n) × All IsSlot slots × (used slots ≡ 0)
unfolding used
replicate-slots zero = (refl, tt, refl)
replicate-slots (suc n) =
    let (l, a, u) = replicate-slots n in (ap suc l, (refl, a), ground (arith, u))

pub init_clients-IsValid : (s : Server) → s.count ≡ pos 0 → IsValid (init_clients s)
unfolding init_clients
init_clients-IsValid s e =
    let (l, a, u) = replicate-slots max_clients in
    record { size = l; slots = a; counted = e ∙ ap pos (sym u) }

-- What the accept loop, the client tasks, the sender, the heartbeat, the stop and the start make of a
-- table, one after the other; a broadcast and a heartbeat with other tasks in between, which in turn
-- make of the table what such steps do. A start is one at a count of zero.
pub data Reach : Server → Server → Type 0 where
  idle : (s : Server) → Reach s s
  adds :
      {s t : Server} (sock : ℕ) (handle : Option ℕ)
      → Reach (add_client s sock handle).0 t
      → Reach s t
  stores :
      {s t : Server} (client_id : ℤ) (handle : Option ℕ)
      → Reach (set_task_handle s client_id handle) t
      → Reach s t
  removes : {s t : Server} (index : ℤ) → Reach (remove_client s index).0 t → Reach s t
  closes : {s t : Server} (locked : Bool) → Reach (close_all_clients locked s).0 t → Reach s t
  broadcasts :
      {s t : Server} (message : List ℕ) (env : Env)
      → ((i : ℕ) (r : Server) → Reach r (env.meanwhile i r))
      → Reach (broadcast_to_all_clients message env s).0 t
      → Reach s t
  beats :
      {s t : Server} (packet format : CString) (env : Env)
      → ((i : ℕ) (r : Server) → Reach r (env.meanwhile i r))
      → Reach (heartbeat_round packet format env s).0 t
      → Reach s t
  starts : {s t : Server} → s.count ≡ pos 0 → Reach (init_clients s) t → Reach s t

-- After any sequence of connections, disconnections, broadcasts, heartbeats, stops and starts, with such
-- operations of other tasks while a broadcast or a heartbeat closes a socket, where each start finds
-- `tcp_client_count` at zero: there are six slots, a slot has a socket exactly where it is in use, and
-- `tcp_client_count` is the number of slots in use, if all this was so before.
pub Reach-IsValid : {s t : Server} → Reach s t → IsValid s → IsValid t
unfolding broadcast_to_all_clients heartbeat_round
Reach-IsValid (idle s) v = v
Reach-IsValid {s} (adds sock handle r) v = Reach-IsValid r (add_client-IsValid s sock handle v)
Reach-IsValid {s} (stores client_id handle r) v =
    Reach-IsValid r (set_task_handle-IsValid s client_id handle v)
Reach-IsValid {s} (removes index r) v = Reach-IsValid r (remove_client-IsValid s index v)
Reach-IsValid {s} (closes locked r) v = Reach-IsValid r (close_all_clients-IsValid locked s v)
Reach-IsValid {s} (broadcasts message env others r) v =
    Reach-IsValid r
      (each_client-IsValid _ env max_clients 0 s (λ i r v. Reach-IsValid (others i r) v) v)
Reach-IsValid {s} (beats packet format env others r) v = Reach-IsValid r (
    each_client-IsValid (heartbeat env packet format) env max_clients 0 s
      (λ i r v. Reach-IsValid (others i r) v) v)
Reach-IsValid {s} (starts empty r) v = Reach-IsValid r (init_clients-IsValid s empty)
