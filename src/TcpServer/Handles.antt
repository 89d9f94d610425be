-- ===== src/TcpServer/Handles.antt =====
-- main/protocols/sx_tcp_server.c: the handle of the task of a client, stored by the accept loop.
use mathlib.Core.Option.{some-injective}
use opensx_serial_server.Prelude.{
  ℕ, zero, suc, ◌≡◌, refl, subst, ap, ◌∙◌, Bool, true, false, not, ◌||◌, Option, none, some, List,
  [], ◌∷◌, get_elem?, set, All, Bool-cases, inl, inr, if◌then◌else◌, arith,
}
use opensx_serial_server.Prelude.Int.{ℤ, pos, below, to_nat}
use opensx_serial_server.TcpServer.{Slot, Server, max_clients, handle_slot, set_task_handle}
use opensx_serial_server.TcpServer.Table.{IsSlot, IsValid, set-IsValid, used-set}

All-get :
    (P : Slot → Type 0) (slots : List Slot) (i : ℕ) (slot : Slot)
    → All P slots
    → get_elem? slots i ≡ some slot
    → P slot
All-get P [] i slot a e = cc
All-get P (x ∷ slots) zero slot a e = subst P (some-injective x slot e) a.0
All-get P (x ∷ slots) (suc i) slot a e = All-get P slots i slot a.1 e

handle_slot-IsValid :
    (i : ℕ) (handle : Option ℕ) (s : Server) (o : Option Slot)
    → get_elem? s.clients i ≡ o
    → IsValid s
    → IsValid (handle_slot i handle s o)
handle_slot-IsValid i handle s none e v = v
handle_slot-IsValid i handle s (some slot) e v = stored slot.in_use
  where
    stored :
        (b : Bool)
        → IsValid (
            if b
            then record s { clients = set s.clients i (record slot { task_handle = handle }) }
            else s)
    stored true =
        let new : Slot = record slot { task_handle = handle } in
        set-IsValid s i slot new s.count v e (All-get IsSlot s.clients i slot v.slots e)
          (v.counted ∙ ap pos (omega (arith, used-set s.clients i slot new e)))
    stored false = v

pub set_task_handle-IsValid :
    (s : Server) (client_id : ℤ) (handle : Option ℕ)
    → IsValid s
    → IsValid (set_task_handle s client_id handle)
unfolding set_task_handle
set_task_handle-IsValid s client_id handle v =
    elim (Bool-cases (below client_id 0 || not (below client_id max_clients))) [
      | inl out ↦ rw out v
      | inr within ↦ rw within (
          handle_slot-IsValid (to_nat client_id) handle s (get_elem? s.clients (to_nat client_id))
            refl v)
    ]
