-- ===== src/TcpServer/Table.antt =====
-- main/protocols/sx_tcp_server.c: the table of clients and its count stay consistent.
use opensx_serial_server.Prelude.{
  ℕ, zero, suc, ◌+◌, ◌-◌, ◌≤◌, ◌%◌, ◌^◌, ◌≡◌, refl, sym, ap, subst, ◌∙◌, Bool, true, false, not,
  ◌||◌, Option, none, some, List, [], ◌∷◌, length, get_elem?, set, length-set, All, Bool-cases, inl,
  inr, arith,
}
use opensx_serial_server.Prelude.Int.{ℤ, pos, negsuc, below, to_nat, ◌+ℤ◌}
use opensx_serial_server.TcpServer.{
  Slot, Server, max_clients, free_slot, take_slot, behind, taken, remove_slot, minus_one,
  add_client, remove_client,
}

abbrev pub has : Option ℕ → Bool
has none = false
has (some sock) = true

-- A slot in use has a socket, and one that is free has none.
abbrev pub IsSlot : Slot → Type 0
IsSlot slot = has slot.sock ≡ slot.in_use

abbrev bit : Bool → ℕ
bit true = 1
bit false = 0

-- The number of slots in use.
unfoldable pub used : List Slot → ℕ
used [] = 0
used (slot ∷ slots) = bit slot.in_use + used slots

pub record IsValid (s : Server) : Type 0 where
  pub size : length s.clients ≡ max_clients
  pub slots : All IsSlot s.clients
  pub counted : s.count ≡ pos (used s.clients)

plus_one : (n : ℕ) → n ≤ max_clients → pos n +ℤ pos 1 ≡ pos (n + 1)
plus_one n h = let e : ((n % 2 ^ 32) + 1) % 2 ^ 32 ≡ n + 1 = omega arith in rw e (ground arith)

minus_one-pos : (n m : ℕ) → n ≡ m + 1 → n ≤ max_clients → pos n +ℤ negsuc 0 ≡ pos m
minus_one-pos n m e h =
    let w : ((n % 2 ^ 32) + (2 ^ 32 - 1)) % 2 ^ 32 ≡ m = omega arith in rw w (ground arith)

used-bound : (slots : List Slot) → used slots ≤ length slots
unfolding used
used-bound [] = omega arith
used-bound (slot ∷ slots) = ground (arith, used-bound slots)

pub used-set :
    (slots : List Slot) (i : ℕ) (old new : Slot)
    → get_elem? slots i ≡ some old
    → used (set slots i new) + bit old.in_use ≡ used slots + bit new.in_use
unfolding used
used-set [] i old new e = cc
used-set (slot ∷ slots) zero old new e = ground arith
used-set (slot ∷ slots) (suc i) old new e = omega (arith, used-set slots i old new e)

All-set :
    (P : Slot → Type 0) (slots : List Slot) (i : ℕ) (new : Slot)
    → All P slots
    → P new
    → All P (set slots i new)
All-set P [] i new a p = tt
All-set P (slot ∷ slots) zero new a p = (p, a.1)
All-set P (slot ∷ slots) (suc i) new a p = (a.0, All-set P slots i new a.1 p)

-- The table after one slot changed.
pub set-IsValid :
    (s : Server) (i : ℕ) (old new : Slot) (count : ℤ)
    → IsValid s
    → get_elem? s.clients i ≡ some old
    → IsSlot new
    → count ≡ pos (used (set s.clients i new))
    → IsValid (record { clients = set s.clients i new; count = count })
set-IsValid s i old new count v e w c = record {
  size = length-set s.clients i new ∙ v.size;
  slots = All-set IsSlot s.clients i new v.slots w;
  counted = c;
}

-- What the search for a free slot yields.
pub record Took (new : Slot) (i : ℕ) (slots : List Slot) (j : ℕ) (slots' : List Slot) : Type 0 where
  pub at : ℕ
  pub old : Slot
  pub index : j ≡ i + at
  pub found : get_elem? slots at ≡ some old
  pub was_free : old.in_use ≡ false
  pub written : slots' ≡ set slots at new

abbrev pub TookIf : Slot → ℕ → List Slot → Option (ℕ × List Slot) → Type 0
TookIf new i slots none = used slots ≡ length slots
TookIf new i slots (some (j, slots')) = Took new i slots j slots'

used_none : used [] ≡ 0
unfolding used
used_none = refl

used_busy :
    (slot : Slot) (slots : List Slot) → slot.in_use ≡ true → used (slot ∷ slots) ≡ suc (used slots)
unfolding used
used_busy slot slots h = ground arith

behind-TookIf :
    (new : Slot) (i : ℕ) (slot : Slot) (slots : List Slot) (r : Option (ℕ × List Slot))
    → slot.in_use ≡ true
    → TookIf new (i + 1) slots r
    → TookIf new i (slot ∷ slots) (behind slot r)
behind-TookIf new i slot slots none busy t = used_busy slot slots busy ∙ ap suc t
behind-TookIf new i slot slots (some (j, slots')) busy t = record {
  at = suc t.at;
  old = t.old;
  index = omega (arith, t.index);
  found = t.found;
  was_free = t.was_free;
  written = ap (◌∷◌ slot) t.written;
}

pub take_slot-TookIf :
    (new : Slot) (i : ℕ) (slots : List Slot) → TookIf new i slots (take_slot new i slots)
unfolding take_slot
take_slot-TookIf new i [] = ground (arith, used_none)
take_slot-TookIf new i (slot ∷ slots) = elim (Bool-cases slot.in_use) [
  | inr free ↦ simp free (record {
    at = 0;
    old = slot;
    index = omega arith;
    found = refl;
    was_free = free;
    written = refl;
  })
  | inl busy ↦ simp busy (
      behind-TookIf new i slot slots (take_slot new (i + 1) slots) busy
        (take_slot-TookIf new (i + 1) slots))
]

-- The clients of a valid table fit its size.
pub used-max : (s : Server) → IsValid s → used s.clients ≤ max_clients
used-max s v = omega (arith, used-bound s.clients, v.size)

taken-IsValid :
    (s : Server) (new : Slot) (r : Option (ℕ × List Slot))
    → IsSlot new
    → new.in_use ≡ true
    → IsValid s
    → TookIf new 0 s.clients r
    → IsValid (taken s r).0
taken-IsValid s new none w u v t = v
taken-IsValid s new (some (j, slots')) w u v t =
    subst (λ slots. IsValid (record { clients = slots; count = s.count +ℤ pos 1 })) (sym t.written)
      (set-IsValid s t.at t.old new (s.count +ℤ pos 1) v t.found w (
        ap (λ n. n +ℤ pos 1) v.counted
        ∙ plus_one (used s.clients) (used-max s v)
        ∙ ap pos (ground (arith, used-set s.clients t.at t.old new t.found, t.was_free, u))))

pub add_client-IsValid :
    (s : Server) (sock : ℕ) (handle : Option ℕ) → IsValid s → IsValid (add_client s sock handle).0
unfolding add_client
add_client-IsValid s sock handle v =
    let new : Slot = record { sock = some sock; task_handle = handle; in_use = true } in
    taken-IsValid s new (take_slot new 0 s.clients) refl refl v (take_slot-TookIf new 0 s.clients)

-- A used slot that becomes a free one without a socket.
pub freed-IsValid :
    (s : Server) (i : ℕ) (old new : Slot)
    → IsValid s
    → get_elem? s.clients i ≡ some old
    → old.in_use ≡ true
    → new.in_use ≡ false
    → new.sock ≡ none
    → IsValid (record { clients = set s.clients i new; count = minus_one s.count })
freed-IsValid s i old new v e u f n =
    set-IsValid s i old new (minus_one s.count) v e (ground (arith, f, n)) (
      ap minus_one v.counted
      ∙ minus_one-pos (used s.clients) (used (set s.clients i new))
          (ground (arith, used-set s.clients i old new e)) (used-max s v))

remove_slot-IsValid :
    (i : ℕ) (s : Server) (o : Option Slot)
    → get_elem? s.clients i ≡ o
    → IsValid s
    → IsValid (remove_slot i s o).0
remove_slot-IsValid i s none e v = v
remove_slot-IsValid i s (some slot) e v = elim (Bool-cases slot.in_use) [
  | inl busy ↦ simp busy (freed-IsValid s i slot free_slot v e busy refl refl)
  | inr free ↦ simp free v
]

pub remove_client-IsValid : (s : Server) (index : ℤ) → IsValid s → IsValid (remove_client s index).0
unfolding remove_client
remove_client-IsValid s index v =
    elim (Bool-cases (below index 0 || not (below index max_clients))) [
      | inl out ↦ rw out v
      | inr within ↦
          rw within
            (remove_slot-IsValid (to_nat index) s (get_elem? s.clients (to_nat index)) refl v)
    ]
