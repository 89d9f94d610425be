-- ===== src/TcpServer/Visits.antt =====
-- main/protocols/sx_tcp_server.c: a round over the table (`each_client`) in terms of the sockets.
use opensx_serial_server.Prelude.{
  ℕ, ◌+◌, ◌≡◌, refl, sym, ap, subst, ◌∙◌, Bool, true, false, Option, none, some, List, [], ◌∷◌,
  ◌++◌, append_assoc, append-nil, length, get_elem?, set, length-append, arith, map,
}
use opensx_serial_server.TcpServer.{
  Slot, Server, max_clients, Call, safe_close_socket, Env, give_up, lose, each_client, Rest,
  on_relock, on_visit, on_slot, connected, prepend,
}

-- Nothing comes between the parts of a round.
pub record Quiet (env : Env) : Type 0 where
  pub again : (i : ℕ) → env.relocks i ≡ true
  pub alone : (i : ℕ) (s : Server) → env.meanwhile i s ≡ s

-- A slot after the visit of its client, and the calls of the visit.
abbrev pub Visit : Type 0
Visit = ℕ → List Call × Bool

abbrev pub slot_left : Slot → Bool → Slot
slot_left slot false = slot
slot_left slot true = record slot { in_use = false; sock = none }

abbrev pub visited_slot : Visit → Slot → Option ℕ → Slot
visited_slot visit slot none = slot
visited_slot visit slot (some sock) = slot_left slot (visit sock).1

abbrev pub close_lost : ℕ → Bool → List Call
close_lost sock true = safe_close_socket sock ∷ []
close_lost sock false = []

abbrev pub visited_calls : Visit → Option ℕ → List Call
visited_calls visit none = []
visited_calls visit (some sock) = (visit sock).0 ++ close_lost sock (visit sock).1

unfoldable pub after_round : Visit → List Slot → List Slot
after_round visit slots = map (λ slot. visited_slot visit slot (connected (some slot))) slots

unfoldable pub round_calls : Visit → List Slot → List Call
round_calls visit [] = []
round_calls visit (slot ∷ slots) =
    visited_calls visit (connected (some slot)) ++ round_calls visit slots

get_elem?-at :
    (xs : List Slot) (y : Slot) (ys : List Slot) → get_elem? (xs ++ y ∷ ys) (length xs) ≡ some y
get_elem?-at [] y ys = refl
get_elem?-at (x ∷ xs) y ys = get_elem?-at xs y ys

set-at :
    (xs : List Slot) (y z : Slot) (ys : List Slot) → set (xs ++ y ∷ ys) (length xs) z ≡ xs ++ z ∷ ys
set-at [] y z ys = refl
set-at (x ∷ xs) y z ys = ap (◌∷◌ x) (set-at xs y z ys)

-- The table and the calls of a round, as an equation.
abbrev pub Yields : Server × List Call → List Slot → List Call → Type 0
Yields (s, calls) slots wanted = (s.clients ≡ slots) × (calls ≡ wanted)

prepend-Yields :
    (calls : List Call) (r : Server × List Call) (slots : List Slot) (wanted : List Call)
    → Yields r slots wanted
    → Yields (prepend calls r) slots (calls ++ wanted)
prepend-Yields calls (s, later) slots wanted (e, c) = (e, ap (λ l. calls ++ l) c)

module _ (visit : Visit) (env : Env) (quiet : Quiet env) where
  -- The rest of a round does its part behind the slots `xs` and one more.
  abbrev NextYields : Rest → List Slot → List Slot → Type 0
  NextYields next xs rest =
      (slot' : Slot) (s' : Server)
      → s'.clients ≡ xs ++ slot' ∷ rest
      → Yields (next s') (xs ++ slot' ∷ after_round visit rest) (round_calls visit rest)

  relock-Yields :
      (next : Rest) (xs : List Slot) (slot' : Slot) (rest : List Slot) (i : ℕ) (s' : Server)
      → NextYields next xs rest
      → s'.clients ≡ xs ++ slot' ∷ rest
      → Yields
          (on_relock next env i s' (env.relocks i))
          (xs ++ slot' ∷ after_round visit rest)
          (round_calls visit rest)
  relock-Yields next xs slot' rest i s' n e =
      subst
        (λ b.
          Yields (on_relock next env i s' b) (xs ++ slot' ∷ after_round visit rest)
            (round_calls visit rest))
        (sym (quiet.again i))
        (subst
          (λ t. Yields (next t) (xs ++ slot' ∷ after_round visit rest) (round_calls visit rest))
          (sym (quiet.alone i s')) (n slot' s' e))

  visited-Yields :
      (next : Rest) (xs : List Slot) (slot : Slot) (rest : List Slot) (i sock : ℕ) (s : Server)
      (r : List Call × Bool)
      → NextYields next xs rest
      → get_elem? s.clients i ≡ some slot
      → i ≡ length xs
      → s.clients ≡ xs ++ slot ∷ rest
      → Yields
          (on_visit next env i sock s r)
          (xs ++ slot_left slot r.1 ∷ after_round visit rest)
          ((r.0 ++ close_lost sock r.1) ++ round_calls visit rest)
  visited-Yields next xs slot rest i sock s (calls, false) n g l e =
      rw (append-nil calls) (prepend-Yields calls (next s) _ _ (n slot s e))
  visited-Yields next xs slot rest i sock s (calls, true) n g l e =
      prepend-Yields (calls ++ safe_close_socket sock ∷ [])
        (on_relock next env i (lose i s (get_elem? s.clients i)) (env.relocks i))
        (xs ++ slot_left slot true ∷ after_round visit rest) (round_calls visit rest)
        (rw g (relock-Yields next xs (slot_left slot true) rest i (give_up i slot s) n lost))
    where
      lost : set s.clients i (slot_left slot true) ≡ xs ++ slot_left slot true ∷ rest
      lost = rw (e, l) (set-at xs slot (slot_left slot true) rest)

  slot-Yields :
      (next : Rest) (xs : List Slot) (slot : Slot) (rest : List Slot) (i : ℕ) (s : Server)
      (o : Option ℕ)
      → NextYields next xs rest
      → get_elem? s.clients i ≡ some slot
      → i ≡ length xs
      → s.clients ≡ xs ++ slot ∷ rest
      → Yields
          (on_slot next visit env i s o)
          (xs ++ visited_slot visit slot o ∷ after_round visit rest)
          (visited_calls visit o ++ round_calls visit rest)
  slot-Yields next xs slot rest i s none n g l e = n slot s e
  slot-Yields next xs slot rest i s (some sock) n g l e =
      visited-Yields next xs slot rest i sock s (visit sock) n g l e

  each_client-Yields :
      (rest xs : List Slot) (i : ℕ) (s : Server)
      → s.clients ≡ xs ++ rest
      → i ≡ length xs
      → Yields
          (each_client visit env (length rest) i s)
          (xs ++ after_round visit rest)
          (round_calls visit rest)
  unfolding each_client after_round round_calls
  each_client-Yields [] xs i s e l = (e, refl)
  each_client-Yields (slot ∷ rest) xs i s e l =
      subst
        (λ o.
          Yields (on_slot (each_client visit env (length rest) (i + 1)) visit env i s (connected o))
            (xs ++ after_round visit (slot ∷ rest)) (round_calls visit (slot ∷ rest)))
        (sym found)
        (slot-Yields (each_client visit env (length rest) (i + 1)) xs slot rest i s
          (connected (some slot))
          (next (λ slot' s' h.
            each_client-Yields rest (xs ++ slot' ∷ []) (i + 1) s' h
              (omega (arith, l, length-append xs (slot' ∷ [])))))
          found l e)
    where
      found : get_elem? s.clients i ≡ some slot
      found = rw (e, l) (get_elem?-at xs slot rest)

      next :
          ((slot' : Slot) (s' : Server)
            → s'.clients ≡ (xs ++ slot' ∷ []) ++ rest
            → Yields
                (each_client visit env (length rest) (i + 1) s')
                ((xs ++ slot' ∷ []) ++ after_round visit rest)
                (round_calls visit rest))
          → NextYields (each_client visit env (length rest) (i + 1)) xs rest
      next ih slot' s' e' =
          subst
            (λ slots.
              Yields (each_client visit env (length rest) (i + 1) s') slots
                (round_calls visit rest))
            (append_assoc xs (slot' ∷ []) (after_round visit rest))
            (ih slot' s' (e' ∙ sym (append_assoc xs (slot' ∷ []) rest)))

-- A whole round over a table of six slots.
pub round-Yields :
    (visit : Visit) (env : Env) (s : Server)
    → Quiet env
    → length s.clients ≡ max_clients
    → Yields
        (each_client visit env max_clients 0 s)
        (after_round visit s.clients)
        (round_calls visit s.clients)
round-Yields visit env s q l =
    subst
      (λ n.
        Yields (each_client visit env n 0 s) (after_round visit s.clients)
          (round_calls visit s.clients))
      l (each_client-Yields visit env q s.clients [] 0 s refl refl)
