-- ===== src/WebSocket/Rounds.antt =====
-- main/web/sx_web_server.c: a message of `ws_send_task` in terms of the descriptors in the table.
use opensx_serial_server.Prelude.{
  ℕ, zero, suc, ◌≡◌, ◌≤◌, refl, ap, ◌∙◌, Bool, true, false, Option, none, some, List, [], ◌∷◌, ◌==◌,
  if◌then◌else◌, length, All, Bool-cases, inl, inr, arith,
}
use opensx_serial_server.Prelude.Text.{CString}
use opensx_serial_server.WebSocket.{
  Client, Env, reset_first, reset_client_by_fd, live_fd, and_fd, fds_from, snapshot_client_fds,
  max_ws_clients, send_each, send_message,
}

-- The descriptors of all clients in use, in the order of the slots.
abbrev pub add_fd : Option ℕ → List ℕ → List ℕ
add_fd none fds = fds
add_fd (some fd) fds = fd ∷ fds

unfoldable pub fds_of : List Client → List ℕ
fds_of [] = []
fds_of (c ∷ cs) = add_fd (live_fd c) (fds_of cs)

abbrev same_add :
    (o : Option ℕ) (a b fds : List ℕ) → a ≡ fds → b ≡ fds → and_fd o a b ≡ add_fd o fds
same_add none a b fds p q = p
same_add (some fd) a b fds p q = ap (λ l. fd ∷ l) q

fds_from-all : (n : ℕ) (cs : List Client) → length cs ≤ n → fds_from n cs ≡ fds_of cs
unfolding fds_from fds_of
fds_from-all zero [] h = refl
fds_from-all zero (c ∷ cs) h = absurd (omega arith)
fds_from-all (suc n) [] h = refl
fds_from-all (suc n) (c ∷ cs) h =
    same_add (live_fd c) _ _ (fds_of cs) (fds_from-all (suc n) cs (omega arith))
      (fds_from-all n cs (omega arith))

-- A list without the first of its elements that is `fd`.
unfoldable pub without : ℕ → List ℕ → List ℕ
without fd [] = []
without fd (x ∷ xs) = let rest = without fd xs in if x == fd then xs else x ∷ rest

abbrev client : Option ℕ → Bool → CString → Client
client o b t = record { client_fd = o; in_use = b; client_tag = t }

one_less :
    (fd : ℕ) (o : Option ℕ) (b : Bool) (t : CString) (cs : List Client)
    → fds_of (reset_first fd cs) ≡ without fd (fds_of cs)
    → fds_of (reset_first fd (client o b t ∷ cs)) ≡ without fd (fds_of (client o b t ∷ cs))
unfolding fds_of reset_first without
one_less fd o false t cs h = h
one_less fd none true t cs h = h
one_less fd (some a) true t cs h = elim (Bool-cases (a == fd)) [
  | inl e ↦ rw e refl
  | inr e ↦ rw e (ap (λ l. a ∷ l) h)
]

fds-reset_first : (fd : ℕ) (cs : List Client) → fds_of (reset_first fd cs) ≡ without fd (fds_of cs)
unfolding fds_of reset_first without
fds-reset_first fd [] = refl
fds-reset_first fd (c ∷ cs) =
    one_less fd c.client_fd c.in_use c.client_tag cs (fds-reset_first fd cs)

fds-reset :
    (b : Bool) (fd : ℕ) (cs : List Client)
    → b ≡ true
    → fds_of (reset_client_by_fd b (some fd) cs) ≡ without fd (fds_of cs)
unfolding reset_client_by_fd
fds-reset b fd cs e = rw e (fds-reset_first fd cs)

-- The descriptors where the frame is taken, and the others.
unfoldable pub kept : (ℕ → Bool) → List ℕ → List ℕ
kept sends [] = []
kept sends (fd ∷ fds) = let rest = kept sends fds in if sends fd then fd ∷ rest else rest

unfoldable pub failing : (ℕ → Bool) → List ℕ → List ℕ
failing sends [] = []
failing sends (fd ∷ fds) = let rest = failing sends fds in if sends fd then rest else fd ∷ rest

failing-All : (sends : ℕ → Bool) (fds : List ℕ) → All (λ fd. sends fd ≡ false) (failing sends fds)
unfolding failing
failing-All sends [] = tt
failing-All sends (fd ∷ fds) = elim (Bool-cases (sends fd)) [
  | inl e ↦ rw e (failing-All sends fds)
  | inr e ↦ rw e (e, failing-All sends fds)
]

unfoldable without_all : List ℕ → List ℕ → List ℕ
without_all [] l = l
without_all (y ∷ ys) l = without_all ys (without y l)

differs : (sends : ℕ → Bool) (x y : ℕ) → sends x ≡ true → sends y ≡ false → (x == y) ≡ false
differs sends x y p q = grind arith

same : (x : ℕ) → (x == x) ≡ true
same x = ground arith

stays :
    (sends : ℕ → Bool) (x : ℕ) (ys xs : List ℕ)
    → sends x ≡ true
    → All (λ y. sends y ≡ false) ys
    → without_all ys (x ∷ xs) ≡ x ∷ without_all ys xs
unfolding without_all without
stays sends x [] xs p h = refl
stays sends x (y ∷ ys) xs p h = rw (differs sends x y p h.0) (stays sends x ys (without y xs) p h.1)

without_head : (fd : ℕ) (fds : List ℕ) → without fd (fd ∷ fds) ≡ fds
unfolding without
without_head fd fds = rw (same fd) refl

without_all-failing :
    (sends : ℕ → Bool) (fds : List ℕ) → without_all (failing sends fds) fds ≡ kept sends fds
unfolding without_all failing kept
without_all-failing sends [] = refl
without_all-failing sends (fd ∷ fds) = elim (Bool-cases (sends fd)) [
  | inl e ↦ rw e (
      stays sends fd (failing sends fds) fds e (failing-All sends fds)
      ∙ ap (λ l. fd ∷ l) (without_all-failing sends fds))
  | inr e ↦
      rw e
        (ap (without_all (failing sends fds)) (without_head fd fds) ∙ without_all-failing sends fds)
]

-- What a loop over descriptors does to the table.
each :
    (env : Env) (sends : ℕ → Bool) (fds : List ℕ) (cs : List Client)
    → env.locked ≡ true
    → env.server ≡ true
    → let (cs', sent, closed) = send_each env sends fds cs in
      (sent ≡ fds)
      × (fds_of cs' ≡ without_all (failing sends fds) (fds_of cs))
      × (closed ≡ failing sends fds)
unfolding send_each failing without_all
each env sends [] cs l v = (refl, refl, refl)
each env sends (fd ∷ fds) cs l v = elim (Bool-cases (sends fd)) [
  | inl e ↦ (let (a, b, c) = each env sends fds cs l v in rw e (ap (λ l. fd ∷ l) a, b, c))
  | inr e ↦
      (let (a, b, c) = each env sends fds (reset_client_by_fd env.locked (some fd) cs) l v in
        rw (e, v)
          (
            ap (λ l. fd ∷ l) a,
            b ∙ ap (without_all (failing sends fds)) (fds-reset env.locked fd cs l),
            ap (λ l. fd ∷ l) c,
          ))
]

all_fds :
    (b : Bool) (n : ℕ) (cs : List Client)
    → b ≡ true
    → length cs ≤ n
    → snapshot_client_fds b n cs ≡ fds_of cs
unfolding snapshot_client_fds
all_fds b n cs e h = rw e (fds_from-all n cs h)

-- While the mutex is taken in time, the server runs, the table has at most eight slots and no other task
-- changes the table in between: a message goes once to every client in use, in the order of their slots.
-- The sessions that do not take it are closed and, of their clients, none stays in the table; all others
-- stay.
pub send_message-all :
    (env : Env) (sends : ℕ → Bool) (cs : List Client)
    → env.locked ≡ true
    → env.server ≡ true
    → length cs ≤ max_ws_clients
    → let (cs', sent, closed) = send_message env sends cs in
      (sent ≡ fds_of cs)
      × (fds_of cs' ≡ kept sends (fds_of cs))
      × (closed ≡ failing sends (fds_of cs))
unfolding send_message
send_message-all env sends cs l v h =
    let (a, b, c) = each env sends (fds_of cs) cs l v in
    rw (all_fds env.locked max_ws_clients cs l h) (a, b ∙ without_all-failing sends (fds_of cs), c)
