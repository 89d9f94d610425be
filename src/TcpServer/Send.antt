-- ===== src/TcpServer/Send.antt =====
-- main/protocols/sx_tcp_server.c: `send_to_client`, against the answers of `send`, one per call.
use opensx_serial_server.Prelude.{
  ℕ, zero, suc, ◌+◌, ◌≤◌, ◌≡◌, refl, sym, ap, subst, All, ◌∙◌, Bool, true, not, Option, none, some,
  List, [], ◌∷◌, ◌++◌, append_assoc, ltb, if◌then◌else◌, length, take, drop, take-append-drop,
  Bool-cases, inl, inr, arith,
}
use opensx_serial_server.Prelude.Buffer.Laws.{drop-drop}

-- `send`: so many bytes taken, EAGAIN or EWOULDBLOCK, or another error
pub data Answer : Type 0 where
  written : ℕ → Answer
  try_again failed : Answer

-- the result and the bytes that the socket took
pub record Sent : Type 0 where
  pub whole : Bool
  pub bytes : List ℕ

abbrev before : List ℕ → Option Sent → Option Sent
before bytes none = none
before bytes (some sent) = some (record sent { bytes = bytes ++ sent.bytes })

-- the loop `while (total_sent < len)`; `none` while no answer has come
pub send_from : List ℕ → ℕ → List Answer → Option Sent
send_from message total_sent [] =
    if ltb total_sent (length message) then none else some (record { whole = true; bytes = [] })
send_from message total_sent (failed ∷ answers) =
    some (record { whole = not (ltb total_sent (length message)); bytes = [] })
send_from message total_sent (try_again ∷ answers) =
    let later = send_from message total_sent answers in
    if ltb total_sent (length message) then later else some (record { whole = true; bytes = [] })
send_from message total_sent (written n ∷ answers) =
    let later =
      before (take n (drop total_sent message)) (send_from message (total_sent + n) answers) in
    if ltb total_sent (length message) then later else some (record { whole = true; bytes = [] })

-- `send_to_client`; `whole` is false for the answer -1
unfoldable pub send_to_client : List ℕ → List Answer → Option Sent
unfolding send_from
send_to_client message answers = send_from message 0 answers

-- The bytes of a result, which starts at an offset of the message.
abbrev Fits : List ℕ → ℕ → Sent → Type 0
Fits message at sent =
    (sent.whole ≡ true → sent.bytes ≡ drop at message)
    × ((rest : List ℕ) × (sent.bytes ++ rest ≡ drop at message))

drop_all : (n : ℕ) (xs : List ℕ) → length xs ≤ n → drop n xs ≡ []
drop_all zero [] h = refl
drop_all zero (x ∷ xs) h = absurd (omega arith)
drop_all (suc n) [] h = refl
drop_all (suc n) (x ∷ xs) h = drop_all n xs (omega arith)

take_rest :
    (message : List ℕ) (at n : ℕ)
    → take n (drop at message) ++ drop (at + n) message ≡ drop at message
take_rest message at n =
    ap (λ r. take n (drop at message) ++ r) (sym (drop-drop n at (at + n) message (omega arith)))
    ∙ take-append-drop n (drop at message)

nothing_sent :
    (message : List ℕ) (at : ℕ)
    → length message ≤ at
    → Fits message at (record { whole = true; bytes = [] })
nothing_sent message at h = ((λ w. sym (drop_all at message h)), (drop at message, refl))

more-Fits :
    (message : List ℕ) (at n : ℕ) (sent : Sent)
    → Fits message (at + n) sent
    → Fits message at (record sent { bytes = take n (drop at message) ++ sent.bytes })
more-Fits message at n sent (whole, (rest, e)) = (
  (λ w. ap (λ r. take n (drop at message) ++ r) (whole w) ∙ take_rest message at n),
  (
    rest,
    append_assoc (take n (drop at message)) sent.bytes rest
        ∙ ap (λ r. take n (drop at message) ++ r) e
        ∙ take_rest message at n,
  ),
)

abbrev FitsIf : List ℕ → ℕ → Option Sent → Type 0
FitsIf message at none = Unit
FitsIf message at (some sent) = Fits message at sent

before-FitsIf :
    (message : List ℕ) (at n : ℕ) (r : Option Sent)
    → FitsIf message (at + n) r
    → FitsIf message at (before (take n (drop at message)) r)
before-FitsIf message at n none f = tt
before-FitsIf message at n (some sent) f = more-Fits message at n sent f

send_from-Fits :
    (message : List ℕ) (at : ℕ) (answers : List Answer)
    → FitsIf message at (send_from message at answers)
unfolding send_from
send_from-Fits message at [] = elim (Bool-cases (ltb at (length message))) [
  | inl more ↦ simp more tt
  | inr all ↦ rw all (nothing_sent message at (ground arith))
]
send_from-Fits message at (failed ∷ answers) = elim (Bool-cases (ltb at (length message))) [
  | inl more ↦ rw more ((λ w. absurd (ground arith)), (drop at message, refl))
  | inr all ↦ rw all (nothing_sent message at (ground arith))
]
send_from-Fits message at (try_again ∷ answers) = elim (Bool-cases (ltb at (length message))) [
  | inl more ↦ rw more (send_from-Fits message at answers)
  | inr all ↦ rw all (nothing_sent message at (ground arith))
]
send_from-Fits message at (written n ∷ answers) = elim (Bool-cases (ltb at (length message))) [
  | inl more ↦ rw more (
      before-FitsIf message at n (send_from message (at + n) answers)
        (send_from-Fits message (at + n) answers))
  | inr all ↦ rw all (nothing_sent message at (ground arith))
]

from_start : (message : List ℕ) (sent : Sent) → FitsIf message 0 (some sent) → Fits message 0 sent
from_start message sent f = f

-- Whatever `send` answers: what the socket took is the start of the message, and the whole message
-- where the function answers no error.
pub send_to_client-prefix :
    (message : List ℕ) (answers : List Answer) (sent : Sent)
    → send_to_client message answers ≡ some sent
    → (sent.whole ≡ true → sent.bytes ≡ message)
      × ((rest : List ℕ) × (sent.bytes ++ rest ≡ message))
unfolding send_to_client
send_to_client-prefix message answers sent e =
    from_start message sent (subst (FitsIf message 0) e (send_from-Fits message 0 answers))

-- An answer that takes a byte at least.
abbrev pub Takes : Answer → Type 0
Takes (written n) = 1 ≤ n
Takes _ = ⊥

send_from-ends :
    (message : List ℕ) (at : ℕ) (answers : List Answer)
    → All Takes answers
    → length message ≤ at + length answers
    → (sent : Sent) × (send_from message at answers ≡ some sent) × (sent.whole ≡ true)
unfolding send_from
send_from-ends message at [] a h = (record { whole = true; bytes = [] }, ground arith, refl)
send_from-ends message at (written n ∷ answers) a h = elim (Bool-cases (ltb at (length message))) [
  | inr all ↦ (record { whole = true; bytes = [] }, (rw all refl), refl)
  | inl more ↦
      (let (sent, e, w) = send_from-ends message (at + n) answers a.1 (omega (arith, a.0)) in
        (record sent { bytes = take n (drop at message) ++ sent.bytes }, (rw (more, e) refl), w))
]
send_from-ends message at (try_again ∷ answers) a h = absurd a.0
send_from-ends message at (failed ∷ answers) a h = absurd a.0

-- Where each call of `send` takes at least a byte, the function returns after at most as many calls
-- as the message has bytes, and the socket has taken the message.
pub send_to_client-delivers :
    (message : List ℕ) (answers : List Answer)
    → All Takes answers
    → length message ≤ length answers
    → send_to_client message answers ≡ some (record { whole = true; bytes = message })
unfolding send_to_client
send_to_client-delivers message answers a h =
    let (sent, e, w) = send_from-ends message 0 answers a (omega arith) in
    let all : sent.bytes ≡ message = (send_to_client-prefix message answers sent e).0 w in
    e ∙ ap some (λ i. record { whole = w i; bytes = all i })
