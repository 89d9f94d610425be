-- ===== src/SerialChunk/Loss.antt =====
-- A transfer that loses a chunk.
use mathlib.Core.List.{flatten}
use opensx_serial_server.Prelude.{
  ℕ, ◌+◌, ◌^◌, ◌<◌, ◌≡◌, refl, sym, subst, ap, ◌∙◌, true, some, List, [], ◌∷◌, ◌++◌, arith, length,
  length-append, All,
}
use opensx_serial_server.Prelude.Int.{pos}
use opensx_serial_server.Prelude.Text.{CString}
use opensx_serial_server.Prelude.Err.{EspErr, err_invalid_state}
use opensx_serial_server.SerialChunk.{
  ChunkCtx, Env, State, reset, starts_new, open_transfer, process_locked, process_uart_chunk,
  Outcome,
}
use opensx_serial_server.SerialChunk.Order.{
  Grants, Ready, process-locked, open-first, open-next, call-middle,
}
use opensx_serial_server.SerialChunk.Transfer.{
  send_from, send_rest, send_from-cons, length-flatten, done,
}

-- What the calls of `send_from` answer, one after the other.
unfoldable pub errors_from : Env → State → ℕ → ℕ → CString → List (List ℕ) → List EspErr
errors_from env s index total id [] = []
errors_from env s index total id (chunk ∷ rest) =
    let (s', err, sent) = process_uart_chunk env s (some chunk) (pos index) (pos total) (some id) in
    err ∷ errors_from env s' (index + 1) total id rest

abbrev errors_rest :
    Env → ℕ → ℕ → CString → List (List ℕ) → State × EspErr × List (List ℕ) → List EspErr
errors_rest env index total id rest o = o.1 ∷ errors_from env o.0 (index + 1) total id rest

errors_from-cons :
    (env : Env) (s : State) (index total : ℕ) (id : CString) (chunk : List ℕ) (rest : List (List ℕ))
    → errors_from env s index total id (chunk ∷ rest)
      ≡ errors_rest env index total id rest
          (process_uart_chunk env s (some chunk) (pos index) (pos total) (some id))
unfolding errors_from
errors_from-cons env s index total id chunk rest = refl

abbrev pub AllRefused : List EspErr → Type 0
AllRefused errors = All (λ err. err ≡ err_invalid_state) errors

-- A cleared context takes no chunk but a first one.
reset_rejects :
    (env : Env) (bytes : List ℕ) (index total : ℕ) (id : CString)
    → 0 < index
    → 1 < total
    → process_locked env reset bytes index total id ≡ (reset, err_invalid_state, [])
unfolding process_locked open_transfer starts_new
reset_rejects env bytes index total id h t = ground arith

tail_lost :
    {env : Env} (index total : ℕ) (id : CString) (rest : List (List ℕ))
    → Grants env
    → All (λ chunk. 0 < length chunk) rest
    → 0 < index
    → 1 < total
    → send_from env done index total id rest ≡ (done, [])
unfolding send_from
tail_lost index total id [] g a h t = refl
tail_lost {env} index total id (chunk ∷ rest) g a h t =
    rw
      (
        process-locked env done chunk index total id g a.0 t,
        reset_rejects env chunk index total id h t,
      )
      (tail_lost (index + 1) total id rest g a.1 (omega arith) t)

tail_refused :
    {env : Env} (index total : ℕ) (id : CString) (rest : List (List ℕ))
    → Grants env
    → All (λ chunk. 0 < length chunk) rest
    → 0 < index
    → 1 < total
    → AllRefused (errors_from env done index total id rest)
unfolding errors_from
tail_refused index total id [] g a h t = tt
tail_refused {env} index total id (chunk ∷ rest) g a h t =
    rw
      (
        process-locked env done chunk index total id g a.0 t,
        reset_rejects env chunk index total id h t,
      )
      (refl, tail_refused (index + 1) total id rest g a.1 (omega arith) t)

-- A chunk that is not the next one clears the transfer.
skip_rejects :
    (env : Env) {c : ChunkCtx} (chunk : List ℕ) {bytes : List ℕ} {index total : ℕ} {id : CString}
    → Ready total id index bytes c
    → process_locked env c chunk (index + 1) total id ≡ (reset, err_invalid_state, [])
unfolding process_locked open_transfer starts_new
skip_rejects env chunk r = ground arith

module _ {env : Env} {total : ℕ} {id : CString} (g : Grants env) (many : 1 < total) where
  -- Chunks that do not complete the transfer transmit nothing.
  start-Ready :
      (s : State) (index j : ℕ) (bytes chunk : List ℕ) (rest : List (List ℕ))
      → Ready total id index bytes (open_transfer s.ctx index total id)
      → All (λ c. 0 < length c) (chunk ∷ rest)
      → index + length (chunk ∷ rest) ≡ j
      → j < total
      → length bytes + length (flatten (chunk ∷ rest)) < 2 ^ 32
      → (c : ChunkCtx) × (held : List ℕ) × (send_from env s index total id (chunk ∷ rest)
          ≡ (record { has_mutex = true; ctx = c }, []))
        × Ready total id j held c
  unfolding send_from
  start-Ready s index j bytes chunk [] r a e l b =
      let (c, p, r') =
        call-middle g many s chunk r a.0 (omega arith) (omega (arith, length-flatten chunk [])) in
      let last : index + 1 ≡ j = omega arith in
      (c, bytes ++ chunk, ap (send_rest env index total id []) p, rw last at r')
  start-Ready s index j bytes chunk (next ∷ rest) r a e l b =
      let (c, p, r') =
        call-middle g many s chunk r a.0 (omega arith)
          (omega (arith, length-flatten chunk (next ∷ rest))) in
      let (c', held, p', r'') =
        start-Ready (record { has_mutex = true; ctx = c }) (index + 1) j (bytes ++ chunk) next rest
          (rw (open-next r' (omega arith)) r') a.1 (omega arith) l
          (omega (arith, length-flatten chunk (next ∷ rest), length-append bytes chunk)) in
      (
        c',
        held,
        send_from-cons env s index total id chunk (next ∷ rest)
            ∙ ap (send_rest env index total id (next ∷ rest)) p
            ∙ p',
        r'',
      )

  -- From the lost chunk on, every chunk is refused.
  gap-Ready :
      {index : ℕ} {bytes : List ℕ} {c : ChunkCtx} (chunk : List ℕ) (rest : List (List ℕ))
      → Ready total id index bytes c
      → All (λ c. 0 < length c) (chunk ∷ rest)
      → send_from env (record { has_mutex = true; ctx = c }) (index + 1) total id (chunk ∷ rest)
        ≡ (done, [])
  gap-Ready {index} {bytes} {c} chunk rest r a =
      send_from-cons env (record { has_mutex = true; ctx = c }) (index + 1) total id chunk rest
      ∙ ap (send_rest env (index + 1) total id rest) (
          process-locked env (record { has_mutex = true; ctx = c }) chunk (index + 1) total id g a.0
            many
          ∙ ap (λ (o : Outcome). (record { has_mutex = true; ctx = o.0 }, o.1, o.2))
              (skip_rejects env chunk r))
      ∙ tail_lost (index + 1 + 1) total id rest g a.1 (omega arith) many

  gap-AllRefused :
      {index : ℕ} {bytes : List ℕ} {c : ChunkCtx} (chunk : List ℕ) (rest : List (List ℕ))
      → Ready total id index bytes c
      → All (λ c. 0 < length c) (chunk ∷ rest)
      → AllRefused (
          errors_from env
            (record { has_mutex = true; ctx = c })
            (index + 1)
            total
            id
            (chunk ∷ rest))
  gap-AllRefused {index} {bytes} {c} chunk rest r a =
      subst AllRefused
        (sym (
          errors_from-cons env (record { has_mutex = true; ctx = c }) (index + 1) total id chunk
            rest
          ∙ ap (errors_rest env (index + 1) total id rest) (
              process-locked env (record { has_mutex = true; ctx = c }) chunk (index + 1) total id g
                a.0 many
              ∙ ap (λ (o : Outcome). (record { has_mutex = true; ctx = o.0 }, o.1, o.2))
                  (skip_rejects env chunk r))))
        (refl, tail_refused (index + 1 + 1) total id rest g a.1 (omega arith) many)

-- A transfer of chunks that are not empty, those before the gap of fewer than 2 ^ 32 bytes together, with
-- the mutex and memory granted, that loses one chunk, neither
-- the first nor the last, transmits nothing at all: not before the gap, and not after it, where every
-- chunk is answered with ESP_ERR_INVALID_STATE and the context is cleared.
pub transfer_with_gap :
    {env : Env} (s : State) (id : CString) (first after : List (List ℕ)) (total : ℕ)
    → Grants env
    → All (λ chunk. 0 < length chunk) first
    → All (λ chunk. 0 < length chunk) after
    → 0 < length first
    → 0 < length after
    → length first + 1 + length after ≡ total
    → length (flatten first) < 2 ^ 32
    → let (s', before_gap) = send_from env s 0 total id first in
      let (s'', behind_gap) = send_from env s' (length first + 1) total id after in
      (before_gap ≡ [])
      × (behind_gap ≡ [])
      × (s'' ≡ done)
      × AllRefused (errors_from env s' (length first + 1) total id after)
transfer_with_gap s id [] after total g a a' h h' e b = absurd (omega arith)
transfer_with_gap s id (f ∷ first) [] total g a a' h h' e b = absurd (omega arith)
transfer_with_gap s id (f ∷ first) (x ∷ after) total g a a' h h' e b =
    let many : 1 < total = omega arith in
    let (c, held, p, r) =
      start-Ready {id = id} g many s 0 (length (f ∷ first)) [] f first (open-first s.ctx) a
        (omega arith) (omega arith) (omega arith) in
    rw p (rw (gap-Ready g many x after r a') (refl, refl, refl, gap-AllRefused g many x after r a'))
