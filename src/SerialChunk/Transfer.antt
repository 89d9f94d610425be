-- ===== src/SerialChunk/Transfer.antt =====
-- Whole transfers: what is sent to the serial line, and when.
use mathlib.Core.List.{flatten}
use opensx_serial_server.Prelude.{
  ℕ, ◌+◌, ◌^◌, ◌<◌, ◌≡◌, refl, ap, ◌∙◌, true, some, List, [], ◌∷◌, ◌++◌, append_assoc, append-nil,
  arith, length, length-append, All,
}
use opensx_serial_server.Prelude.Int.{pos}
use opensx_serial_server.Prelude.Text.{CString}
use opensx_serial_server.Prelude.Err.{EspErr}
use opensx_serial_server.SerialChunk.{Env, State, reset, open_transfer, process_uart_chunk}
use opensx_serial_server.SerialChunk.Order.{
  Grants, Ready, open-first, open-next, call-last, call-middle,
}

-- The chunks from the `index`-th on, each handed to the program by a call of its own, and all
-- that the calls transmit.
unfoldable pub send_from : Env → State → ℕ → ℕ → CString → List (List ℕ) → State × List (List ℕ)
send_from env s index total id [] = (s, [])
send_from env s index total id (chunk ∷ rest) =
    let (s', err, sent) = process_uart_chunk env s (some chunk) (pos index) (pos total) (some id) in
    let (s'', later) = send_from env s' (index + 1) total id rest in (s'', sent ++ later)

abbrev pub send_rest :
    Env → ℕ → ℕ → CString → List (List ℕ) → State × EspErr × List (List ℕ) → State × List (List ℕ)
send_rest env index total id rest o =
    let (s', later) = send_from env o.0 (index + 1) total id rest in (s', o.2 ++ later)

pub send_from-cons :
    (env : Env) (s : State) (index total : ℕ) (id : CString) (chunk : List ℕ) (rest : List (List ℕ))
    → send_from env s index total id (chunk ∷ rest)
      ≡ send_rest env index total id rest
          (process_uart_chunk env s (some chunk) (pos index) (pos total) (some id))
unfolding send_from
send_from-cons env s index total id chunk rest = refl

send_from-nil :
    (env : Env) (s : State) (index total : ℕ) (id : CString)
    → send_from env s index total id [] ≡ (s, [])
unfolding send_from
send_from-nil env s index total id = refl

abbrev pub done : State
done = record { has_mutex = true; ctx = reset }

pub length-flatten :
    (chunk : List ℕ) (rest : List (List ℕ))
    → length (flatten (chunk ∷ rest)) ≡ length chunk + length (flatten rest)
unfolding flatten
length-flatten chunk rest = length-append chunk (flatten rest)

append-flatten :
    (bytes chunk : List ℕ) (rest : List (List ℕ))
    → (bytes ++ chunk) ++ flatten rest ≡ bytes ++ flatten (chunk ∷ rest)
unfolding flatten
append-flatten bytes chunk rest = append_assoc bytes chunk (flatten rest)

append-flatten_last : (bytes chunk : List ℕ) → bytes ++ chunk ≡ bytes ++ flatten (chunk ∷ [])
unfolding flatten
append-flatten_last bytes chunk = rw append-nil

module _ {env : Env} {total : ℕ} {id : CString} (g : Grants env) (many : 1 < total) where
  rest-Ready :
      (s : State) (index : ℕ) (bytes : List ℕ) (rest : List (List ℕ))
      → Ready total id index bytes (open_transfer s.ctx index total id)
      → All (λ chunk. 0 < length chunk) rest
      → 0 < length rest
      → index + length rest ≡ total
      → length bytes + length (flatten rest) < 2 ^ 32
      → send_from env s index total id rest ≡ (done, (bytes ++ flatten rest) ∷ [])
  rest-Ready s index bytes [] r a h e b = absurd (omega arith)
  rest-Ready s index bytes (chunk ∷ []) r a h e b =
      send_from-cons env s index total id chunk []
      ∙ ap (send_rest env index total id [])
          (call-last g many s chunk r a.0 e (omega (arith, length-flatten chunk [])))
      ∙ ap (λ (o : State × List (List ℕ)). (o.0, (bytes ++ chunk) ∷ o.1))
          (send_from-nil env done (index + 1) total id)
      ∙ ap (λ (all : List ℕ). (done, all ∷ [])) (append-flatten_last bytes chunk)
  rest-Ready s index bytes (chunk ∷ next ∷ rest) r a h e b =
      let (c, p, r') =
        call-middle g many s chunk r a.0 (omega arith)
          (omega (arith, length-flatten chunk (next ∷ rest))) in
      send_from-cons env s index total id chunk (next ∷ rest)
      ∙ ap (send_rest env index total id (next ∷ rest)) p
      ∙ rest-Ready (record { has_mutex = true; ctx = c }) (index + 1) (bytes ++ chunk) (next ∷ rest)
          (rw (open-next r' (omega arith)) r') a.1 (omega arith) (omega arith)
          (omega (arith, length-flatten chunk (next ∷ rest), length-append bytes chunk))
      ∙ ap (λ (all : List ℕ). (done, all ∷ [])) (append-flatten bytes chunk (next ∷ rest))

-- Two or more chunks that are not empty and hold fewer than 2 ^ 32 bytes, sent in order under one
-- identifier while memory and the mutex are granted, reach the serial line as one transmission of
-- all their bytes in order, whatever transfer was under way before; the context is then empty.
pub transfer_in_order :
    {env : Env} (s : State) (id : CString) (chunks : List (List ℕ))
    → Grants env
    → All (λ chunk. 0 < length chunk) chunks
    → 1 < length chunks
    → length (flatten chunks) < 2 ^ 32
    → send_from env s 0 (length chunks) id chunks ≡ (done, flatten chunks ∷ [])
transfer_in_order s id chunks g a many b =
    rest-Ready g many s 0 [] chunks (open-first s.ctx) a (omega arith) (omega arith) (omega arith)
