-- ===== src/SerialChunk/Inv.antt =====
-- The representation of a transfer under way.
use opensx_serial_server.Prelude.{
  ℕ, ◌+◌, ◌^◌, ◌≤◌, ◌<◌, ◌≡◌, refl, ◌⊎◌, inl, inr, some, List, arith, length, length-append,
  length-take, take, Option-cases,
}
use opensx_serial_server.Prelude.Text.{CString}
use opensx_serial_server.SerialChunk.{
  ChunkCtx, Env, reset, contents, size_add, new_capacity, reserve, open_transfer, store,
  store_reserved, process_locked,
}

-- The buffer holds `len` bytes within its capacity, and the transfer is unfinished or cleared.
pub record IsValid (c : ChunkCtx) : Type 0 where
  pub held : length (contents c.buffer) ≡ c.len
  pub fits : c.len ≤ c.capacity
  pub unfinished : c.received_chunks < c.expected_chunks ⊎ (c ≡ reset)

pub IsValid-reset : IsValid reset
IsValid-reset = record { held = refl; fits = omega arith; unfinished = inr refl }

open_transfer-held :
    (c : ChunkCtx) (index total : ℕ) (id : CString)
    → IsValid c
    → let o = open_transfer c index total id in
      (length (contents o.buffer) ≡ o.len) × (o.len ≤ o.capacity) × (o.len ≤ c.len)
unfolding open_transfer
open_transfer-held c index total id v = ground (arith, v.held, v.fits)

reserve-held :
    (env : Env) (c c' : ChunkCtx) (n : ℕ)
    → reserve env c n ≡ some c'
    → length (contents c.buffer) ≡ c.len
    → n < 2 ^ 32
    → (length (contents c'.buffer) ≡ c'.len) × (n ≤ c'.capacity) × (c'.len ≡ c.len)
unfolding reserve new_capacity
reserve-held env c c' n e h b = ground arith

store-IsValid :
    (c : ChunkCtx) (bytes : List ℕ) (n : ℕ)
    → length (contents c.buffer) ≡ c.len
    → n ≤ c.capacity
    → c.len + length bytes ≡ n
    → IsValid (store c bytes n).0
unfolding store
store-IsValid c bytes n h f e = ground (
  arith,
  IsValid-reset,
  length-append (take c.len (contents c.buffer)) bytes,
  length-take c.len (contents c.buffer),
)

store_reserved-IsValid :
    (env : Env) (c : ChunkCtx) (bytes : List ℕ) (n : ℕ)
    → length (contents c.buffer) ≡ c.len
    → n < 2 ^ 32
    → c.len + length bytes ≡ n
    → IsValid (store_reserved (reserve env c n) bytes n).0
unfolding store_reserved
store_reserved-IsValid env c bytes n h b e = elim (Option-cases (reserve env c n)) [
  | inl failed ↦ rw failed IsValid-reset
  | inr (c', ok) ↦ rw ok (
      let (held, room, same) = reserve-held env c c' n ok h b in
      store-IsValid c' bytes n held room (omega arith))
]

-- Whatever chunk comes, in whatever order, the context stays valid, while the bytes of a transfer
-- number fewer than 2 ^ 32.
pub process_locked-IsValid :
    (env : Env) {c : ChunkCtx} (bytes : List ℕ) (index total : ℕ) (id : CString)
    → IsValid c
    → c.len + length bytes < 2 ^ 32
    → IsValid (process_locked env c bytes index total id).0
unfolding process_locked
process_locked-IsValid env {c} bytes index total id v b =
    let (held, fits, less) = open_transfer-held c index total id v in
    let o = open_transfer c index total id in
    ground (
      arith,
      IsValid-reset,
      store_reserved-IsValid env o bytes (size_add o.len (length bytes)) held (omega arith)
          (omega arith),
    )
