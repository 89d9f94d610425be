-- ===== src/SerialChunk/Order.antt =====
-- A transfer whose chunks arrive in order.
use opensx_serial_server.Prelude.{
  ℕ, ◌+◌, ◌^◌, ◌<◌, ◌≡◌, refl, ap, ◌∙◌, true, some, List, [], ◌∷◌, ◌++◌, arith, leb, length,
  length-append, take, take_all, Bool-cases, inl, inr,
}
use opensx_serial_server.Prelude.Int.{pos}
use opensx_serial_server.Prelude.Text.{CString, truncate, strn_eq-truncate}
use opensx_serial_server.Prelude.Err.{esp_ok}
use opensx_serial_server.SerialChunk.{
  ChunkCtx, Env, State, reset, contents, size_add, reserve, new_capacity, id_max, starts_new,
  open_transfer, store, process_locked, process_uart_chunk, process_data, store_reserved, Outcome,
}

-- The environment grants everything that is asked of it.
pub record Grants (env : Env) : Type 0 where
  pub created : env.mutex_created ≡ true
  pub taken : env.mutex_taken ≡ true
  pub memory : (n : ℕ) → env.realloc_ok n ≡ true

-- The context has received `bytes` in the first `index` chunks of the transfer.
pub record Ready (total : ℕ) (id : CString) (index : ℕ) (bytes : List ℕ) (c : ChunkCtx)
    : Type 0 where
  pub name : c.transfer_id ≡ truncate id_max id
  pub expected : c.expected_chunks ≡ total
  pub received : c.received_chunks ≡ index
  pub counted : c.len ≡ length bytes
  pub holds : contents c.buffer ≡ bytes

module _ {total : ℕ} {id : CString} where
  pub open-first : (c : ChunkCtx) → Ready total id 0 [] (open_transfer c 0 total id)
  unfolding open_transfer starts_new
  open-first c = record {
    name = refl;
    expected = refl;
    received = refl;
    counted = refl;
    holds = refl;
  }

  pub open-next :
      {index : ℕ} {bytes : List ℕ} {c : ChunkCtx}
      → Ready total id index bytes c
      → 0 < index
      → open_transfer c index total id ≡ c
  unfolding open_transfer starts_new
  open-next {index} {bytes} {c} r h = ground (arith, strn_eq-truncate id_max id)

  kept :
      {index : ℕ} {bytes : List ℕ} {c : ChunkCtx}
      → Ready total id index bytes c
      → take c.len (contents c.buffer) ≡ bytes
  kept {index} {bytes} {c} r =
      take_all c.len (contents c.buffer) (omega (arith, ap length r.holds)) ∙ r.holds

  reserve-Ready :
      {env : Env} {index : ℕ} {bytes : List ℕ} {c : ChunkCtx} (n : ℕ)
      → Grants env
      → Ready total id index bytes c
      → (c' : ChunkCtx) × (reserve env c n ≡ some c') × Ready total id index bytes c'
  unfolding reserve
  reserve-Ready {env} {index} {bytes} {c} n g r = elim (Bool-cases (leb n c.capacity)) [
    | inl fits ↦ (c, rw fits, r)
    | inr small ↦ (
      record c { buffer = some (contents c.buffer); capacity = new_capacity n },
      rw (small, g.memory (new_capacity n)),
      record {
        name = r.name;
        expected = r.expected;
        received = r.received;
        counted = r.counted;
        holds = r.holds;
      },
    )
  ]

  store-last :
      {index : ℕ} {bytes : List ℕ} {c : ChunkCtx} (chunk : List ℕ)
      → Ready total id index bytes c
      → index + 1 ≡ total
      → 0 < length chunk
      → store c chunk (length bytes + length chunk) ≡ (reset, esp_ok, (bytes ++ chunk) ∷ [])
  unfolding store
  store-last {index} {bytes} {c} chunk r e h = ground (
    arith,
    kept r,
    take_all (length bytes + length chunk) (bytes ++ chunk)
        (omega (arith, length-append bytes chunk)),
  )

  store-middle :
      {index : ℕ} {bytes : List ℕ} {c : ChunkCtx} (chunk : List ℕ)
      → Ready total id index bytes c
      → index + 1 < total
      → (c' : ChunkCtx) × (store c chunk (length bytes + length chunk) ≡ (c', esp_ok, []))
        × Ready total id (index + 1) (bytes ++ chunk) c'
  unfolding store
  store-middle {index} {bytes} {c} chunk r h = (
    record c {
      buffer = some (take c.len (contents c.buffer) ++ chunk);
      len = length bytes + length chunk;
      received_chunks = c.received_chunks + 1;
    },
    ground arith,
    record {
      name = r.name;
      expected = r.expected;
      received = omega arith;
      counted = omega (arith, length-append bytes chunk);
      holds = ap (λ start. start ++ chunk) (kept r);
    },
  )

  -- The chunk that the transfer waits for passes the checks and goes to `store`.
  locked-Ready :
      {env : Env} {index : ℕ} {bytes : List ℕ} (ctx : ChunkCtx) (chunk : List ℕ)
      → Grants env
      → Ready total id index bytes (open_transfer ctx index total id)
      → length bytes + length chunk < 2 ^ 32
      → (c : ChunkCtx) × (process_locked env ctx chunk index total id
          ≡ store c chunk (length bytes + length chunk))
        × Ready total id index bytes c
  unfolding process_locked store_reserved
  locked-Ready {env} {index} {bytes} ctx chunk g r h =
      let opened = open_transfer ctx index total id in
      let (c, e, r') = reserve-Ready {env = env} (size_add opened.len (length chunk)) g r in
      (c, ground (arith, e, r.expected, r.received, r.counted), r')

-- In chunk mode the call is its part under the mutex.
pub process-locked :
    (env : Env) (s : State) (chunk : List ℕ) (index total : ℕ) (id : CString)
    → Grants env
    → 0 < length chunk
    → 1 < total
    → let (c, err, sent) = process_locked env s.ctx chunk index total id in
      process_uart_chunk env s (some chunk) (pos index) (pos total) (some id)
      ≡ (record { has_mutex = true; ctx = c }, err, sent)
unfolding process_uart_chunk process_data
process-locked env s [] index total id g h t = absurd (omega arith)
process-locked env s (b ∷ chunk) index total id g h t = ground arith

module _ {env : Env} {total : ℕ} {id : CString} (g : Grants env) (many : 1 < total) where
  pub call-last :
      {index : ℕ} {bytes : List ℕ} (s : State) (chunk : List ℕ)
      → Ready total id index bytes (open_transfer s.ctx index total id)
      → 0 < length chunk
      → index + 1 ≡ total
      → length bytes + length chunk < 2 ^ 32
      → process_uart_chunk env s (some chunk) (pos index) (pos total) (some id)
        ≡ (record { has_mutex = true; ctx = reset }, esp_ok, (bytes ++ chunk) ∷ [])
  call-last {index} {bytes} s chunk r h e b =
      let (c, p, r') = locked-Ready s.ctx chunk g r b in
      process-locked env s chunk index total id g h many
      ∙ ap (λ (o : Outcome). (record { has_mutex = true; ctx = o.0 }, o.1, o.2))
          (p ∙ store-last chunk r' e h)

  pub call-middle :
      {index : ℕ} {bytes : List ℕ} (s : State) (chunk : List ℕ)
      → Ready total id index bytes (open_transfer s.ctx index total id)
      → 0 < length chunk
      → index + 1 < total
      → length bytes + length chunk < 2 ^ 32
      → (c : ChunkCtx) × (process_uart_chunk env s (some chunk) (pos index) (pos total) (some id)
          ≡ (record { has_mutex = true; ctx = c }, esp_ok, []))
        × Ready total id (index + 1) (bytes ++ chunk) c
  call-middle {index} {bytes} s chunk r h e b =
      let (c, p, r') = locked-Ready s.ctx chunk g r b in
      let (c', p', r'') = store-middle chunk r' e in
      (
        c',
        process-locked env s chunk index total id g h many
            ∙ ap (λ (o : Outcome). (record { has_mutex = true; ctx = o.0 }, o.1, o.2)) (p ∙ p'),
        r'',
      )
