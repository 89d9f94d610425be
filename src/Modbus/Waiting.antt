-- ===== src/Modbus/Waiting.antt =====
-- main/drivers/sx_modbus.c: the two waiting loops end, and in time.
use opensx_serial_server.Prelude.{
  ℕ, zero, suc, ◌+◌, ◌-◌, ◌≤◌, ◌<◌, ◌≡◌, refl, subst, Bool, false, some, List, [], ◌∷◌, ltb, ◌==◌,
  All, Bool-cases, inl, inr, arith, ltb→lt,
}
use opensx_serial_server.Modbus.Delay.{
  slice, delay_from, modbus_delay_with_wdt, Waited, got_response, stopped, timed_out, slices,
  longer, wait_from, wait_response,
}

pub sum : List ℕ → ℕ
sum [] = 0
sum (n ∷ ns) = n + sum ns

-- No reading from the `k`-th on says so.
abbrev pub Never : (ℕ → Bool) → ℕ → Type 0
Never f k = (j : ℕ) → k ≤ j → f j ≡ false

-- A slice that lets the watchdog be fed in time.
abbrev pub IsShort : ℕ → Type 0
IsShort ms = ms ≤ 500

-- The delay ends, in slices of at most 500 ms; not later than asked for, and on time where nothing
-- stops it.
pub record Ends (stop : ℕ → Bool) (k delay_ms : ℕ) (slept : List ℕ) : Type 0 where
  pub short : All IsShort slept
  pub not_late : sum slept ≤ delay_ms
  pub on_time : Never stop k → sum slept ≡ delay_ms

delay_from-Ends :
    (fuel : ℕ) (stop : ℕ → Bool) (k left : ℕ)
    → left ≤ fuel
    → (slept : List ℕ) × (delay_from fuel stop k left ≡ some slept) × Ends stop k left slept
unfolding delay_from sum
delay_from-Ends zero stop k left h =
    ([], ground arith, record { short = tt; not_late = omega arith; on_time = λ n. omega arith })
delay_from-Ends (suc fuel) stop k left h = elim (Bool-cases (left == 0)) [
  | inl none_left ↦ (
    [],
    (rw none_left refl),
    record { short = tt; not_late = omega arith; on_time = λ n. ground arith },
  )
  | inr some_left ↦ elim (Bool-cases (stop k)) [
    | inl told ↦ (
      [],
      (rw (some_left, told) refl),
      record {
        short = tt;
        not_late = omega arith;
        on_time = λ n. ground (arith, n k (omega arith));
      },
    )
    | inr on ↦
        (let (slept, e, v) = delay_from-Ends fuel stop (k + 1) (left - slice left) (ground arith) in
          (
            slice left ∷ slept,
            (rw (some_left, on, e) refl),
            record {
              short = (ground arith, v.short);
              not_late = ground (arith, v.not_late);
              on_time = λ n. ground (arith, v.on_time (λ j le. n j (omega arith)));
            },
          ))
  ]
]

-- The delay ends, whenever a stop is asked for: in slices of at most 500 ms, not later than asked
-- for, and exactly on time where no reading of the flag says stop.
pub modbus_delay-Ends :
    (stop : ℕ → Bool) (delay_ms : ℕ)
    → (slept : List ℕ) × (modbus_delay_with_wdt stop delay_ms ≡ some slept)
      × All IsShort slept
      × (sum slept ≤ delay_ms)
      × (Never stop 0 → sum slept ≡ delay_ms)
unfolding modbus_delay_with_wdt
modbus_delay-Ends stop delay_ms =
    let (slept, e, v) = delay_from-Ends delay_ms stop 0 delay_ms (omega arith) in
    (slept, e, v.short, v.not_late, v.on_time)

abbrev IsTimeout : Waited → Type 0
IsTimeout (timed_out waited) = Unit
IsTimeout _ = ⊥

-- What a wait of `left` ms that starts at the `k`-th reading ends with.
pub record Bounded (stop answered : ℕ → Bool) (k left : ℕ) (w : Waited) : Type 0 where
  pub short : All IsShort (slices w)
  pub not_late : sum (slices w) ≤ left
  pub timeout_full : IsTimeout w → sum (slices w) ≡ left
  pub silent_full : Never stop k → Never answered k → IsTimeout w

longer-Bounded :
    {stop answered : ℕ → Bool} (k timeout waited_ms : ℕ) (w : Waited)
    → waited_ms < timeout
    → Bounded stop answered (k + 1) (timeout - (waited_ms + slice (timeout - waited_ms))) w
    → Bounded stop answered k (timeout - waited_ms) (longer (slice (timeout - waited_ms)) w)
unfolding sum
longer-Bounded k timeout waited_ms (got_response ms) h v = record {
  short = (ground arith, v.short);
  not_late = ground (arith, v.not_late);
  timeout_full = λ t. absurd t;
  silent_full = λ n m. v.silent_full (λ j le. n j (omega arith)) (λ j le. m j (omega arith));
}
longer-Bounded k timeout waited_ms (stopped ms) h v = record {
  short = (ground arith, v.short);
  not_late = ground (arith, v.not_late);
  timeout_full = λ t. absurd t;
  silent_full = λ n m. v.silent_full (λ j le. n j (omega arith)) (λ j le. m j (omega arith));
}
longer-Bounded k timeout waited_ms (timed_out ms) h v = record {
  short = (ground arith, v.short);
  not_late = ground (arith, v.not_late);
  timeout_full = λ t. ground (arith, v.timeout_full tt);
  silent_full = λ n m. tt;
}

wait_from-Bounded :
    (fuel : ℕ) (stop answered : ℕ → Bool) (k timeout waited_ms : ℕ)
    → timeout - waited_ms < fuel
    → (w : Waited) × (wait_from fuel stop answered k timeout waited_ms ≡ some w)
      × Bounded stop answered k (timeout - waited_ms) w
unfolding wait_from sum
wait_from-Bounded zero stop answered k timeout waited_ms h = absurd (omega arith)
wait_from-Bounded (suc fuel) stop answered k timeout waited_ms h = elim (Bool-cases (stop k)) [
  | inl told ↦ (
    stopped [],
    (rw told refl),
    record {
      short = tt;
      not_late = omega arith;
      timeout_full = λ t. absurd t;
      silent_full = λ n m. ground (arith, n k (omega arith));
    },
  )
  | inr on ↦ elim (Bool-cases (ltb waited_ms timeout)) [
    | inr full ↦ (
      timed_out [],
      (rw (on, full) refl),
      record {
        short = tt;
        not_late = omega arith;
        timeout_full = λ t. ground arith;
        silent_full = λ n m. tt;
      },
    )
    | inl left ↦ elim (Bool-cases (answered k)) [
      | inl heard ↦ (
        got_response (slice (timeout - waited_ms) ∷ []),
        (rw (on, left, heard) refl),
        record {
          short = ground arith;
          not_late = ground arith;
          timeout_full = λ t. absurd t;
          silent_full = λ n m. ground (arith, m k (omega arith));
        },
      )
      | inr silent ↦
          (let (w, e, v) =
              wait_from-Bounded fuel stop answered (k + 1) timeout
                (waited_ms + slice (timeout - waited_ms)) (ground arith) in
            (
              longer (slice (timeout - waited_ms)) w,
              (rw (on, left, silent, e) refl),
              longer-Bounded k timeout waited_ms w (ltb→lt _ _ left) v,
            ))
    ]
  ]
]

-- The wait for a response ends, whatever the flag and the other tasks do: in slices of at most
-- 500 ms that sum to no more than the timeout; a wait that times out has lasted the whole timeout,
-- and one without a response and a stop does time out.
pub wait_response-Bounded :
    (stop answered : ℕ → Bool) (timeout : ℕ)
    → (w : Waited) × (wait_response stop answered timeout ≡ some w)
      × Bounded stop answered 0 timeout w
unfolding wait_response
wait_response-Bounded stop answered timeout =
    let all_left : timeout - 0 ≡ timeout = omega arith in
    subst
      (λ left.
        (w : Waited) × (wait_from (timeout + 1) stop answered 0 timeout 0 ≡ some w)
        × Bounded stop answered 0 left w)
      all_left (wait_from-Bounded (timeout + 1) stop answered 0 timeout 0 (omega arith))
