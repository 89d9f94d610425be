-- ===== src/Modbus/Delay.antt =====
-- main/drivers/sx_modbus.c: the two waiting loops of the poll task (`modbus_delay_with_wdt` and the
-- wait for a response), which feed the watchdog after each slice. `stop k` is what the `k`-th reading
-- of `modbus_stop_requested` yields, `answered k` whether the response arrives in the `k`-th slice.
use opensx_serial_server.Prelude.{
  ℕ, zero, suc, ◌+◌, ◌-◌, Bool, not, Option, none, some, List, [], ◌∷◌, ltb, ◌==◌, if◌then◌else◌,
}

-- `(delay_ms > 500) ? 500 : delay_ms`
abbrev pub slice : ℕ → ℕ
slice left = if ltb 500 left then 500 else left

abbrev pub cons_slice : ℕ → Option (List ℕ) → Option (List ℕ)
cons_slice ms none = none
cons_slice ms (some later) = some (ms ∷ later)

-- The slices slept, on fuel; `none` is no fuel left.
unfoldable pub delay_from : ℕ → (ℕ → Bool) → ℕ → ℕ → Option (List ℕ)
delay_from zero stop k left = if left == 0 then some [] else none
delay_from (suc fuel) stop k left =
    let later = delay_from fuel stop (k + 1) (left - slice left) in
    if left == 0 then some [] else if stop k then some [] else cons_slice (slice left) later

-- `modbus_delay_with_wdt`, of at most `delay_ms` rounds
unfoldable pub modbus_delay_with_wdt : (ℕ → Bool) → ℕ → Option (List ℕ)
unfolding delay_from
modbus_delay_with_wdt stop delay_ms = delay_from delay_ms stop 0 delay_ms

-- How the wait for a response ends: by the response, by the stop flag or at the timeout; with the
-- slices waited.
pub data Waited : Type 0 where
  got_response stopped timed_out : List ℕ → Waited

abbrev pub slices : Waited → List ℕ
slices (got_response waited) = waited
slices (stopped waited) = waited
slices (timed_out waited) = waited

abbrev pub longer : ℕ → Waited → Waited
longer ms (got_response waited) = got_response (ms ∷ waited)
longer ms (stopped waited) = stopped (ms ∷ waited)
longer ms (timed_out waited) = timed_out (ms ∷ waited)

abbrev pub cons_waited : ℕ → Option Waited → Option Waited
cons_waited ms none = none
cons_waited ms (some w) = some (longer ms w)

unfoldable pub wait_from : ℕ → (ℕ → Bool) → (ℕ → Bool) → ℕ → ℕ → ℕ → Option Waited
wait_from zero stop answered k timeout waited_ms = none
wait_from (suc fuel) stop answered k timeout waited_ms =
    let wait_ms = slice (timeout - waited_ms) in
    let later = wait_from fuel stop answered (k + 1) timeout (waited_ms + wait_ms) in
    if stop k
    then some (stopped [])
    else if not (ltb waited_ms timeout)
    then some (timed_out [])
    else if answered k
    then some (got_response (wait_ms ∷ []))
    else cons_waited wait_ms later

-- the loop `while (!modbus_stop_requested && waited_ms < timeout)`
unfoldable pub wait_response : (ℕ → Bool) → (ℕ → Bool) → ℕ → Option Waited
unfolding wait_from
wait_response stop answered timeout = wait_from (timeout + 1) stop answered 0 timeout 0
