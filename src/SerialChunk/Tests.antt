-- ===== src/SerialChunk/Tests.antt =====
-- The theorems of this part at concrete inputs, and runs of the code.
use opensx_serial_server.Prelude.{ℕ, ◌≡◌, refl, true, none, some, List, [], ◌∷◌, arith}
use mathlib.Core.List.{flatten}
use opensx_serial_server.Prelude.Int.{pos}
use opensx_serial_server.Prelude.Text.{c_str, str_eq, strn_eq, truncate}
use opensx_serial_server.Prelude.Err.{esp_ok, err_invalid_arg}
use opensx_serial_server.SerialChunk.{
  ChunkCtx, Env, State, reset, reserve, starts_new, open_transfer, store, store_reserved,
  process_locked, process_data, process_uart_chunk,
}
use opensx_serial_server.SerialChunk.Order.{Grants}
use opensx_serial_server.SerialChunk.Transfer.{send_from, done, transfer_in_order}
use opensx_serial_server.SerialChunk.Inv.{IsValid}
use opensx_serial_server.SerialChunk.Loss.{errors_from, AllRefused, transfer_with_gap}

abbrev granting : Env
granting = record { mutex_created = true; mutex_taken = true; realloc_ok = λ n. true }

granting-Grants : Grants granting
granting-Grants = record { created = refl; taken = refl; memory = λ n. refl }

-- another transfer, two chunks of three received
abbrev half_way : ChunkCtx
half_way = record {
  transfer_id = c_str "t0";
  buffer = some (9 ∷ 8 ∷ []);
  len = 2;
  capacity = 514;
  expected_chunks = 3;
  received_chunks = 2;
}

abbrev busy : State
busy = record { has_mutex = true; ctx = half_way }

abbrev chunks : List (List ℕ)
chunks = (1 ∷ 2 ∷ []) ∷ (3 ∷ []) ∷ (4 ∷ 5 ∷ []) ∷ []

one_chunk :
    process_uart_chunk granting busy (some (7 ∷ [])) (pos 0) (pos 1) none
    ≡ (busy, esp_ok, (7 ∷ []) ∷ [])
unfolding process_uart_chunk process_data
one_chunk = refl

last_chunk :
    process_locked granting half_way (7 ∷ []) 2 3 (c_str "t0")
    ≡ (reset, esp_ok, (9 ∷ 8 ∷ 7 ∷ []) ∷ [])
unfolding process_locked open_transfer starts_new strn_eq str_eq truncate store_reserved reserve
    store
last_chunk = refl

empty_chunk :
    process_uart_chunk granting busy (some []) (pos 2) (pos 3) none ≡ (busy, err_invalid_arg, [])
unfolding process_uart_chunk
empty_chunk = refl

transfer_in_order_example :
    send_from granting busy 0 3 (c_str "t1") chunks ≡ (done, flatten chunks ∷ [])
unfolding flatten
transfer_in_order_example =
    transfer_in_order busy (c_str "t1") chunks granting-Grants (omega arith) (omega arith)
      (omega arith)

half_way-IsValid : IsValid half_way
half_way-IsValid = ground arith

transfer_with_gap_example :
    let (s', before_gap) =
      send_from granting busy 0 4 (c_str "t1") ((1 ∷ 2 ∷ []) ∷ (3 ∷ []) ∷ []) in
    let (s'', behind_gap) = send_from granting s' 3 4 (c_str "t1") ((6 ∷ []) ∷ []) in
    (before_gap ≡ [])
    × (behind_gap ≡ [])
    × (s'' ≡ done)
    × AllRefused (errors_from granting s' 3 4 (c_str "t1") ((6 ∷ []) ∷ []))
unfolding flatten
transfer_with_gap_example =
    transfer_with_gap busy (c_str "t1") ((1 ∷ 2 ∷ []) ∷ (3 ∷ []) ∷ []) ((6 ∷ []) ∷ []) 4
      granting-Grants (omega arith) (omega arith) (omega arith) (omega arith) (omega arith)
      (omega arith)
