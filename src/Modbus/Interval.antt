-- ===== src/Modbus/Interval.antt =====
-- main/drivers/sx_modbus.c: the poll interval (`poll_time`), which the task raises until one pass
-- over the enabled items fits. `int` arithmetic wraps in 32 bits.
use opensx_serial_server.Prelude.{
  ℕ, ◌+◌, ◌≤◌, ◌<◌, ◌≡◌, ◌&&◌, Option, none, some, List, [], ◌∷◌, if◌then◌else◌, All, true,
}
use opensx_serial_server.Prelude.Int.{ℤ, pos, negsuc, above, ltz, ◌+ℤ◌}
use opensx_serial_server.Prelude.Text.{CString, c_str, atoi}
use opensx_serial_server.Prelude.Nvs.{Nvs, nvs_get_str}
use opensx_serial_server.Modbus.Poll.{Item, timeout_of, interval_of}

abbrev stored_or : ℤ → Option CString → ℤ
stored_or default none = default
stored_or default (some text) = atoi text

-- the value in the flash, half a minute by default
unfoldable pub stored_poll_time : Nvs → ℤ
stored_poll_time nvs =
    if nvs.opens then stored_or (pos 30000) (nvs_get_str nvs (c_str "poll_time") 32) else pos 30000

-- `total_template_time`
pub total_template_time : List Item → ℤ → ℤ
total_template_time [] total = total
total_template_time (item ∷ items) total =
    total_template_time items
      (if item.enabled then total +ℤ (atoi item.timeout +ℤ atoi item.interval_time) else total)

-- the poll time to run with, and the value to store, where it is raised
unfoldable pub adjust_poll_time : ℤ → List Item → ℤ × Option ℤ
unfolding total_template_time
adjust_poll_time poll_time items =
    let total = total_template_time items (pos 0) in
    let min_poll_time = total +ℤ pos 1000 in
    if above 0 total && ltz poll_time min_poll_time
    then (min_poll_time, some min_poll_time)
    else (poll_time, none)

-- The times of an item are numbers that the code takes as they are.
pub record IsTimed (item : Item) : Type 0 where
  pub timeout : ℕ
  pub interval : ℕ
  pub timeout_is : atoi item.timeout ≡ pos timeout
  pub at_least : 100 ≤ timeout
  pub at_most : timeout ≤ 10000
  pub interval_is : atoi item.interval_time ≡ pos interval
  pub some_interval : 0 < interval

-- So are those of all items that are polled.
abbrev pub AllTimed : List Item → Type 0
AllTimed items = All (λ item. item.enabled ≡ true → IsTimed item) items

-- How long a pass over the items waits for responses and pauses behind them, where none responds.
unfoldable pub wait_time : List Item → ℕ
wait_time [] = 0
wait_time (item ∷ items) =
    (if item.enabled then timeout_of item + interval_of item else 0) + wait_time items

abbrev pub AtLeast : ℕ → ℤ → Type 0
AtLeast n (pos a) = n ≤ a
AtLeast n (negsuc a) = ⊥

-- The choice of `adjust_poll_time` on a total that is a number.
abbrev Covers : ℕ → ℤ → ℤ × Option ℤ → Type 0
Covers time poll_time (chosen, stored) =
    AtLeast time chosen
    × (AtLeast time poll_time → (chosen ≡ poll_time) × (stored ≡ none))
    × (¬ (AtLeast time poll_time) → stored ≡ some chosen)

abbrev raise_to : ℤ → ℤ → ℤ × Option ℤ
raise_to poll_time wanted =
    if ltz poll_time wanted then (wanted, some wanted) else (poll_time, none)
