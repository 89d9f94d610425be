-- ===== src/KeyTimer/Tests.antt =====
-- The theorems on the key at concrete presses.
use opensx_serial_server.Prelude.{◌≡◌, refl, Bool, true, false, List, [], ◌∷◌, ◌++◌}
use opensx_serial_server.KeyTimer.{restart_task, key_run, key_timer_callback}
use opensx_serial_server.KeyTimer.Press.{held, release, at_rest, press-outcome}

press-outcome_example : (key_run (held 3 ++ release) at_rest).1 ≡ restart_task true ∷ []
press-outcome_example = press-outcome 2

-- two presses, the first while there is no memory for a task
abbrev two_presses : List (Bool × Bool)
two_presses =
    (true, true) ∷ (true, true) ∷ (false, false) ∷ (true, true) ∷ (true, true) ∷ (false, true) ∷ []

two_presses-calls : (key_run two_presses at_rest).1 ≡ restart_task false ∷ restart_task true ∷ []
unfolding key_run key_timer_callback
two_presses-calls = refl
