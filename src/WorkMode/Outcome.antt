-- ===== src/WorkMode/Outcome.antt =====
-- main/system/sx_work_mode.c: what the start of a mode calls and answers.
use mathlib.Core.Option.{some-injective}
use opensx_serial_server.Prelude.{
  ◌≡◌, ◌≢◌, ◌++◌, refl, sym, ap, subst, true, false, Option, none, some, List, [], ◌∷◌,
  if◌then◌else◌, Bool-cases, inl, inr, arith,
}
use opensx_serial_server.Prelude.Text.{CString, str_eq_iff}
use opensx_serial_server.Prelude.Err.{EspErr, esp_ok, err_not_found}
use opensx_serial_server.WorkMode.{
  Mode, State, Call, start, after_start, stop, stop_mode, stop_current, is_active, start_mode,
  start_found, same_name,
}

-- The name of the active mode.
abbrev pub name_of : Option Mode → Option (Option CString)
name_of none = none
name_of (some mode) = some mode.name

-- The active mode has a name and can be stopped.
pub data CanStop : Option Mode → Type 0 where
  idle : CanStop none
  running :
      (mode : Mode)
      → mode.has_stop ≡ true
      → same_name mode.name mode.name ≡ true
      → CanStop (some mode)

-- A mode that can be started.
abbrev pub Startable : Mode → Type 0
Startable mode = (mode.has_stop ≡ true) × (same_name mode.name mode.name ≡ true)

-- The stop of what runs, and the calls of one start that answers `err`.
abbrev stops_of : Option Mode → List Call
stops_of none = []
stops_of (some old) = stop old.name ∷ []

abbrev starts_of : Mode → EspErr → List Call
starts_of mode esp_ok =
    start mode.name true ∷ (if mode.has_after_start then after_start mode.name ∷ [] else [])
starts_of mode err = start mode.name false ∷ []

-- What is called and answered where `current` is active and `wanted` has been found by its name.
pub data HasOutcome (starts : Mode → EspErr) (current wanted : Option Mode) (calls : List Call)
    (err : EspErr) : Type 0 where
  missing :
      wanted ≡ none → calls ≡ [] → err ≡ err_not_found → HasOutcome starts current wanted calls err
  already :
      (mode : Mode)
      → wanted ≡ some mode
      → name_of current ≡ some mode.name
      → calls ≡ []
      → err ≡ esp_ok
      → HasOutcome starts current wanted calls err
  changes :
      (mode : Mode)
      → wanted ≡ some mode
      → name_of current ≢ some mode.name
      → calls ≡ stops_of current ++ starts_of mode (starts mode)
      → err ≡ starts mode
      → HasOutcome starts current wanted calls err

same_name-eq : (a b : Option CString) → same_name a b ≡ true → a ≡ b
same_name-eq none b h = cc
same_name-eq (some a) none h = cc
same_name-eq (some a) (some b) h = ap some ((str_eq_iff a b).0 h)

is_active-name :
    (current : Option Mode) (mode : Mode)
    → is_active current mode ≡ true
    → name_of current ≡ some mode.name
is_active-name none mode h = cc
is_active-name (some m) mode h = ap some (same_name-eq m.name mode.name h)

name-is_active :
    (current : Option Mode) (mode : Mode)
    → same_name mode.name mode.name ≡ true
    → name_of current ≡ some mode.name
    → is_active current mode ≡ true
name-is_active none mode h e = cc
name-is_active (some m) mode h e =
    subst (λ o. same_name o mode.name ≡ true) (sym (some-injective m.name mode.name e)) h

started_calls :
    (err : EspErr) (mode : Mode) (s : State) (current : Option Mode)
    → CanStop current
    → let r = start_mode err mode (stop_mode s current) in
      (r.1 ≡ stops_of current ++ starts_of mode err) × (r.2 ≡ err)
started_calls esp_ok mode s none c = (refl, refl)
started_calls _ mode s none c = (refl, refl)
started_calls esp_ok mode s (some old) (running _ h n) = rw h (refl, refl)
started_calls _ mode s (some old) (running _ h n) = rw h (refl, refl)

pub start_found-HasOutcome :
    (starts : Mode → EspErr) (s : State) (o : Option Mode)
    → ((mode : Mode) → o ≡ some mode → Startable mode)
    → CanStop s.current
    → let r = start_found starts s o in HasOutcome starts s.current o r.1 r.2
unfolding stop_current
start_found-HasOutcome starts s none st c = missing refl refl refl
start_found-HasOutcome starts s (some mode) st c = elim (Bool-cases (is_active s.current mode)) [
  | inl same ↦ simp same (already mode refl (is_active-name s.current mode same) refl refl)
  | inr other ↦
      let r = started_calls (starts mode) mode s s.current c in
      simp other (
        changes mode refl
          (λ e. ground (arith, other, name-is_active s.current mode (st mode refl).1 e)) r.0 r.1)
]
