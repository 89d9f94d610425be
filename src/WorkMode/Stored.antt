-- ===== src/WorkMode/Stored.antt =====
-- main/system/sx_utils.c: the work mode in the flash (`nvs_get_work_mode`, `nvs_set_work_mode`).
use opensx_serial_server.Prelude.{
  ℕ, ◌-◌, ◌⊎◌, ◌<◌, ◌≡◌, ◌≢◌, refl, sym, ap, subst, Bool, true, false, Option, none, some, [], ◌∷◌,
  ◌==◌, if◌then◌else◌, length, take_all, Bool-cases, inl, inr, arith,
}
use opensx_serial_server.Prelude.Text.{CString, c_str, str_eq, str_eq_iff, truncate}
use opensx_serial_server.Prelude.Err.{
  EspErr, esp_ok, err_invalid_arg, err_invalid_state, err_not_found,
}
use opensx_serial_server.WorkMode.{
  State, find_in, find_mode, is_valid, register_builtin_modes, register, tcp_transparent_mode,
  protocol_test_mode, is_found,
}

-- what `nvs_get_str` answers for WORK_MODE_NVS_KEY: a text, ESP_ERR_NVS_NOT_FOUND,
-- ESP_ERR_NVS_INVALID_LENGTH or another error
pub data Read : Type 0 where
  found : CString → Read
  not_found : Read
  invalid_length : Read
  failed : EspErr → Read

-- WORK_MODE_DEFAULT
abbrev pub default_mode : CString
default_mode = c_str "tcp_transparent"

abbrev pub accept : ℕ → CString → State × Bool → State × CString × EspErr
accept size text (s, true) = (s, text, esp_ok)
accept size text (s, false) = (s, truncate (size - 1) default_mode, err_invalid_state)

abbrev pub of_read : State → ℕ → Read → State × CString × EspErr
of_read s size (found text) = accept size text (is_valid s (some text))
of_read s size not_found = (s, truncate (size - 1) default_mode, err_not_found)
of_read s size invalid_length = (s, truncate (size - 1) default_mode, err_invalid_state)
of_read s size (failed err) = (s, [], err)

-- `nvs_get_work_mode`, with the text that it leaves in a buffer of `size` bytes
unfoldable pub nvs_get_work_mode : State → ℕ → Read → State × CString × EspErr
nvs_get_work_mode s size read = if size == 0 then (s, [], err_invalid_arg) else of_read s size read

abbrev pub stored_if : Option CString → State × Bool → State × Option CString × EspErr
stored_if work_mode (s, true) = (s, work_mode, esp_ok)
stored_if work_mode (s, false) = (s, none, err_invalid_arg)

-- `nvs_set_work_mode`, with the text that is stored; `nvs_set_str` succeeds
unfoldable pub nvs_set_work_mode : State → Option CString → State × Option CString × EspErr
nvs_set_work_mode s work_mode = stored_if work_mode (is_valid s work_mode)

-- The registry at the start of the program.
abbrev pub at_start : State
at_start = record { modes = []; current = none; registered = false }

-- The names of the built-in modes.
abbrev pub IsBuiltin : CString → Type 0
IsBuiltin text = (text ≡ c_str "tcp_transparent") ⊎ (text ≡ c_str "protocol_test")

builtin_modes :
    (register_builtin_modes at_start).0.modes ≡ tcp_transparent_mode ∷ protocol_test_mode ∷ []
unfolding register_builtin_modes register find_mode find_in str_eq
builtin_modes = refl

found-IsBuiltin :
    (text : CString)
    → is_found (find_in (tcp_transparent_mode ∷ protocol_test_mode ∷ []) text) ≡ true
    → IsBuiltin text
unfolding find_in
found-IsBuiltin text h = elim (Bool-cases (str_eq (c_str "tcp_transparent") text)) [
  | inl same ↦ inl (sym ((str_eq_iff (c_str "tcp_transparent") text).0 same))
  | inr other ↦ elim (Bool-cases (str_eq (c_str "protocol_test") text)) [
    | inl same ↦ inr (sym ((str_eq_iff (c_str "protocol_test") text).0 same))
    | inr neither ↦ absurd (ground (arith, ap is_found (nothing other neither)))
  ]
]
  where
    nothing :
        str_eq (c_str "tcp_transparent") text ≡ false
        → str_eq (c_str "protocol_test") text ≡ false
        → find_in (tcp_transparent_mode ∷ protocol_test_mode ∷ []) text ≡ none
    nothing a b = simp (a, b) refl

valid-IsBuiltin : (text : CString) → (is_valid at_start (some text)).1 ≡ true → IsBuiltin text
unfolding is_valid find_mode
valid-IsBuiltin [] h = absurd (ground arith)
valid-IsBuiltin (c ∷ cs) h =
    found-IsBuiltin (c ∷ cs)
      (subst (λ modes. is_found (find_in modes (c ∷ cs)) ≡ true) builtin_modes h)

-- Whatever the flash holds or fails to hold, short of another error of the read: the text that
-- `nvs_get_work_mode` leaves in a buffer with room for the default names a built-in mode, and it is the
-- stored text where the answer is ESP_OK.
pub nvs_get_work_mode-valid :
    (size : ℕ) (read : Read)
    → length default_mode < size
    → ((err : EspErr) → read ≢ failed err)
    → let (s, text, err) = nvs_get_work_mode at_start size read in
      IsBuiltin text × (err ≡ esp_ok → read ≡ found text)
unfolding nvs_get_work_mode truncate
nvs_get_work_mode-valid size read h r = simp (nonzero) (by_read read r)
  where
    nonzero : (size == 0) ≡ false
    nonzero = ground arith

    whole : truncate (size - 1) default_mode ≡ default_mode
    whole = take_all (size - 1) default_mode (omega arith)

    accepted :
        (text : CString) (q : State × Bool)
        → (q.1 ≡ true → IsBuiltin text)
        → let (s, text', err) = accept size text q in
          IsBuiltin text' × (err ≡ esp_ok → found text ≡ found text')
    accepted text (s, true) v = (v refl, λ e. refl)
    accepted text (s, false) v = (inl whole, λ e. absurd (ground arith))

    by_read :
        (read : Read)
        → ((err : EspErr) → read ≢ failed err)
        → let (s, text, err) = of_read at_start size read in
          IsBuiltin text × (err ≡ esp_ok → read ≡ found text)
    by_read (found text) r = accepted text (is_valid at_start (some text)) (valid-IsBuiltin text)
    by_read not_found r = (inl whole, λ e. absurd (ground arith))
    by_read invalid_length r = (inl whole, λ e. absurd (ground arith))
    by_read (failed err) r = absurd (r err refl)

-- A mode name that `nvs_set_work_mode` stores is read back as it is; no other name is stored.
pub nvs_set_work_mode-get :
    (text : CString) (size : ℕ)
    → 0 < size
    → let (s, stored, err) = nvs_set_work_mode at_start (some text) in
      (stored ≡ some text → nvs_get_work_mode at_start size (found text) ≡ (s, text, esp_ok))
      × (stored ≢ some text → (stored ≡ none) × (err ≡ err_invalid_arg))
unfolding nvs_set_work_mode nvs_get_work_mode
nvs_set_work_mode-get text size h = simp nonzero (by (is_valid at_start (some text)))
  where
    nonzero : (size == 0) ≡ false
    nonzero = ground arith

    by :
        (q : State × Bool)
        → let (s, stored, err) = stored_if (some text) q in
          (stored ≡ some text → accept size text q ≡ (s, text, esp_ok))
          × (stored ≢ some text → (stored ≡ none) × (err ≡ err_invalid_arg))
    by (s, true) = ((λ e. refl), λ n. absurd (n refl))
    by (s, false) = ((λ e. absurd (ground arith)), λ n. (refl, refl))
