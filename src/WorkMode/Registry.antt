-- ===== src/WorkMode/Registry.antt =====
-- main/system/sx_work_mode.c: what a registration does to the lookups.
use opensx_serial_server.Prelude.{
  ◌≤◌, ◌≡◌, ◌≢◌, refl, subst, Bool, true, false, not, ◌||◌, Option, none, some, List, [], ◌∷◌, ◌++◌,
  ltb, length, length-append, Bool-cases, inl, inr, arith,
}
use opensx_serial_server.Prelude.Text.{CString, str_eq_iff}
use opensx_serial_server.Prelude.Err.{EspErr, esp_ok}
use opensx_serial_server.WorkMode.{
  Mode, State, mode_max, is_named, first_of, find_in, find_mode, add_mode, no_name, register,
}

-- A mode at the end of the table does not hide another.
find_in-append :
    (modes : List Mode) (new m : Mode) (name : CString)
    → find_in modes name ≡ some m
    → find_in (modes ++ new ∷ []) name ≡ some m
unfolding find_in
find_in-append [] new m name e = cc
find_in-append (mode ∷ modes) new m name e =
    first (is_named name mode.name) e (find_in-append modes new m name)
  where
    first :
        (b : Bool)
        → first_of b mode (find_in modes name) ≡ some m
        → (find_in modes name ≡ some m → find_in (modes ++ new ∷ []) name ≡ some m)
        → first_of b mode (find_in (modes ++ new ∷ []) name) ≡ some m
    first true e ih = e
    first false e ih = ih e

find_in-last :
    (modes : List Mode) (new : Mode) (name : CString)
    → find_in modes name ≡ none
    → is_named name new.name ≡ true
    → find_in (modes ++ new ∷ []) name ≡ some new
unfolding find_in
find_in-last [] new name e h = rw h refl
find_in-last (mode ∷ modes) new name e h =
    first (is_named name mode.name) e (λ e'. find_in-last modes new name e' h)
  where
    first :
        (b : Bool)
        → first_of b mode (find_in modes name) ≡ none
        → (find_in modes name ≡ none → find_in (modes ++ new ∷ []) name ≡ some new)
        → first_of b mode (find_in (modes ++ new ∷ []) name) ≡ some new
    first true e ih = cc
    first false e ih = ih e

abbrev NamedIf : CString → Option Mode → Type 0
NamedIf name none = Unit
NamedIf name (some m) = is_named name m.name ≡ true

find_in-NamedIf : (modes : List Mode) (name : CString) → NamedIf name (find_in modes name)
unfolding find_in
find_in-NamedIf [] name = tt
find_in-NamedIf (mode ∷ modes) name =
    first (is_named name mode.name) refl (find_in-NamedIf modes name)
  where
    first :
        (b : Bool)
        → is_named name mode.name ≡ b
        → NamedIf name (find_in modes name)
        → NamedIf name (first_of b mode (find_in modes name))
    first true h ih = h
    first false h ih = ih

-- The mode found has the name looked up.
pub find_in-named :
    (modes : List Mode) (m : Mode) (name : CString)
    → find_in modes name ≡ some m
    → is_named name m.name ≡ true
find_in-named modes m name e = named (subst (NamedIf name) e (find_in-NamedIf modes name))
  where
    named : NamedIf name (some m) → is_named name m.name ≡ true
    named h = h

-- What a registration leaves.
pub record Registered (s : State) (mode : Mode) (r : State × EspErr) : Type 0 where
  pub found : r.1 ≡ esp_ok → (m : Mode) × (find_mode r.0 mode.name ≡ some m)
  pub kept :
      (name : Option CString) (m : Mode) → find_mode s name ≡ some m → find_mode r.0 name ≡ some m
  pub bounded : length s.modes ≤ mode_max → length r.0.modes ≤ mode_max
  pub unchanged : r.1 ≢ esp_ok → r.0 ≡ s

find_mode-append :
    (s : State) (new m : Mode) (name : Option CString)
    → find_mode s name ≡ some m
    → find_mode (record s { modes = s.modes ++ new ∷ [] }) name ≡ some m
unfolding find_mode
find_mode-append s new m none e = cc
find_mode-append s new m (some []) e = cc
find_mode-append s new m (some (c ∷ cs)) e = find_in-append s.modes new m (c ∷ cs) e

find_mode-last :
    (s : State) (new : Mode)
    → no_name new.name ≡ false
    → find_mode s new.name ≡ none
    → find_mode (record s { modes = s.modes ++ new ∷ [] }) new.name ≡ some new
unfolding find_mode
find_mode-last s new n e = last new.name refl n e
  where
    last :
        (name : Option CString)
        → new.name ≡ name
        → no_name name ≡ false
        → find_mode s name ≡ none
        → find_mode (record s { modes = s.modes ++ new ∷ [] }) name ≡ some new
    last none h n e = cc
    last (some []) h n e = cc
    last (some (c ∷ cs)) h n e =
        find_in-last s.modes new (c ∷ cs) e (rw h ((str_eq_iff (c ∷ cs) (c ∷ cs)).1 refl))

added-Registered :
    (s : State) (mode : Mode) (o : Option Mode)
    → find_mode s mode.name ≡ o
    → no_name mode.name ≡ false
    → Registered s mode (add_mode s mode o)
added-Registered s mode (some existing) e n = record {
  found = λ ok. (existing, e);
  kept = λ name m f. f;
  bounded = λ h. h;
  unchanged = λ h. refl;
}
added-Registered s mode none e n = elim (Bool-cases (ltb (length s.modes) mode_max)) [
  | inl room ↦ simp room (record {
    found = λ ok. (mode, find_mode-last s mode n e);
    kept = λ name m f. find_mode-append s mode m name f;
    bounded = λ h. ground (arith, length-append s.modes (mode ∷ []));
    unchanged = λ h. absurd (h refl);
  })
  | inr full ↦ simp full (record {
    found = λ ok. absurd (ground arith);
    kept = λ name m f. f;
    bounded = λ h. h;
    unchanged = λ h. refl;
  })
]

-- A registration that answers ESP_OK leaves the name of its mode registered; one that does not changes
-- nothing. No lookup that found a mode finds another afterwards, and no more than eight modes are held.
pub register-Registered : (s : State) (mode : Mode) → Registered s mode (register s mode)
unfolding register
register-Registered s mode = elim (Bool-cases (no_name mode.name || not mode.has_start)) [
  | inl invalid ↦ rw invalid (record {
    found = λ ok. absurd (ground arith);
    kept = λ name m f. f;
    bounded = λ h. h;
    unchanged = λ h. refl;
  })
  | inr valid ↦ rw valid (added-Registered s mode (find_mode s mode.name) refl (ground arith))
]
