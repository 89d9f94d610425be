-- ===== src/ApManager/Wait.antt =====
-- main/network/sx_ap_manager.c: the setting of the wait time, and the seconds that remain.
use opensx_serial_server.Prelude.{
  ℕ, ◌+◌, ◌*◌, ◌≤◌, ◌<◌, ◌≡◌, ◌≢◌, ◌⊎◌, refl, sym, ap, subst, ◌∙◌, true, false, Option, none, some,
  [], ◌∷◌, ◌==◌, if◌then◌else◌, Bool-cases, inl, inr, arith,
}
use opensx_serial_server.Prelude.Int.{ℤ, pos, negsuc, to_nat}
use opensx_serial_server.Prelude.Text.{CString, c_str, atoi, str_eq}
use opensx_serial_server.Prelude.Nvs.{Nvs, nvs_get_str}
use opensx_serial_server.Prelude.Err.{esp_ok}
use opensx_serial_server.ApManager.{
  State, Env, is_wait_time, checked_wait_time, wait_time_of, load_ap_wait_time_sec, start_closing,
  ap_manager_start, schedule_ap_close_timer, get_remaining_sec,
}

-- Zero, for ever, or ten minutes to an hour.
abbrev pub IsAllowed : ℕ → Type 0
IsAllowed n = (n ≡ 0) ⊎ ((n ≡ 600) ⊎ ((n ≡ 1200) ⊎ ((n ≡ 1800) ⊎ (n ≡ 3600))))

-- The flash with what is stored instead of the setting.
abbrev pub corrected : Nvs → Option CString → Nvs
corrected nvs none = nvs
corrected nvs (some value) = record nvs {
  get = λ k. if str_eq k (c_str "ap_wait_time") then some value else nvs.get k;
}

is_wait_time-IsAllowed : (z : ℤ) → is_wait_time z ≡ true → IsAllowed (to_nat z)
unfolding is_wait_time
is_wait_time-IsAllowed (pos n) h = ground arith
is_wait_time-IsAllowed (negsuc n) h = cc

reads_zero :
    (nvs : Nvs)
    → nvs.opens ≡ true
    → load_ap_wait_time_sec (corrected nvs (some (c_str "0"))) ≡ (0, none)
unfolding load_ap_wait_time_sec checked_wait_time is_wait_time atoi str_eq nvs_get_str
reads_zero nvs o = rw o refl

reads_hour :
    (nvs : Nvs)
    → nvs.opens ≡ true
    → load_ap_wait_time_sec (corrected nvs (some (c_str "3600"))) ≡ (3600, none)
unfolding load_ap_wait_time_sec checked_wait_time is_wait_time atoi str_eq nvs_get_str
reads_hour nvs o = rw o refl

load-open :
    (nvs : Nvs)
    → nvs.opens ≡ true
    → load_ap_wait_time_sec nvs ≡ wait_time_of (nvs_get_str nvs (c_str "ap_wait_time") 16)
unfolding load_ap_wait_time_sec
load-open nvs o = rw o refl

load-shut : (nvs : Nvs) → nvs.opens ≡ false → load_ap_wait_time_sec nvs ≡ (0, none)
unfolding load_ap_wait_time_sec
load-shut nvs o = rw o refl

checked_good :
    (value : CString)
    → is_wait_time (atoi value) ≡ true
    → checked_wait_time value ≡ (to_nat (atoi value), none)
unfolding checked_wait_time
checked_good value h = rw h refl

checked_bad :
    (value : CString)
    → is_wait_time (atoi value) ≡ false
    → checked_wait_time value ≡ (3600, some (c_str "3600"))
unfolding checked_wait_time
checked_bad value h = rw h refl

-- What is read, and what a second reading gives.
abbrev IsSettled : Nvs → ℕ × Option CString → Type 0
IsSettled nvs r = IsAllowed r.0 × (load_ap_wait_time_sec (corrected nvs r.1) ≡ (r.0, none))

value-IsSettled :
    (nvs : Nvs) (value : Option CString)
    → nvs.opens ≡ true
    → nvs_get_str nvs (c_str "ap_wait_time") 16 ≡ value
    → IsSettled nvs (wait_time_of value)
value-IsSettled nvs none o e = (inl refl, reads_zero nvs o)
value-IsSettled nvs (some []) o e = (inl refl, reads_zero nvs o)
value-IsSettled nvs (some (c ∷ cs)) o e = elim (Bool-cases (is_wait_time (atoi (c ∷ cs)))) [
  | inl good ↦ rw (checked_good (c ∷ cs) good) (
    is_wait_time-IsAllowed (atoi (c ∷ cs)) good,
    load-open nvs o ∙ ap wait_time_of e ∙ checked_good (c ∷ cs) good,
  )
  | inr bad ↦ rw (checked_bad (c ∷ cs) bad) (inr (inr (inr (inr refl))), reads_hour nvs o)
]

load-IsSettled : (nvs : Nvs) → IsSettled nvs (load_ap_wait_time_sec nvs)
load-IsSettled nvs = elim (Bool-cases nvs.opens) [
  | inl o ↦
      subst (λ r. IsSettled nvs r) (sym (load-open nvs o))
        (value-IsSettled nvs (nvs_get_str nvs (c_str "ap_wait_time") 16) o refl)
  | inr shut ↦
      subst (λ r. IsSettled nvs r) (sym (load-shut nvs shut)) (inl refl, load-shut nvs shut)
]

-- Whatever the flash holds, the wait time is zero, ten, twenty, thirty or sixty minutes; and after what
-- is stored instead of a setting that is missing or wrong, a second reading gives the same time and
-- stores nothing.
pub load_ap_wait_time-settled :
    (nvs : Nvs)
    → let (wait, stored) = load_ap_wait_time_sec nvs in
      IsAllowed wait × (load_ap_wait_time_sec (corrected nvs stored) ≡ (wait, none))
load_ap_wait_time-settled nvs = load-IsSettled nvs

-- The access point is started with a wait time, and its timer works.
pub record Starts (env : Env) (wait : ℕ) : Type 0 where
  pub softap : env.softap ≡ esp_ok
  pub creates : env.creates_timer ≡ true
  pub starts : env.starts_timer ≡ true
  pub reads : (load_ap_wait_time_sec env.nvs).0 ≡ wait
  pub waits : wait ≢ 0

started :
    (env : Env) (wait : ℕ) (s : State)
    → Starts env wait
    → let s' = (ap_manager_start env s).0 in
      (s'.ap_on ≡ true)
      × (s'.wait_time_sec ≡ wait)
      × (s'.close_at_us ≡ env.now_us + wait * 1000000)
      × (s'.timer_due ≡ some (env.now_us + wait * 1000000))
unfolding ap_manager_start start_closing schedule_ap_close_timer
started env wait s v =
    let nonzero : (wait == 0) ≡ false = ground (arith, v.waits) in
    elim (Bool-cases s.timer_created) [
      | inl c ↦ simp (v.softap, v.reads, nonzero, v.creates, v.starts, c) (refl, refl, refl, refl)
      | inr c ↦ simp (v.softap, v.reads, nonzero, v.creates, v.starts, c) (refl, refl, refl, refl)
    ]

remaining_lem :
    (s : State) (now start wait : ℕ)
    → s.ap_on ≡ true
    → s.wait_time_sec ≡ wait
    → wait ≢ 0
    → s.close_at_us ≡ start + wait * 1000000
    → let r = get_remaining_sec now s in
      (start + wait * 1000000 ≤ now → r ≡ 0)
      × (now ≤ start + wait * 1000000 → start + wait * 1000000 ≤ now + r * 1000000)
      × (now ≤ start + wait * 1000000 → now + r * 1000000 < start + wait * 1000000 + 1000000)
unfolding get_remaining_sec
remaining_lem s now start wait on w nz c = (ground arith, ground arith, ground arith)

-- After a start with a wait time, the timer is due when that time is over, and the seconds that remain,
-- asked for at any time, are those to that moment, rounded up, and none from it on.
pub ap_manager_start-remaining :
    (env : Env) (wait now : ℕ) (s : State)
    → Starts env wait
    → let s' = (ap_manager_start env s).0 in
      let end = env.now_us + wait * 1000000 in
      let r = get_remaining_sec now s' in
      (s'.timer_due ≡ some end)
      × (end ≤ now → r ≡ 0)
      × (now ≤ end → end ≤ now + r * 1000000)
      × (now ≤ end → now + r * 1000000 < end + 1000000)
ap_manager_start-remaining env wait now s v =
    let s' = (ap_manager_start env s).0 in
    let e = started env wait s v in
    let r = remaining_lem s' now env.now_us wait e.0 e.1 v.waits e.2 in (e.3, r.0, r.1, r.2)
