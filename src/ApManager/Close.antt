-- ===== src/ApManager/Close.antt =====
-- main/network/sx_ap_manager.c: the timer closes the access point once, when no client is left.
use opensx_serial_server.Prelude.{
  ℕ, ◌+◌, ◌*◌, ◌≡◌, Bool, true, false, not, ◌||◌, Option, some, List, [], ◌∷◌, ◌++◌,
}
use opensx_serial_server.ApManager.{State, Env, Call, may_have_clients, ap_close_timer_callback}

-- The timer runs out once for each of the environments.
pub expiries : List Env → State → State × List Call
expiries [] s = (s, [])
expiries (env ∷ envs) s =
    let (s', calls) = ap_close_timer_callback env s in
    let (s'', later) = expiries envs s' in (s'', calls ++ later)

-- At one of the expiries the list of clients can be read and is empty.
abbrev pub left_alone : List Env → Bool
left_alone [] = false
left_alone (env ∷ envs) = not (may_have_clients env.clients) || left_alone envs

-- The timer can be started again.
abbrev pub CanStart : List Env → Type 0
CanStart [] = Unit
CanStart (env ∷ envs) = (env.creates_timer ≡ true) × (env.starts_timer ≡ true) × CanStart envs

-- Ten seconds after the last expiry.
abbrev pub recheck_at : List Env → Option ℕ → Option ℕ
recheck_at [] due = due
recheck_at (env ∷ envs) due = recheck_at envs (some (env.now_us + 10 * 1000000))
