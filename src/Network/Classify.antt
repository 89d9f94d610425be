-- ===== src/Network/Classify.antt =====
-- What a check finds, by an independent description of a usable link.
use opensx_serial_server.Prelude.{
  ◌≡◌, ◌≢◌, ◌↔◌, refl, sym, subst, Bool, true, false, not, ◌&&◌, Option, none, some, [], ◌∷◌, arith,
}
use opensx_serial_server.Prelude.Text.{CString, c_str, str_eq, str_eq_iff}
use opensx_serial_server.Protocols.{down, local, external}
use opensx_serial_server.Network.State.{
  NetIf, wifi, eth, none_if, same_if, dashes, Status, Env, World, periodic_check, sync_legacy_flags,
  set_network_state,
}
use opensx_serial_server.Network.Check.{
  ping_ip_string, check_internet_external, evaluate_state, status_matches_snapshot, apply_checked,
  evaluate_current_state, Checked,
}
use opensx_serial_server.Network.Handle.{handle_event}

-- An address, and no placeholder for one, that answers a ping.
pub record Answers (env : Env) (ip : CString) : Type 0 where
  pub some_text : ip ≢ []
  pub no_dashes : ip ≢ dashes
  pub no_zeros : ip ≢ c_str "0.0.0.0"
  pub pinged : env.ping ip ≡ true

-- The host for the check is resolved to an address that answers.
abbrev pub Online : Env → Type 0
Online env = (ip : CString) × (env.resolved ≡ some ip) × Answers env ip

-- The active interface carries traffic, as far as the check can tell.
pub data HasLink (env : Env) (s : Status) : Type 0 where
  wifi_link :
      s.active_if ≡ wifi
      → s.wifi_connected ≡ true
      → s.wifi_got_ip ≡ true
      → Answers env s.gateway
      → HasLink env s
  eth_dhcp : s.active_if ≡ eth → s.eth_got_ip ≡ true → HasLink env s
  eth_static : s.active_if ≡ eth → s.eth_static_ip_valid ≡ true → HasLink env s

-- No other task touches the status during the check.
abbrev pub Undisturbed : Env → Type 0
Undisturbed env = (s : Status) → env.meanwhile s ≡ s

pub matches_self : (s : Status) → status_matches_snapshot s s ≡ true
unfolding status_matches_snapshot
matches_self s =
    ground (arith, str_eq_iff s.ip s.ip, str_eq_iff s.gateway s.gateway, same_if_self s.active_if)
  where
    same_if_self : (i : NetIf) → same_if i i ≡ true
    same_if_self none_if = refl
    same_if_self wifi = refl
    same_if_self eth = refl

net_state-apply_checked :
    (env : Env) (c : Checked) (w : World) → (apply_checked env c w).0.status.net_state ≡ c.0
unfolding apply_checked set_network_state sync_legacy_flags
net_state-apply_checked env (new, g, i) w = ground arith

checked_state :
    (env : Env) (w : World)
    → Undisturbed env
    → (evaluate_current_state env w).0.status.net_state ≡ (evaluate_state env w.status).0
unfolding evaluate_current_state
checked_state env w u =
    rw (u w.status, matches_self w.status)
      (net_state-apply_checked env (evaluate_state env w.status) (record w { status = w.status }))

ping-Answers : (env : Env) (ip : CString) → ping_ip_string env ip ≡ true → Answers env ip
unfolding ping_ip_string
ping-Answers env [] h = cc
ping-Answers env (c ∷ cs) h = record {
  some_text = λ e. cc;
  no_dashes = λ e. ground (arith, (str_eq_iff (c ∷ cs) dashes).1 e);
  no_zeros = λ e. ground (arith, (str_eq_iff (c ∷ cs) (c_str "0.0.0.0")).1 e);
  pinged = ground arith;
}

Answers-ping : (env : Env) (ip : CString) → Answers env ip → ping_ip_string env ip ≡ true
unfolding ping_ip_string
Answers-ping env [] a = absurd (a.some_text refl)
Answers-ping env (c ∷ cs) a =
    not_these (str_eq (c ∷ cs) dashes) (str_eq (c ∷ cs) (c_str "0.0.0.0"))
      (λ e. a.no_dashes ((str_eq_iff (c ∷ cs) dashes).0 e))
      (λ e. a.no_zeros ((str_eq_iff (c ∷ cs) (c_str "0.0.0.0")).0 e)) (env.ping (c ∷ cs)) a.pinged
  where
    not_these :
        (p q : Bool)
        → ¬ (p ≡ true)
        → ¬ (q ≡ true)
        → (r : Bool) → r ≡ true
        → (not p && not q && r) ≡ true
    not_these true q h k r e = absurd (h refl)
    not_these false true h k r e = absurd (k refl)
    not_these false false h k r e = e

check-Online : (env : Env) → check_internet_external env ≡ true → Online env
unfolding check_internet_external
check-Online env h = found env.resolved refl h
  where
    found :
        (o : Option CString)
        → env.resolved ≡ o
        → elim o [ none ↦ false | some ip ↦ ping_ip_string env ip ] ≡ true
        → Online env
    found none e h = cc
    found (some ip) e h = (ip, e, ping-Answers env ip h)

Online-check : (env : Env) → Online env → check_internet_external env ≡ true
unfolding check_internet_external
Online-check env (ip, e, a) =
    subst (λ o. elim o [ none ↦ false | some ip ↦ ping_ip_string env ip ] ≡ true) (sym e)
      (Answers-ping env ip a)

evaluate_link : (env : Env) (s : Status) → (evaluate_state env s).0 ≢ down → HasLink env s
unfolding evaluate_state
evaluate_link env s h = grind (arith, wifi_link, eth_dhcp, eth_static, ping-Answers)

evaluate_no_link : (env : Env) (s : Status) → HasLink env s → (evaluate_state env s).0 ≢ down
unfolding evaluate_state
evaluate_no_link env s (wifi_link a b c d) = ground (arith, Answers-ping env s.gateway d)
evaluate_no_link env s (eth_dhcp a b) = ground arith
evaluate_no_link env s (eth_static a b) = ground arith

evaluate_internet :
    (env : Env) (s : Status)
    → ((evaluate_state env s).0 ≡ external → check_internet_external env ≡ true)
      × ((evaluate_state env s).0 ≡ local → check_internet_external env ≡ false)
unfolding evaluate_state
evaluate_internet env s = ground arith

-- After a periodic check that no other task disturbs, the network is down exactly where the active
-- interface has no usable link (WiFi connected, with an address, its gateway answering; or a
-- dynamic or static Ethernet address). It is external only where the host for the check is resolved
-- to an address that is no placeholder and answers a ping, and local only where it is not.
pub check_state :
    (env : Env) (w : World)
    → Undisturbed env
    → let n = (handle_event env periodic_check w).0.status.net_state in
      (n ≢ down ↔ HasLink env w.status) × (n ≡ external → Online env) × (n ≡ local → ¬ (Online env))
unfolding handle_event
check_state env w u = rw (checked_state env w u) (
  (evaluate_link env w.status, evaluate_no_link env w.status),
  (λ e. check-Online env ((evaluate_internet env w.status).0 e)),
  (λ e o. ground (arith, (evaluate_internet env w.status).1 e, Online-check env o)),
)

-- A check during which the interface, the link or the addresses changed leaves the status as the
-- other task wrote it, and calls no protocol.
pub check_discarded :
    (env : Env) (w : World)
    → status_matches_snapshot (env.meanwhile w.status) w.status ≡ false
    → handle_event env periodic_check w ≡ (record w { status = env.meanwhile w.status }, [])
unfolding handle_event evaluate_current_state
check_discarded env w h = rw h
