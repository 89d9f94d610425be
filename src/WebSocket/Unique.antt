-- ===== src/WebSocket/Unique.antt =====
-- main/web/sx_web_server.c: a tag names one WebSocket client, over any sequence of what the handlers and
-- the task of the messages do.
use opensx_serial_server.Prelude.{
  ℕ, ◌≡◌, ◌≢◌, ◌≤◌, ap, Bool, true, false, Option, none, some, List, [], ◌∷◌, length, Bool-cases,
  inl, inr, arith,
}
use opensx_serial_server.Prelude.Text.{CString, strn_eq}
use opensx_serial_server.WebSocket.{
  Client, Env, tag_max, reset_client_by_fd, reset_client_slot, reset_found, drop_client,
  find_client_by_fd, remove_client_by_tag, fill_client_tag, join, handshake, send_each,
  send_message, snapshot_client_fds, max_ws_clients,
}
use opensx_serial_server.WebSocket.Tags.{
  tagged, tagged-set, tagged-reset_first, tagged-removed, tagged-gone, strn_eq-take, tagged-same,
  length-fill, empty_tag, Keeps, tagged-join, one_if,
}

gone :
    (env : Env) (x : ℕ) (tag : CString) (cs : List Client)
    → env.locked ≡ true
    → tagged (x ∷ tag) (remove_client_by_tag env (x ∷ tag) cs).0 ≡ 0
unfolding remove_client_by_tag
gone env x tag cs l = rw l (tagged-gone (x ∷ tag) cs)

at_most :
    (env : Env) (t tag : CString) (cs : List Client)
    → tagged t (remove_client_by_tag env tag cs).0 ≤ tagged t cs
unfolding remove_client_by_tag
at_most env t [] cs = omega arith
at_most env t (x ∷ tag) cs = elim (Bool-cases env.locked) [
  | inl e ↦ rw e (tagged-removed t (x ∷ tag) cs)
  | inr e ↦ rw e (omega arith)
]

module _ (env : Env) (l : env.locked ≡ true) (k : Keeps env) where
  joined :
      (fd : Option ℕ) (tag t : CString) (cs : List Client)
      → length tag ≤ 31
      → t ≢ []
      → tagged t cs ≤ 1
      → tagged t (join env fd tag (remove_client_by_tag env tag cs)).0 ≤ 1
  joined fd [] t cs h n one = omega (
    arith,
    (let r = remove_client_by_tag env [] cs in tagged-join env fd [] t r.0 r.1 r.2 k h),
    ap one_if (empty_tag t n),
    at_most env t [] cs,
  )
  joined fd (x ∷ tag) t cs h n one = elim (Bool-cases (strn_eq tag_max (x ∷ tag) t)) [
    | inl e ↦ omega (
      arith,
      (let r = remove_client_by_tag env (x ∷ tag) cs in
          tagged-join env fd (x ∷ tag) t r.0 r.1 r.2 k h),
      ap one_if e,
      tagged-same (x ∷ tag) t (remove_client_by_tag env (x ∷ tag) cs).0
          (strn_eq-take tag_max (x ∷ tag) t e),
      gone env x tag cs l,
    )
    | inr e ↦ omega (
      arith,
      (let r = remove_client_by_tag env (x ∷ tag) cs in
          tagged-join env fd (x ∷ tag) t r.0 r.1 r.2 k h),
      ap one_if e,
      at_most env t (x ∷ tag) cs,
    )
  ]

-- What happens to the table.
pub data Event : Type 0 where
  -- a handshake, with its socket and the value of the tag in its query
  joins : Option ℕ → Option CString → Event
  -- the close of a session, and a frame that cannot be received or that closes
  closes drops : Option ℕ → Event
  -- the request to disconnect a tag
  disconnects : CString → Event
  -- a message, and where it is taken
  message : (ℕ → Bool) → Event

unfoldable pub ws_event : Env → Event → List Client → List Client
ws_event env (joins fd query) cs = (handshake env fd query cs).0
ws_event env (closes fd) cs = reset_client_by_fd env.locked fd cs
ws_event env (drops fd) cs = drop_client env.locked fd cs
ws_event env (disconnects tag) cs = (remove_client_by_tag env tag cs).0
ws_event env (message sends) cs = (send_message env sends cs).0

unfoldable pub ws_events : Env → List Event → List Client → List Client
ws_events env [] cs = cs
ws_events env (e ∷ es) cs = ws_events env es (ws_event env e cs)

after_reset :
    (b : Bool) (fd : Option ℕ) (t : CString) (cs : List Client)
    → tagged t (reset_client_by_fd b fd cs) ≤ tagged t cs
unfolding reset_client_by_fd
after_reset b none t cs = omega arith
after_reset false (some fd) t cs = omega arith
after_reset true (some fd) t cs = tagged-reset_first t fd cs

after_found :
    (b : Bool) (o : Option ℕ) (t : CString) (cs : List Client)
    → tagged t (reset_found b o cs) ≤ tagged t cs
unfolding reset_client_slot
after_found b none t cs = omega arith
after_found false (some i) t cs = omega arith
after_found true (some i) t cs = tagged-set t i cs

after_drop :
    (b : Bool) (fd : Option ℕ) (t : CString) (cs : List Client)
    → tagged t (drop_client b fd cs) ≤ tagged t cs
unfolding drop_client
after_drop b fd t cs = after_found b (find_client_by_fd b fd cs) t cs

after_sends :
    (env : Env) (sends : ℕ → Bool) (fds : List ℕ) (t : CString) (cs : List Client)
    → tagged t (send_each env sends fds cs).0 ≤ tagged t cs
unfolding send_each
after_sends env sends [] t cs = omega arith
after_sends env sends (fd ∷ fds) t cs = elim (Bool-cases (sends fd)) [
  | inl e ↦ rw e (after_sends env sends fds t cs)
  | inr e ↦ rw e (
      omega (
        arith,
        after_sends env sends fds t (reset_client_by_fd env.locked (some fd) cs),
        after_reset env.locked (some fd) t cs,
      ))
]

after_event :
    (env : Env) (e : Event) (t : CString) (cs : List Client)
    → env.locked ≡ true
    → Keeps env
    → t ≢ []
    → tagged t cs ≤ 1
    → tagged t (ws_event env e cs) ≤ 1
unfolding ws_event handshake send_message
after_event env (joins fd query) t cs l k n one =
    joined env l k fd (fill_client_tag env.memory query) t cs (length-fill env.memory query) n one
after_event env (closes fd) t cs l k n one = omega (arith, after_reset env.locked fd t cs)
after_event env (drops fd) t cs l k n one = omega (arith, after_drop env.locked fd t cs)
after_event env (disconnects tag) t cs l k n one = omega (arith, at_most env t tag cs)
after_event env (message sends) t cs l k n one =
    omega (arith, after_sends env sends (snapshot_client_fds env.locked max_ws_clients cs) t cs)

-- Where the mutex is taken whenever the table is looked at, and where other tasks add no client during
-- the pause of a handshake: whatever happens, a tag that is not empty names at most one client in use,
-- if it did at first.
pub ws_events_unique :
    (env : Env) (es : List Event) (cs : List Client)
    → env.locked ≡ true
    → Keeps env
    → ((t : CString) → t ≢ [] → tagged t cs ≤ 1)
    → (t : CString) → t ≢ []
    → tagged t (ws_events env es cs) ≤ 1
unfolding ws_events
ws_events_unique env [] cs l k one t n = one t n
ws_events_unique env (e ∷ es) cs l k one t n =
    ws_events_unique env es (ws_event env e cs) l k (λ u m. after_event env e u cs l k m (one u m))
      t n
