-- ===== src/WebSocket/Replace.antt =====
-- main/web/sx_web_server.c: a WebSocket client that connects again under its tag.
use opensx_serial_server.Prelude.{
  ℕ, zero, suc, ◌≡◌, ◌≤◌, refl, ap, ◌∙◌, Bool, true, false, not, ◌||◌, Option, none, some, List, [],
  ◌∷◌, take, if◌then◌else◌, length, Bool-cases, inl, inr, arith,
}
use opensx_serial_server.Prelude.Text.{CString, strn_eq, str_eq_iff}
use opensx_serial_server.Prelude.Err.{esp_ok}
use opensx_serial_server.WebSocket.{
  Client, Env, tag_max, has_tag, remove_tagged, remove_client_by_tag, fill_client_tag, with_slot,
  take_slot, new_client, accepted, pause, join, handshake,
}
use opensx_serial_server.WebSocket.Tags.{
  tagged, table_of, tagged-gone, tagged-pause, table-accepted, Keeps, new-tag, truncate_all,
}

-- A slot is free.
unfoldable pub has_free : List Client → Bool
has_free [] = false
has_free (c ∷ cs) = not c.in_use || has_free cs

no_tag : (b : Bool) (n : ℕ) → 1 ≤ (if b then suc n else n) → b ≡ false → 1 ≤ n
no_tag b n h e = ground arith

behind : (a b : Bool) → (not a || b) ≡ true → a ≡ true → b ≡ true
behind a b h e = ground arith

frees : (t : CString) (cs : List Client) → 1 ≤ tagged t cs → has_free (remove_tagged t cs).0 ≡ true
unfolding has_free remove_tagged tagged
frees t [] h = absurd (omega arith)
frees t (c ∷ cs) h = elim (Bool-cases (has_tag t c)) [
  | inl e ↦ rw e refl
  | inr e ↦ rw e (
      either (not c.in_use) (has_free (remove_tagged t cs).0)
        (frees t cs (no_tag (has_tag t c) (tagged t cs) h e)))
]
  where
    either : (a b : Bool) → b ≡ true → (a || b) ≡ true
    either a b h = ground arith

-- What taking a slot gives where one is free.
record Takes (t : CString) (cs : List Client) (o : Option (List Client)) : Type 0 where
  more : tagged t (table_of cs o) ≡ suc (tagged t cs)
  answers : (closed : List ℕ) → (accepted cs closed o).1 ≡ esp_ok

with_slot-Takes :
    (t : CString) (c : Client) (cs : List Client) (o : Option (List Client))
    → Takes t cs o
    → Takes t (c ∷ cs) (with_slot c o)
unfolding tagged
with_slot-Takes t c cs none r = record { more = omega (arith, r.more); answers = r.answers }
with_slot-Takes t c cs (some cs') r = record { more = ground (arith, r.more); answers = λ l. refl }

take_slot-Takes :
    (t : CString) (new : Client) (cs : List Client)
    → has_free cs ≡ true
    → has_tag t new ≡ true
    → Takes t cs (take_slot new cs)
unfolding has_free take_slot tagged
take_slot-Takes t new [] f h = ground (arith, f)
take_slot-Takes t new (c ∷ cs) f h = elim (Bool-cases c.in_use) [
  | inl e ↦ rw e (
      with_slot-Takes t (record c { in_use = true }) cs (take_slot new cs)
        (take_slot-Takes t new cs (behind c.in_use (has_free cs) f e) h))
  | inr e ↦ rw e (record { more = rw h refl; answers = λ l. refl })
]

-- The other tasks leave a free slot free.
abbrev pub LeavesFree : Env → Type 0
LeavesFree env = (cs : List Client) → has_free cs ≡ true → has_free (env.meanwhile cs) ≡ true

free-pause :
    (env : Env) (n : ℕ) (cs : List Client)
    → LeavesFree env
    → has_free cs ≡ true
    → has_free (pause env n cs) ≡ true
free-pause env zero cs k h = h
free-pause env (suc n) cs k h = k cs h

own_tag : (tag : CString) (fd : Option ℕ) → length tag ≤ 31 → has_tag tag (new_client fd tag) ≡ true
unfolding strn_eq
own_tag tag fd h = new-tag tag tag fd h ∙ (str_eq_iff (take tag_max tag) (take tag_max tag)).1 refl

fills : (m : Bool) (tag : CString) → m ≡ true → length tag ≤ 31 → fill_client_tag m (some tag) ≡ tag
unfolding fill_client_tag
fills m tag e h = rw e (truncate_all tag h)

taken :
    (tag : CString) (cs : List Client) (closed : List ℕ) (o : Option (List Client))
    → Takes tag cs o
    → tagged tag cs ≡ 0
    → ((accepted cs closed o).1 ≡ esp_ok) × (tagged tag (accepted cs closed o).0 ≡ 1)
taken tag cs closed o r z =
    (r.answers closed, ap (tagged tag) (table-accepted cs closed o) ∙ r.more ∙ ap suc z)

-- The new client joins a table with a free slot and without its tag.
joins :
    (env : Env) (fd : Option ℕ) (tag : CString) (cs : List Client) (n : ℕ) (closed : List ℕ)
    → env.locked_slot ≡ true
    → Keeps env
    → LeavesFree env
    → length tag ≤ 31
    → has_free cs ≡ true
    → tagged tag cs ≡ 0
    → ((join env fd tag (cs, n, closed)).1 ≡ esp_ok)
      × (tagged tag (join env fd tag (cs, n, closed)).0 ≡ 1)
joins env fd tag cs n closed s k f h free z =
    let cs' = pause env n cs in
    rw s (
      taken tag cs' closed (take_slot (new_client fd tag) cs')
        (take_slot-Takes tag (new_client fd tag) cs' (free-pause env n cs f free)
          (own_tag tag fd h))
        (omega (arith, tagged-pause env n tag cs k)))

removed :
    (env : Env) (x : ℕ) (tag : CString) (cs : List Client)
    → env.locked ≡ true
    → 1 ≤ tagged (x ∷ tag) cs
    → let r = remove_client_by_tag env (x ∷ tag) cs in
      (has_free r.0 ≡ true) × (tagged (x ∷ tag) r.0 ≡ 0)
unfolding remove_client_by_tag
removed env x tag cs l h = rw l (frees (x ∷ tag) cs h, tagged-gone (x ∷ tag) cs)

-- A client that finds a table where its tag is in use, full or not, is accepted in place of the old one,
-- and is then the only one with its tag: for a tag of one to 31 bytes, while the mutex and memory are
-- granted, and where other tasks add no client during the pause.
pub handshake-replaces :
    (env : Env) (fd : Option ℕ) (x : ℕ) (tag : CString) (cs : List Client)
    → env.locked ≡ true
    → env.locked_slot ≡ true
    → env.memory ≡ true
    → Keeps env
    → LeavesFree env
    → length (x ∷ tag) ≤ 31
    → 1 ≤ tagged (x ∷ tag) cs
    → let (cs', err, closed) = handshake env fd (some (x ∷ tag)) cs in
      (err ≡ esp_ok) × (tagged (x ∷ tag) cs' ≡ 1)
unfolding handshake
handshake-replaces env fd x tag cs l s m k f h one =
    let r = remove_client_by_tag env (x ∷ tag) cs in
    let (free, none_left) = removed env x tag cs l one in
    rw (fills env.memory (x ∷ tag) m h) (joins env fd (x ∷ tag) r.0 r.1 r.2 s k f h free none_left)
