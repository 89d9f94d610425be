-- ===== src/WebSocket/Tags.antt =====
-- main/web/sx_web_server.c: the tags of the WebSocket clients, over any sequence of what the handlers and
-- the task of the messages do.
use opensx_serial_server.Prelude.{
  ℕ, zero, suc, ◌+◌, ◌-◌, ◌≡◌, ◌≢◌, ◌≤◌, refl, ap, Bool, true, false, ◌&&◌, Option, none, some,
  List, [], ◌∷◌, if◌then◌else◌, length, set, take, take_all, length-take, Bool-cases, inl, inr,
  arith,
}
use opensx_serial_server.Prelude.Text.{CString, truncate, strn_eq, str_eq, str_eq_iff}
use opensx_serial_server.WebSocket.{
  Client, Env, tag_max, released, has_fd, has_tag, reset_first, remove_tagged, fill_client_tag,
  with_slot, take_slot, new_client, accepted, pause, join,
}

-- How many clients in use have the tag.
unfoldable pub tagged : CString → List Client → ℕ
tagged t [] = 0
tagged t (c ∷ cs) = let rest = tagged t cs in if has_tag t c then suc rest else rest

abbrev IsLess : Bool → Bool → ℕ → ℕ → Type 0
IsLess a b m n = (if a then suc m else m) ≤ (if b then suc n else n)

more : (b : Bool) (m n : ℕ) → m ≤ n → IsLess b b m n
more b m n h = ground arith

fewer : (b : Bool) (m n : ℕ) → m ≤ n → m ≤ (if b then suc n else n)
fewer b m n h = ground arith

pub tagged-set :
    (t : CString) (i : ℕ) (cs : List Client) → tagged t (set cs i released) ≤ tagged t cs
unfolding tagged
tagged-set t i [] = omega arith
tagged-set t zero (c ∷ cs) = fewer (has_tag t c) (tagged t cs) (tagged t cs) (omega arith)
tagged-set t (suc i) (c ∷ cs) =
    more (has_tag t c) (tagged t (set cs i released)) (tagged t cs) (tagged-set t i cs)

pub tagged-reset_first :
    (t : CString) (fd : ℕ) (cs : List Client) → tagged t (reset_first fd cs) ≤ tagged t cs
unfolding tagged reset_first
tagged-reset_first t fd [] = omega arith
tagged-reset_first t fd (c ∷ cs) = elim (Bool-cases (has_fd (some fd) c)) [
  | inl e ↦ rw e (fewer (has_tag t c) (tagged t cs) (tagged t cs) (omega arith))
  | inr e ↦ rw e (more (has_tag t c) _ (tagged t cs) (tagged-reset_first t fd cs))
]

pub tagged-removed :
    (t u : CString) (cs : List Client) → tagged t (remove_tagged u cs).0 ≤ tagged t cs
unfolding tagged remove_tagged
tagged-removed t u [] = omega arith
tagged-removed t u (c ∷ cs) = elim (Bool-cases (has_tag u c)) [
  | inl e ↦ rw e (fewer (has_tag t c) _ (tagged t cs) (tagged-removed t u cs))
  | inr e ↦ rw e (more (has_tag t c) _ (tagged t cs) (tagged-removed t u cs))
]

pub tagged-gone : (t : CString) (cs : List Client) → tagged t (remove_tagged t cs).0 ≡ 0
unfolding tagged remove_tagged
tagged-gone t [] = refl
tagged-gone t (c ∷ cs) = elim (Bool-cases (has_tag t c)) [
  | inl e ↦ rw e (tagged-gone t cs)
  | inr e ↦ rw e (rw e (tagged-gone t cs))
]

-- a client more where the new one has the tag
abbrev pub one_if : Bool → ℕ
one_if b = if b then 1 else 0

abbrev pub table_of : List Client → Option (List Client) → List Client
table_of cs none = cs
table_of cs (some cs') = cs'

tagged-with :
    (t : CString) (c : Client) (k : ℕ) (cs : List Client) (o : Option (List Client))
    → tagged t (table_of cs o) ≤ tagged t cs + k
    → tagged t (table_of (c ∷ cs) (with_slot c o)) ≤ tagged t (c ∷ cs) + k
unfolding tagged
tagged-with t c k cs none h = ground arith
tagged-with t c k cs (some cs') h = ground arith

joins : (b : Bool) (n : ℕ) → (if b then suc n else n) ≤ n + one_if b
joins b n = ground arith

tagged-taken :
    (t : CString) (new : Client) (cs : List Client)
    → tagged t (table_of cs (take_slot new cs)) ≤ tagged t cs + one_if (has_tag t new)
unfolding tagged take_slot
tagged-taken t new [] = omega arith
tagged-taken t new (c ∷ cs) = elim (Bool-cases c.in_use) [
  | inl e ↦ rw e (
      tagged-with t (record c { in_use = true }) (one_if (has_tag t new)) cs (take_slot new cs)
        (tagged-taken t new cs))
  | inr e ↦ rw e (joins (has_tag t new) (tagged t cs))
]

-- Tags that agree in their first 32 bytes count the same.
pub strn_eq-take : (n : ℕ) (a b : CString) → strn_eq n a b ≡ true → take n a ≡ take n b
unfolding strn_eq
strn_eq-take n a b h = (str_eq_iff (take n a) (take n b)).0 h

has_tag-same :
    (a b : CString) (c : Client) → take tag_max a ≡ take tag_max b → has_tag a c ≡ has_tag b c
unfolding strn_eq
has_tag-same a b c e = ap (λ x. c.in_use && str_eq (take tag_max c.client_tag) x) e

pub tagged-same :
    (a b : CString) (cs : List Client) → take tag_max a ≡ take tag_max b → tagged a cs ≡ tagged b cs
unfolding tagged
tagged-same a b [] e = refl
tagged-same a b (c ∷ cs) e = rw (has_tag-same a b c e, tagged-same a b cs e) refl

-- The tag of a query has at most 31 bytes, and is stored whole.
pub length-fill : (m : Bool) (q : Option CString) → length (fill_client_tag m q) ≤ 31
unfolding fill_client_tag
length-fill m none = omega arith
length-fill false (some value) = omega arith
length-fill true (some value) = omega (arith, length-take 31 value)

pub truncate_all : (tag : CString) → length tag ≤ 31 → truncate (tag_max - 1) tag ≡ tag
unfolding truncate
truncate_all tag h = take_all 31 tag h

pub empty_tag : (t : CString) → t ≢ [] → strn_eq tag_max [] t ≡ false
unfolding strn_eq str_eq
empty_tag [] n = absurd (n refl)
empty_tag (x ∷ xs) n = refl

pub new-tag :
    (t tag : CString) (fd : Option ℕ)
    → length tag ≤ 31
    → has_tag t (new_client fd tag) ≡ strn_eq tag_max tag t
new-tag t tag fd h = ap (λ x. strn_eq tag_max x t) (truncate_all tag h)

-- The other tasks add no client with a tag.
abbrev pub Keeps : Env → Type 0
Keeps env = (t : CString) (cs : List Client) → tagged t (env.meanwhile cs) ≤ tagged t cs

pub tagged-pause :
    (env : Env) (n : ℕ) (t : CString) (cs : List Client)
    → Keeps env
    → tagged t (pause env n cs) ≤ tagged t cs
tagged-pause env zero t cs k = omega arith
tagged-pause env (suc n) t cs k = k t cs

pub table-accepted :
    (cs : List Client) (closed : List ℕ) (o : Option (List Client))
    → (accepted cs closed o).0 ≡ table_of cs o
table-accepted cs closed none = refl
table-accepted cs closed (some cs') = refl

-- The clients with a tag after a handshake, from those before the new client takes its slot.
pub tagged-join :
    (env : Env) (fd : Option ℕ) (tag t : CString) (cs : List Client) (n : ℕ) (closed : List ℕ)
    → Keeps env
    → length tag ≤ 31
    → tagged t (join env fd tag (cs, n, closed)).0 ≤ tagged t cs + one_if (strn_eq tag_max tag t)
tagged-join env fd tag t cs n closed k h = elim (Bool-cases env.locked_slot) [
  | inl e ↦
      rw
        (e, table-accepted (pause env n cs) closed (take_slot (new_client fd tag) (pause env n cs)))
        (omega (
          arith,
          tagged-taken t (new_client fd tag) (pause env n cs),
          tagged-pause env n t cs k,
          ap one_if (new-tag t tag fd h),
        ))
  | inr e ↦ rw e (omega (arith, tagged-pause env n t cs k))
]
