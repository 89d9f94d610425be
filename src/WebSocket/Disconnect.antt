-- ===== src/WebSocket/Disconnect.antt =====
-- main/web/sx_web_server.c: `ws_disconnect_post_handler`, the request to disconnect the clients of a tag.
use opensx_serial_server.Prelude.{
  ℕ, suc, ◌≡◌, refl, ap, ◌∙◌, Bool, true, false, not, ◌||◌, Option, none, some, List, [], ◌∷◌, ltb,
  ◌==◌, if◌then◌else◌, length, Bool-cases, inl, inr,
}
use opensx_serial_server.Prelude.Text.{CString}
use opensx_serial_server.WebSocket.{
  Client, Env, Removal, has_tag, remove_tagged, remove_client_by_tag,
}
use opensx_serial_server.WebSocket.Tags.{tagged, tagged-gone}

-- The request: its length, whether there is memory for its text, whether the text arrives and is JSON,
-- the string under `client_tag`, and whether the answer can be made and printed.
pub record Request : Type 0 where
  pub content_len : ℕ
  pub memory : Bool
  pub received : Bool
  pub is_json : Bool
  pub client_tag : Option CString
  pub answer_made : Bool
  pub answer_printed : Bool

pub data Reply : Type 0 where
  invalid_payload no_mem receive_error invalid_json client_tag_required tag_not_found : Reply
  disconnected : ℕ → Reply

-- The table, the answer, and the sessions that are closed.
abbrev pub Answer : Type 0
Answer = List Client × Reply × List ℕ

abbrev count_reply : ℕ → Reply
count_reply n = if n == 0 then tag_not_found else disconnected n

abbrev pub replied : Request → Removal → Answer
replied r (cs, removed, closed) =
    (cs, if not r.answer_made || not r.answer_printed then no_mem else count_reply removed, closed)

abbrev pub by_tag : Env → Request → List Client → Option CString → Answer
by_tag env r cs none = (cs, client_tag_required, [])
by_tag env r cs (some []) = (cs, client_tag_required, [])
by_tag env r cs (some (c ∷ tag)) = replied r (remove_client_by_tag env (c ∷ tag) cs)

-- `ws_disconnect_post_handler`
unfoldable pub disconnect : Env → Request → List Client → Answer
disconnect env r cs =
    if r.content_len == 0 || ltb 256 r.content_len
    then (cs, invalid_payload, [])
    else if not r.memory
    then (cs, no_mem, [])
    else if not r.received
    then (cs, receive_error, [])
    else if not r.is_json
    then (cs, invalid_json, [])
    else by_tag env r cs r.client_tag

length-removed : (t : CString) (cs : List Client) → length (remove_tagged t cs).1 ≡ tagged t cs
unfolding remove_tagged tagged
length-removed t [] = refl
length-removed t (c ∷ cs) = elim (Bool-cases (has_tag t c)) [
  | inl e ↦ rw e (ap suc (length-removed t cs))
  | inr e ↦ rw e (length-removed t cs)
]

-- A request that can be read, with a tag.
pub record IsRequest (r : Request) (x : ℕ) (tag : CString) : Type 0 where
  some_len : (r.content_len == 0 || ltb 256 r.content_len) ≡ false
  memory : r.memory ≡ true
  received : r.received ≡ true
  is_json : r.is_json ≡ true
  client_tag : r.client_tag ≡ some (x ∷ tag)
  answer_made : r.answer_made ≡ true
  answer_printed : r.answer_printed ≡ true

request_handled :
    (env : Env) (r : Request) (x : ℕ) (tag : CString) (cs : List Client)
    → IsRequest r x tag
    → disconnect env r cs ≡ replied r (remove_client_by_tag env (x ∷ tag) cs)
unfolding disconnect
request_handled env r x tag cs q =
    simp (q.some_len, q.memory, q.received, q.is_json, q.client_tag) refl

answered :
    (r : Request) (x : ℕ) (tag : CString) (o : Removal)
    → IsRequest r x tag
    → (replied r o).1 ≡ count_reply o.1
answered r x tag (cs, removed, closed) q = simp (q.answer_made, q.answer_printed) refl

counted :
    (env : Env) (x : ℕ) (tag : CString) (cs : List Client)
    → env.locked ≡ true
    → ((remove_client_by_tag env (x ∷ tag) cs).1 ≡ tagged (x ∷ tag) cs)
      × (tagged (x ∷ tag) (remove_client_by_tag env (x ∷ tag) cs).0 ≡ 0)
unfolding remove_client_by_tag
counted env x tag cs l = rw l (length-removed (x ∷ tag) cs, tagged-gone (x ∷ tag) cs)

-- A request that can be read and answered leaves no client with its tag, and tells how many there were.
pub disconnect-counts :
    (env : Env) (r : Request) (x : ℕ) (tag : CString) (cs : List Client)
    → env.locked ≡ true
    → IsRequest r x tag
    → let (cs', reply, closed) = disconnect env r cs in
      (reply
        ≡ (if tagged (x ∷ tag) cs == 0 then tag_not_found else disconnected (tagged (x ∷ tag) cs)))
      × (tagged (x ∷ tag) cs' ≡ 0)
disconnect-counts env r x tag cs l q =
    let (n, gone) = counted env x tag cs l in
    rw (request_handled env r x tag cs q)
      (answered r x tag (remove_client_by_tag env (x ∷ tag) cs) q ∙ ap count_reply n, gone)
