-- ===== src/WebSocket.antt =====
-- main/web/sx_web_server.c: the table of WebSocket clients. Every access is made under
-- `ws_clients_mutex`; an operation is a step on the table.

pub mod Tags
pub mod Unique
pub mod Replace
pub mod Rounds
pub mod Disconnect
pub mod Payload
pub mod Instruction
pub mod Transfer
pub mod Outgoing
pub mod Shown
mod Tests
use opensx_serial_server.Prelude.{
  ℕ, zero, suc, ◌+◌, ◌-◌, ◌≡◌, refl, Bool, true, false, not, ◌&&◌, ◌||◌, Option, none, some, List,
  [], ◌∷◌, ◌++◌, ◌==◌, if◌then◌else◌, length, set,
}
use opensx_serial_server.Prelude.Text.{CString, truncate, strn_eq}
use opensx_serial_server.Prelude.Err.{EspErr, esp_ok, esp_fail}

-- `ws_client_t`; a descriptor of `none` is -1
pub record Client : Type 0 where
  pub client_fd : Option ℕ
  pub in_use : Bool
  pub client_tag : CString

-- What the system answers: whether the mutex is taken for the table and for a new slot, whether the
-- server runs, whether there is memory, and what other tasks do to the table during the pause.
pub record Env : Type 0 where
  pub locked : Bool
  pub locked_slot : Bool
  pub server : Bool
  pub memory : Bool
  pub meanwhile : List Client → List Client

abbrev pub max_ws_clients : ℕ
max_ws_clients = 8

abbrev pub tag_max : ℕ
tag_max = 32

-- `ws_reset_client_slot_locked`
abbrev pub released : Client
released = record { client_fd = none; in_use = false; client_tag = [] }

-- `ws_reset_client_slot`
unfoldable pub reset_client_slot : Bool → ℕ → List Client → List Client
reset_client_slot locked i cs = if locked then set cs i released else cs

abbrev pub same_fd : Option ℕ → Option ℕ → Bool
same_fd none none = true
same_fd none (some b) = false
same_fd (some a) none = false
same_fd (some a) (some b) = a == b

abbrev pub has_fd : Option ℕ → Client → Bool
has_fd fd c = c.in_use && same_fd c.client_fd fd

-- the first index, from `i` on, of a client with the descriptor
unfoldable pub find_from : Option ℕ → ℕ → List Client → Option ℕ
find_from fd i [] = none
find_from fd i (c ∷ cs) =
    let later = find_from fd (i + 1) cs in if has_fd fd c then some i else later

-- `ws_find_client_by_fd`; `none` is -1
unfoldable pub find_client_by_fd : Bool → Option ℕ → List Client → Option ℕ
find_client_by_fd locked fd cs = if locked then find_from fd 0 cs else none

unfoldable pub reset_first : ℕ → List Client → List Client
reset_first fd [] = []
reset_first fd (c ∷ cs) =
    let later = reset_first fd cs in if has_fd (some fd) c then released ∷ cs else c ∷ later

-- `ws_reset_client_by_fd`
unfoldable pub reset_client_by_fd : Bool → Option ℕ → List Client → List Client
reset_client_by_fd locked none cs = cs
reset_client_by_fd locked (some fd) cs = if locked then reset_first fd cs else cs

-- the descriptor of a client that is in use
abbrev pub live_fd : Client → Option ℕ
live_fd c = if c.in_use then c.client_fd else none

abbrev pub and_fd : Option ℕ → List ℕ → List ℕ → List ℕ
and_fd none without with = without
and_fd (some fd) without with = fd ∷ with

-- at most `max_fds` descriptors
unfoldable pub fds_from : ℕ → List Client → List ℕ
fds_from zero cs = []
fds_from (suc n) [] = []
fds_from (suc n) (c ∷ cs) = and_fd (live_fd c) (fds_from (suc n) cs) (fds_from n cs)

-- `ws_snapshot_client_fds`
unfoldable pub snapshot_client_fds : Bool → ℕ → List Client → List ℕ
snapshot_client_fds locked max_fds cs = if locked then fds_from max_fds cs else []

abbrev pub has_tag : CString → Client → Bool
has_tag tag c = c.in_use && strn_eq tag_max c.client_tag tag

abbrev pub release_tagged :
    CString → Client → List Client × List (Option ℕ) → List Client × List (Option ℕ)
release_tagged tag c (cs, fds) =
    if has_tag tag c then (released ∷ cs, c.client_fd ∷ fds) else (c ∷ cs, fds)

-- the clients with the tag are released; their descriptors
unfoldable pub remove_tagged : CString → List Client → List Client × List (Option ℕ)
remove_tagged tag [] = ([], [])
remove_tagged tag (c ∷ cs) = release_tagged tag c (remove_tagged tag cs)

abbrev pub opened_fds : List (Option ℕ) → List ℕ
opened_fds [] = []
opened_fds (none ∷ fds) = opened_fds fds
opened_fds (some fd ∷ fds) = fd ∷ opened_fds fds

-- the table, how many were removed, and the sessions that are closed
abbrev pub Removal : Type 0
Removal = List Client × ℕ × List ℕ

abbrev close_all : Bool → List Client × List (Option ℕ) → Removal
close_all server (cs, fds) = (cs, length fds, if server then opened_fds fds else [])

-- `ws_remove_client_by_tag`
unfoldable pub remove_client_by_tag : Env → CString → List Client → Removal
remove_client_by_tag env [] cs = (cs, 0, [])
remove_client_by_tag env (c ∷ tag) cs =
    if env.locked then close_all env.server (remove_tagged (c ∷ tag) cs) else (cs, 0, [])

-- `ws_fill_client_tag`, with the value of `client_tag` in the query
unfoldable pub fill_client_tag : Bool → Option CString → CString
unfolding truncate
fill_client_tag memory none = []
fill_client_tag memory (some value) = if memory then truncate (tag_max - 1) value else []

abbrev pub with_slot : Client → Option (List Client) → Option (List Client)
with_slot c none = none
with_slot c (some cs) = some (c ∷ cs)

-- the first slot that is not in use is taken
unfoldable pub take_slot : Client → List Client → Option (List Client)
take_slot new [] = none
take_slot new (c ∷ cs) =
    let later = with_slot c (take_slot new cs) in if not c.in_use then some (new ∷ cs) else later

-- the new client of a slot
abbrev pub new_client : Option ℕ → CString → Client
new_client fd tag = record {
  client_fd = fd;
  in_use = true;
  client_tag = truncate (tag_max - 1) tag;
}

-- The table, the answer to the handshake, and the sessions that are closed.
abbrev pub Answer : Type 0
Answer = List Client × EspErr × List ℕ

abbrev pub accepted : List Client → List ℕ → Option (List Client) → Answer
accepted cs closed none = (cs, esp_fail, closed)
accepted cs closed (some cs') = (cs', esp_ok, closed)

abbrev pub pause : Env → ℕ → List Client → List Client
pause env zero cs = cs
pause env (suc n) cs = env.meanwhile cs

abbrev pub join : Env → Option ℕ → CString → Removal → Answer
join env fd tag (cs, removed, closed) =
    let cs' = pause env removed cs in
    if env.locked_slot
    then accepted cs' closed (take_slot (new_client fd tag) cs')
    else (cs', esp_fail, closed)

-- `ws_handler` at a handshake
unfoldable pub handshake : Env → Option ℕ → Option CString → List Client → Answer
handshake env fd query cs =
    let tag = fill_client_tag env.memory query in join env fd tag (remove_client_by_tag env tag cs)

abbrev pub reset_found : Bool → Option ℕ → List Client → List Client
reset_found locked none cs = cs
reset_found locked (some i) cs = reset_client_slot locked i cs

-- `ws_handler` where no frame can be received, or at a close frame
unfoldable pub drop_client : Bool → Option ℕ → List Client → List Client
unfolding reset_client_slot
drop_client locked fd cs = reset_found locked (find_client_by_fd locked fd cs) cs

-- The table, the descriptors that a message was sent to, and the sessions that are closed.
abbrev pub Round : Type 0
Round = List Client × List ℕ × List ℕ

abbrev pub sent_to : ℕ → List ℕ → Round → Round
sent_to fd closed (cs, sent, later) = (cs, fd ∷ sent, closed ++ later)

-- the loop of `ws_send_task` over the descriptors; `sends` says where the frame is taken
unfoldable pub send_each : Env → (ℕ → Bool) → List ℕ → List Client → Round
send_each env sends [] cs = (cs, [], [])
send_each env sends (fd ∷ fds) cs =
    if sends fd
    then sent_to fd [] (send_each env sends fds cs)
    else sent_to fd (if env.server then fd ∷ [] else [])
        (send_each env sends fds (reset_client_by_fd env.locked (some fd) cs))

-- a message of `ws_send_task`
unfoldable pub send_message : Env → (ℕ → Bool) → List Client → Round
send_message env sends cs =
    send_each env sends (snapshot_client_fds env.locked max_ws_clients cs) cs
