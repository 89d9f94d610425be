-- ===== src/TcpServer.antt =====
-- main/protocols/sx_tcp_server.c: the table of clients and the tasks that write it. Every access is
-- made under `clients_mutex`, so an operation is a step on the table; where the code gives the mutex
-- back to close a socket, the environment says what other tasks do to the table meanwhile.
pub mod Hex
pub mod Send
pub mod Table
pub mod Handles
pub mod Rounds
pub mod Accept
pub mod Visits
pub mod Sockets
pub mod Deliver
pub mod Stale
pub mod Restart
mod Tests
use opensx_serial_server.Prelude.{
  ℕ, zero, suc, ◌+◌, ◌-◌, ◌*◌, ◌≡◌, Bool, true, false, not, ◌&&◌, ◌||◌, Option, none, some, List,
  [], ◌∷◌, ◌++◌, ltb, if◌then◌else◌, length, get_elem?, set, replicate,
}
use opensx_serial_server.Prelude.Int.{ℤ, pos, negsuc, below, to_nat, ◌+ℤ◌}
use opensx_serial_server.Prelude.Text.{CString, c_str, str_eq}
use opensx_serial_server.TcpServer.Hex.{hex_to_bin}

-- `client_conn_t`; `none` is the descriptor -1, and the handle NULL
pub record Slot : Type 0 where
  pub sock : Option ℕ
  pub task_handle : Option ℕ
  pub in_use : Bool

-- `clients` and `tcp_client_count`
pub record Server : Type 0 where
  pub clients : List Slot
  pub count : ℤ

abbrev pub max_clients : ℕ
max_clients = 6

-- What is done to a socket.
pub data Call : Type 0 where
  send : ℕ → List ℕ → Call
  safe_close_socket : ℕ → Call

abbrev pub close_opt : Option ℕ → List Call
close_opt none = []
close_opt (some sock) = safe_close_socket sock ∷ []

abbrev pub free_slot : Slot
free_slot = record { sock = none; task_handle = none; in_use = false }

-- `init_clients`; the count is left alone
unfoldable pub init_clients : Server → Server
init_clients s = record s { clients = replicate max_clients free_slot }

-- `tcp_server_can_accept_client`
unfoldable pub can_accept_client : ℕ → Server → Bool
can_accept_client free_heap s = not (ltb free_heap 16000) && below s.count max_clients

abbrev pub behind : Slot → Option (ℕ × List Slot) → Option (ℕ × List Slot)
behind slot none = none
behind slot (some (i, slots)) = some (i, slot ∷ slots)

-- the first slot that is not in use is taken; its index, counted from `i`
unfoldable pub take_slot : Slot → ℕ → List Slot → Option (ℕ × List Slot)
take_slot new i [] = none
take_slot new i (slot ∷ slots) =
    let later = behind slot (take_slot new (i + 1) slots) in
    if slot.in_use then later else some (i, new ∷ slots)

abbrev pub taken : Server → Option (ℕ × List Slot) → Server × Option ℕ
taken s none = (s, none)
taken s (some (i, clients)) = (record { clients = clients; count = s.count +ℤ pos 1 }, some i)

-- `add_client`; `none` is -1
unfoldable pub add_client : Server → ℕ → Option ℕ → Server × Option ℕ
add_client s sock handle =
    taken s
      (take_slot (record { sock = some sock; task_handle = handle; in_use = true }) 0 s.clients)

abbrev pub minus_one : ℤ → ℤ
minus_one count = count +ℤ negsuc 0

abbrev pub remove_slot : ℕ → Server → Option Slot → Server × List Call
remove_slot i s none = (s, [])
remove_slot i s (some slot) =
    if slot.in_use
    then (
      record { clients = set s.clients i free_slot; count = minus_one s.count },
      close_opt slot.sock,
    )
    else (s, [])

-- `remove_client`
unfoldable pub remove_client : Server → ℤ → Server × List Call
remove_client s index =
    if below index 0 || not (below index max_clients)
    then (s, [])
    else remove_slot (to_nat index) s (get_elem? s.clients (to_nat index))

abbrev pub handle_slot : ℕ → Option ℕ → Server → Option Slot → Server
handle_slot i handle s none = s
handle_slot i handle s (some slot) =
    if slot.in_use
    then record s { clients = set s.clients i (record slot { task_handle = handle }) }
    else s

-- the accept loop stores the handle of the task of a client
unfoldable pub set_task_handle : Server → ℤ → Option ℕ → Server
set_task_handle s client_id task_handle =
    if below client_id 0 || not (below client_id max_clients)
    then s
    else handle_slot (to_nat client_id) task_handle s (get_elem? s.clients (to_nat client_id))

abbrev pub close_slot : Slot → Option ℕ → List Slot × List Call → List Slot × List Call
close_slot slot none (slots, calls) = (slot ∷ slots, calls)
close_slot slot (some sock) (slots, calls) =
    if slot.in_use
    then (free_slot ∷ slots, safe_close_socket sock ∷ calls)
    else (slot ∷ slots, calls)

-- the slots that `close_all_clients` frees, and their sockets
unfoldable pub close_slots : List Slot → List Slot × List Call
close_slots [] = ([], [])
close_slots (slot ∷ slots) = close_slot slot slot.sock (close_slots slots)

-- `close_all_clients`; `locked` says whether there is a mutex and it was taken within a second
unfoldable pub close_all_clients : Bool → Server → Server × List Call
close_all_clients locked s =
    if locked
    then (let (clients, calls) = close_slots s.clients in
        (record { clients = clients; count = pos 0 }, calls))
    else (s, [])

pub record Env : Type 0 where
  -- whether all bytes are taken by the socket
  pub sends : ℕ → Bool
  -- whether the mutex is taken again after the `i`-th slot
  pub relocks : ℕ → Bool
  -- what other tasks do to the table while the socket of the `i`-th slot is closed
  pub meanwhile : ℕ → Server → Server
  -- whether `errno` is EAGAIN or EWOULDBLOCK where `send_result` is negative
  pub try_again : ℕ → Bool

-- a client that a task gives up: the handle of its task stays
abbrev pub give_up : ℕ → Slot → Server → Server
give_up i slot s = record {
  clients = set s.clients i (record slot { in_use = false; sock = none });
  count = minus_one s.count;
}

abbrev pub lose : ℕ → Server → Option Slot → Server
lose i s none = s
lose i s (some slot) = give_up i slot s

-- the client of a slot, where there is one
abbrev pub connected : Option Slot → Option ℕ
connected none = none
connected (some slot) = if slot.in_use then slot.sock else none

-- The rest of a round.
abbrev pub Rest : Type 0
Rest = Server → Server × List Call

abbrev pub prepend : List Call → Server × List Call → Server × List Call
prepend calls (s, later) = (s, calls ++ later)

-- the mutex is given back, the socket closed, and the mutex taken again
abbrev pub on_relock : Rest → Env → ℕ → Server → Bool → Server × List Call
on_relock rest env i s false = (s, [])
on_relock rest env i s true = rest (env.meanwhile i s)

-- a client visited: what was sent to it, and whether it is given up
abbrev pub on_visit : Rest → Env → ℕ → ℕ → Server → List Call × Bool → Server × List Call
on_visit rest env i sock s (calls, false) = prepend calls (rest s)
on_visit rest env i sock s (calls, true) =
    prepend (calls ++ safe_close_socket sock ∷ [])
      (on_relock rest env i (lose i s (get_elem? s.clients i)) (env.relocks i))

abbrev pub on_slot :
    Rest → (ℕ → List Call × Bool) → Env → ℕ → Server → Option ℕ → Server × List Call
on_slot rest visit env i s none = rest s
on_slot rest visit env i s (some sock) = on_visit rest env i sock s (visit sock)

-- One round over the table, `n` slots from the `i`-th on: `visit` says what is sent to a client, and
-- whether the client is given up.
unfoldable pub each_client : (ℕ → List Call × Bool) → Env → ℕ → ℕ → Server → Server × List Call
each_client visit env zero i s = (s, [])
each_client visit env (suc n) i s =
    on_slot (each_client visit env n (i + 1)) visit env i s (connected (get_elem? s.clients i))

-- `broadcast_to_all_clients`
unfoldable pub broadcast_to_all_clients : List ℕ → Env → Server → Server × List Call
broadcast_to_all_clients message env s =
    each_client (λ sock. (send sock message ∷ [], not (env.sends sock))) env max_clients 0 s

-- what a heartbeat sends to a socket, and whether its `send_result` is negative
abbrev pub beat : Env → CString → CString → ℕ → List Call × Bool
beat env heart_packet heart_format sock =
    if str_eq heart_format (c_str "hex")
    then (let bin = hex_to_bin heart_packet 128 in
        if ltb 0 (length bin) then (send sock bin ∷ [], not (env.sends sock)) else ([], true))
    else (send sock heart_packet ∷ [], not (env.sends sock))

abbrev pub heartbeat : Env → CString → CString → ℕ → List Call × Bool
heartbeat env heart_packet heart_format sock =
    let (calls, negative) = beat env heart_packet heart_format sock in
    if ltb 0 (length heart_packet)
    then (calls, negative && not (env.try_again sock))
    else ([], false)

-- one round of `tcp_server_heartbeat_task`
unfoldable pub heartbeat_round : CString → CString → Env → Server → Server × List Call
heartbeat_round heart_packet heart_format env s =
    each_client (heartbeat env heart_packet heart_format) env max_clients 0 s
