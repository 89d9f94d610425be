-- ===== src/SysLog.antt =====
-- main/system/sx_log.c: the detailed and the brief log buffer. `vsnprintf` is a parameter: `formatted` is
-- the text that the arguments print to, of any length, or `none` where formatting fails. The calls
-- of `vprintf`/`printf` and of `send_log_to_websocket` are lists of the texts that they are given.
pub mod Detailed
pub mod History
pub mod Brief
mod Tests
use opensx_serial_server.Prelude.{
  ℕ, ◌+◌, ◌-◌, ◌%◌, ◌^◌, Bool, true, false, not, ◌&&◌, ◌||◌, Option, none, some, List, [], ◌∷◌,
  ◌++◌, ltb, leb, ◌==◌, if◌then◌else◌, length, take, drop, get_elem?,
}
use opensx_serial_server.Prelude.Text.{CString, c_str}
use opensx_serial_server.Prelude.Buffer.{Buffer, zeroed, write_at, move_down}

-- LOG_BUFFER_SIZE and SIMPLE_LOG_BUFFER_SIZE
abbrev pub buffer_size : ℕ
buffer_size = 1024

-- LOG_MSG_SIZE, and the size of `temp_buffer`
abbrev pub msg_size : ℕ
msg_size = 256

abbrev pub newline : ℕ
newline = 10

pub record Log : Type 0 where
  pub buffer : Buffer
  pub position : ℕ

-- the statics of the file
pub record State : Type 0 where
  pub has_log_mutex : Bool
  pub has_simple_mutex : Bool
  pub detailed : Log
  pub brief : Log

-- what one call prints to the console and sends to the web socket
pub record Output : Type 0 where
  pub console : List CString
  pub websocket : List CString

abbrev pub empty_log : Log
empty_log = record { buffer = zeroed buffer_size; position = 0 }

abbrev is_some_newline : Option ℕ → Bool
is_some_newline none = false
is_some_newline (some c) = c == newline

pub ends_line : CString → Bool
ends_line text = is_some_newline (get_elem? text (length text - 1))

-- the text with a newline at its end, where there is room for one
unfoldable pub log_line : CString → CString
unfolding ends_line
log_line text =
    if not (ends_line text) && ltb (length text) (msg_size - 1) then text ++ newline ∷ [] else text

-- `len > 0 && len < LOG_MSG_SIZE`
unfoldable pub is_kept : CString → Bool
is_kept text = ltb 0 (length text) && ltb (length text) msg_size

-- the oldest bytes are moved out
pub make_room : Log → ℕ → Log
make_room l len =
    if leb buffer_size (l.position + len)
    then record {
      buffer = move_down l.buffer (l.position + len - buffer_size) (buffer_size - len);
      position = buffer_size - len;
    }
    else l

-- `memcpy` at the position, then the terminator
pub append_line : Log → CString → Log
append_line l line = record {
  buffer = write_at (write_at l.buffer l.position line) (l.position + length line) (0 ∷ []);
  position = l.position + length line;
}

unfoldable pub log_append : Log → CString → Log
log_append l line = append_line (make_room l (length line)) line

-- `log_output_func`; `taken` says whether the mutex was taken within 5 ms
unfoldable pub log_output_func : State → Bool → CString → Option CString → State × Output
log_output_func s taken printed none = (s, record { console = printed ∷ []; websocket = [] })
log_output_func s taken printed (some text) =
    if s.has_log_mutex && taken && is_kept text
    then (
      record s { detailed = log_append s.detailed (log_line text) },
      record { console = printed ∷ []; websocket = log_line text ∷ [] },
    )
    else (s, record { console = printed ∷ []; websocket = [] })

-- strchr(b, '\n'), as an index
pub strchr_newline : List ℕ → Option ℕ
strchr_newline [] = none
strchr_newline (c ∷ cs) = elim (c == 0) [
  | true ↦ none
  | false ↦ elim (c == newline) [
    | true ↦ some 0
    | false ↦ elim (strchr_newline cs) [ none ↦ none | some i ↦ some (i + 1) ]
  ]
]

-- the first line is removed; `size_t` is 32 bits wide
pub drop_line : Log → Option ℕ → Log
drop_line l none = record l { position = 0 }
drop_line l (some i) =
    let left = (l.position + 2 ^ 32 - (i + 1)) % 2 ^ 32 in
    record { buffer = move_down l.buffer (i + 1) left; position = left }

pub make_room_simple : Log → ℕ → Log
make_room_simple l len =
    if leb buffer_size (l.position + len) then drop_line l (strchr_newline l.buffer.bytes) else l

-- a line for which there is still no room is not stored
unfoldable pub simple_append : Log → CString → Log
simple_append l line =
    let room = make_room_simple l (length line) in
    if ltb (room.position + length line) buffer_size then append_line room line else room

abbrev pub simple_mark : CString
simple_mark = c_str "[SIMPLE] "

-- `sx_log_write_simple`
unfoldable pub sx_log_write_simple : State → Bool → Option CString → State × Output
sx_log_write_simple s taken none = (s, record { console = []; websocket = [] })
sx_log_write_simple s taken (some text) =
    if s.has_simple_mutex && taken && is_kept text
    then (
      record s { brief = simple_append s.brief (log_line text) },
      record { console = log_line text ∷ []; websocket = (simple_mark ++ log_line text) ∷ [] },
    )
    else (s, record { console = []; websocket = [] })

-- `sx_log_init`; the answers say whether the mutexes could be created
unfoldable pub sx_log_init : State → Bool → Bool → State
sx_log_init s created created_simple = record {
  has_log_mutex = s.has_log_mutex || created;
  has_simple_mutex = s.has_simple_mutex || created_simple;
  detailed = empty_log;
  brief = empty_log;
}

-- the C string that a buffer starts with
pub c_string : List ℕ → CString
c_string [] = []
c_string (c ∷ cs) = elim (c == 0) [ true ↦ [] | false ↦ c ∷ c_string cs ]

abbrev pub read_log : Bool → Log → Option CString
read_log has_mutex l =
    if has_mutex && ltb 0 l.position then some (c_string l.buffer.bytes) else none

-- `sx_log_get_buffer` and `sx_log_get_simple_buffer`
unfoldable pub sx_log_get_buffer : State → Option CString
sx_log_get_buffer s = read_log s.has_log_mutex s.detailed

unfoldable pub sx_log_get_simple_buffer : State → Option CString
sx_log_get_simple_buffer s = read_log s.has_simple_mutex s.brief

abbrev clear_log : Bool → Log → Log
clear_log has_mutex l =
    if has_mutex
    then record { buffer = record l.buffer { bytes = (zeroed buffer_size).bytes }; position = 0 }
    else l

unfoldable pub sx_log_clear : State → State
sx_log_clear s = record s {
  detailed = clear_log s.has_log_mutex s.detailed;
  brief = clear_log s.has_simple_mutex s.brief;
}
