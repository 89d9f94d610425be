-- ===== src/UdpServer/Datagram.antt =====
-- main/protocols/sx_udp_server.c: a message as cJSON hands it over, by the lookups that the code makes,
-- and the calls that answer it. An answer that `strdup` has no memory for is not modelled.
use opensx_serial_server.Prelude.{Bool, Option, none, some, if◌then◌else◌}
use opensx_serial_server.Prelude.Text.{CString, c_str, str_eq}

-- A member of an object: a string, a number by the digits of its `valueint`, a truth value, or a value
-- that the code only tests for being there.
pub data Scalar : Type 0 where
  text : CString → Scalar
  number : CString → Scalar
  truth : Bool → Scalar
  other : Scalar

-- The members under `cJSON_GetObjectItemCaseSensitive` and under `cJSON_GetObjectItem`.
pub record Object : Type 0 where
  pub exact : CString → Option Scalar
  pub loose : CString → Option Scalar

-- A member of the message itself, which may be an object.
pub data Node : Type 0 where
  scalar : Scalar → Node
  object : Object → Node

pub record Message : Type 0 where
  pub exact : CString → Option Node
  pub loose : CString → Option Node

-- `cJSON_IsString(item) && item->valuestring`
abbrev pub text_of : Option Scalar → Option CString
text_of (some (text t)) = some t
text_of _ = none

abbrev pub node_text : Option Node → Option CString
node_text (some (scalar v)) = text_of (some v)
node_text _ = none

-- `cJSON_GetObjectItem` on a value that is no object finds nothing.
abbrev pub member : Node → CString → Option Scalar
member (object o) key = o.loose key
member (scalar v) key = none

pub data Answer : Type 0 where
  result_ok result_failed auth_failed auth_required invalid_parm no_valid_fields : Answer
  nvs_failure unsupported_command internal_error change_ok change_failed : Answer
  invalid_network_params : Answer
  device_info : CString → Answer

pub data Call : Type 0 where
  send : Answer → Call
  restart abort : Call

-- the strings that are compared with the value of `device`
pub data Device : Type 0 where
  scan exec set unknown : Device

unfoldable pub device_of : CString → Device
device_of d =
    if str_eq d (c_str "scan")
    then scan
    else if str_eq d (c_str "exec")
    then exec
    else if str_eq d (c_str "set")
    then set
    else unknown
