-- ===== src/UdpServer/Save.antt =====
-- main/protocols/sx_udp_server.c: what a command writes to the flash. A failed call of the flash leaves
-- what the earlier ones have written.
use opensx_serial_server.Prelude.{
  Bool, true, false, not, ◌&&◌, ◌||◌, Option, none, some, List, [], ◌∷◌, if◌then◌else◌,
}
use opensx_serial_server.Prelude.Text.{CString, c_str}
use opensx_serial_server.UdpServer.Datagram.{
  Scalar, text, number, truth, Node, scalar, object, Object,
}
use opensx_serial_server.UdpServer.Session.{Flash, stored, Env}

-- `nvs_set_str`, and whether it succeeds
unfoldable pub nvs_set : Env → CString → CString → Flash → Flash × Bool
nvs_set env key value flash =
    if env.sets key then (stored flash key value, true) else (flash, false)

-- the value to write: a string, the digits of a number, `1` or `0`
unfoldable pub value_to_write : Option Scalar → Option CString
value_to_write (some (text t)) = some t
value_to_write (some (number d)) = some d
value_to_write (some (truth b)) = some (if b then c_str "1" else c_str "0")
value_to_write _ = none

-- The flash, `changed`, and whether the answer is ESP_OK.
pub record Saved : Type 0 where
  pub flash : Flash
  pub changed : Bool
  pub ok : Bool

-- `save_json_value_to_nvs`
unfoldable pub save_json_value : Env → CString → Option CString → Saved → Saved
save_json_value env nvs_key none s = s
save_json_value env nvs_key (some value) s =
    let (flash, done) = nvs_set env nvs_key value s.flash in
    record { flash = flash; changed = s.changed || done; ok = done }

-- the table `mappings`
abbrev pub mappings : List (CString × CString)
mappings =
    (c_str "type", c_str "device_type")
    ∷ (c_str "model", c_str "device_type")
    ∷ (c_str "sn", c_str "device_sn")
    ∷ (c_str "device_sn", c_str "device_sn")
    ∷ (c_str "thsensor", c_str "thsensor")
    ∷ (c_str "psensor", c_str "psensor")
    ∷ (c_str "adapter_id", c_str "adapter_id")
    ∷ (c_str "interface", c_str "interface")
    ∷ (c_str "power", c_str "power")
    ∷ []

-- the loop over the table, which stops at an error
unfoldable pub save_mapped : Env → Object → List (CString × CString) → Saved → Saved
save_mapped env parm [] s = s
save_mapped env parm ((json_key, nvs_key) ∷ rest) s =
    let s' = save_json_value env nvs_key (value_to_write (parm.exact json_key)) s in
    let later = save_mapped env parm rest s' in if s'.ok then later else s'

-- `update_device_identity_from_parm`; `changed` is what it leaves in `*changed`
unfoldable pub update_device_identity : Env → Node → Flash → Saved
update_device_identity env (scalar v) flash = record { flash = flash; changed = false; ok = false }
update_device_identity env (object parm) flash =
    if not env.opens
    then record { flash = flash; changed = false; ok = false }
    else (let s =
          save_mapped env parm mappings (record { flash = flash; changed = false; ok = true }) in
        let ok = s.ok && (env.commits || not s.changed) in
        record s { ok = ok; changed = ok && s.changed })

-- calls of `nvs_set_str` one after the other, up to the first that fails
unfoldable pub set_all : Env → List (CString × CString) → Flash → Flash × Bool
set_all env [] flash = (flash, true)
set_all env ((key, value) ∷ rest) flash =
    let (flash', done) = nvs_set env key value flash in
    let later = set_all env rest flash' in if done then later else (flash', false)

pub record Settings : Type 0 where
  pub is_dhcp : CString
  pub name : CString
  pub ip : CString
  pub mask : CString
  pub gateway : CString
  pub primary_dns : CString
  pub secondary_dns : CString

abbrev pub settings_list : Settings → List (CString × CString)
settings_list n =
    (c_str "is_dhcp", n.is_dhcp)
    ∷ (c_str "host_names", n.name)
    ∷ (c_str "static_ip", n.ip)
    ∷ (c_str "static_netmask", n.mask)
    ∷ (c_str "static_gateway", n.gateway)
    ∷ (c_str "primary_dns", n.primary_dns)
    ∷ (c_str "secondary_dns", n.secondary_dns)
    ∷ []

-- `save_network_settings_to_nvs`; no argument of its one call is NULL
unfoldable pub save_network_settings : Env → Settings → Flash → Flash × Bool
save_network_settings env n flash =
    let (flash', done) = set_all env (settings_list n) flash in
    if not env.opens then (flash, false) else (flash', done && env.commits)
