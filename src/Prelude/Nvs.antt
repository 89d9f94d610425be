-- ===== src/Prelude/Nvs.antt =====
-- The flash key-value store of ESP-IDF, as the program reads it: whether the namespace opens, and
-- what a key holds. A read into a buffer that the value and its terminator do not fit fails
-- (ESP_ERR_NVS_INVALID_LENGTH).
use Prim.Native.Nat.{ℕ}
use mathlib.Core.Bool.{Bool}
use mathlib.Core.Option.{Option, none, some}
use opensx_serial_server.Prelude.Tests.{ltb, if◌then◌else◌}
use opensx_serial_server.Prelude.Lists.{length}
use opensx_serial_server.Prelude.Text.{CString}

pub record Nvs : Type 0 where
  pub opens : Bool
  pub get : CString → Option CString

abbrev pub fits_buffer : ℕ → Option CString → Option CString
fits_buffer size none = none
fits_buffer size (some value) = if ltb (length value) size then some value else none

-- nvs_get_str(handle, key, buf, &size)
unfoldable pub nvs_get_str : Nvs → CString → ℕ → Option CString
nvs_get_str nvs key size = fits_buffer size (nvs.get key)
