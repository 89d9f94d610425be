-- ===== src/Prelude/Err.antt =====
-- The `esp_err_t` codes that the modelled functions return.
pub data EspErr : Type 0 where
  esp_ok esp_fail err_no_mem err_invalid_arg err_invalid_state err_not_found err_timeout : EspErr
