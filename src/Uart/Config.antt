-- ===== src/Uart/Config.antt =====
-- main/drivers/sx_async_uart.c: the settings of the port. The enumerators of hal/uart_types.h are not of
-- this program: they are the record `Hal`, which every function takes.
use opensx_serial_server.Prelude.{ℕ, ◌+◌, ◌%◌, ◌^◌, Bool, ◌||◌, ltb, ◌==◌, if◌then◌else◌}
use opensx_serial_server.Prelude.Text.{CString, c_str, str_eq, atoi}
use opensx_serial_server.Prelude.Int.{ℤ, pos, is_nat, below, above, to_nat, word}

-- uart_word_length_t, uart_parity_t and uart_stop_bits_t
pub record Hal : Type 0 where
  pub data_5 : ℕ
  pub data_6 : ℕ
  pub data_7 : ℕ
  pub data_8 : ℕ
  pub parity_disable : ℕ
  pub parity_even : ℕ
  pub parity_odd : ℕ
  pub stop_1 : ℕ
  pub stop_1_5 : ℕ
  pub stop_2 : ℕ

unfoldable pub normalize_data_bits : Hal → ℤ → ℕ
normalize_data_bits hal data_bits =
    if is_nat data_bits hal.data_5 || is_nat data_bits 5
    then hal.data_5
    else if is_nat data_bits hal.data_6 || is_nat data_bits 6
    then hal.data_6
    else if is_nat data_bits hal.data_7 || is_nat data_bits 7
    then hal.data_7
    else hal.data_8

unfoldable pub data_bits_value : Hal → ℕ → ℕ
data_bits_value hal data_bits =
    if data_bits == hal.data_5
    then 5
    else if data_bits == hal.data_6
    then 6
    else if data_bits == hal.data_7
    then 7
    else 8

unfoldable pub normalize_stop_bits : Hal → ℤ → ℕ
normalize_stop_bits hal stop_bits =
    if is_nat stop_bits hal.stop_1_5
    then hal.stop_1_5
    else if is_nat stop_bits hal.stop_2 || is_nat stop_bits 3 || is_nat stop_bits 2
    then hal.stop_2
    else hal.stop_1

unfoldable pub stop_bits_value : Hal → ℕ → ℕ
unfolding normalize_stop_bits
stop_bits_value hal stop_bits =
    let normalized = normalize_stop_bits hal (pos stop_bits) in
    if (normalized == hal.stop_2) || (normalized == hal.stop_1_5) then 2 else 1

unfoldable pub normalize_parity : Hal → ℤ → ℕ
normalize_parity hal parity =
    if is_nat parity hal.parity_disable
      || is_nat parity hal.parity_even
      || is_nat parity hal.parity_odd
    then to_nat parity
    else if is_nat parity 1
    then hal.parity_even
    else if is_nat parity 2
    then hal.parity_odd
    else hal.parity_disable

-- `sx_uart_runtime_config_t`
pub record RuntimeConfig : Type 0 where
  pub baudrate : ℤ
  pub data_bits : ℕ
  pub stop_bits : ℕ
  pub parity : ℕ
  pub frame_time_ms : ℕ
  pub frame_len_bytes : ℕ
  pub bits_per_char : ℕ

-- the first value of `uart_runtime_config`, and the one of a snapshot without the mutex
abbrev pub default_config : Hal → RuntimeConfig
default_config hal = record {
  baudrate = pos 9600;
  data_bits = 8;
  stop_bits = 1;
  parity = hal.parity_disable;
  frame_time_ms = 50;
  frame_len_bytes = 512;
  bits_per_char = 10;
}

-- a positive value, or a default
abbrev pub positive_or : ℕ → ℤ → ℕ
positive_or default z = if above 0 z then to_nat z else default

-- `uart_update_runtime_config`; `taken` says whether there is a mutex and it was taken
unfoldable pub uart_update_runtime_config :
    Bool → ℤ → ℤ → ℤ → ℕ → ℤ → ℤ → ℤ → RuntimeConfig → RuntimeConfig
uart_update_runtime_config taken baudrate data_bits stop_bits parity frame_time frame_len
      bits_per_char cfg =
    let new_cfg : RuntimeConfig = record {
      baudrate = baudrate;
      data_bits = if below data_bits 5 || above 8 data_bits then 8 else to_nat data_bits;
      stop_bits =
          if below stop_bits 1 then 1 else if above 2 stop_bits then 2 else to_nat stop_bits;
      parity = parity;
      frame_time_ms = positive_or 10 frame_time;
      frame_len_bytes = positive_or 256 frame_len;
      bits_per_char = positive_or 10 bits_per_char;
    } in
    if taken then new_cfg else cfg

-- `uart_get_runtime_config_snapshot`
unfoldable pub uart_get_runtime_config_snapshot : Hal → Bool → RuntimeConfig → RuntimeConfig
uart_get_runtime_config_snapshot hal taken cfg = if taken then cfg else default_config hal

-- the receive buffer of the driver
unfoldable pub rx_buffer_size : ℤ → ℕ
rx_buffer_size frame_len =
    if above 1024 frame_len
    then 4096
    else if above 512 frame_len
    then 2048
    else if above 256 frame_len
    then 1024
    else if above 128 frame_len
    then 512
    else 256

-- the size of `uart_response`; UART_IO_BUF_SIZE is a constant of the header
unfoldable pub response_size : ℕ → ℤ → ℕ
response_size io_buf_size frame_len =
    let calculated_size = (word frame_len + 32) % 2 ^ 32 in
    if ltb calculated_size 64
    then 64
    else if ltb io_buf_size calculated_size
    then io_buf_size
    else calculated_size

-- the part of `uart_configure` that sets the runtime configuration
unfoldable pub uart_configure : Hal → Bool → ℤ → ℤ → ℤ → ℤ → ℤ → ℤ → RuntimeConfig → RuntimeConfig
unfolding normalize_parity normalize_data_bits normalize_stop_bits data_bits_value stop_bits_value
uart_configure hal taken baudrate data_bits parity stop_bits frame_time frame_len cfg =
    let uart_parity = normalize_parity hal parity in
    let runtime_data_bits = data_bits_value hal (normalize_data_bits hal data_bits) in
    let runtime_stop_bits = stop_bits_value hal (normalize_stop_bits hal stop_bits) in
    let bits_per_char =
      1
      + runtime_data_bits
      + runtime_stop_bits
      + (if uart_parity == hal.parity_disable then 0 else 1) in
    uart_update_runtime_config taken baudrate (pos runtime_data_bits) (pos runtime_stop_bits)
      uart_parity frame_time frame_len (pos bits_per_char) cfg

-- the parity that `uart_init` sets for the stored text
unfoldable pub boot_parity : Hal → CString → ℕ
unfolding normalize_parity
boot_parity hal check_bit = normalize_parity hal (atoi check_bit)

-- the parity that the handler of the serial settings sets for the stored text
unfoldable pub named_parity : Hal → CString → ℕ
named_parity hal check_bit =
    if str_eq check_bit (c_str "None")
    then hal.parity_disable
    else if str_eq check_bit (c_str "Odd")
    then hal.parity_odd
    else if str_eq check_bit (c_str "Even")
    then hal.parity_even
    else 0
