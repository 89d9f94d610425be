-- ===== src/Uart/Usable.antt =====
-- main/drivers/sx_async_uart.c: what a configuration of the port guarantees.
use opensx_serial_server.Prelude.{
  ℕ, ◌+◌, ◌*◌, ◌≤◌, ◌≡◌, refl, Bool, true, false, ◌==◌, if◌then◌else◌, arith,
}
use opensx_serial_server.Prelude.Int.{ℤ, pos, negsuc, to_nat}
use opensx_serial_server.Prelude.Text.{c_str, str_eq, atoi}
use opensx_serial_server.Uart.Config.{
  Hal, normalize_data_bits, data_bits_value, normalize_stop_bits, stop_bits_value, normalize_parity,
  RuntimeConfig, default_config, positive_or, uart_update_runtime_config,
  uart_get_runtime_config_snapshot, rx_buffer_size, response_size, uart_configure, boot_parity,
  named_parity,
}

-- A configuration that the tasks can work with: its counts are in range, and a character takes the
-- start bit, the data bits, the stop bits and the parity bit.
pub record IsUsable (hal : Hal) (cfg : RuntimeConfig) : Type 0 where
  pub data_width : (5 ≤ cfg.data_bits) × (cfg.data_bits ≤ 8)
  pub stop_width : (1 ≤ cfg.stop_bits) × (cfg.stop_bits ≤ 2)
  pub frame_time : 1 ≤ cfg.frame_time_ms
  pub frame_len : 1 ≤ cfg.frame_len_bytes
  pub character :
      cfg.bits_per_char
      ≡ 1 + cfg.data_bits + cfg.stop_bits + (if cfg.parity == hal.parity_disable then 0 else 1)

pub default_config-IsUsable : (hal : Hal) → IsUsable hal (default_config hal)
default_config-IsUsable hal = ground arith

data_bits_value-range :
    (hal : Hal) (d : ℕ) → (5 ≤ data_bits_value hal d) × (data_bits_value hal d ≤ 8)
unfolding data_bits_value
data_bits_value-range hal d = ground arith

stop_bits_value-range :
    (hal : Hal) (d : ℕ) → (1 ≤ stop_bits_value hal d) × (stop_bits_value hal d ≤ 2)
unfolding stop_bits_value
stop_bits_value-range hal d = ground arith

positive_or-positive : (n : ℕ) (z : ℤ) → 1 ≤ n → 1 ≤ positive_or n z
positive_or-positive n (pos a) h = ground arith
positive_or-positive n (negsuc a) h = h

-- The settings written for values in range.
update-IsUsable :
    (hal : Hal) (taken : Bool) (baudrate : ℤ) (d s p b : ℕ) (frame_time frame_len : ℤ)
    (cfg : RuntimeConfig)
    → (5 ≤ d) × (d ≤ 8)
    → (1 ≤ s) × (s ≤ 2)
    → b ≡ 1 + d + s + (if p == hal.parity_disable then 0 else 1)
    → IsUsable hal cfg
    → IsUsable hal (
        uart_update_runtime_config taken baudrate
          (pos d)
          (pos s)
          p
          frame_time
          frame_len
          (pos b)
          cfg)
unfolding uart_update_runtime_config
update-IsUsable hal false baudrate d s p b frame_time frame_len cfg hd hs hb v = v
update-IsUsable hal true baudrate d s p b frame_time frame_len cfg hd hs hb v = record {
  data_width = ground arith;
  stop_width = ground arith;
  frame_time = positive_or-positive 10 frame_time (omega arith);
  frame_len = positive_or-positive 256 frame_len (omega arith);
  character = ground arith;
}

-- Whatever settings the flash, the web page or a Modbus item gives, and whether or not the mutex is
-- taken: the tasks read a configuration with 5 to 8 data bits, one or two stop bits, a positive frame
-- time and length, and a character time that counts the start, data, stop and parity bits.
pub uart_configure-IsUsable :
    (hal : Hal) (taken read : Bool) (baudrate data_bits parity stop_bits frame_time frame_len : ℤ)
    (cfg : RuntimeConfig)
    → IsUsable hal cfg
    → IsUsable hal (
        uart_get_runtime_config_snapshot hal read
          (uart_configure hal taken baudrate data_bits parity stop_bits frame_time frame_len cfg))
unfolding uart_get_runtime_config_snapshot uart_configure
uart_configure-IsUsable hal taken false baudrate data_bits parity stop_bits frame_time frame_len cfg
      v =
    default_config-IsUsable hal
uart_configure-IsUsable hal taken true baudrate data_bits parity stop_bits frame_time frame_len cfg
      v =
    update-IsUsable hal taken baudrate (data_bits_value hal (normalize_data_bits hal data_bits))
      (stop_bits_value hal (normalize_stop_bits hal stop_bits)) (normalize_parity hal parity) _
      frame_time frame_len cfg (data_bits_value-range hal (normalize_data_bits hal data_bits))
      (stop_bits_value-range hal (normalize_stop_bits hal stop_bits)) refl v

-- The buffers fit the frames: the driver's takes two frames of up to 2048 bytes, and `uart_response`
-- has 64 bytes to UART_IO_BUF_SIZE, whatever the frame length.
pub buffers_fit :
    (io_buf_size : ℕ) (frame_len : ℤ)
    → 64 ≤ io_buf_size
    → (64 ≤ response_size io_buf_size frame_len)
      × (response_size io_buf_size frame_len ≤ io_buf_size)
      × (to_nat frame_len ≤ 2048 → 2 * to_nat frame_len ≤ rx_buffer_size frame_len)
unfolding response_size rx_buffer_size
buffers_fit io_buf_size (pos n) h = ground arith
buffers_fit io_buf_size (negsuc n) h = ground arith

-- With ESP-IDF's numbers, two stop bits asked for by the number 2, as the web page and the Modbus items
-- do, give one and a half; and the number 2 for odd parity gives even parity.
pub normalize_two :
    (hal : Hal)
    → hal.stop_1_5 ≡ 2
    → hal.parity_even ≡ 2
    → (normalize_stop_bits hal (pos 2) ≡ hal.stop_1_5)
      × (normalize_parity hal (pos 2) ≡ hal.parity_even)
unfolding normalize_stop_bits normalize_parity
normalize_two hal s p = ground arith

-- The parity that the web page stores by name is set while the device runs, but is lost at the next
-- start, which reads the name as the number 0.
pub boot_parity-lost :
    (hal : Hal)
    → hal.parity_disable ≡ 0
    → (named_parity hal (c_str "Odd") ≡ hal.parity_odd)
      × (named_parity hal (c_str "Even") ≡ hal.parity_even)
      × (boot_parity hal (c_str "Odd") ≡ hal.parity_disable)
      × (boot_parity hal (c_str "Even") ≡ hal.parity_disable)
unfolding named_parity boot_parity normalize_parity str_eq atoi
boot_parity-lost hal d = (refl, refl, ground arith, ground arith)
