-- ===== src/Modbus/Crc.antt =====
-- The two CRC routines: `calculate_crc` of main/drivers/sx_modbus.c, which the poll task calls, and
-- `ModbusCRC16` of main/system/sx_utils.c. A `uint16_t` is a number below 2 ^ 16, `crc & 1` is `crc % 2`
-- and `crc >> 1` is `crc / 2`; exclusive or keeps within 16 bits (`crc_from-lt`), so nothing wraps.
pub mod Laws
mod Tests
use Prim.Native.Nat.{bit_xor}
use opensx_serial_server.Prelude.{ℕ, zero, suc, ◌/◌, ◌%◌, List, [], ◌∷◌, ◌==◌, if◌then◌else◌}

-- the body of the inner loop
pub crc_bit : ℕ → ℕ
crc_bit crc = if crc % 2 == 1 then bit_xor (crc / 2) 0xa001 else crc / 2

-- `for (j = 0; j < 8; j++)`, on the rounds left
pub crc_bits : ℕ → ℕ → ℕ
crc_bits zero crc = crc
crc_bits (suc n) crc = crc_bits n (crc_bit crc)

-- the loop over the data, from the `i`-th byte on
pub crc_from : ℕ → List ℕ → ℕ
crc_from crc [] = crc
crc_from crc (byte ∷ rest) = crc_from (crc_bits 8 (bit_xor crc byte)) rest

unfoldable pub calculate_crc : List ℕ → ℕ
unfolding crc_from crc_bits crc_bit
calculate_crc bytes = crc_from 0xffff bytes

-- the inner loop of `ModbusCRC16`: the shift comes first, then the exclusive or
pub crc16_bits : ℕ → ℕ → ℕ
crc16_bits zero crc = crc
crc16_bits (suc n) crc =
    crc16_bits n
      (if crc % 2 == 0 then crc / 2 else (let shifted = crc / 2 in bit_xor shifted 0xa001))

pub crc16_from : ℕ → List ℕ → ℕ
crc16_from crc [] = crc
crc16_from crc (byte ∷ rest) = crc16_from (crc16_bits 8 (bit_xor crc byte)) rest

unfoldable pub modbus_crc16 : List ℕ → ℕ
unfolding crc16_from crc16_bits
modbus_crc16 bytes = crc16_from 0xffff bytes
