-- ===== src/Modbus/Crc/Laws.antt =====
-- What a receiver relies on: the residue of a frame that ends in its own checksum; and the
-- agreement of the two routines.
use Prim.Native.Nat.{bit_xor}
use opensx_serial_server.Prelude.{
  ℕ, zero, suc, ◌*◌, ◌/◌, ◌%◌, ◌^◌, ◌<◌, ◌≡◌, ◌∙◌, refl, List, [], ◌∷◌, ◌++◌, arith, All,
}
use opensx_serial_server.Prelude.Bits.{bit_xor_low, bit_xor-lt, twice_pow}
use opensx_serial_server.Modbus.Crc.{crc_bit, crc_bits, crc_from, calculate_crc}
use opensx_serial_server.Modbus.Crc.{crc16_bits, crc16_from, modbus_crc16}

crc_bit-lt : (crc : ℕ) → crc < 2 ^ 16 → crc_bit crc < 2 ^ 16
unfolding crc_bit
crc_bit-lt crc h = ground (arith, bit_xor-lt 16 (crc / 2) 0xa001)

crc_bits-lt : (n crc : ℕ) → crc < 2 ^ 16 → crc_bits n crc < 2 ^ 16
unfolding crc_bits
crc_bits-lt zero crc h = h
crc_bits-lt (suc n) crc h = crc_bits-lt n (crc_bit crc) (crc_bit-lt crc h)

crc_bit-even : (w v : ℕ) → v ≡ 2 * w → crc_bit v ≡ w
unfolding crc_bit
crc_bit-even w v e = ground arith

-- A number with n zero digits below is only shifted.
crc_bits-shift : (n w v : ℕ) → v ≡ w * 2 ^ n → crc_bits n v ≡ w
unfolding crc_bits
crc_bits-shift zero w v e = omega arith
crc_bits-shift (suc n) w v e =
    crc_bits-shift n w (crc_bit v) (crc_bit-even (w * 2 ^ n) v (e ∙ twice_pow n w))

-- The register of a run over bytes keeps within 16 bits.
pub crc_from-lt :
    (crc : ℕ) (bytes : List ℕ)
    → crc < 2 ^ 16
    → All (λ b. b < 256) bytes
    → crc_from crc bytes < 2 ^ 16
unfolding crc_from
crc_from-lt crc [] h a = h
crc_from-lt crc (b ∷ bytes) h a =
    crc_from-lt (crc_bits 8 (bit_xor crc b)) bytes
      (crc_bits-lt 8 (bit_xor crc b) (bit_xor-lt 16 crc b h (omega arith))) a.1

crc_from-append :
    (crc : ℕ) (xs ys : List ℕ) → crc_from crc (xs ++ ys) ≡ crc_from (crc_from crc xs) ys
unfolding crc_from
crc_from-append crc [] ys = refl
crc_from-append crc (x ∷ xs) ys = crc_from-append (crc_bits 8 (bit_xor crc x)) xs ys

-- A register fed its own low byte keeps its high byte alone.
crc_low_byte : (crc : ℕ) → crc_bits 8 (bit_xor crc (crc % 256)) ≡ crc / 256
crc_low_byte crc =
    crc_bits-shift 8 (crc / 256) (bit_xor crc (crc % 256))
      (bit_xor_low 8 crc (crc % 256) (crc / 256) (omega arith) (omega arith))

crc_self : (crc : ℕ) → crc < 256 → crc_bits 8 (bit_xor crc crc) ≡ 0
crc_self crc h =
    crc_bits-shift 8 0 (bit_xor crc crc) (bit_xor_low 8 crc crc 0 (omega arith) (omega arith))

crc_own_bytes : (crc : ℕ) → crc < 2 ^ 16 → crc_from crc (crc % 256 ∷ crc / 256 ∷ []) ≡ 0
unfolding crc_from
crc_own_bytes crc h = rw (crc_low_byte crc) (crc_self (crc / 256) (omega arith))

pub calculate_crc-lt : (bytes : List ℕ) → All (λ b. b < 256) bytes → calculate_crc bytes < 2 ^ 16
unfolding calculate_crc
calculate_crc-lt bytes a = crc_from-lt 0xffff bytes (omega arith) a

-- The CRC of any bytes followed by their own CRC, low byte first, is zero.
pub crc_residue :
    (bytes : List ℕ)
    → All (λ b. b < 256) bytes
    → calculate_crc (bytes ++ calculate_crc bytes % 256 ∷ calculate_crc bytes / 256 ∷ []) ≡ 0
unfolding calculate_crc
crc_residue bytes h =
    crc_from-append 0xffff bytes _
    ∙ crc_own_bytes (crc_from 0xffff bytes) (crc_from-lt 0xffff bytes (omega arith) h)

crc16_bits-eq : (n crc : ℕ) → crc16_bits n crc ≡ crc_bits n crc
unfolding crc16_bits crc_bits crc_bit
crc16_bits-eq zero crc = refl
crc16_bits-eq (suc n) crc =
    ground (arith, crc16_bits-eq n (crc / 2), crc16_bits-eq n (bit_xor (crc / 2) 0xa001))

crc16_from-eq : (crc : ℕ) (bytes : List ℕ) → crc16_from crc bytes ≡ crc_from crc bytes
unfolding crc16_from crc_from
crc16_from-eq crc [] = refl
crc16_from-eq crc (b ∷ bytes) =
    rw (crc16_bits-eq 8 (bit_xor crc b)) (crc16_from-eq (crc_bits 8 (bit_xor crc b)) bytes)

-- The two routines compute the same checksum of any bytes.
pub modbus_crc16-calculate_crc : (bytes : List ℕ) → modbus_crc16 bytes ≡ calculate_crc bytes
unfolding modbus_crc16 calculate_crc
modbus_crc16-calculate_crc bytes = crc16_from-eq 0xffff bytes
