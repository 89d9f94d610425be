-- ===== src/Modbus/Crc/Tests.antt =====
-- The theorems on the CRC at a concrete request, and runs of the code.
use opensx_serial_server.Prelude.{ℕ, ◌≡◌, refl, List, [], ◌∷◌, arith, ◌/◌, ◌%◌, ◌++◌}
use opensx_serial_server.Modbus.Crc.{calculate_crc}
use opensx_serial_server.Modbus.Crc.Laws.{crc_residue}

-- read two registers from 0 of device 1
abbrev request : List ℕ
request = 1 ∷ 3 ∷ 0 ∷ 0 ∷ 0 ∷ 2 ∷ []

request_crc : calculate_crc request ≡ 0x0bc4
unfolding calculate_crc
request_crc = refl

crc_residue_example :
    calculate_crc (request ++ calculate_crc request % 256 ∷ calculate_crc request / 256 ∷ []) ≡ 0
crc_residue_example = crc_residue request (omega arith)
