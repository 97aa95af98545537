-- ===== src/DeviceApi/Crc16.antt =====
-- device-api/src/crc16.rs: CRC-16/CCITT-FALSE. A `u16` is a number below 2 ^ 16, and `<< 1` drops
-- the bit that leaves it.
pub mod Detect
use rust_ems.Base.{ℕ, zero, suc, ◌*◌, ◌%◌, List, [], ◌∷◌, bit_and, bit_xor, ◌==◌, if◌then◌else◌}

abbrev pub poly : ℕ
poly = 0x1021

abbrev pub init : ℕ
init = 0xffff

pub crc_bit : ℕ → ℕ
crc_bit crc = if bit_and crc 0x8000 == 0 then crc * 2 % 65536 else bit_xor (crc * 2 % 65536) poly

-- `while bit < 8`, by the rounds that are left.
pub crc_bits : ℕ → ℕ → ℕ
unfolding crc_bit
crc_bits zero crc = crc
crc_bits (suc n) crc = crc_bits n (crc_bit crc)

pub crc_byte : ℕ → ℕ → ℕ
unfolding crc_bits
crc_byte crc byte = crc_bits 8 (bit_xor crc (byte * 256 % 65536))

pub crc_bytes : ℕ → List ℕ → ℕ
unfolding crc_byte
crc_bytes crc [] = crc
crc_bytes crc (byte ∷ bytes) = crc_bytes (crc_byte crc byte) bytes

unfoldable pub crc16_ccitt : List ℕ → ℕ
unfolding crc_bytes
crc16_ccitt bytes = crc_bytes init bytes
