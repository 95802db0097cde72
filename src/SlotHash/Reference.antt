-- ===== src/SlotHash/Reference.antt =====
-- The CRC16 that the Redis cluster specification prescribes (polynomial 0x1021, initial value 0),
-- bit by bit and without a table.
use cpp_hiredis_cluster.Base.{
  ℕ, zero, suc, ◌*◌, ◌%◌, ◌^◌, ◌<◌, bit_xor, List, [], ◌∷◌, ltb, if◌then◌else◌,
}

-- One bit leaves at the top; if it was set, the polynomial is subtracted.
unfoldable pub shift_bit : ℕ → ℕ
shift_bit x = if ltb x 0x8000 then 2 * x else bit_xor (2 * x % 2 ^ 16) 0x1021

unfoldable pub shift_bits : ℕ → ℕ → ℕ
shift_bits zero x = x
shift_bits (suc n) x = shift_bits n (shift_bit x)

unfoldable pub crc_byte : ℕ → ℕ → ℕ
crc_byte crc b = shift_bits 8 (bit_xor crc (b * 2 ^ 8))

unfoldable pub crc_from : ℕ → List ℕ → ℕ
crc_from crc [] = crc
crc_from crc (b ∷ buf) = crc_from (crc_byte crc b) buf

-- Every element is a byte.
abbrev pub IsBytes : List ℕ → Type 0
IsBytes [] = Unit {0}
IsBytes (b ∷ buf) = (b < 256) × IsBytes buf
