-- ===== src/SlotHash.antt =====
-- include/slothash.h: the CRC16 of a key and the hash slot that it selects.
pub mod Table
pub mod Reference
pub mod Spec
pub mod Crc
pub mod HashTag
pub mod Slots
pub mod Tags
use cpp_hiredis_cluster.Base.{
  ℕ, zero, suc, ◌+◌, ◌-◌, ◌*◌, ◌/◌, ◌%◌, ◌^◌, bit_and, bit_xor, ◌||◌, List, [], ◌∷◌, Option, none,
  some, ltb, ◌==◌, if◌then◌else◌, get_elem?, get_or, drop,
}
use cpp_hiredis_cluster.SlotHash.Table.{crc16tab}

-- `none` is a read past the end of the buffer, which C++ leaves undefined.
infixl 5 ◌>>=◌
abbrev pub ◌>>=◌ {ℓ κ} : {A : Type ℓ} {B : Type κ} → Option A → (A → Option B) → Option B
none >>= f = none
some a >>= f = f a

-- A `char` promoted to `int`, as a 32-bit pattern: the sign is extended.
unfoldable pub promote : ℕ → ℕ
promote b = if ltb b 128 then b else b + 0xffffff00

-- One round: `crc = (crc<<8) ^ crc16tab[((crc>>8) ^ *buf++)&0x00FF]`, stored into a `uint16_t`.
unfoldable pub crc16_round : ℕ → ℕ → ℕ
unfolding promote
crc16_round crc b =
    bit_xor (crc * 2 ^ 8) (get_or crc16tab (bit_and (bit_xor (crc / 2 ^ 8) (promote b)) 0x00ff) 0)
    % 2 ^ 16

unfoldable pub crc16_loop : ℕ → List ℕ → ℕ → Option ℕ
crc16_loop zero buf crc = some crc
crc16_loop (suc left) [] crc = none
crc16_loop (suc left) (b ∷ buf) crc = crc16_loop left buf (crc16_round crc b)

unfoldable pub crc16 : List ℕ → ℕ → Option ℕ
unfolding crc16_loop crc16_round
crc16 buf len = crc16_loop len buf 0

-- `for (i = ...; i < keylen; i++) if (key[i] == c) break;` with `left` rounds to go; gives `i`.
unfoldable pub scan : ℕ → List ℕ → ℕ → ℕ → Option ℕ
scan zero key i c = some i
scan (suc left) key i c =
    let rest = scan left key (i + 1) c in get_elem? key i >>= λ b. if b == c then some i else rest

unfoldable pub low_14_bits : Option ℕ → Option ℕ
low_14_bits crc = crc >>= λ x. some (bit_and x 0x3fff)

unfoldable pub slot_by_key : List ℕ → ℕ → Option ℕ
unfolding crc16 scan low_14_bits
slot_by_key key keylen = do
  s ← scan keylen key 0 b'{'
  let whole = low_14_bits (crc16 key keylen)
  let tagged = scan (keylen - (s + 1)) key (s + 1) b'}' >>= λ e.
      if e == keylen || e == s + 1
      then whole
      else low_14_bits (crc16 (drop (s + 1) key) (e - s - 1))
  if s == keylen then whole else tagged
