-- ===== src/SlotHash/Crc.antt =====
-- `crc16` computes the reference CRC.
use cpp_hiredis_cluster.Base.{
  ℕ, zero, suc, ◌+◌, ◌*◌, ◌/◌, ◌%◌, ◌^◌, ◌≤◌, ◌<◌, bit_and, bit_xor, ◌≡◌, refl, sym, ap, ◌∙◌, Bool,
  true, false, if◌then◌else◌, inl, inr, List, [], ◌∷◌, ◌++◌, some, ltb, ◌==◌, ==_iff, Bool-cases,
  get_or, arith, length,
}
use cpp_hiredis_cluster.Base.Bits.{
  xor_step, zero-xor, xor-zero, xor_comm, xor_assoc, xor_fields, xor-lt, xor-mod, xor-div,
  bit_and-mask,
}
use native.Mathlib.Nat.{add-zero, zero-add, pow-suc, one-le-pow, mod-eq_of_lt}
use native.Mathlib.Decide.{ℕ_discrete}
use cpp_hiredis_cluster.SlotHash.Table.{crc16tab}
use cpp_hiredis_cluster.SlotHash.Reference.{shift_bit, shift_bits, crc_byte, crc_from, IsBytes}
use cpp_hiredis_cluster.SlotHash.{promote, crc16_round, crc16_loop, crc16}

entry_matches : ℕ → Bool
entry_matches i = get_or crc16tab i 0 == shift_bits 8 (i * 2 ^ 8)

-- The first `n` entries, from the last one down.
entries_match : ℕ → Bool
unfolding entry_matches
entries_match zero = true
entries_match (suc n) = if entry_matches n then entries_match n else false

entries_match-all : (n i : ℕ) → entries_match n ≡ true → i < n → entry_matches i ≡ true
unfolding entries_match
entries_match-all zero i h lt = absurd (omega arith)
entries_match-all (suc n) i h lt = elim (Bool-cases (entry_matches n)) [
  | inl good ↦ elim (ℕ_discrete i n) [
    | yes here ↦ rw here good
    | no earlier ↦ entries_match-all n i (ground arith) (omega arith)
  ]
  | inr bad ↦ absurd (ground arith)
]

table_checked : entries_match 256 ≡ true
unfolding entries_match crc16tab shift_bits shift_bit
table_checked = refl

-- Each table entry is its index pushed through the polynomial division.
crc16tab_lem : (i : ℕ) → i < 256 → get_or crc16tab i 0 ≡ shift_bits 8 (i * 2 ^ 8)
unfolding entry_matches
crc16tab_lem i h = (==_iff _ _).0 (entries_match-all 256 i table_checked h)

shift_bit-lt : (x : ℕ) → x < 2 ^ 16 → shift_bit x < 2 ^ 16
unfolding shift_bit
shift_bit-lt x h = ground (arith, xor-lt 16 (2 * x % 2 ^ 16) 0x1021)

xor-double : (a b : ℕ) → 2 * bit_xor a b ≡ bit_xor (2 * a) (2 * b)
xor-double a b =
    let left : 2 * a / 2 ≡ a = omega arith in
    let right : 2 * b / 2 ≡ b = omega arith in
    omega (
      arith,
      xor_step (2 * a) (2 * b),
      ap (λ (t : ℕ). bit_xor t (2 * b / 2)) left,
      ap (bit_xor a) right,
    )

swap_last : (a b c : ℕ) → bit_xor (bit_xor a b) c ≡ bit_xor (bit_xor a c) b
swap_last a b c = xor_assoc a b c ∙ ap (bit_xor a) (xor_comm b c) ∙ sym (xor_assoc a c b)

top_bit_kept : (t l : ℕ) → 2 ^ 15 ≤ t → l < 2 ^ 15 → 2 ^ 15 ≤ bit_xor t l
top_bit_kept t l ht hl =
    let gone : l / 2 ^ 15 ≡ 0 = omega arith in
    let above : bit_xor t l / 2 ^ 15 ≡ t / 2 ^ 15 =
      xor-div 15 t l ∙ ap (bit_xor (t / 2 ^ 15)) gone ∙ xor-zero (t / 2 ^ 15) in
    omega arith

shift_out_xor :
    (t l : ℕ)
    → l < 2 ^ 15
    → bit_xor (2 * bit_xor t l % 2 ^ 16) 0x1021 ≡ bit_xor (bit_xor (2 * t % 2 ^ 16) 0x1021) (2 * l)
shift_out_xor t l hl =
    let fits : 2 * l % 2 ^ 16 ≡ 2 * l = omega arith in
    let mixed : 2 * bit_xor t l % 2 ^ 16 ≡ bit_xor (2 * t % 2 ^ 16) (2 * l) =
      ap (λ (x : ℕ). x % 2 ^ 16) (xor-double t l)
      ∙ xor-mod 16 (2 * t) (2 * l)
      ∙ ap (bit_xor (2 * t % 2 ^ 16)) fits in
    ap (λ (x : ℕ). bit_xor x 0x1021) mixed ∙ swap_last (2 * t % 2 ^ 16) (2 * l) 0x1021

-- The division is linear, as long as no bit of the second operand reaches the top.
shift_bit-xor : (t l : ℕ) → l < 2 ^ 15 → shift_bit (bit_xor t l) ≡ bit_xor (shift_bit t) (2 * l)
unfolding shift_bit
shift_bit-xor t l hl = elim (Bool-cases (ltb t 0x8000)) [
  | inl low ↦ ground (arith, xor-lt 15 t l, xor-double t l)
  | inr high ↦ ground (arith, top_bit_kept t l, shift_out_xor t l)
]

shift_bits-xor :
    (n t l : ℕ)
    → l * 2 ^ n < 2 ^ 16
    → shift_bits n (bit_xor t l) ≡ bit_xor (shift_bits n t) (l * 2 ^ n)
unfolding shift_bits
shift_bits-xor zero t l h = ap (bit_xor t) (omega arith)
shift_bits-xor (suc n) t l h =
    let room : l * 2 ^ suc n ≡ 2 * l * 2 ^ n = omega (arith, ap (λ (x : ℕ). l * x) (pow-suc 2 n)) in
    let some_left : 1 ≤ 2 ^ n = one-le-pow n 2 (omega arith) in
    let low : l < 2 ^ 15 = grind arith in
    ap (shift_bits n) (shift_bit-xor t l low)
    ∙ shift_bits-xor n (shift_bit t) (2 * l) (rw (← room) h)
    ∙ ap (bit_xor (shift_bits n (shift_bit t))) (sym room)

-- The table lookup for the high byte, with the low byte shifted up, is eight bits of division.
shift_bits-byte :
    (h l : ℕ)
    → h < 256
    → l < 256
    → shift_bits 8 (h * 2 ^ 8 + l) ≡ bit_xor (get_or crc16tab h 0) (l * 2 ^ 8)
shift_bits-byte h l hh hl =
    let joined : h * 2 ^ 8 + l ≡ bit_xor (h * 2 ^ 8) l = omega (
      arith,
      xor_fields 8 h 0 0 l (omega arith) hl,
      xor-zero h,
      zero-xor l,
      ap (λ (t : ℕ). bit_xor t (0 * 2 ^ 8 + l)) (add-zero (h * 2 ^ 8)),
      ap (bit_xor (h * 2 ^ 8)) (zero-add l),
    ) in
    ap (shift_bits 8) joined
    ∙ shift_bits-xor 8 (h * 2 ^ 8) l (omega arith)
    ∙ ap (λ (x : ℕ). bit_xor x (l * 2 ^ 8)) (sym (crc16tab_lem h hh))

promote-mod : (b : ℕ) → b < 256 → promote b % 2 ^ 8 ≡ b
unfolding promote
promote-mod b h = ground arith

shift_bits-lt : (n x : ℕ) → x < 2 ^ 16 → shift_bits n x < 2 ^ 16
unfolding shift_bits
shift_bits-lt zero x h = h
shift_bits-lt (suc n) x h = shift_bits-lt n (shift_bit x) (shift_bit-lt x h)

-- The index into the table is below 256, and is the high byte mixed with the input byte.
table_index :
    (crc b : ℕ)
    → crc < 2 ^ 16
    → b < 256
    → bit_and (bit_xor (crc / 2 ^ 8) (promote b)) 0x00ff ≡ bit_xor (crc / 2 ^ 8) b
table_index crc b hc hb =
    let high : crc / 2 ^ 8 % 2 ^ 8 ≡ crc / 2 ^ 8 = omega arith in
    bit_and-mask 8 (bit_xor (crc / 2 ^ 8) (promote b))
    ∙ xor-mod 8 (crc / 2 ^ 8) (promote b)
    ∙ ap (bit_xor (crc / 2 ^ 8 % 2 ^ 8)) (promote-mod b hb)
    ∙ ap (λ (t : ℕ). bit_xor t b) high

byte_entered : (crc b : ℕ) → bit_xor crc (b * 2 ^ 8) ≡ bit_xor (crc / 2 ^ 8) b * 2 ^ 8 + crc % 2 ^ 8
byte_entered crc b =
    let split : crc ≡ crc / 2 ^ 8 * 2 ^ 8 + crc % 2 ^ 8 = omega arith in
    ap (λ (t : ℕ). bit_xor t (b * 2 ^ 8)) split
    ∙ ap (bit_xor (crc / 2 ^ 8 * 2 ^ 8 + crc % 2 ^ 8)) (sym (add-zero (b * 2 ^ 8)))
    ∙ xor_fields 8 (crc / 2 ^ 8) b (crc % 2 ^ 8) 0 (omega arith) (omega arith)
    ∙ ap (λ (t : ℕ). bit_xor (crc / 2 ^ 8) b * 2 ^ 8 + t) (xor-zero (crc % 2 ^ 8))

pub crc16_round_lem : (crc b : ℕ) → crc < 2 ^ 16 → b < 256 → crc16_round crc b ≡ crc_byte crc b
unfolding crc16_round crc_byte
crc16_round_lem crc b hc hb =
    let i : ℕ = bit_xor (crc / 2 ^ 8) b in
    let small : i < 256 = xor-lt 8 (crc / 2 ^ 8) b (omega arith) hb in
    let entry_fits : get_or crc16tab i 0 % 2 ^ 16 ≡ get_or crc16tab i 0 =
      mod-eq_of_lt (rw (crc16tab_lem i small) (shift_bits-lt 8 (i * 2 ^ 8) (omega arith))) in
    let shifted : crc * 2 ^ 8 % 2 ^ 16 ≡ crc % 2 ^ 8 * 2 ^ 8 = omega arith in
    ap (λ (t : ℕ). bit_xor (crc * 2 ^ 8) (get_or crc16tab t 0) % 2 ^ 16) (table_index crc b hc hb)
    ∙ xor-mod 16 (crc * 2 ^ 8) (get_or crc16tab i 0)
    ∙ ap (bit_xor (crc * 2 ^ 8 % 2 ^ 16)) entry_fits
    ∙ ap (λ (t : ℕ). bit_xor t (get_or crc16tab i 0)) shifted
    ∙ xor_comm (crc % 2 ^ 8 * 2 ^ 8) (get_or crc16tab i 0)
    ∙ sym (
        ap (shift_bits 8) (byte_entered crc b)
        ∙ shift_bits-byte i (crc % 2 ^ 8) small (omega arith))

crc16_round-lt : (crc b : ℕ) → crc16_round crc b < 2 ^ 16
unfolding crc16_round
crc16_round-lt crc b = omega arith

crc16_loop_lem :
    (xs ys : List ℕ) (crc : ℕ)
    → crc < 2 ^ 16
    → IsBytes xs
    → crc16_loop (length xs) (xs ++ ys) crc ≡ some (crc_from crc xs)
unfolding crc16_loop crc_from
crc16_loop_lem [] ys crc hc hb = refl
crc16_loop_lem (x ∷ xs) ys crc hc hb =
    crc16_loop_lem xs ys (crc16_round crc x) (crc16_round-lt crc x) hb.1
    ∙ ap (λ (t : ℕ). some (crc_from t xs)) (crc16_round_lem crc x hc hb.0)

-- For a buffer of bytes that holds at least the `len` bytes `xs`, `crc16` reads nothing beyond
-- them and returns the bit-by-bit CRC16 of exactly these.
pub crc16-reference :
    (xs ys : List ℕ) → IsBytes xs → crc16 (xs ++ ys) (length xs) ≡ some (crc_from 0 xs)
unfolding crc16
crc16-reference xs ys hb = crc16_loop_lem xs ys 0 (omega arith) hb
