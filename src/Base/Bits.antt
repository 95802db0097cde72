-- ===== src/Base/Bits.antt =====
-- `bit_xor` and a low mask at variables, for every width.
use Prim.Native.Nat.{
  ℕ, zero, suc, ◌+◌, ◌-◌, ◌*◌, ◌/◌, ◌%◌, ◌^◌, ◌≤◌, ◌<◌, min, bit_and, bit_xor, digits, bitwise,
  differ, bit_and-bitwise, bit_xor-bitwise,
}
use mathlib.Core.Path.{◌≡◌, refl, ap, ◌∙◌}
use native.Mathlib.Nat.{
  pow-suc, one-le-pow, mul-add-mod_self_right, mod-eq_of_lt, mod-lt, div-add-mod,
}
use native.Mathlib.Decide.{dec_lt}
use native.Mathlib.Omega.{arith}

module _ (z : ℕ → ℕ) (f : ℕ → ℕ → ℕ) where
  one_round_more : (n a b : ℕ) → a ≤ n → digits z f (suc n) a b ≡ digits z f n a b
  one_round_more zero zero b h = refl
  one_round_more (suc n) zero b h = refl
  one_round_more zero (suc a) b h = absurd (omega arith)
  one_round_more (suc n) (suc a) b h =
      ap (λ (q : ℕ). q * 2 + f (suc a % 2) (b % 2))
        (one_round_more n (suc a / 2) (b / 2) (omega arith))

  -- As many rounds as the first operand are enough.
  rounds_enough : (n a b : ℕ) → a ≤ n → digits z f n a b ≡ digits z f a a b
  rounds_enough zero zero b h = refl
  rounds_enough zero (suc a) b h = absurd (omega arith)
  rounds_enough (suc n) a b h = elim (dec_lt a (suc n)) [
    | yes spare ↦ one_round_more n a b (omega arith) ∙ rounds_enough n a b (omega arith)
    | no tight ↦ let e : suc n ≡ a = omega arith in ap (λ (k : ℕ). digits z f k a b) e
  ]

  -- The lowest digit and the digits above it, for an operation that may start from 0.
  lowest_digit :
      ((y : ℕ) → z y ≡ z (y / 2) * 2 + f 0 (y % 2))
      → (a b : ℕ) → bitwise z f a b ≡ bitwise z f (a / 2) (b / 2) * 2 + f (a % 2) (b % 2)
  lowest_digit start zero b = start b
  lowest_digit start (suc a) b =
      ap (λ (q : ℕ). q * 2 + f (suc a % 2) (b % 2))
        (rounds_enough a (suc a / 2) (b / 2) (omega arith))

differ_bits : (a b : ℕ) → a < 2 → b < 2 → differ a b ≡ (a + b) % 2
differ_bits zero b p q = omega arith
differ_bits (suc zero) zero p q = refl
differ_bits (suc zero) (suc zero) p q = refl
differ_bits (suc zero) (suc (suc b)) p q = absurd (omega arith)
differ_bits (suc (suc a)) b p q = absurd (omega arith)

pub zero-xor : (b : ℕ) → bit_xor 0 b ≡ b
zero-xor b = bit_xor-bitwise 0 b

-- The lowest digit of an exclusive or, and the digits above it.
pub xor_step : (a b : ℕ) → bit_xor a b ≡ bit_xor (a / 2) (b / 2) * 2 + (a % 2 + b % 2) % 2
xor_step a b =
    let digit = differ_bits (a % 2) (b % 2) (omega arith) (omega arith) in
    let unrolled = lowest_digit (λ y. y) differ (λ y. omega arith) a b in
    let above : bit_xor (a / 2) (b / 2) ≡ bitwise (λ y. y) differ (a / 2) (b / 2) =
      bit_xor-bitwise (a / 2) (b / 2) in
    bit_xor-bitwise a b ∙ omega (arith, unrolled, digit, above)

xor-zero_fuel : (n a : ℕ) → a ≤ n → bit_xor a 0 ≡ a
xor-zero_fuel n zero h = refl
xor-zero_fuel zero (suc a) h = absurd (omega arith)
xor-zero_fuel (suc n) (suc a) h =
    omega (arith, xor_step (suc a) 0, xor-zero_fuel n (suc a / 2) (omega arith))

pub xor-zero : (a : ℕ) → bit_xor a 0 ≡ a
xor-zero a = xor-zero_fuel a a (omega arith)

xor_comm_fuel : (n a b : ℕ) → a ≤ n → bit_xor a b ≡ bit_xor b a
xor_comm_fuel n zero b h = omega (arith, zero-xor b, xor-zero b)
xor_comm_fuel zero (suc a) b h = absurd (omega arith)
xor_comm_fuel (suc n) (suc a) b h = omega (
  arith,
  xor_step (suc a) b,
  xor_step b (suc a),
  xor_comm_fuel n (suc a / 2) (b / 2) (omega arith),
)

pub xor_comm : (a b : ℕ) → bit_xor a b ≡ bit_xor b a
xor_comm a b = xor_comm_fuel a a b (omega arith)

xor_assoc_fuel : (n a b c : ℕ) → a ≤ n → bit_xor (bit_xor a b) c ≡ bit_xor a (bit_xor b c)
xor_assoc_fuel n zero b c h = rw (zero-xor b, zero-xor (bit_xor b c))
xor_assoc_fuel zero (suc a) b c h = absurd (omega arith)
xor_assoc_fuel (suc n) (suc a) b c h =
    let left : bit_xor (suc a) b / 2 ≡ bit_xor (suc a / 2) (b / 2) =
      omega (arith, xor_step (suc a) b) in
    let right : bit_xor b c / 2 ≡ bit_xor (b / 2) (c / 2) = omega (arith, xor_step b c) in
    omega (
      arith,
      xor_step (suc a) b,
      xor_step b c,
      xor_step (bit_xor (suc a) b) c,
      xor_step (suc a) (bit_xor b c),
      ap (λ (t : ℕ). bit_xor t (c / 2)) left,
      ap (bit_xor (suc a / 2)) right,
      xor_assoc_fuel n (suc a / 2) (b / 2) (c / 2) (omega arith),
    )

pub xor_assoc : (a b c : ℕ) → bit_xor (bit_xor a b) c ≡ bit_xor a (bit_xor b c)
xor_assoc a b c = xor_assoc_fuel a a b c (omega arith)

halve_field : (q r k : ℕ) → (q * 2 ^ suc k + r) / 2 ≡ q * 2 ^ k + r / 2
halve_field q r k = omega (arith, ap (λ (t : ℕ). q * t) (pow-suc 2 k))

field_parity : (q r k : ℕ) → (q * 2 ^ suc k + r) % 2 ≡ r % 2
field_parity q r k = omega (arith, ap (λ (t : ℕ). q * t) (pow-suc 2 k))

-- An exclusive or of two numbers, each split into a high and a low field, works field by field.
pub xor_fields :
    (k q p r s : ℕ)
    → r < 2 ^ k
    → s < 2 ^ k
    → bit_xor (q * 2 ^ k + r) (p * 2 ^ k + s) ≡ bit_xor q p * 2 ^ k + bit_xor r s
xor_fields zero q p zero zero hr hs = ground arith
xor_fields zero q p zero (suc s) hr hs = absurd (omega arith)
xor_fields zero q p (suc r) s hr hs = absurd (omega arith)
xor_fields (suc k) q p r s hr hs =
    let small : 2 ^ suc k ≡ 2 * 2 ^ k = pow-suc 2 k ∙ (omega arith) in
    let ih = xor_fields k q p (r / 2) (s / 2) (omega arith) (omega arith) in
    let halves : bit_xor ((q * 2 ^ suc k + r) / 2) ((p * 2 ^ suc k + s) / 2)
        ≡ bit_xor (q * 2 ^ k + r / 2) (p * 2 ^ k + s / 2) =
      rw (halve_field q r k, halve_field p s k) in
    omega (
      arith,
      xor_step (q * 2 ^ suc k + r) (p * 2 ^ suc k + s),
      field_parity q r k,
      field_parity p s k,
      halves,
      ih,
      xor_step r s,
      ap (λ (t : ℕ). bit_xor q p * t) small,
    )

pub xor-lt : (k a b : ℕ) → a < 2 ^ k → b < 2 ^ k → bit_xor a b < 2 ^ k
xor-lt zero zero b h p = rw (zero-xor b) p
xor-lt zero (suc a) b h p = absurd (omega arith)
xor-lt (suc k) a b h p =
    let small : 2 ^ suc k ≡ 2 * 2 ^ k = pow-suc 2 k ∙ (omega arith) in
    omega (arith, xor_step a b, xor-lt k (a / 2) (b / 2) (omega arith) (omega arith))

split_at : (k a : ℕ) → a ≡ a / 2 ^ k * 2 ^ k + a % 2 ^ k
split_at k a = grind (arith, one-le-pow k 2)

mod-pow-lt : (k a : ℕ) → a % 2 ^ k < 2 ^ k
mod-pow-lt k a = grind (arith, one-le-pow k 2)

xor_split :
    (k a b : ℕ)
    → bit_xor a b ≡ bit_xor (a / 2 ^ k) (b / 2 ^ k) * 2 ^ k + bit_xor (a % 2 ^ k) (b % 2 ^ k)
xor_split k a b =
    ap (λ (t : ℕ). bit_xor t b) (split_at k a)
    ∙ ap (bit_xor (a / 2 ^ k * 2 ^ k + a % 2 ^ k)) (split_at k b)
    ∙ xor_fields k (a / 2 ^ k) (b / 2 ^ k) (a % 2 ^ k) (b % 2 ^ k) (mod-pow-lt k a) (mod-pow-lt k b)

pub xor-mod : (k a b : ℕ) → bit_xor a b % 2 ^ k ≡ bit_xor (a % 2 ^ k) (b % 2 ^ k)
xor-mod k a b =
    ap (λ (t : ℕ). t % 2 ^ k) (xor_split k a b)
    ∙ mul-add-mod_self_right (bit_xor (a / 2 ^ k) (b / 2 ^ k)) (2 ^ k)
        (bit_xor (a % 2 ^ k) (b % 2 ^ k))
    ∙ mod-eq_of_lt (xor-lt k (a % 2 ^ k) (b % 2 ^ k) (mod-pow-lt k a) (mod-pow-lt k b))

pub xor-div : (k a b : ℕ) → bit_xor a b / 2 ^ k ≡ bit_xor (a / 2 ^ k) (b / 2 ^ k)
xor-div k a b =
    grind
      (arith, xor_split k a b, xor-lt k (a % 2 ^ k) (b % 2 ^ k) (mod-pow-lt k a) (mod-pow-lt k b))

mod_double : (m a : ℕ) → 0 < m → a % (2 * m) ≡ a / 2 % m * 2 + a % 2
mod_double m a pos =
    let rest : ℕ = a / 2 % m * 2 + a % 2 in
    let whole : a ≡ a / 2 / m * (2 * m) + (a / 2 % m * 2 + a % 2) =
      grind (arith, div-add-mod (a / 2) m) in
    ap (λ (t : ℕ). t % (2 * m)) whole
    ∙ mul-add-mod_self_right (a / 2 / m) (2 * m) (a / 2 % m * 2 + a % 2)
    ∙ mod-eq_of_lt (omega (arith, mod-lt (a / 2) pos))

and_step : (a b : ℕ) → bit_and a b ≡ bit_and (a / 2) (b / 2) * 2 + min (a % 2) (b % 2)
and_step a b =
    let unrolled = lowest_digit (λ y. 0) min (λ y. omega arith) a b in
    let above : bit_and (a / 2) (b / 2) ≡ bitwise (λ y. 0) min (a / 2) (b / 2) =
      bit_and-bitwise (a / 2) (b / 2) in
    bit_and-bitwise a b ∙ omega (arith, unrolled, above)

no_common_digit : (n a : ℕ) → digits (λ y. 0) min n a 0 ≡ 0
no_common_digit zero a = refl
no_common_digit (suc n) zero = refl
no_common_digit (suc n) (suc a) = omega (arith, no_common_digit n (suc a / 2))

-- A mask of the `k` low bits is the remainder by `2 ^ k`.
pub bit_and-mask : (k a : ℕ) → bit_and a (2 ^ k - 1) ≡ a % 2 ^ k
bit_and-mask zero a = omega (arith, bit_and-bitwise a 0, no_common_digit a a)
bit_and-mask (suc k) a =
    let small : 2 ^ suc k ≡ 2 * 2 ^ k = pow-suc 2 k ∙ (omega arith) in
    let half_mask : (2 ^ suc k - 1) / 2 ≡ 2 ^ k - 1 = omega (arith, one-le-pow k 2) in
    let odd : (2 ^ suc k - 1) % 2 ≡ 1 = omega (arith, one-le-pow k 2) in
    and_step a (2 ^ suc k - 1)
    ∙ rw
        (
          half_mask,
          odd,
          bit_and-mask k (a / 2),
          small,
          mod_double (2 ^ k) a (one-le-pow k 2 (omega arith)),
        )
        (omega arith)
