-- ===== src/Text/Stoi/Decimal.antt =====
-- `std::to_string` of an `int`, which `std::stoi` reads back.
use cpp_hiredis_cluster.Base.{
  ℕ, zero, suc, ◌+◌, ◌/◌, ◌%◌, ◌^◌, ◌<◌, ◌≤◌, [], ◌∷◌, none, some, ◌≡◌, ◌∙◌, ap, ltb, if◌then◌else◌,
  arith, Bool-cases, inl, inr,
}
use cpp_hiredis_cluster.Int.{ℤ, pos, negsuc}
use cpp_hiredis_cluster.Text.{Text}
use cpp_hiredis_cluster.Text.Stoi.{
  value, is_space, is_digit, skip_spaces, digits_value, positive, negative, signed, stoi,
}

-- The digits of a number before those already written; a number needs fewer rounds than it counts.
digits : ℕ → ℕ → Text → Text
digits zero n acc = (n % 10 + b'0') ∷ acc
digits (suc rounds) n acc =
    let more = digits rounds (n / 10) ((n % 10 + b'0') ∷ acc) in
    if ltb n 10 then (n + b'0') ∷ acc else more

unfoldable pub to_string : ℤ → Text
unfolding digits
to_string (pos n) = digits n n []
to_string (negsuc n) = b'-' ∷ digits (n + 1) (n + 1) []

-- The values of an `int`.
abbrev pub IsInt : ℤ → Type 0
IsInt (pos n) = n < 2 ^ 31
IsInt (negsuc n) = n < 2 ^ 31

digits_value-digits :
    (rounds n : ℕ) (acc : Text)
    → n ≤ rounds
    → digits_value (digits rounds n acc) none ≡ digits_value acc (some n)
unfolding digits digits_value is_digit
digits_value-digits zero n acc h = ground arith
digits_value-digits (suc rounds) n acc h =
    ground (arith, digits_value-digits rounds (n / 10) ((n % 10 + b'0') ∷ acc))

skip_spaces-digits :
    (rounds n : ℕ) (acc : Text) → skip_spaces (digits rounds n acc) ≡ digits rounds n acc
unfolding digits skip_spaces is_space
skip_spaces-digits zero n acc = ground arith
skip_spaces-digits (suc rounds) n acc =
    ground (arith, skip_spaces-digits rounds (n / 10) ((n % 10 + b'0') ∷ acc))

signed-digits :
    (rounds n : ℕ) (acc : Text)
    → signed (digits rounds n acc) ≡ positive (digits_value (digits rounds n acc) none)
unfolding digits signed
signed-digits zero n acc = ground arith
signed-digits (suc rounds) n acc =
    let rest = signed-digits rounds (n / 10) ((n % 10 + b'0') ∷ acc) in
    elim (Bool-cases (ltb n 10)) [
      | inl small ↦ rw (small, digits) (ground arith)
      | inr large ↦ rw (large, digits) rest
    ]

digits_read : (n : ℕ) → digits_value (digits n n []) none ≡ some n
unfolding digits_value
digits_read n = digits_value-digits n n [] (omega arith)

pub stoi-to_string : (n : ℤ) → IsInt n → stoi (to_string n) ≡ value n
unfolding stoi to_string positive negative
stoi-to_string (pos n) h =
    ap signed (skip_spaces-digits n n [])
    ∙ signed-digits n n []
    ∙ ap positive (digits_read n)
    ∙ ground arith
stoi-to_string (negsuc n) h = ap negative (digits_read (n + 1)) ∙ ground arith
