-- ===== src/Text/Stoi.antt =====
-- `std::stoi` in base 10: white space, a sign, digits; the rest of the text is ignored.
pub mod Decimal
use cpp_hiredis_cluster.Base.{
  ℕ, ◌+◌, ◌-◌, ◌*◌, ◌^◌, Bool, ◌&&◌, ◌||◌, [], ◌∷◌, Option, none, some, leb, ltb, ◌==◌,
  if◌then◌else◌,
}
use cpp_hiredis_cluster.Int.{ℤ, pos, negsuc}
use cpp_hiredis_cluster.Text.{Text}

pub data Parsed : Type 0 where
  value : ℤ → Parsed
  invalid too_large : Parsed

is_space : ℕ → Bool
is_space c = c == b' ' || (leb 9 c && leb c 13)

is_digit : ℕ → Bool
is_digit c = leb b'0' c && leb c b'9'

skip_spaces : Text → Text
unfolding is_space
skip_spaces [] = []
skip_spaces (c ∷ s) = if is_space c then skip_spaces s else c ∷ s

-- The leading digits' value, behind those already read; `none` if there is no digit at all.
digits_value : Text → Option ℕ → Option ℕ
unfolding is_digit
digits_value [] acc = acc
digits_value (c ∷ s) acc =
    let more =
      digits_value s (elim acc [ none ↦ some (c - b'0') | some n ↦ some (n * 10 + (c - b'0')) ]) in
    if is_digit c then more else acc

positive : Option ℕ → Parsed
positive none = invalid
positive (some n) = if ltb n (2 ^ 31) then value (pos n) else too_large

negative : Option ℕ → Parsed
negative none = invalid
negative (some n) =
    if n == 0 then value (pos 0) else if leb n (2 ^ 31) then value (negsuc (n - 1)) else too_large

signed : Text → Parsed
unfolding digits_value positive negative
signed [] = invalid
signed (c ∷ s) =
    if c == b'-'
    then negative (digits_value s none)
    else if c == b'+'
    then positive (digits_value s none)
    else positive (digits_value (c ∷ s) none)

unfoldable pub stoi : Text → Parsed
unfolding skip_spaces signed
stoi s = signed (skip_spaces s)
