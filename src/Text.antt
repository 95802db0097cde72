-- ===== src/Text.antt =====
-- What the sources use of `std::string`: bytes, searching, substrings, order and `std::stoi`.
pub mod Laws
pub mod Stoi
use Prim.Native.Char.{code}
use Prim.Native.String.{String}
use cpp_hiredis_cluster.Base.{
  ℕ, zero, suc, ◌+◌, ◌-◌, ◌%◌, ◌^◌, Bool, true, false, ◌&&◌, ◌||◌, List, [], ◌∷◌, ◌++◌, Option,
  none, some, ltb, leb, ◌==◌, if◌then◌else◌, length, take, drop,
}
use cpp_hiredis_cluster.Base.Search.{index_of}
use cpp_hiredis_cluster.Int.{ℤ, pos, negsuc}

abbrev pub Text : Type 0
Text = List ℕ

-- The bytes of a literal.
abbrev pub codes : String → Text
codes String.[] = []
codes (String.◌∷◌ c s) = code c ∷ codes s

-- `std::string::npos`, the largest `size_t`.
abbrev pub npos : ℕ
npos = 0xffff_ffff_ffff_ffff

-- Addition of `size_t`.
unfoldable pub size_add : ℕ → ℕ → ℕ
size_add a b = (a + b) % 2 ^ 64

-- Subtraction of `size_t`.
unfoldable pub size_sub : ℕ → ℕ → ℕ
size_sub a b = (a + 2 ^ 64 - b) % 2 ^ 64

-- `s.find(c, from)` for a text of one byte.
unfoldable pub find_char : Text → ℕ → ℕ → ℕ
unfolding index_of
find_char s c from = let k = from + index_of c (drop from s) in if ltb k (length s) then k else npos

unfoldable pub starts_with : Text → Text → Bool
starts_with [] s = true
starts_with (c ∷ w) [] = false
starts_with (c ∷ w) (x ∷ s) = x == c && starts_with w s

-- `s.find(w)`.
unfoldable pub find : Text → Text → ℕ → ℕ
unfolding starts_with
find w [] i = if starts_with w [] then i else npos
find w (x ∷ s) i = let rest = find w s (i + 1) in if starts_with w (x ∷ s) then i else rest

-- `s.substr(from, count)`; `none` is the `std::out_of_range` that it throws.
unfoldable pub substr : Text → ℕ → ℕ → Option Text
substr s from count = if leb from (length s) then some (take count (drop from s)) else none

-- `std::string(p)` on a buffer: the bytes up to the first zero.
unfoldable pub c_string : Text → Text
c_string [] = []
c_string (x ∷ s) = if x == 0 then [] else x ∷ c_string s

-- `operator<` on texts.
unfoldable pub text_ltb : Text → Text → Bool
text_ltb s [] = false
text_ltb [] (y ∷ t) = true
text_ltb (x ∷ s) (y ∷ t) = ltb x y || (x == y && text_ltb s t)
