-- ===== src/Int.antt =====
-- `int` and `long long` values, and their conversions to 32 bits.
use cpp_hiredis_cluster.Base.{ℕ, ◌-◌, ◌%◌, ◌^◌, ltb, if◌then◌else◌}

-- `negsuc n` is -(n + 1).
pub data ℤ : Type 0 where
  pos : ℕ → ℤ
  negsuc : ℕ → ℤ

-- Conversion to `unsigned int`.
abbrev pub to_u32 : ℤ → ℕ
to_u32 (pos n) = n % 2 ^ 32
to_u32 (negsuc n) = 2 ^ 32 - 1 - n % 2 ^ 32

-- Conversion to `int`, two's complement.
abbrev pub to_i32 : ℤ → ℤ
to_i32 x = let p = to_u32 x in if ltb p (2 ^ 31) then pos p else negsuc (2 ^ 32 - 1 - p)
