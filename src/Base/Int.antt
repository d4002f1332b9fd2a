-- ===== src/Base/Int.antt =====
-- Go's `int`, and its conversions to the unsigned types, which keep the low bits.
use mathlib.Core.Bool.{Bool, false}
use nftableslib.Base.Tests.{◌==◌}
use Prim.Native.Nat.{ℕ, suc, ◌-◌, ◌%◌, ◌^◌}

-- `negsuc n` is -(n + 1).
pub data ℤ : Type 0 where
  pos : ℕ → ℤ
  negsuc : ℕ → ℤ

-- An integer modulo m, for a positive m: -(n + 1) is m - 1 - n % m.
abbrev pub wrap : ℕ → ℤ → ℕ
wrap m (pos n) = n % m
wrap m (negsuc n) = m - suc (n % m)

abbrev pub u8 : ℤ → ℕ
u8 = wrap (2 ^ 8)

abbrev pub u16 : ℤ → ℕ
u16 = wrap (2 ^ 16)

abbrev pub u64 : ℤ → ℕ
u64 = wrap (2 ^ 64)

abbrev pub is_zero : ℤ → Bool
is_zero (pos n) = n == 0
is_zero (negsuc n) = false

abbrev pub u32 : ℤ → ℕ
u32 = wrap (2 ^ 32)
