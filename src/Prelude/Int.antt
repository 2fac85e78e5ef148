-- ===== src/Prelude/Int.antt =====
-- Signed integers over the native numbers: what a difference of two clock readings needs.
use Prim.Native.Nat.{ℕ, ◌-◌}
use mathlib.Core.Bool.{Bool}
use crystal_forge.Prelude.Tests.{leb, if◌then◌else◌}

-- `negsuc n` is -(n + 1).
pub data ℤ : Type 0 where
  pos : ℕ → ℤ
  negsuc : ℕ → ℤ

-- a - b, as an integer.
abbrev pub sub_ℕ : ℕ → ℕ → ℤ
sub_ℕ a b = if leb b a then pos (a - b) else negsuc (b - a - 1)

-- Whether an integer has 32 bits: -2^31 is `negsuc (2^31 - 1)`.
abbrev pub fits_int4 : ℤ → Bool
fits_int4 (pos n) = leb n 2147483647
fits_int4 (negsuc n) = leb n 2147483647
