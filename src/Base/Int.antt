-- ===== src/Base/Int.antt =====
-- Signed machine integers: a value is an integer, and its bit pattern of `k` bytes a number.
use Prim.Native.Nat.{ℕ, zero, suc, ◌-◌, ◌/◌, ◌%◌, ◌^◌, ◌<◌}
use mathlib.Core.Path.{◌≡◌}
use native.Mathlib.Omega.{arith}
use kui_ba_db.Base.Tests.{ltb, if◌then◌else◌}

-- `negsuc n` is -(n + 1).
pub data ℤ : Type 0 where
  pos : ℕ → ℤ
  negsuc : ℕ → ℤ

-- The two's complement pattern below the modulus `m`: what `as` to a type of that width keeps.
abbrev pub to_bits : ℕ → ℤ → ℕ
to_bits m (pos n) = n % m
to_bits m (negsuc n) = m - 1 - n % m

-- The signed integer that a pattern below `m` stands for.
abbrev pub of_bits : ℕ → ℕ → ℤ
of_bits m w = if ltb w (m / 2) then pos w else negsuc (m - 1 - w)

abbrev pub FitsSigned : ℕ → ℤ → Type 0
FitsSigned m (pos n) = n < m / 2
FitsSigned m (negsuc n) = n < m / 2

-- The value of an `i32` survives the trip through its pattern.
pub of_bits-to_bits_32 : (z : ℤ) → FitsSigned (2 ^ 32) z → of_bits (2 ^ 32) (to_bits (2 ^ 32) z) ≡ z
of_bits-to_bits_32 (pos n) h = ground arith
of_bits-to_bits_32 (negsuc n) h = ground arith

pub of_bits-to_bits_16 : (z : ℤ) → FitsSigned (2 ^ 16) z → of_bits (2 ^ 16) (to_bits (2 ^ 16) z) ≡ z
of_bits-to_bits_16 (pos n) h = ground arith
of_bits-to_bits_16 (negsuc n) h = ground arith

-- -n
abbrev pub neg : ℕ → ℤ
neg zero = pos 0
neg (suc n) = negsuc n

-- `v as i32`
abbrev pub wrap_i32 : ℤ → ℤ
wrap_i32 v = of_bits (2 ^ 32) (to_bits (2 ^ 32) v)
