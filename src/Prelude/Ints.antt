-- ===== src/Prelude/Ints.antt =====
-- Signed integers over the native numbers, under the library's names: the values of C's `int`.
use Prim.Native.Nat.{ℕ, suc, ◌-◌, ◌%◌, ◌^◌}
use twebs.Prelude.Tests.{ltb, if◌then◌else◌}
use mathlib.Core.Bool.{Bool, true, false}

-- `negsuc n` is -(n + 1).
pub data ℤ : Type 0 where
  pos : ℕ → ℤ
  negsuc : ℕ → ℤ

-- `x < 0`
abbrev pub is_negative : ℤ → Bool
is_negative (pos n) = false
is_negative (negsuc n) = true

-- the value, if it is not negative
abbrev pub pos_part : ℤ → ℕ
pos_part (pos n) = n
pos_part (negsuc n) = 0

abbrev pub neg : ℕ → ℤ
neg ℕ.zero = pos 0
neg (suc n) = negsuc n

-- A conversion to a 32-bit `int`.
abbrev pub to_int : ℕ → ℤ
to_int n = let low = n % 2 ^ 32 in if ltb low (2 ^ 31) then pos low else negsuc (2 ^ 32 - 1 - low)

-- A value of `long` as `strtol` returns it, with what lies outside of its range replaced by the
-- nearest value in it.
abbrev long_part : ℕ → ℕ
long_part n = if ltb n (2 ^ 63) then n else 2 ^ 63 - 1

-- `(int) strtol(…)`, of a text that stands for the number.
abbrev pub as_int : ℤ → ℤ
as_int (pos n) = to_int (long_part n)
as_int (negsuc n) = to_int (2 ^ 32 - 1 - long_part n % 2 ^ 32)
