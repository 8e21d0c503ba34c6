-- ===== src/Prelude/Int.antt =====
-- Go's signed integers: a value, the comparison, and the wrap-around of int32 and int64.
use Prim.Native.Nat.{ℕ, ◌-◌, ◌%◌, ◌^◌, ◌<◌}
use mathlib.Core.Path.{◌≡◌}
use mathlib.Core.Bool.{Bool, true, false}
use native.Mathlib.Omega.{arith}
use rivalry.Prelude.Tests.{ltb, leb, if◌then◌else◌}

-- `negsuc n` is -(n + 1).
pub data ℤ : Type 0 where
  pos : ℕ → ℤ
  negsuc : ℕ → ℤ

abbrev pub leb_ℤ : ℤ → ℤ → Bool
leb_ℤ (pos a) (pos b) = leb a b
leb_ℤ (pos a) (negsuc b) = false
leb_ℤ (negsuc a) (pos b) = true
leb_ℤ (negsuc a) (negsuc b) = leb b a

-- The int32 that `int32(n)` makes of an `int` that is not negative.
unfoldable pub to_int32 : ℕ → ℤ
to_int32 n = let r = n % 2 ^ 32 in if ltb r (2 ^ 31) then pos r else negsuc (2 ^ 32 - 1 - r)

-- A count that fits in an int32 is kept.
pub to_int32_small : (n : ℕ) → n < 2 ^ 31 → to_int32 n ≡ pos n
unfolding to_int32
to_int32_small n h = ground arith

-- The int64 with the remainder `r` modulo 2 ^ 64.
unfoldable pub of_remainder : ℕ → ℤ
of_remainder r = if ltb r (2 ^ 63) then pos r else negsuc (2 ^ 64 - 1 - r)

unfoldable pub to_int64 : ℤ → ℤ
unfolding of_remainder
to_int64 (pos n) = of_remainder (n % 2 ^ 64)
to_int64 (negsuc n) = of_remainder (2 ^ 64 - 1 - n % 2 ^ 64)

-- An int64 that is not negative is kept.
pub to_int64_small : (n : ℕ) → n < 2 ^ 63 → to_int64 (pos n) ≡ pos n
unfolding to_int64 of_remainder
to_int64_small n h = ground arith
