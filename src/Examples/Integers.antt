-- ===== src/Examples/Integers.antt =====
-- The arithmetic on int64 that the pairing needs.
use Prim.Native.Nat.{ℕ, zero, suc, ◌+◌, ◌-◌, ◌/◌}
use rivalry.Prelude.{ℤ, pos, negsuc, to_int64, leb, if◌then◌else◌}

infixl 65 ◌+ℤ◌
◌+ℤ◌ : ℤ → ℤ → ℤ
pos a +ℤ pos b = pos (a + b)
pos a +ℤ negsuc b = if leb (suc b) a then pos (a - suc b) else negsuc (b - a)
negsuc a +ℤ pos b = if leb (suc a) b then pos (b - suc a) else negsuc (a - b)
negsuc a +ℤ negsuc b = negsuc (suc (a + b))

negated : ℕ → ℤ
negated zero = pos 0
negated (suc n) = negsuc n

-- Go's division rounds towards zero.
half : ℤ → ℤ
unfolding negated
half (pos n) = pos (n / 2)
half (negsuc n) = negated (suc n / 2)

-- `(a + b) / 2`
unfoldable pub average : ℤ → ℤ → ℤ
unfolding to_int64 ◌+ℤ◌ half
average a b = half (to_int64 (a +ℤ b))
