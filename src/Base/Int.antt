-- ===== src/Base/Int.antt =====
-- Signed integers, and the wrap-around of Go's 64-bit `int`, `int64` and `time.Duration`.
use fingered.Base.Tests.{ltb, leb, if◌then◌else◌}
use Prim.Native.Nat.{ℕ, suc, ◌+◌, ◌-◌, ◌*◌, ◌%◌, ◌^◌, ◌≤◌, ◌<◌}
use mathlib.Core.Path.{◌≡◌}
use native.Mathlib.Omega.{arith}
use mathlib.Core.Bool.{Bool}

-- `negsuc n` is -(n + 1).
pub data ℤ : Type 0 where
  pos : ℕ → ℤ
  negsuc : ℕ → ℤ

abbrev pub pos_part : ℤ → ℕ
pos_part (pos n) = n
pos_part (negsuc n) = 0

abbrev pub neg_part : ℤ → ℕ
neg_part (pos n) = 0
neg_part (negsuc n) = suc n

-- a - b, as an integer.
abbrev pub sub_ℕ : ℕ → ℕ → ℤ
sub_ℕ a b = if leb b a then pos (a - b) else negsuc (b - a - 1)

infix 50 ◌≤ℤ◌
abbrev pub ◌≤ℤ◌ : ℤ → ℤ → Type 0
a ≤ℤ b = pos_part a + neg_part b ≤ pos_part b + neg_part a

abbrev pub ltb_ℤ : ℤ → ℤ → Bool
ltb_ℤ a b = ltb (pos_part a + neg_part b) (pos_part b + neg_part a)

abbrev pub leb_ℤ : ℤ → ℤ → Bool
leb_ℤ a b = leb (pos_part a + neg_part b) (pos_part b + neg_part a)

-- The int64 with the bit pattern `u`, a number below 2 ^ 64.
pub of_bits : ℕ → ℤ
of_bits u = if ltb u (2 ^ 63) then pos u else negsuc (2 ^ 64 - 1 - u)

-- The int64 to which an integer wraps around.
unfoldable pub wrap : ℤ → ℤ
unfolding of_bits
wrap (pos n) = of_bits (n % 2 ^ 64)
wrap (negsuc n) = of_bits (2 ^ 64 - 1 - n % 2 ^ 64)

-- `a + n` and `a * n` on int64, at a constant n.
unfoldable pub add64 : ℤ → ℕ → ℤ
add64 a n = wrap (sub_ℕ (pos_part a + n) (neg_part a))

unfoldable pub mul64 : ℤ → ℕ → ℤ
mul64 a n = wrap (sub_ℕ (pos_part a * n) (neg_part a * n))

-- A sum that stays below 2 ^ 63 does not wrap around.
pub add64_small : (a n : ℕ) → a + n < 2 ^ 63 → add64 (pos a) n ≡ pos (a + n)
unfolding add64 wrap
add64_small a n h = ground arith
