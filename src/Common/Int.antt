-- ===== src/Common/Int.antt =====
-- Signed integers over the native numbers, and the two's-complement cast to `i32`.
use Prim.Native.Nat.{ℕ, suc, ◌+◌, ◌-◌, ◌%◌, ◌≤◌, ◌<◌}
use mathlib.Core.Path.{◌≡◌, refl}
use mathlib.Core.Bool.{Bool}
use native.Mathlib.Omega.{arith}
use sens.Common.Tests.{ltb, leb, if◌then◌else◌}

-- `negsuc n` is -(n + 1).
pub data ℤ : Type 0 where
  pos : ℕ → ℤ
  negsuc : ℕ → ℤ

abbrev pub pos_part : ℤ → ℕ
pos_part (pos n) = n
pos_part (negsuc n) = 0

abbrev pub neg_part : ℤ → ℕ
neg_part (pos n) = 0
neg_part (negsuc n) = suc n

-- a - b, as an integer.
unfoldable pub sub_ℕ : ℕ → ℕ → ℤ
sub_ℕ a b = if leb b a then pos (a - b) else negsuc (b - a - 1)

infixl 65 ◌+ℤ◌ ◌-ℤ◌
infix 50 ◌≤ℤ◌ ◌<ℤ◌
abbrev pub ◌+ℤ◌ : ℤ → ℤ → ℤ
a +ℤ b = sub_ℕ (pos_part a + pos_part b) (neg_part a + neg_part b)

abbrev pub ◌-ℤ◌ : ℤ → ℤ → ℤ
a -ℤ b = sub_ℕ (pos_part a + neg_part b) (neg_part a + pos_part b)

abbrev pub ◌≤ℤ◌ : ℤ → ℤ → Type 0
a ≤ℤ b = pos_part a + neg_part b ≤ pos_part b + neg_part a

abbrev pub ◌<ℤ◌ : ℤ → ℤ → Type 0
a <ℤ b = pos_part a + neg_part b < pos_part b + neg_part a

abbrev pub ltb_ℤ : ℤ → ℤ → Bool
ltb_ℤ a b = ltb (pos_part a + neg_part b) (pos_part b + neg_part a)

abbrev pub leb_ℤ : ℤ → ℤ → Bool
leb_ℤ a b = leb (pos_part a + neg_part b) (pos_part b + neg_part a)

-- A difference through its two parts: what lets `omega` work with sums of any depth.
pub sub_ℕ_parts : (a b : ℕ) → pos_part (sub_ℕ a b) + b ≡ neg_part (sub_ℕ a b) + a
unfolding sub_ℕ
sub_ℕ_parts a b = ground arith

pub eq_of_parts : (a b : ℤ) → pos_part a + neg_part b ≡ pos_part b + neg_part a → a ≡ b
eq_of_parts a b h = ground arith

pub ruleset int_laws = (arith, sub_ℕ_parts, eq_of_parts)

abbrev pub i32_max : ℤ
i32_max = pos 2147483647

abbrev pub i32_min : ℤ
i32_min = negsuc 2147483647

pub record IsI32 (z : ℤ) : Type 0 where
  pub above : i32_min ≤ℤ z
  pub below : z ≤ℤ i32_max

-- The 32 low bits of an integer, as a number.
abbrev low_word : ℤ → ℕ
low_word (pos n) = n % 4294967296
low_word (negsuc n) = 4294967295 - n % 4294967296

abbrev of_word : ℕ → ℤ
of_word w = if ltb w 2147483648 then pos w else negsuc (4294967295 - w)

-- `v as i32`
pub as_i32 : ℤ → ℤ
as_i32 z = of_word (low_word z)

-- The cast keeps what fits.
pub as_i32_of_IsI32 : (z : ℤ) → IsI32 z → as_i32 z ≡ z
unfolding as_i32
as_i32_of_IsI32 (pos n) h = ground arith
as_i32_of_IsI32 (negsuc n) h = ground arith

-- The cast always fits.
pub as_i32-IsI32 : (z : ℤ) → IsI32 (as_i32 z)
unfolding as_i32
as_i32-IsI32 (pos n) = ground arith
as_i32-IsI32 (negsuc n) = ground arith

as_i32_wraps : as_i32 (pos 4294967295) ≡ negsuc 0
unfolding as_i32
as_i32_wraps = refl
