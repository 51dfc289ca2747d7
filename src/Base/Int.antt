-- ===== src/Base/Int.antt =====
-- Python's signed integers over the native numbers, under the library's names.
use Prim.Native.Nat.{ℕ, suc, ◌+◌, ◌-◌, ◌*◌, ◌/◌, ◌%◌, ◌^◌, ◌≤◌, ◌<◌, min}
use mathlib.Core.Path.{◌≡◌}
use mathlib.Core.Bool.{Bool}
use native.Mathlib.Omega.{arith}
use reborn_protocol.Base.Tests.{ltb, leb, if◌then◌else◌}

-- `negsuc n` is -(n + 1).
pub data ℤ : Type 0 where
  pos : ℕ → ℤ
  negsuc : ℕ → ℤ

abbrev pub pos_part : ℤ → ℕ
pos_part (pos n) = n
pos_part (negsuc n) = 0

abbrev pub neg_part : ℤ → ℕ
neg_part (pos n) = 0
neg_part (negsuc n) = suc n

-- a - b, as an integer.
abbrev pub sub_ℕ : ℕ → ℕ → ℤ
sub_ℕ a b = if leb b a then pos (a - b) else negsuc (b - a - 1)

infixl 65 ◌+ℤ◌
unfoldable pub ◌+ℤ◌ : ℤ → ℤ → ℤ
a +ℤ b = sub_ℕ (pos_part a + pos_part b) (neg_part a + neg_part b)

abbrev pub neg : ℤ → ℤ
neg a = sub_ℕ (neg_part a) (pos_part a)

abbrev pub ltb_ℤ : ℤ → ℤ → Bool
ltb_ℤ a b = ltb (pos_part a + neg_part b) (pos_part b + neg_part a)

-- `v << k`.
unfoldable pub shl : ℤ → ℕ → ℤ
shl v k = sub_ℕ (pos_part v * 2 ^ k) (neg_part v * 2 ^ k)

-- `v % m` and `v // m` round down, as Python's do.
unfoldable pub mod_ℤ : ℤ → ℕ → ℕ
mod_ℤ (pos n) m = n % m
mod_ℤ (negsuc n) m = m - 1 - n % m

unfoldable pub floor_div : ℤ → ℕ → ℤ
floor_div (pos n) m = pos (n / m)
floor_div (negsuc n) m = negsuc (n / m)

-- `int(v / m)` rounds towards zero.
unfoldable pub trunc_div : ℤ → ℕ → ℤ
trunc_div (pos n) m = pos (n / m)
trunc_div (negsuc n) m = neg (pos (suc n / m))

-- `max(0, min(v, hi))`.
unfoldable pub clamp : ℤ → ℕ → ℕ
clamp v hi = min (pos_part v) hi

-- The operations on natural arguments, and bounds of their positive parts.
pub shl-pos : (n k : ℕ) → shl (pos n) k ≡ pos (n * 2 ^ k)
unfolding shl
shl-pos n k = ground arith

pub +ℤ-pos : (a b : ℕ) → pos a +ℤ pos b ≡ pos (a + b)
unfolding ◌+ℤ◌
+ℤ-pos a b = ground arith

pub pos_part-+ℤ-le : (a b : ℤ) → pos_part (a +ℤ b) ≤ pos_part a + pos_part b
unfolding ◌+ℤ◌
pos_part-+ℤ-le a b = ground arith

pub pos_part-shl : (v : ℤ) (k : ℕ) → pos_part (shl v k) ≡ pos_part v * 2 ^ k
unfolding shl
pos_part-shl (pos n) k = ground arith
pos_part-shl (negsuc n) k = ground arith

pub pos_part-sub : (a b : ℕ) → pos_part (sub_ℕ a b) ≡ a - b
pos_part-sub a b = ground arith

pub mod_ℤ-lt : (v : ℤ) (m : ℕ) → 0 < m → mod_ℤ v m < m
unfolding mod_ℤ
mod_ℤ-lt (pos n) m h = grind arith
mod_ℤ-lt (negsuc n) m h = grind arith

pub zero-+ℤ : (a : ℤ) → pos 0 +ℤ a ≡ a
unfolding ◌+ℤ◌
zero-+ℤ (pos n) = ground arith
zero-+ℤ (negsuc n) = ground arith

pub shl-zero : (a : ℤ) → shl a 0 ≡ a
unfolding shl
shl-zero (pos n) = ground arith
shl-zero (negsuc n) = ground arith

-- `v * k`
unfoldable pub times : ℤ → ℕ → ℤ
times v k = sub_ℕ (pos_part v * k) (neg_part v * k)
