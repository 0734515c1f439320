-- ===== src/Base/Int.antt =====
-- Go's signed integers: `ℤ` over the native numbers, and the wrap-around of a 64-bit `int`.
-- Sums and orders go through the two parts of an integer, which are numbers that `omega` reads.
use speedtest_go.Base.Tests.{ltb, leb, if◌then◌else◌}
use Prim.Native.Nat.{ℕ, suc, ◌+◌, ◌-◌, ◌*◌, ◌%◌, ◌^◌, ◌≤◌, ◌<◌}
use mathlib.Core.Path.{◌≡◌, refl}
use mathlib.Core.Bool.{Bool, ◌&&◌}
use native.Mathlib.Omega.{arith}

-- `negsuc n` is -(n + 1).
pub data ℤ : Type 0 where
  pos : ℕ → ℤ
  negsuc : ℕ → ℤ

abbrev pub pos_part : ℤ → ℕ
pos_part (pos n) = n
pos_part (negsuc n) = 0

abbrev pub neg_part : ℤ → ℕ
neg_part (pos n) = 0
neg_part (negsuc n) = suc n

-- a - b, as an integer.
abbrev pub sub_ℕ : ℕ → ℕ → ℤ
sub_ℕ a b = if leb b a then pos (a - b) else negsuc (b - a - 1)

infixl 65 ◌+ℤ◌ ◌-ℤ◌
infixl 70 ◌*ℤ◌
infix 50 ◌≤ℤ◌ ◌<ℤ◌
unfoldable pub ◌+ℤ◌ : ℤ → ℤ → ℤ
a +ℤ b = sub_ℕ (pos_part a + pos_part b) (neg_part a + neg_part b)

unfoldable pub ◌-ℤ◌ : ℤ → ℤ → ℤ
a -ℤ b = sub_ℕ (pos_part a + neg_part b) (neg_part a + pos_part b)

unfoldable pub ◌*ℤ◌ : ℤ → ℤ → ℤ
a *ℤ b =
    sub_ℕ (pos_part a * pos_part b + neg_part a * neg_part b)
      (pos_part a * neg_part b + neg_part a * pos_part b)

abbrev pub ◌≤ℤ◌ : ℤ → ℤ → Type 0
a ≤ℤ b = pos_part a + neg_part b ≤ pos_part b + neg_part a

abbrev pub ◌<ℤ◌ : ℤ → ℤ → Type 0
a <ℤ b = pos_part a + neg_part b < pos_part b + neg_part a

abbrev pub ltb_ℤ : ℤ → ℤ → Bool
ltb_ℤ a b = ltb (pos_part a + neg_part b) (pos_part b + neg_part a)

abbrev pub leb_ℤ : ℤ → ℤ → Bool
leb_ℤ a b = leb (pos_part a + neg_part b) (pos_part b + neg_part a)

-- The value that a 64-bit two's complement register holds after an exact result `z`.
unfoldable pub wrap64 : ℤ → ℤ
wrap64 z =
    let w = (pos_part z + 2 ^ 64 * neg_part z - neg_part z) % 2 ^ 64 in
    if ltb w (2 ^ 63) then pos w else negsuc (2 ^ 64 - w - 1)

abbrev pub IsInt64 : ℤ → Type 0
IsInt64 z = (negsuc (2 ^ 63 - 1) ≤ℤ z) × (z ≤ℤ pos (2 ^ 63 - 1))

-- An exact result in range is kept.
pub wrap64_id : (z : ℤ) → IsInt64 z → wrap64 z ≡ z
unfolding wrap64
wrap64_id (pos n) h = ground arith
wrap64_id (negsuc n) h = ground arith

pub wrap64-IsInt64 : (z : ℤ) → IsInt64 (wrap64 z)
unfolding wrap64
wrap64-IsInt64 z = ground arith

wraps : wrap64 (pos (2 ^ 63)) ≡ negsuc (2 ^ 63 - 1)
unfolding wrap64
wraps = refl

-- `a == b`
abbrev pub ==ℤ : ℤ → ℤ → Bool
==ℤ a b = leb_ℤ a b && leb_ℤ b a
