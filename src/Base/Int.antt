-- ===== src/Base/Int.antt =====
-- Signed integers over the native numbers, and the wrap-around of Go's `int32` and `int64`.
use Prim.Native.Nat.{ℕ, suc, ◌+◌, ◌-◌, ◌%◌, ◌≤◌, ◌<◌}
use mathlib.Core.Path.{◌≡◌}
use mathlib.Core.Bool.{Bool}
use native.Mathlib.Omega.{arith}
use oohttp.Base.Tests.{ltb, leb, ◌==◌, if◌then◌else◌}

-- `negsuc n` is -(n + 1).
pub data ℤ : Type 0 where
  pos : ℕ → ℤ
  negsuc : ℕ → ℤ

abbrev pub pos_part : ℤ → ℕ
pos_part (pos n) = n
pos_part (negsuc n) = 0

abbrev pub neg_part : ℤ → ℕ
neg_part (pos n) = 0
neg_part (negsuc n) = suc n

-- a - b, as an integer.
abbrev pub sub_ℕ : ℕ → ℕ → ℤ
sub_ℕ a b = if leb b a then pos (a - b) else negsuc (b - a - 1)

infixl 65 ◌+ℤ◌ ◌-ℤ◌
infix 50 ◌≤ℤ◌ ◌<ℤ◌
unfoldable pub ◌+ℤ◌ : ℤ → ℤ → ℤ
a +ℤ b = sub_ℕ (pos_part a + pos_part b) (neg_part a + neg_part b)

unfoldable pub ◌-ℤ◌ : ℤ → ℤ → ℤ
a -ℤ b = sub_ℕ (pos_part a + neg_part b) (neg_part a + pos_part b)

abbrev pub ◌≤ℤ◌ : ℤ → ℤ → Type 0
a ≤ℤ b = pos_part a + neg_part b ≤ pos_part b + neg_part a

abbrev pub ◌<ℤ◌ : ℤ → ℤ → Type 0
a <ℤ b = pos_part a + neg_part b < pos_part b + neg_part a

abbrev pub ltb_ℤ : ℤ → ℤ → Bool
ltb_ℤ a b = ltb (pos_part a + neg_part b) (pos_part b + neg_part a)

abbrev pub equal_ℤ : ℤ → ℤ → Bool
equal_ℤ a b = pos_part a + neg_part b == pos_part b + neg_part a

-- The value of an `int32` whose bits are those of the integer.
unfoldable pub int32 : ℤ → ℤ
int32 a =
    sub_ℕ
      ((pos_part a + 0x8000_0000 + (0x1_0000_0000 - neg_part a % 0x1_0000_0000)) % 0x1_0000_0000)
      0x8000_0000

-- The value of an `int64` whose bits are those of the integer.
unfoldable pub int64 : ℤ → ℤ
int64 a =
    sub_ℕ
      ((pos_part a
          + 0x8000_0000_0000_0000
          + (0x1_0000_0000_0000_0000 - neg_part a % 0x1_0000_0000_0000_0000))
        % 0x1_0000_0000_0000_0000)
      0x8000_0000_0000_0000

-- `uint32(a)` of an `int32`.
unfoldable pub uint32 : ℤ → ℕ
uint32 a = (pos_part a + (0x1_0000_0000 - neg_part a % 0x1_0000_0000)) % 0x1_0000_0000

-- The range of `int32`.
abbrev pub IsInt32 : ℤ → Type 0
IsInt32 a = (pos_part a < 0x8000_0000) × (neg_part a ≤ 0x8000_0000)

pub int32_of_IsInt32 : (a : ℤ) → IsInt32 a → int32 a ≡ a
unfolding int32
int32_of_IsInt32 a h = ground arith

pub int32-pos : (n : ℕ) → n < 0x8000_0000 → int32 (pos n) ≡ pos n
unfolding int32
int32-pos n h = ground arith

pub int64-pos : (n : ℕ) → n < 0x8000_0000_0000_0000 → int64 (pos n) ≡ pos n
unfolding int64
int64-pos n h = ground arith

pub +ℤ-pos : (m n : ℕ) → pos m +ℤ pos n ≡ pos (m + n)
unfolding ◌+ℤ◌
+ℤ-pos m n = ground arith
