-- ===== src/Common/Int.antt =====
-- C's `int` results: integers over the native numbers, and the casts between the two signs.
use Prim.Native.Nat.{ℕ, suc, ◌+◌, ◌-◌, ◌%◌, ◌^◌, ◌<◌}
use mathlib.Core.Path.{◌≡◌}
use mathlib.Core.Logic.{◌↔◌}
use mathlib.Core.Bool.{Bool, true, false}
use native.Mathlib.Omega.{arith}
use flash_vis.Common.Tests.{ltb, leb, ◌==◌, if◌then◌else◌}

-- `negsuc n` is -(n + 1).
pub data ℤ : Type 0 where
  pos : ℕ → ℤ
  negsuc : ℕ → ℤ

abbrev pub pos_part : ℤ → ℕ
pos_part (pos n) = n
pos_part (negsuc n) = 0

abbrev pub neg_part : ℤ → ℕ
neg_part (pos n) = 0
neg_part (negsuc n) = suc n

abbrev pub sub_ℕ : ℕ → ℕ → ℤ
sub_ℕ a b = if leb b a then pos (a - b) else negsuc (b - a - 1)

infixl 65 ◌+ℤ◌
abbrev pub ◌+ℤ◌ : ℤ → ℤ → ℤ
a +ℤ b = sub_ℕ (pos_part a + pos_part b) (neg_part a + neg_part b)

abbrev pub ltb_ℤ : ℤ → ℤ → Bool
ltb_ℤ a b = ltb (pos_part a + neg_part b) (pos_part b + neg_part a)

abbrev pub eqb_ℤ : ℤ → ℤ → Bool
eqb_ℤ a b = (pos_part a + neg_part b) == (pos_part b + neg_part a)

pub eqb_ℤ_iff : (a b : ℤ) → (eqb_ℤ a b ≡ true) ↔ (a ≡ b)
eqb_ℤ_iff a b = ground arith

-- `rc < 0`
abbrev pub is_neg : ℤ → Bool
is_neg (pos n) = false
is_neg (negsuc n) = true

-- `(int)u` for a `uint32_t` u: values from 2^31 up come out negative.
abbrev pub int_of_u32 : ℕ → ℤ
int_of_u32 n = if ltb n (2 ^ 31) then pos n else negsuc (2 ^ 32 - n - 1)

-- `(uint32_t)i` for an `int` i.
abbrev pub u32_of_int : ℤ → ℕ
u32_of_int (pos n) = n % 2 ^ 32
u32_of_int (negsuc n) = 2 ^ 32 - 1 - n % 2 ^ 32

pub u32_of_int-int_of_u32 : (n : ℕ) → n < 2 ^ 32 → u32_of_int (int_of_u32 n) ≡ n
u32_of_int-int_of_u32 n h = ground arith
