-- ===== src/Base/Int.antt =====
-- C's int32_t. A result outside its range is undefined behaviour, which is a fault.
use Prim.Native.Nat.{ℕ, suc, ◌+◌, ◌-◌, ◌*◌, ◌/◌, ◌%◌}
use mathlib.Core.Bool.{Bool}
use mantle_os.Base.Tests.{ltb, leb, if◌then◌else◌}
use mantle_os.Base.Words.{u32_mod}

-- `negsuc n` is -(n + 1).
pub data ℤ : Type 0 where
  pos : ℕ → ℤ
  negsuc : ℕ → ℤ

abbrev pub pos_part : ℤ → ℕ
pos_part (pos n) = n
pos_part (negsuc n) = 0

abbrev pub neg_part : ℤ → ℕ
neg_part (pos n) = 0
neg_part (negsuc n) = suc n

abbrev pub sub_ℕ : ℕ → ℕ → ℤ
sub_ℕ a b = if leb b a then pos (a - b) else negsuc (b - a - 1)

infixl 65 ◌+ℤ◌ ◌-ℤ◌
infixl 70 ◌*ℤ◌ ◌/ℤ◌
abbrev pub ◌+ℤ◌ : ℤ → ℤ → ℤ
a +ℤ b = sub_ℕ (pos_part a + pos_part b) (neg_part a + neg_part b)

abbrev pub ◌-ℤ◌ : ℤ → ℤ → ℤ
a -ℤ b = sub_ℕ (pos_part a + neg_part b) (neg_part a + pos_part b)

abbrev pub ◌*ℤ◌ : ℤ → ℤ → ℤ
a *ℤ b =
    sub_ℕ (pos_part a * pos_part b + neg_part a * neg_part b)
      (pos_part a * neg_part b + neg_part a * pos_part b)

-- Division towards zero; the divisor is not 0.
abbrev pub ◌/ℤ◌ : ℤ → ℤ → ℤ
pos a /ℤ pos b = pos (a / b)
pos a /ℤ negsuc b = sub_ℕ 0 (a / suc b)
negsuc a /ℤ pos b = sub_ℕ 0 (suc a / b)
negsuc a /ℤ negsuc b = pos (suc a / suc b)

abbrev pub leb_ℤ : ℤ → ℤ → Bool
leb_ℤ a b = leb (pos_part a + neg_part b) (pos_part b + neg_part a)

-- (int32_t)x of a uint32_t, and back.
abbrev pub int32 : ℕ → ℤ
int32 x = if ltb x 0x8000_0000 then pos x else negsuc (u32_mod - 1 - x)

abbrev pub uint32 : ℤ → ℕ
uint32 (pos n) = n % u32_mod
uint32 (negsuc n) = u32_mod - 1 - n % u32_mod

-- The values of int32_t.
abbrev pub fits_int32 : ℤ → Bool
fits_int32 (pos n) = ltb n 0x8000_0000
fits_int32 (negsuc n) = ltb n 0x8000_0000
