-- ===== src/Base/Words.antt =====
-- The wrap-around of C's unsigned types (include/mantle/types.h).
use Prim.Native.Nat.{ℕ, ◌+◌, ◌-◌, ◌%◌}

abbrev pub u16_mod : ℕ
u16_mod = 0x1_0000

abbrev pub u32_mod : ℕ
u32_mod = 0x1_0000_0000

abbrev pub u64_mod : ℕ
u64_mod = 0x1_0000_0000_0000_0000

abbrev pub add16 : ℕ → ℕ → ℕ
add16 a b = (a + b) % u16_mod

abbrev pub add32 : ℕ → ℕ → ℕ
add32 a b = (a + b) % u32_mod

abbrev pub sub32 : ℕ → ℕ → ℕ
sub32 a b = (a + u32_mod - b) % u32_mod

abbrev pub add64 : ℕ → ℕ → ℕ
add64 a b = (a + b) % u64_mod

abbrev pub sub64 : ℕ → ℕ → ℕ
sub64 a b = (a + u64_mod - b) % u64_mod
