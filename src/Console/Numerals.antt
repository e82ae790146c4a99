-- ===== src/Console/Numerals.antt =====
-- The numerals that kernel/arch/x86_64/kernel.c sends to the serial line.
use mantle_os.Base.{ℕ, ◌+◌, ◌-◌, ◌*◌, ◌≡◌, List, [], ◌∷◌, ◌++◌, ltb, if◌then◌else◌}
use mantle_os.Console.{Console}

-- The number that decimal digits spell, the last one first.
abbrev pub value_of : List ℕ → ℕ
value_of [] = 0
value_of (digit ∷ digits) = (digit - b'0') + 10 * value_of digits

-- The number that a text spells, read from its first digit on after the number `before`.
abbrev pub read_decimal : List ℕ → ℕ → ℕ
read_decimal [] before = before
read_decimal (digit ∷ text) before = read_decimal text (10 * before + (digit - b'0'))

abbrev reversed : List ℕ → List ℕ
reversed [] = []
reversed (digit ∷ digits) = reversed digits ++ digit ∷ []

-- What is sent for a number, and that it reads back.
pub record Spelled (old new : Console) (read : List ℕ → ℕ) (value : ℕ) : Type 0 where
  pub text : List ℕ
  pub sent : new.serial ≡ old.serial ++ text
  pub reads : read text ≡ value

abbrev pub hex_value : ℕ → ℕ
hex_value digit = if ltb digit b'a' then digit - b'0' else digit - b'a' + 10

abbrev pub read_hex : List ℕ → ℕ → ℕ
read_hex [] before = before
read_hex (digit ∷ text) before = read_hex text (16 * before + hex_value digit)
