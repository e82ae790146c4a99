-- ===== src/Tests/Bytes.antt =====
-- A region that holds the bytes of a list, for the tests.
use mantle_os.Base.{◌<◌, ◌≡◌, true, Bool, ◌&&◌, ltb, arith, ℕ, zero, suc, List, [], ◌∷◌}
use mantle_os.Memory.{Region}

abbrev pub byte_of : List ℕ → ℕ → ℕ
byte_of [] i = 0
byte_of (b ∷ bs) zero = b
byte_of (b ∷ bs) (suc i) = byte_of bs i

abbrev pub count : List ℕ → ℕ
count [] = 0
count (b ∷ bs) = suc (count bs)

abbrev pub region : List ℕ → Region
region bytes = record { byte = byte_of bytes; size = count bytes }

abbrev pub all_small : List ℕ → Bool
all_small [] = true
all_small (b ∷ bs) = ltb b 256 && all_small bs

pub byte_of-lt : (bytes : List ℕ) (i : ℕ) → all_small bytes ≡ true → byte_of bytes i < 256
byte_of-lt [] i small = omega arith
byte_of-lt (b ∷ bs) zero small = ground arith
byte_of-lt (b ∷ bs) (suc i) small = byte_of-lt bs i (ground arith)
