-- ===== src/Tests/Elf.antt =====
-- kernel/process/elf.c on an image of one segment, readable and executable.
use mantle_os.Base.{ℕ, ◌≡◌, refl, inl, List, [], ◌∷◌, ◌++◌, some, none, arith}
use mantle_os.Memory.{Returns, Region, done}
use mantle_os.Tests.Bytes.{region}
use mantle_os.Elf.{UserSpace}
use mantle_os.Elf.Loader.{elf_load}
use mantle_os.Elf.Outcome.{LoadOutcome, elf_load-LoadOutcome}
use mantle_os.Elf.Succeed.{IsExecutable, Succeeds, elf_load-Succeeds}

abbrev header_bytes : List ℕ
header_bytes =
    127 ∷ 69 ∷ 76 ∷ 70 ∷ 2 ∷ 1 ∷ 0 ∷ 0 ∷ 0 ∷ 0 ∷ 0 ∷ 0 ∷ 0 ∷ 0 ∷ 0 ∷ 0 ∷ 2 ∷ 0 ∷ 62 ∷ 0 ∷ 1 ∷ 0 ∷ 0
    ∷ 0 ∷ 0 ∷ 0 ∷ 64 ∷ 0 ∷ 0 ∷ 0 ∷ 0 ∷ 0 ∷ 64 ∷ 0 ∷ 0 ∷ 0 ∷ 0 ∷ 0 ∷ 0 ∷ 0 ∷ 0 ∷ 0 ∷ 0 ∷ 0 ∷ 0 ∷ 0
    ∷ 0 ∷ 0 ∷ 0 ∷ 0 ∷ 0 ∷ 0 ∷ 64 ∷ 0 ∷ 56 ∷ 0 ∷ 1 ∷ 0 ∷ 0 ∷ 0 ∷ 0 ∷ 0 ∷ 0 ∷ 0 ∷ []

abbrev program_bytes : List ℕ
program_bytes =
    1 ∷ 0 ∷ 0 ∷ 0 ∷ 5 ∷ 0 ∷ 0 ∷ 0 ∷ 120 ∷ 0 ∷ 0 ∷ 0 ∷ 0 ∷ 0 ∷ 0 ∷ 0 ∷ 0 ∷ 0 ∷ 64 ∷ 0 ∷ 0 ∷ 0 ∷ 0 ∷ 0
    ∷ 0 ∷ 0 ∷ 0 ∷ 0 ∷ 0 ∷ 0 ∷ 0 ∷ 0 ∷ 4 ∷ 0 ∷ 0 ∷ 0 ∷ 0 ∷ 0 ∷ 0 ∷ 0 ∷ 8 ∷ 0 ∷ 0 ∷ 0 ∷ 0 ∷ 0 ∷ 0 ∷ 0
    ∷ 1 ∷ 0 ∷ 0 ∷ 0 ∷ 0 ∷ 0 ∷ 0 ∷ 0 ∷ []

abbrev image : Region
image = region (header_bytes ++ program_bytes ++ 0xf4 ∷ 0xeb ∷ 0xfd ∷ 0x90 ∷ [])

abbrev fresh : UserSpace
fresh = record { memory = record { byte = λ i. 0; size = 0x20_0000 }; pages = λ i. 0 }

-- A cut header is refused before anything is written.
cut : elf_load 0x20_0000 (some image) 63 fresh ≡ done (fresh, none)
unfolding elf_load
cut = refl

executable_lem : IsExecutable image 124
executable_lem = record {
  header = omega arith;
  class = omega arith;
  version = refl;
  ehsize = refl;
  segments = ((λ load. (omega arith, inl (omega arith))), tt);
  entry = (0, omega arith, omega arith);
  entry_range = omega arith;
}

elf_load-LoadOutcome_example :
    Returns (elf_load 0x20_0000 (some image) 124 fresh) (LoadOutcome image 124 fresh)
elf_load-LoadOutcome_example =
    elf_load-LoadOutcome 0x20_0000 image 124 fresh refl (omega arith) (omega arith) refl

elf_load-Succeeds_example : Returns (elf_load 0x20_0000 (some image) 124 fresh) Succeeds
elf_load-Succeeds_example =
    elf_load-Succeeds 0x20_0000 image 124 fresh refl (omega arith) (omega arith) (omega arith) refl
      executable_lem
