-- ===== src/Elf/Succeed.antt =====
-- A well-formed executable is loaded.
use mantle_os.Base.{
  ℕ, zero, suc, ◌+◌, ◌*◌, ◌%◌, ◌≤◌, ◌<◌, ◌≡◌, refl, ap, ◌∙◌, ◌⊎◌, inl, inr, true, false, ◌||◌,
  Option, none, some, ◌==◌, arith, ltb-false, u32_mod, Bool-cases, add16, add64,
}
use mantle_os.Memory.{Run, done, fault, ◌>>=◌, Returns, Region, le16, le32, le64}
use mantle_os.Elf.{ElfHeader, ProgramHeader, UserSpace, UserImage, user_range}
use mantle_os.Elf.Loader.{
  Loading, LoadStep, next, reject, and_then, count_segment, contains_entry, place_segment,
  load_program, load_programs, finish_load, load_checked, prepare_space, elf_load,
}
use mantle_os.Elf.Format.{
  elf_header_at, HeaderFits, SegmentFits, EntryIn, program_at, read_elf_header_lem,
  read_program_lem,
}
use mantle_os.Elf.Place.{Placed, place_segment-Placed}
use mantle_os.Elf.Load.{Kept, Holds}
use mantle_os.Elf.Accept.{IsAligned, header_accepted, program_accepted}
use mantle_os.Elf.Outcome.{Prepared, prepare_space-Prepared}

-- Every loadable header of the `n` from `at` on fits.
abbrev pub AllFit : (ℕ → ℕ) → ℕ → ℕ → ℕ → Type 0
AllFit f size zero at = Unit {0}
AllFit f size (suc n) at =
    (le32 f at ≡ 1 → SegmentFits (program_at f at) size × IsAligned (program_at f at))
    × AllFit f size n (at + 56)

pub record IsExecutable (image : Region) (size : ℕ) : Type 0 where
  pub header : HeaderFits (elf_header_at image.byte) size
  pub class : (image.byte 4 ≡ 2) × (image.byte 5 ≡ 1)
  pub version : le32 image.byte 20 ≡ 1
  pub ehsize : le16 image.byte 52 ≡ 64
  pub segments : AllFit image.byte size (le16 image.byte 56) (le64 image.byte 32)
  pub entry : EntryIn image.byte (le16 image.byte 56) (le64 image.byte 32) (le64 image.byte 24)
  pub entry_range : (0x40_0000 ≤ le64 image.byte 24) × (le64 image.byte 24 < 0x60_0000)

-- The entry point is found already, or in one of the headers that are left.
abbrev Found : Loading → Type 0
Found s = (0 < s.load_count) × (s.entry_valid ≡ true)

abbrev Ready : ElfHeader → (ℕ → ℕ) → ℕ → ℕ → Loading → Type 0
Ready h f n at s = Found s ⊎ EntryIn f n at h.entry

EntryIn-cases :
    (f : ℕ → ℕ) (n at entry : ℕ)
    → EntryIn f (suc n) at entry
    → Holds (program_at f at) entry ⊎ EntryIn f n (at + 56) entry
EntryIn-cases f n at entry (zero, h, holds) =
    let e : at + 0 * 56 ≡ at = omega arith in inl (rw e at holds)
EntryIn-cases f n at entry (suc i, h, holds) =
    let e : at + suc i * 56 ≡ at + 56 + i * 56 = omega arith in inr (i, omega arith, rw e at holds)

contains_entry-Holds :
    (h : ElfHeader) (p : ProgramHeader) (size : ℕ)
    → SegmentFits p size
    → Holds p h.entry
    → contains_entry h p ≡ true
unfolding contains_entry
contains_entry-Holds h p size fits holds = ground arith

Ready-count_segment :
    (h : ElfHeader) (f : ℕ → ℕ) (n at size : ℕ) (s : Loading) (space : UserSpace)
    → SegmentFits (program_at f at) size
    → s.load_count + 1 < 0x1_0000
    → Ready h f (suc n) at s
    → Found (record {
      space = space;
      load_count = add16 s.load_count 1;
      entry_valid = contains_entry h (program_at f at) || s.entry_valid;
    })
      ⊎ EntryIn f n (at + 56) h.entry
Ready-count_segment h f n at size s space fits room (inl found) = inl (omega arith, ground arith)
Ready-count_segment h f n at size s space fits room (inr entry) =
    elim (EntryIn-cases f n at h.entry entry) [
      | inl here ↦
          inl (omega arith, rw (contains_entry-Holds h (program_at f at) size fits here) refl)
      | inr there ↦ inr there
    ]

-- The loop ends by `next`, with the entry point found.
abbrev Goes : LoadStep → Type 0
Goes (next s) = Found s
Goes (reject space) = ⊥

-- The load returns 0.
abbrev pub Succeeds : UserSpace × Option UserImage → Type 0
Succeeds (space, none) = ⊥
Succeeds (space, some user) = Unit {0}

finish_load-Succeeds :
    (h : ElfHeader) (m : Run LoadStep) → Returns m Goes → Returns (m >>= finish_load h) Succeeds
unfolding finish_load
finish_load-Succeeds h (done (next s)) (counted, valid) =
    let counts : (s.load_count == 0) ≡ false = ground arith in rw (valid, counts) tt
finish_load-Succeeds h (done (reject space)) never = elim never [ ]
finish_load-Succeeds h fault never = never

module _ (base : ℕ) (aligned : base % 4096 ≡ 0) (image : Region) (size : ℕ)
    (inside : size ≤ image.size) (small : size < u32_mod) (h : ElfHeader)
    (entry_size : h.phentsize ≡ 56) where
  abbrev Resumes : ℕ → ℕ → (Loading → Run LoadStep) → Type 0
  Resumes n at k =
      (s : Loading)
      → Kept s.space
      → s.load_count + n < 0x1_0000
      → Ready h image.byte n at s
      → Returns (k s) Goes

  load_program-Goes :
      (n at : ℕ) (s : Loading) (k : Loading → Run LoadStep)
      → (le32 image.byte at ≡ 1
          → SegmentFits (program_at image.byte at) size × IsAligned (program_at image.byte at))
      → Kept s.space
      → s.load_count + suc n < 0x1_0000
      → Ready h image.byte (suc n) at s
      → Resumes n (at + 56) k
      → Returns
          (load_program base image size h (program_at image.byte at) s >>= λ step. and_then step k)
          Goes
  unfolding load_program
  load_program-Goes n at s k fits kept room ready rest =
      elim (Bool-cases (le32 image.byte at == 1)) [
        | inr other ↦ rw other (rest s kept (omega arith) (skip other ready))
        | inl load ↦
            let good = fits (ground arith) in
            rw (load, program_accepted (program_at image.byte at) size small good.0 good.1)
              (placed good.0 (place_segment base image (program_at image.byte at) s.space) (
                place_segment-Placed base aligned image size inside small (program_at image.byte at)
                  s.space good.0 kept.0 kept.1))
      ]
    where
      skip :
          (le32 image.byte at == 1) ≡ false
          → Ready h image.byte (suc n) at s
          → Ready h image.byte n (at + 56) s
      skip other (inl found) = inl found
      skip other (inr entry) = elim (EntryIn-cases image.byte n at h.entry entry) [
        | inl here ↦ let never : ⊥ = ground (arith, here.0) in absurd never
        | inr there ↦ inr there
      ]

      placed :
          SegmentFits (program_at image.byte at) size
          → (m : Run UserSpace) → Returns m (Placed image (program_at image.byte at) s.space)
          → Returns
              (m
                >>= (λ space. done (count_segment h (program_at image.byte at) s space))
                >>= λ step. and_then step k)
              Goes
      placed good (done space) p =
          rest _ (ap (λ m. m.size) p.memory ∙ kept.0, p.pages) (omega arith)
            (Ready-count_segment h image.byte n at size s space good (omega arith) ready)
      placed good fault out = out

  load_programs-Goes :
      (n index at : ℕ) (s : Loading)
      → h.phoff + index * 56 ≡ at
      → at + n * 56 ≤ size
      → AllFit image.byte size n at
      → Kept s.space
      → s.load_count + n < 0x1_0000
      → Ready h image.byte n at s
      → Returns (load_programs base image size h n index s) Goes
  unfolding load_programs
  load_programs-Goes zero index at s e space fits kept room (inl found) = found
  load_programs-Goes zero index at s e space fits kept room (inr (i, never, _)) = elim never [ ]
  load_programs-Goes (suc n) index at s e space (fits, later) kept room ready =
      let product : index * h.phentsize ≡ index * 56 = ap (λ t. index * t) entry_size in
      let place : add64 h.phoff (index * h.phentsize) ≡ at = omega arith in
      rw (place, read_program_lem image at (omega arith))
        (load_program-Goes n at s (load_programs base image size h n (index + 1)) fits kept room
          ready
          λ s' kept' room' ready'.
            load_programs-Goes n (index + 1) (at + 56) s' (omega arith) (omega arith) later kept'
              room' ready')

user_range_entry : (entry : ℕ) → 0x40_0000 ≤ entry → entry < 0x60_0000 → user_range entry 1 ≡ true
unfolding user_range
user_range_entry entry low high = ground arith

load_checked-Succeeds :
    (base : ℕ) (image : Region) (size : ℕ) (old prepared : UserSpace)
    → base % 4096 ≡ 0
    → size ≤ image.size
    → size < u32_mod
    → old.memory.size ≡ 0x20_0000
    → IsExecutable image size
    → Prepared old prepared
    → Returns (load_checked base image size (elf_header_at image.byte) prepared) Succeeds
unfolding load_checked
load_checked-Succeeds base image size old prepared aligned inside small whole good start =
    let h = good.header in
    finish_load-Succeeds (elf_header_at image.byte) _ (
      load_programs-Goes base aligned image size inside small (elf_header_at image.byte)
        h.entry_size (le16 image.byte 56) 0 (le64 image.byte 32)
        (record { space = prepared; load_count = 0; entry_valid = false }) (omega arith)
        h.table_inside good.segments (ap (λ m. m.size) start.bytes ∙ whole, start.pages)
        (omega (arith, h.few_entries)) (inr good.entry))

-- Into a user memory of 2 MiB that starts at a page boundary, a load of a well-formed executable of at least 64 bytes succeeds.
pub elf_load-Succeeds :
    (base : ℕ) (image : Region) (size : ℕ) (space : UserSpace)
    → base % 4096 ≡ 0
    → size ≤ image.size
    → 64 ≤ size
    → size < u32_mod
    → space.memory.size ≡ 0x20_0000
    → IsExecutable image size
    → Returns (elf_load base (some image) size space) Succeeds
unfolding elf_load
elf_load-Succeeds base image size space aligned inside big small whole good =
    let accepted =
      header_accepted (elf_header_at image.byte) size small good.header good.class good.version
        good.ehsize in
    let range = user_range_entry (le64 image.byte 24) good.entry_range.0 good.entry_range.1 in
    rw (ltb-false size 64 big, read_elf_header_lem image (omega arith), accepted, range)
      (checked (prepare_space base space) (prepare_space-Prepared base space aligned whole))
  where
    checked :
        (m : Run UserSpace)
        → Returns m (Prepared space)
        → Returns (m >>= load_checked base image size (elf_header_at image.byte)) Succeeds
    checked (done prepared) start =
        load_checked-Succeeds base image size space prepared aligned inside small whole good start
    checked fault never = never
