-- ===== src/Elf/Load.antt =====
-- The whole load: it stays within the image and the user memory, and what it leaves there.
use Prim.Native.Nat.{bit_and}
use mantle_os.Base.{
  ℕ, zero, suc, ◌+◌, ◌*◌, ◌%◌, ◌≤◌, ◌<◌, ◌≡◌, ◌≢◌, refl, ap, ◌∙◌, ◌⊎◌, inl, inr, true, ◌==◌,
  if◌then◌else◌, arith, add64, u32_mod, Bool-cases,
}
use mantle_os.Memory.{Run, done, fault, ◌>>=◌, Returns, Region, le32}
use mantle_os.Elf.{ElfHeader, ProgramHeader, UserSpace, program_rejected}
use mantle_os.Memory.Overlay.{with_bytes}
use mantle_os.Elf.Pages.{AllWx}
use mantle_os.Elf.Loader.{
  Loading, LoadStep, next, reject, contains_entry, and_then, count_segment, place_segment,
  load_program, load_programs,
}
use mantle_os.Elf.Format.{
  SegmentFits, place_all, EntryIn, program_at, read_program_lem, program-SegmentFits,
}
use mantle_os.Elf.Place.{Placed, placed_bytes, place_segment-Placed}

-- The segment is executable and holds the address.
abbrev pub Holds : ProgramHeader → ℕ → Type 0
Holds p entry =
    (p.type ≡ 1) × (bit_and p.flags 1 ≢ 0) × (p.vaddr ≤ entry) × (entry < p.vaddr + p.memsz)

contains_entry-Holds :
    (h : ElfHeader) (p : ProgramHeader) (size : ℕ)
    → p.type ≡ 1
    → SegmentFits p size
    → contains_entry h p ≡ true
    → Holds p h.entry
unfolding contains_entry
contains_entry-Holds h p size load fits e = ground arith

-- One header's part of the result: `memory` is what it leaves in the user memory.
record Stepped (h : ElfHeader) (p : ProgramHeader) (memory : ℕ → ℕ) (s s' : Loading) : Type 0 where
  bytes : s'.space.memory ≡ with_bytes s.space.memory memory
  pub pages : AllWx s'.space.pages
  pub entry : s'.entry_valid ≡ true → (s.entry_valid ≡ true) ⊎ Holds p h.entry

abbrev pub Kept : UserSpace → Type 0
Kept space = (space.memory.size ≡ 0x20_0000) × AllWx space.pages

abbrev StepOutcome : ElfHeader → ProgramHeader → Loading → (ℕ → ℕ) → LoadStep → Type 0
StepOutcome h p s memory (next s') = Stepped h p memory s s'
StepOutcome h p s memory (reject space) = Kept space

count_segment-StepOutcome :
    (h : ElfHeader) (image : Region) (p : ProgramHeader) (s : Loading) (size : ℕ)
    (m : Run UserSpace)
    → p.type ≡ 1
    → SegmentFits p size
    → Returns m (Placed image p s.space)
    → Returns
        (m >>= λ space. done (count_segment h p s space))
        (StepOutcome h p s (placed_bytes image p s.space.memory.byte))
count_segment-StepOutcome h image p s size (done space) load fits placed = record {
  bytes = placed.memory;
  pages = placed.pages;
  entry = λ e. ground (arith, contains_entry-Holds h p size load fits);
}
count_segment-StepOutcome h image p s size fault load fits out = out

module _ (base : ℕ) (aligned : base % 4096 ≡ 0) (image : Region) (size : ℕ)
    (inside : size ≤ image.size) (small : size < u32_mod) where
  load_program-StepOutcome :
      (h : ElfHeader) (p : ProgramHeader) (s : Loading)
      → Kept s.space
      → Returns (load_program base image size h p s) (
          StepOutcome h p s
            (if p.type == 1 then placed_bytes image p s.space.memory.byte else s.space.memory.byte))
  unfolding load_program
  load_program-StepOutcome h p s kept = elim (Bool-cases (p.type == 1)) [
    | inr other ↦ rw other (record { bytes = refl; pages = kept.1; entry = inl })
    | inl load ↦ rw load (elim (Bool-cases (program_rejected p size)) [
      | inl bad ↦ rw bad kept
      | inr ok ↦
          let fits = program-SegmentFits p size small ok in
          rw ok (
            count_segment-StepOutcome h image p s size (place_segment base image p s.space)
              (ground arith) fits
              (place_segment-Placed base aligned image size inside small p s.space fits kept.0
                kept.1))
    ])
  ]

-- The loop's part of the result.
pub record Loaded (h : ElfHeader) (image : Region) (n at : ℕ) (s s' : Loading) : Type 0 where
  pub bytes :
      s'.space.memory ≡ with_bytes s.space.memory (place_all image.byte n at s.space.memory.byte)
  pub pages : AllWx s'.space.pages
  pub entry : s'.entry_valid ≡ true → (s.entry_valid ≡ true) ⊎ EntryIn image.byte n at h.entry

abbrev pub LoopOutcome : ElfHeader → Region → ℕ → ℕ → Loading → LoadStep → Type 0
LoopOutcome h image n at s (next s') = Loaded h image n at s s'
LoopOutcome h image n at s (reject space) = Kept space

EntryIn-suc :
    (f : ℕ → ℕ) (n at entry : ℕ)
    → Holds (program_at f at) entry ⊎ EntryIn f n (at + 56) entry
    → EntryIn f (suc n) at entry
EntryIn-suc f n at entry (inl here) =
    (0, omega arith, let e : at + 0 * 56 ≡ at = omega arith in rw e here)
EntryIn-suc f n at entry (inr (i, h, there)) =
    (suc i, omega arith, let e : at + suc i * 56 ≡ at + 56 + i * 56 = omega arith in rw e there)

Loaded-suc :
    (h : ElfHeader) (image : Region) (n at : ℕ) (s s' s'' : Loading)
    → Stepped h
        (program_at image.byte at)
        (if le32 image.byte at == 1
          then placed_bytes image (program_at image.byte at) s.space.memory.byte
          else s.space.memory.byte)
        s
        s'
    → Loaded h image n (at + 56) s' s''
    → Loaded h image (suc n) at s s''
Loaded-suc h image n at s s' s'' one rest = record {
  bytes = rest.bytes ∙ ap (λ m. with_bytes m (place_all image.byte n (at + 56) m.byte)) one.bytes;
  pages = rest.pages;
  entry = λ e. elim (rest.entry e) [
    | inr later ↦ inr (EntryIn-suc image.byte n at h.entry (inr later))
    | inl before ↦ elim (one.entry before) [
      | inl old ↦ inl old
      | inr here ↦ inr (EntryIn-suc image.byte n at h.entry (inl here))
    ]
  ];
}

Stepped-Kept :
    (h : ElfHeader) (p : ProgramHeader) (memory : ℕ → ℕ) (s s' : Loading)
    → Stepped h p memory s s'
    → Kept s.space
    → Kept s'.space
Stepped-Kept h p memory s s' one kept = (ap (λ m. m.size) one.bytes ∙ kept.0, one.pages)

-- After one header the loop goes on with the next.
and_then-LoopOutcome :
    (h : ElfHeader) (image : Region) (n at : ℕ) (s : Loading) (m : Run LoadStep)
    (k : Loading → Run LoadStep)
    → Kept s.space
    → Returns m (
        StepOutcome h (program_at image.byte at) s (
          if le32 image.byte at == 1
          then placed_bytes image (program_at image.byte at) s.space.memory.byte
          else s.space.memory.byte))
    → ((s' : Loading) → Kept s'.space → Returns (k s') (LoopOutcome h image n (at + 56) s'))
    → Returns (m >>= λ step. and_then step k) (LoopOutcome h image (suc n) at s)
and_then-LoopOutcome h image n at s (done (next s')) k kept one rest =
    after (k s') (rest s' (Stepped-Kept h _ _ s s' one kept))
  where
    after :
        (m : Run LoadStep)
        → Returns m (LoopOutcome h image n (at + 56) s')
        → Returns m (LoopOutcome h image (suc n) at s)
    after (done (next s'')) loaded = Loaded-suc h image n at s s' s'' one loaded
    after (done (reject space)) kept' = kept'
    after fault out = out
and_then-LoopOutcome h image n at s (done (reject space)) k kept one rest = one
and_then-LoopOutcome h image n at s fault k kept out rest = out

module _ (base : ℕ) (aligned : base % 4096 ≡ 0) (image : Region) (size : ℕ)
    (inside : size ≤ image.size) (small : size < u32_mod) (h : ElfHeader)
    (entry_size : h.phentsize ≡ 56) where
  pub load_programs-LoopOutcome :
      (n index at : ℕ) (s : Loading)
      → h.phoff + index * 56 ≡ at
      → at + n * 56 ≤ size
      → Kept s.space
      → Returns (load_programs base image size h n index s) (LoopOutcome h image n at s)
  unfolding load_programs
  load_programs-LoopOutcome zero index at s e room kept = record {
    bytes = refl;
    pages = kept.1;
    entry = inl;
  }
  load_programs-LoopOutcome (suc n) index at s e room kept =
      let product : index * h.phentsize ≡ index * 56 = ap (λ t. index * t) entry_size in
      let place : add64 h.phoff (index * h.phentsize) ≡ at = omega arith in
      rw (place, read_program_lem image at (omega arith))
        (and_then-LoopOutcome h image n at s
          (load_program base image size h (program_at image.byte at) s)
          (load_programs base image size h n (index + 1)) kept
          (load_program-StepOutcome base aligned image size inside small h
            (program_at image.byte at) s kept)
          (λ s' kept'.
            load_programs-LoopOutcome n (index + 1) (at + 56) s' (omega arith) (omega arith) kept'))
