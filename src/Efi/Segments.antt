-- ===== src/Efi/Segments.antt =====
-- One segment of the kernel in boot/efi/loader.c: where its bytes come to lie, and what else changes.
use mantle_os.Base.{
  ℕ, Bool, ◌+◌, ◌*◌, ◌≤◌, ◌<◌, ◌≡◌, refl, ◌⊎◌, inl, inr, true, false, Option, none, some, List, [],
  ◌∷◌, arith, Bool-cases, ◌==◌, u64_mod, ap, subst, ◌∙◌, ◌-◌,
}
use mantle_os.Memory.{Returns, Region}
use mantle_os.Memory.Overlay.{overlay}
use mantle_os.Boot.Reads.{IsBytes}
use mantle_os.Elf.Copy.{clear_bytes-overlay, copy_bytes-overlay}
use mantle_os.Efi.{
  Elf64Program, Extent, Machine, AllocateAddress, pages_of, fill_segment, allocated, load_segment,
  segment_rejected,
}

-- The pages from `a` on are among those of the list.
abbrev pub Has : ℕ → ℕ → List Extent → Type 0
Has a n [] = ⊥
Has a n ((b, k) ∷ l) = ((a ≡ b) × (n ≡ k)) ⊎ Has a n l

-- The pages from `a` on meet none of the list.
abbrev pub Apart : ℕ → ℕ → List Extent → Type 0
Apart a n [] = Unit {0}
Apart a n ((b, k) ∷ l) = ((a + n * 0x1000 ≤ b) ⊎ (b + k * 0x1000 ≤ a)) × Apart a n l

-- The byte at `j` lies in none of the pages of the list.
abbrev pub Outside : ℕ → List Extent → Type 0
Outside j [] = Unit {0}
Outside j ((b, k) ∷ l) = ((j < b) ⊎ (b + k * 0x1000 ≤ j)) × Outside j l

-- What the firmware promises of AllocatePages: only pages that exist are handed out, at least one,
-- and none twice.
pub record IsAllocator (allocate : AllocateAddress) (memory : ℕ) : Type 0 where
  pub some_page :
      (taken : List Extent) (address n granted : ℕ)
      → allocate taken address n ≡ some granted
      → 0 < n
  pub exists :
      (taken : List Extent) (address n granted : ℕ)
      → allocate taken address n ≡ some granted
      → granted + n * 0x1000 ≤ memory
  pub apart :
      (taken : List Extent) (address n granted : ℕ)
      → allocate taken address n ≡ some granted
      → Apart granted n taken

-- The segment's bytes lie where its header says, and zeros behind them.
pub record InMemory (image : Region) (program : Elf64Program) (ram : Region) : Type 0 where
  pub bytes :
      (k : ℕ) → k < program.filesz → ram.byte (program.paddr + k) ≡ image.byte (program.offset + k)
  pub zeros : (k : ℕ) → program.filesz ≤ k → k < program.memsz → ram.byte (program.paddr + k) ≡ 0

-- The segment is in memory, in pages that the loader was given.
abbrev pub Held : Region → Elf64Program → Machine → Type 0
Held image program m =
    InMemory image program m.ram
    × Has program.paddr (pages_of program) m.taken
    × (program.memsz ≤ pages_of program * 0x1000)
    × (program.filesz ≤ program.memsz)

-- From `m` to `m'` the loader was given further pages, and has written only to them.
pub record Grown (m m' : Machine) : Type 0 where
  pub size : m'.ram.size ≡ m.ram.size
  pub kept : (j : ℕ) → Outside j m'.taken → m'.ram.byte j ≡ m.ram.byte j
  pub others : (j : ℕ) → Outside j m'.taken → Outside j m.taken
  pub bytes : IsBytes m.ram → IsBytes m'.ram
  pub held :
      (image : Region) (program : Elf64Program) → Held image program m → Held image program m'

pub Grown-refl : (m : Machine) → Grown m m
Grown-refl m = record {
  size = refl;
  kept = λ j out. refl;
  others = λ j out. out;
  bytes = λ b. b;
  held = λ image program h. h;
}

Apart-Has :
    (a n b k : ℕ) (l : List Extent)
    → Apart a n l
    → Has b k l
    → (a + n * 0x1000 ≤ b) ⊎ (b + k * 0x1000 ≤ a)
Apart-Has a n b k [] apart has = absurd has
Apart-Has a n b k ((c, i) ∷ l) apart (inl e) = ground arith
Apart-Has a n b k ((c, i) ∷ l) apart (inr has) = Apart-Has a n b k l apart.1 has

-- The memory after a segment was placed.
abbrev filled : Region → Elf64Program → (ℕ → ℕ) → ℕ → ℕ
filled image program f =
    overlay (overlay f program.paddr (pages_of program * 0x1000) (λ k. 0)) program.paddr
      program.filesz (λ k. image.byte (program.offset + k))

filled-InMemory :
    (image : Region) (program : Elf64Program) (ram : Region) (f : ℕ → ℕ)
    → program.memsz ≤ pages_of program * 0x1000
    → InMemory image program (record ram { byte = filled image program f })
filled-InMemory image program ram f fits = record {
  bytes = λ k h. ground (arith, ap image.byte (same k));
  zeros = λ k h j. ground arith;
}
  where
    same : (k : ℕ) → program.offset + (program.paddr + k - program.paddr) ≡ program.offset + k
    same k = omega arith

filled_elsewhere :
    (image : Region) (program : Elf64Program) (f : ℕ → ℕ) (j : ℕ)
    → program.filesz ≤ program.memsz
    → program.memsz ≤ pages_of program * 0x1000
    → (j < program.paddr) ⊎ (program.paddr + pages_of program * 0x1000 ≤ j)
    → filled image program f j ≡ f j
filled_elsewhere image program f j files fits far = ground arith

-- A segment that was in memory is not touched by one in pages apart from its own.
filled-Held :
    (image : Region) (program : Elf64Program) (m : Machine) (ram' : Region)
    → ram'.byte ≡ filled image program m.ram.byte
    → program.filesz ≤ program.memsz
    → program.memsz ≤ pages_of program * 0x1000
    → Apart program.paddr (pages_of program) m.taken
    → (image' : Region) (old : Elf64Program) → Held image' old m
    → InMemory image' old ram'
filled-Held image program m ram' e files fits apart image' old (h, has, room, some_file) = record {
  bytes = λ k below. rw e (
      filled_elsewhere image program m.ram.byte (old.paddr + k) files fits (inside k (omega arith))
      ∙ h.bytes k below);
  zeros = λ k above below. rw e (
      filled_elsewhere image program m.ram.byte (old.paddr + k) files fits (inside k below)
      ∙ h.zeros k above below);
}
  where
    inside :
        (k : ℕ)
        → k < old.memsz
        → (old.paddr + k < program.paddr)
          ⊎ (program.paddr + pages_of program * 0x1000 ≤ old.paddr + k)
    inside k below = ground (
      arith,
      Apart-Has program.paddr (pages_of program) old.paddr (pages_of old) m.taken apart has,
    )

abbrev pub StepOutcome : Region → Elf64Program → Machine → Machine × Bool → Type 0
StepOutcome image program m (m', false) = Grown m m'
StepOutcome image program m (m', true) = Grown m m' × (program.type ≡ 1 → Held image program m')

fill_segment-StepOutcome :
    (image : Region) (program : Elf64Program) (m : Machine)
    → IsBytes image
    → program.filesz ≤ program.memsz
    → program.memsz ≤ pages_of program * 0x1000
    → program.paddr + pages_of program * 0x1000 ≤ m.ram.size
    → program.offset + program.filesz ≤ image.size
    → Apart program.paddr (pages_of program) m.taken
    → Returns
        (fill_segment image program
          (record m { taken = (program.paddr, pages_of program) ∷ m.taken }))
        (StepOutcome image program m)
unfolding fill_segment
fill_segment-StepOutcome image program m image_bytes files fits room inside apart =
    let n = pages_of program in
    let cleared : Region = record m.ram {
      byte = overlay m.ram.byte program.paddr (n * 0x1000) (λ k. 0);
    } in
    rw
      (
        clear_bytes-overlay (n * 0x1000) m.ram program.paddr room,
        copy_bytes-overlay program.filesz cleared program.paddr image program.offset (omega arith)
            inside,
      )
      (
        record {
          size = refl;
          kept = λ j out. filled_elsewhere image program m.ram.byte j files fits out.0;
          others = λ j out. out.1;
          bytes = λ b i. ground (arith, b i, image_bytes (program.offset + (i - program.paddr)));
          held = λ image' old h.
              (filled-Held image program m _ refl files fits apart image' old h, inr h.1, h.2, h.3);
        },
        λ type.
            (filled-InMemory image program m.ram m.ram.byte fits, inl (refl, refl), fits, files),
      )

granted_again : (m : Machine) (a n : ℕ) → Grown m (record m { taken = (a, n) ∷ m.taken })
granted_again m a n = record {
  size = refl;
  kept = λ j out. refl;
  others = λ j out. out.1;
  bytes = λ b. b;
  held = λ image program (h, has, rest, files). (h, inr has, rest, files);
}

-- What the two tests of a segment ensure.
segment_accepted :
    (program : Elf64Program) (size : ℕ)
    → segment_rejected program size ≡ false
    → program.filesz < u64_mod
    → program.memsz < u64_mod
    → program.memsz ≤ 0x10_0000_0000_0000
    → size < 0x8000_0000_0000_0000
    → (program.filesz ≤ program.memsz) × (program.offset + program.filesz ≤ size)
unfolding segment_rejected
segment_accepted program size e small bound near image = ground arith

module _ (allocate : AllocateAddress) (image : Region) (small : image.size < 0x8000_0000_0000_0000)
    (image_bytes : IsBytes image) where
  allocated-StepOutcome :
      (program : Elf64Program) (m : Machine) (granted : Option ℕ)
      → segment_rejected program image.size ≡ false
      → program.filesz < u64_mod
      → program.memsz < u64_mod
      → m.ram.size ≤ 0x10_0000_0000_0000
      → IsAllocator allocate m.ram.size
      → allocate m.taken program.paddr (pages_of program) ≡ granted
      → Returns (allocated image program m granted) (StepOutcome image program m)
  unfolding allocated
  allocated-StepOutcome program m none accepted files memory ram sound e = Grown-refl m
  allocated-StepOutcome program m (some address) accepted files memory ram sound e =
      elim (Bool-cases (address == program.paddr)) [
        | inr other ↦ rw other (granted_again m address (pages_of program))
        | inl same ↦
            let here : address ≡ program.paddr = ground arith in
            let page = sound.some_page m.taken program.paddr (pages_of program) address e in
            let room = sound.exists m.taken program.paddr (pages_of program) address e in
            let parts =
              segment_accepted program image.size accepted files memory (omega arith) small in
            rw (same, here)
              (fill_segment-StepOutcome image program m image_bytes parts.0 (omega arith)
                (omega arith) parts.1
                (subst (λ a. Apart a (pages_of program) m.taken) here
                  (sound.apart m.taken program.paddr (pages_of program) address e)))
      ]

  pub load_segment-StepOutcome :
      (program : Elf64Program) (m : Machine)
      → program.filesz < u64_mod
      → program.memsz < u64_mod
      → m.ram.size ≤ 0x10_0000_0000_0000
      → IsAllocator allocate m.ram.size
      → Returns (load_segment allocate image program m) (StepOutcome image program m)
  unfolding load_segment
  load_segment-StepOutcome program m files memory ram sound =
      elim (Bool-cases (program.type == 1)) [
        | inr other ↦ rw other (Grown-refl m, λ type. ground arith)
        | inl load ↦ rw load (elim (Bool-cases (segment_rejected program image.size)) [
          | inl bad ↦ rw bad (Grown-refl m)
          | inr good ↦ rw good (
              allocated-StepOutcome program m (allocate m.taken program.paddr (pages_of program))
                good files memory ram sound refl)
        ])
      ]
