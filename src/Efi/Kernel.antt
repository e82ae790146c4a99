-- ===== src/Efi/Kernel.antt =====
-- load_kernel of boot/efi/loader.c: which part of the memory it writes, and what is there afterwards.
use mantle_os.Base.{
  ℕ, zero, suc, Bool, ◌+◌, ◌*◌, ◌≤◌, ◌<◌, ◌≡◌, refl, inl, inr, true, false, if◌then◌else◌, Option,
  none, some, arith, Bool-cases, add64, u64_mod, u32_mod, subst, ◌∙◌, ltb-false, lt→ltb, dec_lt,
}
use mantle_os.Memory.{Run, done, fault, Returns, Returns-bind, Region, ◌>>=◌, le16, le32, le64}
use mantle_os.Boot.Reads.{IsBytes}
use mantle_os.Efi.{
  Elf64Header, Elf64Program, Machine, AllocateAddress, read_elf64_header, read_elf64_program,
  kernel_rejected, load_segment, load_segments, and_next, load_kernel,
}
use mantle_os.Efi.Segments.{
  IsAllocator, Held, Grown, Grown-refl, StepOutcome, load_segment-StepOutcome,
}

abbrev pub header_of : Region → Elf64Header
header_of image = record {
  ident = image.byte;
  machine = le16 image.byte 18;
  entry = le64 image.byte 24;
  phoff = le64 image.byte 32;
  phentsize = le16 image.byte 54;
  phnum = le16 image.byte 56;
}

abbrev pub program_of : Region → ℕ → Elf64Program
program_of image at = record {
  type = le32 image.byte at;
  offset = le64 image.byte (at + 8);
  paddr = le64 image.byte (at + 24);
  filesz = le64 image.byte (at + 32);
  memsz = le64 image.byte (at + 40);
}

-- The program header with the number `k` of the image.
abbrev pub program_at : Region → ℕ → Elf64Program
program_at image k = program_of image (le64 image.byte 32 + k * 56)

read_elf64_header_lem :
    (image : Region) → 64 ≤ image.size → read_elf64_header image ≡ done (header_of image)
unfolding read_elf64_header
read_elf64_header_lem image h = ground arith

read_elf64_program_lem :
    (image : Region) (at : ℕ)
    → at + 56 ≤ image.size
    → read_elf64_program image at ≡ done (program_of image at)
unfolding read_elf64_program
read_elf64_program_lem image at h = ground arith

le32-lt : (f : ℕ → ℕ) (a : ℕ) → ((i : ℕ) → f i < 256) → le32 f a < u32_mod
le32-lt f a bytes = omega (arith, bytes a, bytes (a + 1), bytes (a + 2), bytes (a + 2 + 1))

le64-lt : (f : ℕ → ℕ) (a : ℕ) → ((i : ℕ) → f i < 256) → le64 f a < u64_mod
le64-lt f a bytes = omega (arith, le32-lt f a bytes, le32-lt f (a + 4) bytes)

-- What the tests of the header ensure.
kernel_accepted :
    (header : Elf64Header) (size : ℕ)
    → kernel_rejected header size ≡ false
    → header.phoff < u64_mod
    → size < 0x8000_0000_0000_0000
    → (header.phentsize ≡ 56) × (header.phoff + header.phnum * 56 ≤ size)
unfolding kernel_rejected
kernel_accepted header size e offset small = ground arith

Grown-then : (a b c : Machine) → Grown a b → Grown b c → Grown a c
Grown-then a b c first second = record {
  size = second.size ∙ first.size;
  kept = λ j out. second.kept j out ∙ first.kept j (second.others j out);
  others = λ j out. first.others j (second.others j out);
  bytes = λ b. second.bytes (first.bytes b);
  held = λ image program h. second.held image program (first.held image program h);
}

-- The segments to load among the first `count` program headers are in memory.
abbrev pub Loaded : Region → ℕ → Machine → Type 0
Loaded image count m =
    (k : ℕ)
    → k < count
    → le32 image.byte (le64 image.byte 32 + k * 56) ≡ 1
    → Held image (program_at image k) m

abbrev LoopOutcome : Region → ℕ → Machine → Machine × Bool → Type 0
LoopOutcome image count m (m', false) = Grown m m'
LoopOutcome image count m (m', true) = Grown m m' × Loaded image count m'

Loaded-suc :
    (image : Region) (index : ℕ) (m m' : Machine)
    → Loaded image index m
    → Grown m m'
    → (le32 image.byte (le64 image.byte 32 + index * 56) ≡ 1
        → Held image (program_at image index) m')
    → Loaded image (index + 1) m'
Loaded-suc image index m m' before grown new k below type = elim (dec_lt k index) [
  | yes old ↦ grown.held image (program_at image k) (before k old type)
  | no last ↦ let same : index ≡ k = omega arith in rw (← same) (new (rw same type))
]

module _ (allocate : AllocateAddress) (image : Region) (small : image.size < 0x8000_0000_0000_0000)
    (bytes : IsBytes image) (fits : le64 image.byte 32 + le16 image.byte 56 * 56 ≤ image.size)
    (entry_size : le16 image.byte 54 ≡ 56) where
  chain :
      (m m' : Machine) (r : Run (Machine × Bool))
      → Grown m m'
      → Returns r (LoopOutcome image (le16 image.byte 56) m')
      → Returns r (LoopOutcome image (le16 image.byte 56) m)
  chain m m' (done (m'', true)) grown (more, loaded) = (Grown-then m m' m'' grown more, loaded)
  chain m m' (done (m'', false)) grown more = Grown-then m m' m'' grown more
  chain m m' fault grown out = out

  -- After one header: what the rest of the loop does.
  next_header :
      (m : Machine) (index left : ℕ)
      → ((m' : Machine)
          → Grown m m'
          → (le32 image.byte (le64 image.byte 32 + index * 56) ≡ 1
              → Held image (program_at image index) m')
          → Returns
              (load_segments allocate image (header_of image) left (index + 1) m')
              (LoopOutcome image (le16 image.byte 56) m'))
      → (r : Machine × Bool) → StepOutcome image (program_at image index) m r
      → Returns
          (and_next r (load_segments allocate image (header_of image) left (index + 1)))
          (LoopOutcome image (le16 image.byte 56) m)
  next_header m index left rest (m', false) grown = grown
  next_header m index left rest (m', true) (grown, held) =
      chain m m' (load_segments allocate image (header_of image) left (index + 1) m') grown
        (rest m' grown held)

  load_segments-LoopOutcome :
      (left index : ℕ) (m : Machine)
      → index + left ≡ le16 image.byte 56
      → m.ram.size ≤ 0x10_0000_0000_0000
      → IsAllocator allocate m.ram.size
      → Loaded image index m
      → Returns
          (load_segments allocate image (header_of image) left index m)
          (LoopOutcome image (le16 image.byte 56) m)
  unfolding load_segments
  load_segments-LoopOutcome zero index m sum ram sound before =
      let all : index ≡ le16 image.byte 56 = omega arith in
      (Grown-refl m, subst (λ n. Loaded image n m) all before)
  load_segments-LoopOutcome (suc left) index m sum ram sound before =
      let at = le64 image.byte 32 + index * 56 in
      let inside : at + 56 ≤ image.size = omega arith in
      let offset : add64 (le64 image.byte 32) (index * le16 image.byte 54) ≡ at =
        rw entry_size (omega arith) in
      rw (offset, read_elf64_program_lem image at inside)
        (Returns-bind (load_segment allocate image (program_at image index) m) _
          (StepOutcome image (program_at image index) m) (LoopOutcome image (le16 image.byte 56) m)
          (load_segment-StepOutcome allocate image small bytes (program_at image index) m
            (le64-lt image.byte (at + 32) bytes) (le64-lt image.byte (at + 40) bytes) ram sound)
          (next_header m index left (λ m' grown held.
            load_segments-LoopOutcome left (index + 1) m' (omega arith) (rw grown.size ram)
              (rw grown.size sound) (Loaded-suc image index m m' before grown held))))

-- How the load of the kernel ends: with its entry point and every segment in memory, or with an
-- error; in both cases only pages that the loader was given have changed.
abbrev pub KernelOutcome : Region → Machine → Machine × Option ℕ → Type 0
KernelOutcome image m (m', none) = Grown m m'
KernelOutcome image m (m', some entry) =
    Grown m m' × (entry ≡ le64 image.byte 24) × Loaded image (le16 image.byte 56) m'

finished :
    (image : Region) (m : Machine) (entry : ℕ) (r : Run (Machine × Bool))
    → entry ≡ le64 image.byte 24
    → Returns r (LoopOutcome image (le16 image.byte 56) m)
    → Returns
        (r >>= λ (m', loaded). done (m', if loaded then some entry else none))
        (KernelOutcome image m)
finished image m entry (done (m', true)) e (grown, loaded) = (grown, e, loaded)
finished image m entry (done (m', false)) e grown = grown
finished image m entry fault e out = out

-- With an image of less than 2 ^ 63 bytes, a memory of at most 2 ^ 52 bytes, and a firmware that hands
-- out only pages that exist, at least one at a time and none twice: The load of the kernel ends,
-- and reads nothing outside the image and writes nothing outside the pages that it was given, also
-- where the additions of its tests wrap. If it returns an entry point, it is that of the header, and every
-- segment to load lies at its physical address, with its bytes from the file and zeros behind them.
pub load_kernel-KernelOutcome :
    (allocate : AllocateAddress) (image : Region) (m : Machine)
    → IsBytes image
    → image.size < 0x8000_0000_0000_0000
    → m.ram.size ≤ 0x10_0000_0000_0000
    → IsAllocator allocate m.ram.size
    → Returns (load_kernel allocate image m) (KernelOutcome image m)
unfolding load_kernel
load_kernel-KernelOutcome allocate image m bytes small ram sound = elim (dec_lt image.size 64) [
  | yes short ↦ rw (lt→ltb image.size 64 short) (Grown-refl m)
  | no long ↦
      rw (ltb-false image.size 64 (omega arith), read_elf64_header_lem image (omega arith))
        (elim (Bool-cases (kernel_rejected (header_of image) image.size)) [
          | inl bad ↦ rw bad (Grown-refl m)
          | inr good ↦
              let parts =
                kernel_accepted (header_of image) image.size good (le64-lt image.byte 32 bytes)
                  small in
              rw good (
                finished image m (le64 image.byte 24) _ refl (
                  load_segments-LoopOutcome allocate image small bytes parts.1 parts.0
                    (le16 image.byte 56) 0 m (omega arith) ram sound
                    (λ k none_yet. elim none_yet [ ])))
        ])
]
