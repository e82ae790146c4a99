-- ===== src/Elf/Format.antt =====
-- What an executable image asks for, independently of the code that loads it.
use Prim.Native.Nat.{bit_and}
use mantle_os.Base.{
  ℕ, zero, suc, ◌+◌, ◌-◌, ◌*◌, ◌≤◌, ◌<◌, ◌≡◌, ◌≢◌, false, ◌==◌, ltb, if◌then◌else◌, arith, u32_mod,
}
use mantle_os.Memory.{done, Region, le16, le32, le64}
use mantle_os.Elf.{
  ElfHeader, ProgramHeader, read_elf_header, read_program, elf_header_rejected, program_rejected,
}
use mantle_os.Memory.Overlay.{overlay}

abbrev pub elf_header_at : (ℕ → ℕ) → ElfHeader
elf_header_at f = record {
  ident = f;
  type = le16 f 16;
  machine = le16 f 18;
  version = le32 f 20;
  entry = le64 f 24;
  phoff = le64 f 32;
  ehsize = le16 f 52;
  phentsize = le16 f 54;
  phnum = le16 f 56;
}

abbrev pub program_at : (ℕ → ℕ) → ℕ → ProgramHeader
program_at f at = record {
  type = le32 f at;
  flags = le32 f (at + 4);
  offset = le64 f (at + 8);
  vaddr = le64 f (at + 16);
  filesz = le64 f (at + 32);
  memsz = le64 f (at + 40);
  align = le64 f (at + 48);
}

-- A header of a static executable for x86-64, with its table of program headers in the image.
pub record HeaderFits (h : ElfHeader) (size : ℕ) : Type 0 where
  pub magic : (h.ident 0 ≡ 0x7f) × (h.ident 1 ≡ b'E') × (h.ident 2 ≡ b'L') × (h.ident 3 ≡ b'F')
  pub executable : h.type ≡ 2
  pub x86_64 : h.machine ≡ 62
  pub entry_size : h.phentsize ≡ 56
  pub some_entries : 0 < h.phnum
  pub few_entries : h.phnum ≤ 64
  pub table_inside : h.phoff + h.phnum * 56 ≤ size

-- The numbers are the image's, without wrap-around.
pub record SegmentFits (p : ProgramHeader) (size : ℕ) : Type 0 where
  pub file_le_memory : p.filesz ≤ p.memsz
  pub some_memory : 0 < p.memsz
  pub file_inside : p.offset + p.filesz ≤ size
  pub above_base : 0x40_0000 ≤ p.vaddr
  pub below_limit : p.vaddr + p.memsz ≤ 0x60_0000
  pub not_write_execute : bit_and p.flags 3 ≢ 3

-- The bytes of a segment: the file's, then zeros.
abbrev pub segment_bytes : (ℕ → ℕ) → ProgramHeader → ℕ → ℕ
segment_bytes f p k = if ltb k p.filesz then f (p.offset + k) else 0

-- The user memory, from its first byte, once the `n` program headers from `at` on are placed in
-- their order over `memory`.
abbrev pub place_all : (ℕ → ℕ) → ℕ → ℕ → (ℕ → ℕ) → ℕ → ℕ
place_all f zero at memory = memory
place_all f (suc n) at memory =
    let p = program_at f at in
    place_all f n (at + 56) (
      if p.type == 1
      then overlay memory (p.vaddr - 0x40_0000) p.memsz (segment_bytes f p)
      else memory)

-- One of those headers is of an executable segment that holds the address `entry`.
abbrev pub EntryIn : (ℕ → ℕ) → ℕ → ℕ → ℕ → Type 0
EntryIn f n at entry =
    (i : ℕ) × (i < n)
    × (let p = program_at f (at + i * 56) in
        (p.type ≡ 1) × (bit_and p.flags 1 ≢ 0) × (p.vaddr ≤ entry) × (entry < p.vaddr + p.memsz))

pub read_elf_header_lem :
    (r : Region) → 64 ≤ r.size → read_elf_header r ≡ done (elf_header_at r.byte)
unfolding read_elf_header
read_elf_header_lem r h = ground arith

pub read_program_lem :
    (r : Region) (at : ℕ) → at + 56 ≤ r.size → read_program r at ≡ done (program_at r.byte at)
unfolding read_program
read_program_lem r at h = ground arith

pub header-HeaderFits :
    (h : ElfHeader) (size : ℕ)
    → size < u32_mod
    → elf_header_rejected h size ≡ false
    → HeaderFits h size
unfolding elf_header_rejected
header-HeaderFits h size small ok = ground arith

pub program-SegmentFits :
    (p : ProgramHeader) (size : ℕ)
    → size < u32_mod
    → program_rejected p size ≡ false
    → SegmentFits p size
unfolding program_rejected
program-SegmentFits p size small ok = ground arith
