-- ===== src/Elf.antt =====
-- kernel/process/elf.c and elf.h: the loader of static x86-64 executables.
-- `mantle_user_memory` is a region, and `user_page_table` a function from indices to entries with a
-- fault outside its 512 entries. Both are written on the way, so a failed load returns them too.
pub mod Copy
pub mod Pages
pub mod Format
pub mod Loader
pub mod Place
pub mod Load
pub mod Outcome
pub mod Accept
pub mod Succeed
use Prim.Native.Nat.{bit_and, bit_or}
use mantle_os.Base.{
  ℕ, zero, suc, ◌+◌, ◌-◌, ◌*◌, ◌/◌, ◌%◌, ◌≡◌, Bool, true, false, not, ◌&&◌, ◌||◌, Option, none,
  some, ltb, leb, ◌==◌, if◌then◌else◌, u32_mod, add16, add32, sub32, add64, sub64,
}
use mantle_os.Memory.{
  Run, done, fault, ◌>>=◌, Region, update, read8, read16, read32, read64, write8,
}

abbrev pub user_base : ℕ
user_base = 0x40_0000

abbrev pub user_limit : ℕ
user_limit = 0x60_0000

abbrev pub user_stack_top : ℕ
user_stack_top = user_limit

abbrev pub et_exec : ℕ
et_exec = 2

abbrev pub em_x86_64 : ℕ
em_x86_64 = 62

abbrev pub pt_load : ℕ
pt_load = 1

abbrev pub pf_x : ℕ
pf_x = 1

abbrev pub pf_w : ℕ
pf_w = 2

abbrev pub page_present : ℕ
page_present = 1

abbrev pub page_write : ℕ
page_write = 2

abbrev pub page_user : ℕ
page_user = 4

abbrev pub page_nx : ℕ
page_nx = 0x8000_0000_0000_0000

-- sizeof(struct elf_header) and sizeof(struct elf_program_header)
abbrev pub elf_header_size : ℕ
elf_header_size = 64

abbrev pub program_header_size : ℕ
program_header_size = 56

-- The fields of struct elf_header that the loader reads; `ident` is the first six bytes of e_ident.
pub record ElfHeader : Type 0 where
  pub ident : ℕ → ℕ
  pub type : ℕ
  pub machine : ℕ
  pub version : ℕ
  pub entry : ℕ
  pub phoff : ℕ
  pub ehsize : ℕ
  pub phentsize : ℕ
  pub phnum : ℕ

-- The fields of struct elf_program_header that the loader reads.
pub record ProgramHeader : Type 0 where
  pub type : ℕ
  pub flags : ℕ
  pub offset : ℕ
  pub vaddr : ℕ
  pub filesz : ℕ
  pub memsz : ℕ
  pub align : ℕ

pub record UserImage : Type 0 where
  pub entry : ℕ
  pub stack : ℕ

pub record UserSpace : Type 0 where
  pub memory : Region
  pub pages : ℕ → ℕ

unfoldable pub read_elf_header : Region → Run ElfHeader
unfolding read16 read32 read64
read_elf_header image = do
  type ← read16 image 16
  machine ← read16 image 18
  version ← read32 image 20
  entry ← read64 image 24
  phoff ← read64 image 32
  ehsize ← read16 image 52
  phentsize ← read16 image 54
  phnum ← read16 image 56
  done (record {
    ident = image.byte;
    type = type;
    machine = machine;
    version = version;
    entry = entry;
    phoff = phoff;
    ehsize = ehsize;
    phentsize = phentsize;
    phnum = phnum;
  })

unfoldable pub read_program : Region → ℕ → Run ProgramHeader
unfolding read32 read64
read_program image at = do
  type ← read32 image at
  flags ← read32 image (at + 4)
  offset ← read64 image (at + 8)
  vaddr ← read64 image (at + 16)
  filesz ← read64 image (at + 32)
  memsz ← read64 image (at + 40)
  align ← read64 image (at + 48)
  done (record {
    type = type;
    flags = flags;
    offset = offset;
    vaddr = vaddr;
    filesz = filesz;
    memsz = memsz;
    align = align;
  })

-- `left` more bytes, to `destination` on from `source` on.
unfoldable pub copy_bytes : ℕ → Region → ℕ → Region → ℕ → Run Region
copy_bytes zero memory destination image source = done memory
copy_bytes (suc left) memory destination image source = do
  b ← read8 image source
  memory' ← write8 memory destination b
  copy_bytes left memory' (destination + 1) image (source + 1)

unfoldable pub clear_bytes : ℕ → Region → ℕ → Run Region
clear_bytes zero memory destination = done memory
clear_bytes (suc left) memory destination = do
  memory' ← write8 memory destination 0
  clear_bytes left memory' (destination + 1)

unfoldable pub range64 : ℕ → ℕ → ℕ → Bool
range64 offset length size = leb offset size && leb length (sub64 size offset)

unfoldable pub user_range : ℕ → ℕ → Bool
user_range address size =
    leb user_base address && leb address user_limit && leb size (sub64 user_limit address)

unfoldable pub elf_header_rejected : ElfHeader → ℕ → Bool
unfolding range64
elf_header_rejected header size =
    not (header.ident 0 == 0x7f)
    || not (header.ident 1 == b'E')
    || not (header.ident 2 == b'L')
    || not (header.ident 3 == b'F')
    || not (header.ident 4 == 2)
    || not (header.ident 5 == 1)
    || not (header.type == et_exec)
    || not (header.machine == em_x86_64)
    || not (header.version == 1)
    || not (header.ehsize == elf_header_size)
    || not (header.phentsize == program_header_size)
    || (header.phnum == 0)
    || ltb 64 header.phnum
    || not (range64 header.phoff (header.phnum * header.phentsize) size)

-- The two tests that end the load at a PT_LOAD segment.
unfoldable pub program_rejected : ProgramHeader → ℕ → Bool
unfolding range64 user_range
program_rejected program size =
    ltb program.memsz program.filesz
    || (program.memsz == 0)
    || not (range64 program.offset program.filesz size)
    || not (user_range program.vaddr program.memsz)
    || (bit_and program.flags (bit_or pf_w pf_x) == bit_or pf_w pf_x)
    || ltb (add64 program.vaddr program.memsz) program.vaddr
    || (not (program.align == 0) && not (bit_and program.align (sub64 program.align 1) == 0))
    || (ltb 1 program.align
        && not (
            bit_and program.vaddr (sub64 program.align 1)
            == bit_and program.offset (sub64 program.align 1)))
