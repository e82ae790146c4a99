-- ===== src/Efi.antt =====
-- boot/efi/loader.c: the boot loader that runs under the UEFI firmware. What the code asks of the
-- firmware is a parameter.
pub mod Segments
pub mod Kernel
pub mod Info
pub mod Page
pub mod Handover
pub mod Files
pub mod Main
pub mod Released
pub mod Jump
pub mod Screen
use mantle_os.Base.{
  ℕ, zero, suc, ◌+◌, ◌*◌, ◌/◌, Bool, true, false, not, ◌||◌, Option, none, some, List, [], ◌∷◌, ltb,
  ◌==◌, if◌then◌else◌, add64,
}
use mantle_os.Memory.{Run, done, fault, ◌>>=◌, Region, read16, read32, read64}
use mantle_os.Elf.{copy_bytes, clear_bytes}

-- The fields of elf64_header that the loader reads; `ident` is the first six bytes of e_ident.
pub record Elf64Header : Type 0 where
  pub ident : ℕ → ℕ
  pub machine : ℕ
  pub entry : ℕ
  pub phoff : ℕ
  pub phentsize : ℕ
  pub phnum : ℕ

-- The fields of elf64_program that the loader reads.
pub record Elf64Program : Type 0 where
  pub type : ℕ
  pub offset : ℕ
  pub paddr : ℕ
  pub filesz : ℕ
  pub memsz : ℕ

-- Pages that the firmware has handed out: an address and how many.
abbrev pub Extent : Type 0
Extent = ℕ × ℕ

-- The memory of the machine, and the pages that the loader was given so far.
pub record Machine : Type 0 where
  pub ram : Region
  pub taken : List Extent

-- AllocatePages with AllocateAddress: what was handed out, the address that is asked for and the
-- number of pages. `none` is an error, `some` the address that the firmware writes back.
abbrev pub AllocateAddress : Type 0
AllocateAddress = List Extent → ℕ → ℕ → Option ℕ

unfoldable pub read_elf64_header : Region → Run Elf64Header
unfolding read16 read64
read_elf64_header image = do
  machine ← read16 image 18
  entry ← read64 image 24
  phoff ← read64 image 32
  phentsize ← read16 image 54
  phnum ← read16 image 56
  done (record {
    ident = image.byte;
    machine = machine;
    entry = entry;
    phoff = phoff;
    phentsize = phentsize;
    phnum = phnum;
  })

unfoldable pub read_elf64_program : Region → ℕ → Run Elf64Program
unfolding read32 read64
read_elf64_program image at = do
  type ← read32 image at
  offset ← read64 image (at + 8)
  paddr ← read64 image (at + 24)
  filesz ← read64 image (at + 32)
  memsz ← read64 image (at + 40)
  done (record { type = type; offset = offset; paddr = paddr; filesz = filesz; memsz = memsz })

-- The two tests of the header, behind that of the size of the image.
unfoldable pub kernel_rejected : Elf64Header → ℕ → Bool
kernel_rejected header image_size =
    not (header.ident 0 == 0x7f)
    || not (header.ident 1 == b'E')
    || not (header.ident 2 == b'L')
    || not (header.ident 3 == b'F')
    || not (header.ident 4 == 2)
    || not (header.ident 5 == 1)
    || not (header.machine == 62)
    || not (header.phentsize == 56)
    || ltb image_size header.phoff
    || ltb 32 header.phnum
    || ltb image_size (add64 header.phoff (header.phnum * header.phentsize))

unfoldable pub segment_rejected : Elf64Program → ℕ → Bool
segment_rejected program image_size =
    ltb program.memsz program.filesz
    || ltb image_size program.offset
    || ltb image_size (add64 program.offset program.filesz)
    || ltb (add64 program.paddr program.memsz) program.paddr

-- The number of pages that is asked for.
abbrev pub pages_of : Elf64Program → ℕ
pages_of program = add64 program.memsz 0xfff / 0x1000

-- The segment in the pages that were granted.
unfoldable pub fill_segment : Region → Elf64Program → Machine → Run (Machine × Bool)
fill_segment image program m = do
  cleared ← clear_bytes (pages_of program * 0x1000) m.ram program.paddr
  copied ← copy_bytes program.filesz cleared program.paddr image program.offset
  done (record m { ram = copied }, true)

-- `false` is the error of AllocatePages, or another address than the one asked for.
unfoldable pub allocated : Region → Elf64Program → Machine → Option ℕ → Run (Machine × Bool)
unfolding fill_segment
allocated image program m none = done (m, false)
allocated image program m (some address) =
    let m' : Machine = record m { taken = (address, pages_of program) ∷ m.taken } in
    if not (address == program.paddr) then done (m', false) else fill_segment image program m'

-- One round of the loop: `false` ends the load.
unfoldable pub load_segment :
    AllocateAddress → Region → Elf64Program → Machine → Run (Machine × Bool)
unfolding allocated
load_segment allocate image program m =
    if not (program.type == 1)
    then done (m, true)
    else if segment_rejected program image.size
    then done (m, false)
    else allocated image program m (allocate m.taken program.paddr (pages_of program))

abbrev pub and_next : Machine × Bool → (Machine → Run (Machine × Bool)) → Run (Machine × Bool)
and_next (m, false) k = done (m, false)
and_next (m, true) k = k m

-- The `left` program headers from `index` on.
unfoldable pub load_segments :
    AllocateAddress → Region → Elf64Header → ℕ → ℕ → Machine → Run (Machine × Bool)
load_segments allocate image header zero index m = done (m, true)
load_segments allocate image header (suc left) index m = do
  program ← read_elf64_program image (add64 header.phoff (index * header.phentsize))
  step ← load_segment allocate image program m
  and_next step (load_segments allocate image header left (index + 1))

-- `none` is EFI_LOAD_ERROR; `*entry` is the other result. The image is the region of its file.
unfoldable pub load_kernel : AllocateAddress → Region → Machine → Run (Machine × Option ℕ)
load_kernel allocate image m = if ltb image.size 64 then done (m, none) else do
  header ← read_elf64_header image
  if kernel_rejected header image.size
      then done (m, none)
      else (load_segments allocate image header header.phnum 0 m >>= λ (m', loaded).
          done (m', if loaded then some header.entry else none))
