-- ===== src/Elf/Loader.antt =====
-- mantle_elf_load of kernel/process/elf.c. `base` is the address of `mantle_user_memory`, which the
-- linker chooses.
use Prim.Native.Nat.{bit_and, bit_or}
use mantle_os.Base.{
  ℕ, zero, suc, ◌+◌, ◌-◌, ◌*◌, ◌/◌, ◌%◌, Bool, false, not, ◌&&◌, ◌||◌, Option, none, some, ltb, leb,
  ◌==◌, if◌then◌else◌, u32_mod, add16, add32, add64, sub64,
}
use mantle_os.Memory.{Run, done, fault, ◌>>=◌, Region, update}
use mantle_os.Elf.{
  ElfHeader, ProgramHeader, UserImage, UserSpace, read_elf_header, read_program, copy_bytes,
  clear_bytes, user_range, elf_header_rejected, program_rejected, user_base, user_stack_top,
  elf_header_size, pt_load, pf_x, pf_w, page_present, page_write, page_user, page_nx,
}

pub record Loading : Type 0 where
  pub space : UserSpace
  pub load_count : ℕ
  pub entry_valid : Bool

-- How the load of one program header ends: by the next one or by `return -1`.
pub data LoadStep : Type 0 where
  next : Loading → LoadStep
  reject : UserSpace → LoadStep

-- The permissions of a segment's pages, by its flags.
unfoldable pub permissions : ℕ → ℕ
permissions flags =
    let present = bit_or page_present page_user in
    let written = if bit_and flags pf_w == 0 then present else bit_or present page_write in
    if bit_and flags pf_x == 0 then bit_or written page_nx else written

-- The permissions of the pages of no segment, and of the user stack.
abbrev pub blank_permissions : ℕ
blank_permissions = bit_or (bit_or page_present page_user) page_nx

abbrev pub stack_permissions : ℕ
stack_permissions = bit_or (bit_or (bit_or page_present page_write) page_user) page_nx

unfoldable pub contains_entry : ElfHeader → ProgramHeader → Bool
contains_entry header program =
    not (bit_and program.flags pf_x == 0)
    && leb program.vaddr header.entry
    && ltb header.entry (add64 program.vaddr program.memsz)

-- The value written into the page-table entry of a page.
unfoldable pub page_entry : ℕ → ℕ → ℕ → ℕ
page_entry base page permissions = bit_or (add64 base (page * 4096)) permissions

-- The write of one page-table entry, a fault outside the table.
unfoldable pub set_page : ℕ → ℕ → ℕ → (ℕ → ℕ) → Run (ℕ → ℕ)
set_page base page permissions pages =
    if ltb page 512 then done (update pages page (page_entry base page permissions)) else fault

-- `left` more pages, from `page` on.
unfoldable pub set_pages : ℕ → ℕ → ℕ → ℕ → (ℕ → ℕ) → Run (ℕ → ℕ)
set_pages base zero page permissions pages = done pages
set_pages base (suc left) page permissions pages = do
  pages' ← set_page base page permissions pages
  set_pages base left (page + 1) permissions pages'

-- The segment's bytes, the zeros behind them, and its pages.
unfoldable pub place_segment : ℕ → Region → ProgramHeader → UserSpace → Run UserSpace
place_segment base image program space = do
  let destination = sub64 program.vaddr user_base % u32_mod
  let filesz = program.filesz % u32_mod
  let first_page = destination / 4096
  let last_page = add32 (add32 destination (program.memsz % u32_mod)) 4095 / 4096
  copied ← copy_bytes filesz space.memory destination image program.offset
  cleared ← clear_bytes (sub64 program.memsz program.filesz % u32_mod) copied (destination + filesz)
  pages ← set_pages base (last_page - first_page) first_page (permissions program.flags) space.pages
  done (record { memory = cleared; pages = pages })

-- The loop's variables after a segment is placed.
abbrev pub count_segment : ElfHeader → ProgramHeader → Loading → UserSpace → LoadStep
count_segment header program s space = next (record {
  space = space;
  load_count = add16 s.load_count 1;
  entry_valid = contains_entry header program || s.entry_valid;
})

unfoldable pub load_program : ℕ → Region → ℕ → ElfHeader → ProgramHeader → Loading → Run LoadStep
load_program base image size header program s =
    if not (program.type == pt_load)
    then done (next s)
    else if program_rejected program size
    then done (reject s.space)
    else (place_segment base image program s.space >>= λ space.
        done (count_segment header program s space))

-- The loop goes on after `next` only.
abbrev pub and_then : LoadStep → (Loading → Run LoadStep) → Run LoadStep
and_then (next s) k = k s
and_then (reject space) k = done (reject space)

-- The loop over the `left` program headers from `index` on.
unfoldable pub load_programs : ℕ → Region → ℕ → ElfHeader → ℕ → ℕ → Loading → Run LoadStep
load_programs base image size header zero index s = done (next s)
load_programs base image size header (suc left) index s = do
  program ← read_program image (add64 header.phoff (index * header.phentsize))
  step ← load_program base image size header program s
  and_then step (λ s'. load_programs base image size header left (index + 1) s')

-- The user memory cleared, every page read-only, and the last sixteen a stack.
unfoldable pub prepare_space : ℕ → UserSpace → Run UserSpace
prepare_space base space = do
  cleared ← clear_bytes 0x20_0000 space.memory 0
  blank ← set_pages base 512 0 blank_permissions space.pages
  pages ← set_pages base 16 496 stack_permissions blank
  done (record { memory = cleared; pages = pages })

unfoldable pub finish_load : ElfHeader → LoadStep → Run (UserSpace × Option UserImage)
finish_load header (reject space) = done (space, none)
finish_load header (next s) =
    if (s.load_count == 0) || not s.entry_valid
    then done (s.space, none)
    else done (s.space, some (record { entry = header.entry; stack = user_stack_top }))

-- The loop over the program headers, and the tests behind it.
unfoldable pub load_checked :
    ℕ → Region → ℕ → ElfHeader → UserSpace → Run (UserSpace × Option UserImage)
load_checked base image size header prepared =
    load_programs base image size header header.phnum 0
      (record { space = prepared; load_count = 0; entry_valid = false })
    >>= finish_load header

-- `none` is `return -1`; the out-parameter `result` is the other result, so its null test has no
-- counterpart.
unfoldable pub elf_load : ℕ → Option Region → ℕ → UserSpace → Run (UserSpace × Option UserImage)
elf_load base none size space = done (space, none)
elf_load base (some image) size space = if ltb size elf_header_size then done (space, none) else do
  header ← read_elf_header image
  if elf_header_rejected header size || not (user_range header.entry 1)
      then done (space, none)
      else (prepare_space base space >>= load_checked base image size header)
