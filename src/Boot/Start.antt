-- ===== src/Boot/Start.antt =====
-- mantle_kernel_main of kernel/arch/x86_64/kernel.c and what it calls, up to user mode.
use Prim.Native.Nat.{bit_and}
use mantle_os.Base.{
  ℕ, ◌-◌, ◌/◌, ◌%◌, Bool, true, false, not, ◌||◌, Option, none, some, List, [], ◌∷◌, ltb, leb, ◌==◌,
  if◌then◌else◌, add64, sub32, sub64, u32_mod,
}
use mantle_os.Memory.{Run, done, ◌>>=◌, Region, advance, read64}
use mantle_os.Console.{Console, console_write, serial_hex}
use mantle_os.Multiboot2.{BootModule}
use mantle_os.Rootfs.{RootfsState, RootfsStatus, valid, invalid, rootfs_mount}
use mantle_os.Elf.{UserImage, user_base, page_nx}
use mantle_os.Elf.Loader.{set_pages, blank_permissions}
use mantle_os.Process.{process_init}
use mantle_os.Syscall.{Kernel, write_bytes}
use mantle_os.Syscall.Calls.{load_path}
use mantle_os.Framebuffer.{FramebufferState}
use mantle_os.Framebuffer.Init.{InitEnd, framebuffer_init}
use mantle_os.Boot.{Lookup, found, missing, malformed, find_rootfs}
use mantle_os.Boot.Texts.{
  hello_path, text_elf_error, text_elf_ok, text_entry_pte, text_gdt_error, text_gdt_ok,
  text_graphics_ok, text_graphics_unavailable, text_iret, text_kernel_ok, text_kernel_pde,
  text_line, text_magic_error, text_magic_ok, text_mantle_os, text_mapping_error, text_paging_error,
  text_paging_ok, text_prepare, text_rootfs_error, text_rootfs_invalid, text_rootfs_not_found,
  text_rootfs_ok, text_selectors, text_stack_error, text_stack_ok, text_stack_pte, text_stack_top,
  text_started, text_tss_error, text_tss_loaded, text_tss_ok, text_user_entry, text_user_stack_ok,
}

-- What the assembly and the processor hold: two entries of the descriptor table, whether the task
-- register is loaded, the first entry of the kernel's page directory, and the register CR3.
pub record Cpu : Type 0 where
  pub gdt3 : ℕ
  pub gdt4 : ℕ
  pub tss_loaded : Bool
  pub kernel_pde : ℕ
  pub cr3 : ℕ

pub record Diagnosis : Type 0 where
  pub console : Console
  pub memory : Region
  pub passed : Bool

abbrev pub failed_with : Console → Region → List ℕ → Run Diagnosis
failed_with c memory text =
    done (record { console = console_write c text; memory = memory; passed = false })

-- 0x4d414e544c455553, the lowest byte first.
abbrev pub sentinel_bytes : List ℕ
sentinel_bytes = 0x53 ∷ 0x55 ∷ 0x45 ∷ 0x4c ∷ 0x54 ∷ 0x4e ∷ 0x41 ∷ 0x4d ∷ []

abbrev pub sentinel : ℕ
sentinel = 0x4d41_4e54_4c45_5553

unfoldable pub page_index : ℕ → ℕ
page_index address = sub64 address user_base / 4096 % u32_mod

-- The two page-table entries and the kernel's page directory.
unfoldable pub paging_rejected : Cpu → ℕ → ℕ → Bool
paging_rejected cpu entry_pte stack_pte =
    not (bit_and entry_pte 7 == 5)
    || not (bit_and entry_pte page_nx == 0)
    || not (bit_and stack_pte 7 == 7)
    || (bit_and stack_pte page_nx == 0)
    || not (bit_and cpu.kernel_pde 4 == 0)

-- The tests from the page tables on.
unfoldable pub paging_diagnostics : Cpu → (ℕ → ℕ) → Region → Console → ℕ → ℕ → Run Diagnosis
paging_diagnostics cpu pages memory c entry stack =
    let entry_index = page_index entry in
    let stack_index = page_index (sub64 stack 1) in
    if ltb entry 0x40_0000 || leb 0x60_0000 entry || leb 512 entry_index || leb 512 stack_index
    then failed_with c memory text_paging_error
    else let c1 = serial_hex (console_write c text_entry_pte) (pages entry_index) in
      let c2 = serial_hex (console_write c1 text_stack_pte) (pages stack_index) in
      let c3 =
        console_write (serial_hex (console_write c2 text_kernel_pde) cpu.kernel_pde) text_line in
      if paging_rejected cpu (pages entry_index) (pages stack_index)
      then failed_with c3 memory text_paging_error
      else let c4 =
          serial_hex (console_write (console_write c3 text_paging_ok) text_user_entry) entry in
        let c5 = serial_hex (console_write c4 text_stack_top) stack in
        let c6 = serial_hex (console_write c5 text_selectors) cpu.cr3 in
        done (record { console = console_write c6 text_iret; memory = memory; passed = true })

-- The tests of the stack, with the write of the sentinel and its read.
unfoldable pub stack_diagnostics : Cpu → (ℕ → ℕ) → Region → Console → ℕ → ℕ → Run Diagnosis
stack_diagnostics cpu pages memory c entry stack =
    if ltb stack 0x40_0000 || ltb 0x60_0000 stack || not (stack % 16 == 0)
    then failed_with c memory text_stack_error
    else do
      memory' ← write_bytes memory (stack - 8) sentinel_bytes
      word ← read64 memory' (stack - 8 - user_base)
      if not (word == sentinel)
          then failed_with c memory' text_stack_error
          else (paging_diagnostics cpu pages memory'
              (console_write (console_write c text_user_stack_ok) text_stack_ok) entry stack)

unfoldable pub ring3_diagnostics : Cpu → (ℕ → ℕ) → Region → Console → ℕ → ℕ → Run Diagnosis
ring3_diagnostics cpu pages memory c entry stack =
    let c1 = console_write c text_prepare in
    if not (cpu.gdt3 == 0x00cf_f200_0000_ffff) || not (cpu.gdt4 == 0x00af_fa00_0000_ffff)
    then failed_with c1 memory text_gdt_error
    else let c2 = console_write c1 text_gdt_ok in
      if not cpu.tss_loaded
      then failed_with c2 memory text_tss_error
      else stack_diagnostics cpu pages memory
          (console_write (console_write c2 text_tss_loaded) text_tss_ok) entry stack

-- The kernel halts, or enters user mode at an address and with a stack.
pub data StartEnd : Type 0 where
  stops : Kernel → StartEnd
  enters : Kernel → ℕ → ℕ → StartEnd

abbrev pub with_console : Kernel → Console → Kernel
with_console k c = record k { console = c }

-- The label rootfs_error, behind a text.
unfoldable pub rootfs_error : Kernel → List ℕ → StartEnd
rootfs_error k text =
    stops (with_console k (console_write (console_write k.console text) text_rootfs_error))

unfoldable pub after_diagnosis : Kernel → UserImage → Diagnosis → StartEnd
after_diagnosis k image d =
    let k' = record k {
      console = d.console;
      space = record { memory = d.memory; pages = k.space.pages };
    } in
    if d.passed
    then enters k' image.entry image.stack
    else stops (with_console k' (console_write d.console text_rootfs_error))

abbrev pub after_load : Cpu → Kernel × Option UserImage → Run StartEnd
after_load cpu (k, none) = done (stops (with_console k (console_write k.console text_elf_error)))
after_load cpu (k, some image) =
    ring3_diagnostics cpu k.space.pages k.space.memory (console_write k.console text_elf_ok)
      image.entry image.stack
    >>= λ d. done (after_diagnosis k image d)

-- The start of /bin/hello, with mantle_arch_user_memory_init.
unfoldable pub start_user : ℕ → Cpu → Kernel → Run StartEnd
start_user base cpu k = do
  pages ← set_pages base 512 0 blank_permissions k.space.pages
  let k' = record k {
    space = record { memory = k.space.memory; pages = pages };
    process = process_init k.process;
  }
  r ← load_path base k' hello_path
  after_load cpu r

abbrev pub after_mount : ℕ → Cpu → Kernel → RootfsState × RootfsStatus → Run StartEnd
after_mount base cpu k (rootfs, invalid) =
    done (rootfs_error (record k { rootfs = rootfs }) text_rootfs_invalid)
after_mount base cpu k (rootfs, valid) =
    start_user base cpu
      (record k { rootfs = rootfs; console = console_write k.console text_rootfs_ok })

-- The module as a pointer to the image.
abbrev pub image_at : Region → ℕ → Option Region
image_at ram start = if start == 0 then none else some (advance ram start)

unfoldable pub mount_module : ℕ → Cpu → Region → Kernel → BootModule → Run StartEnd
mount_module base cpu ram k m =
    if ltb (sub32 0xffff_ffff (m.start % u32_mod)) m.size || ltb (add64 m.start m.size) m.start
    then done (rootfs_error k text_mapping_error)
    else (rootfs_mount k.rootfs (image_at ram m.start) m.size >>= after_mount base cpu k)

abbrev pub after_find : ℕ → Cpu → Region → Kernel → Console × Lookup → Run StartEnd
after_find base cpu ram k (c, missing) =
    done (rootfs_error (with_console k c) text_rootfs_not_found)
after_find base cpu ram k (c, malformed) =
    done (rootfs_error (with_console k c) text_rootfs_invalid)
after_find base cpu ram k (c, found m) = mount_module base cpu ram (with_console k c) m

-- What follows the search for the frame buffer; `graphics` is whether its result is 0.
unfoldable pub after_framebuffer : ℕ → Cpu → Region → Kernel → ℕ → ℕ → Console → Bool → Run StartEnd
after_framebuffer base cpu ram k magic info c3 graphics =
    let c4 = console_write c3 (if graphics then text_graphics_ok else text_graphics_unavailable) in
    if not (magic == 0x36d7_6289)
    then done (rootfs_error (with_console k c4) text_rootfs_not_found)
    else (find_rootfs ram info c4 >>= after_find base cpu ram k)

-- `screen` is the static variable of the frame buffer, `video` the memory of the device, apart from
-- `ram`, `k` the state before the start, and `fuel` that of the search for the frame buffer.
unfoldable pub kernel_main :
    ℕ → ℕ → Cpu → Region → FramebufferState → Region → Kernel → ℕ → ℕ → Run (InitEnd × StartEnd)
kernel_main fuel base cpu ram screen video k magic info = do
  let c1 = console_write (console_write k.console text_mantle_os) text_started
  let c2 = console_write c1 text_kernel_ok
  let c3 = console_write c2 (if magic == 0x36d7_6289 then text_magic_ok else text_magic_error)
  graphics ← framebuffer_init fuel ram magic info screen video
  e ← after_framebuffer base cpu ram k magic info c3 graphics.succeeded
  done (graphics, e)
