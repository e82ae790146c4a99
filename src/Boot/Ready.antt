-- ===== src/Boot/Ready.antt =====
-- The state in which mantle_kernel_main of kernel/arch/x86_64/kernel.c enters user mode.
use mantle_os.Base.{
  ℕ, ◌+◌, ◌%◌, ◌≤◌, ◌<◌, ◌≡◌, refl, sym, subst, inl, inr, Bool, ◌||◌, Option, none, some, List, ltb,
  ◌==◌, arith, Bool-cases, add64, sub32, u32_mod,
}
use mantle_os.Memory.{Run, done, fault, ◌>>=◌, Returns, Returns-bind, Region, advance}
use mantle_os.Memory.Overlay.{overlay}
use mantle_os.Console.{Console, console_write}
use mantle_os.Multiboot2.{BootModule}
use mantle_os.Rootfs.{RootfsState, RootfsStatus, valid, invalid, rootfs_mount}
use mantle_os.Rootfs.Mount.{MountOutcome, rootfs_mount-MountOutcome}
use mantle_os.Elf.{UserImage}
use mantle_os.Elf.Loader.{blank_permissions, page_entry}
use mantle_os.Elf.Pages.{set_pages-overlay, page_entry-IsWx, blank-IsSafe}
use mantle_os.Elf.Outcome.{blank-AllWx}
use mantle_os.Process.{process_init}
use mantle_os.Syscall.{Kernel}
use mantle_os.Syscall.Calls.{load_path}
use mantle_os.Syscall.Invariant.{KernelOk, RootfsOk, load_path-KernelOk}
use mantle_os.Syscall.Exec.{LoadPathOutcome, load_path-LoadPathOutcome}
use mantle_os.Framebuffer.{FramebufferState}
use mantle_os.Framebuffer.Init.{framebuffer_init}
use mantle_os.Framebuffer.Tags.{OnlyPixels, NeedsTags, framebuffer_init-OnlyPixels}
use mantle_os.Boot.{Lookup, found, missing, malformed, find_rootfs}
use mantle_os.Boot.Find.{FindOutcome, find_rootfs-cases, find_rootfs-FindOutcome}
use mantle_os.Boot.Reads.{IsBytes, field, field-lt}
use mantle_os.Boot.Texts.{hello_path, text_elf_ok}
use mantle_os.Boot.Start.{
  Cpu, Diagnosis, ring3_diagnostics, StartEnd, stops, enters, rootfs_error, after_diagnosis,
  after_load, start_user, after_mount, mount_module, after_find, after_framebuffer, kernel_main,
}
use mantle_os.Boot.Diagnostics.{UserReady, DiagnosisOutcome, ring3_diagnostics-DiagnosisOutcome}

Returns-both :
    {A : Type 0} (m : Run A) (P Q : A → Type 0)
    → Returns m P
    → Returns m Q
    → Returns m (λ a. P a × Q a)
Returns-both (done a) P Q p q = (p, q)
Returns-both fault P Q p q = p

-- How the start may end: if the kernel enters user mode, its state satisfies the invariant and the
-- program is ready.
abbrev pub StartOutcome : StartEnd → Type 0
StartOutcome (stops k) = Unit {0}
StartOutcome (enters k entry stack) = KernelOk k × UserReady k.space.pages entry stack

after_diagnosis-StartOutcome :
    (k : Kernel) (image : UserImage) (d : Diagnosis)
    → KernelOk k
    → image.stack ≡ 0x60_0000
    → DiagnosisOutcome k.space.pages image.entry 0x60_0000 d
    → StartOutcome (after_diagnosis k image d)
unfolding after_diagnosis
after_diagnosis-StartOutcome k image d ok top (whole, ready) = elim (Bool-cases d.passed) [
  | inl passed ↦ simp (passed) (
    record { whole = whole; pages = ok.pages; files = ok.files; ended = ok.ended },
    subst (UserReady k.space.pages image.entry) (sym top) (ready passed),
  )
  | inr refused ↦ simp (refused) tt
]

after_load-StartOutcome :
    (cpu : Cpu) (k : Kernel) (path : List ℕ) (r : Kernel × Option UserImage)
    → KernelOk r.0
    → LoadPathOutcome k path r
    → Returns (after_load cpu r) StartOutcome
after_load-StartOutcome cpu k path (k', none) ok out = tt
after_load-StartOutcome cpu k path (k', some image) ok (same, started) =
    let c = console_write k'.console text_elf_ok in
    Returns-bind (ring3_diagnostics cpu k'.space.pages k'.space.memory c image.entry image.stack)
      (λ d. done (after_diagnosis k' image d))
      (DiagnosisOutcome k'.space.pages image.entry 0x60_0000) StartOutcome
      (subst
        (λ stack.
          Returns (ring3_diagnostics cpu k'.space.pages k'.space.memory c image.entry stack)
            (DiagnosisOutcome k'.space.pages image.entry 0x60_0000))
        (sym started.loaded.stack)
        (ring3_diagnostics-DiagnosisOutcome cpu k'.space.pages k'.space.memory c image.entry
          ok.whole))
      λ d out. after_diagnosis-StartOutcome k' image d ok started.loaded.stack out

hello-StartOutcome :
    (base : ℕ) (cpu : Cpu) (k : Kernel)
    → base % 4096 ≡ 0
    → KernelOk k
    → Returns (load_path base k hello_path >>= after_load cpu) StartOutcome
hello-StartOutcome base cpu k aligned ok =
    Returns-bind (load_path base k hello_path) (after_load cpu)
      (λ r. KernelOk r.0 × LoadPathOutcome k hello_path r) StartOutcome
      (Returns-both _ _ _ (load_path-KernelOk base k hello_path aligned ok)
        (load_path-LoadPathOutcome base k hello_path aligned ok))
      λ r (kept, out). after_load-StartOutcome cpu k hello_path r kept out

start_user-StartOutcome :
    (base : ℕ) (cpu : Cpu) (k : Kernel)
    → base % 4096 ≡ 0
    → k.space.memory.size ≡ 0x20_0000
    → RootfsOk k.rootfs
    → Returns (start_user base cpu k) StartOutcome
unfolding start_user process_init
start_user-StartOutcome base cpu k aligned whole files =
    let blank : ℕ → ℕ = λ i. page_entry base (0 + i) blank_permissions in
    let k' : Kernel = record k {
      space = record { memory = k.space.memory; pages = overlay k.space.pages 0 512 blank };
      process = process_init k.process;
    } in
    rw (set_pages-overlay base 512 0 blank_permissions k.space.pages (omega arith)) (
      hello-StartOutcome base cpu k' aligned (record {
        whole = whole;
        pages =
            blank-AllWx k.space.pages blank
              λ i. page_entry-IsWx base (0 + i) blank_permissions aligned blank-IsSafe;
        files = files;
        ended = (1, omega arith, refl);
      }))

mounted-StartOutcome :
    (base : ℕ) (cpu : Cpu) (k : Kernel) (image : Region) (size : ℕ)
    → base % 4096 ≡ 0
    → k.space.memory.size ≡ 0x20_0000
    → size ≤ image.size
    → size < u32_mod
    → (r : RootfsState × RootfsStatus) → MountOutcome image size r
    → Returns (after_mount base cpu k r) StartOutcome
unfolding rootfs_error
mounted-StartOutcome base cpu k image size aligned whole inside small (rootfs, invalid) out = tt
mounted-StartOutcome base cpu k image size aligned whole inside small (rootfs, valid) (good, e) =
    start_user-StartOutcome base cpu _ aligned whole (inr (image, size, inside, small, good, e))

module _ (base : ℕ) (cpu : Cpu) (ram : Region) (aligned : base % 4096 ≡ 0)
    (mapped : u32_mod ≤ ram.size) where
  mount_module-StartOutcome :
      (k : Kernel) (m : BootModule)
      → k.space.memory.size ≡ 0x20_0000
      → m.start < u32_mod
      → m.size < u32_mod
      → Returns (mount_module base cpu ram k m) StartOutcome
  unfolding mount_module rootfs_error rootfs_mount
  mount_module-StartOutcome k m whole start small =
      elim (Bool-cases (
        ltb (sub32 0xffff_ffff (m.start % u32_mod)) m.size || ltb (add64 m.start m.size) m.start)) [
          | inl bad ↦ rw bad tt
          | inr good ↦ rw good (elim (Bool-cases (m.start == 0)) [
            | inl null ↦ rw null (null_image k m.size)
            | inr address ↦ rw address (
                Returns-bind (rootfs_mount k.rootfs (some (advance ram m.start)) m.size) _
                  (MountOutcome (advance ram m.start) m.size) StartOutcome
                  (rootfs_mount-MountOutcome k.rootfs (advance ram m.start) m.size (ground arith)
                    small)
                  (mounted-StartOutcome base cpu k (advance ram m.start) m.size aligned whole
                    (ground arith) small))
          ])
        ]
    where
      null_image :
          (k : Kernel) (size : ℕ)
          → Returns (rootfs_mount k.rootfs none size >>= after_mount base cpu k) StartOutcome
      null_image k size = tt

  after_find-StartOutcome :
      (k : Kernel) (end from : ℕ) (r : Console × Lookup)
      → IsBytes ram
      → k.space.memory.size ≡ 0x20_0000
      → FindOutcome ram end from r
      → Returns (after_find base cpu ram k r) StartOutcome
  unfolding rootfs_error
  after_find-StartOutcome k end from (c, missing) bytes whole out = tt
  after_find-StartOutcome k end from (c, malformed) bytes whole out = tt
  after_find-StartOutcome k end from (c, found m) bytes whole
        (at, leads, (inside, tag, start, ends, sum)) =
      mount_module-StartOutcome (record k { console = c }) m whole
        (omega (arith, field-lt ram at 8 bytes)) (omega (arith, field-lt ram at 12 bytes))

  search-StartOutcome :
      (k : Kernel) (info : ℕ) (c : Console)
      → IsBytes ram
      → info + 0x10_0000 ≤ u32_mod
      → k.space.memory.size ≡ 0x20_0000
      → Returns (find_rootfs ram info c >>= after_find base cpu ram k) StartOutcome
  unfolding rootfs_error
  search-StartOutcome k info c bytes low whole = elim (find_rootfs-cases ram info c (omega arith)) [
    | inl e ↦ rw e tt
    | inr (inl e) ↦ rw e tt
    | inr (inr (some_info, big, fits)) ↦
        Returns-bind (find_rootfs ram info c) (after_find base cpu ram k)
          (FindOutcome ram (info + field ram info 0) (info + 8)) StartOutcome
          (find_rootfs-FindOutcome ram info c bytes some_info (omega arith) big fits (omega arith))
          λ r out. after_find-StartOutcome k (info + field ram info 0) (info + 8) r bytes whole out
  ]

after_framebuffer-StartOutcome :
    (base : ℕ) (cpu : Cpu) (ram : Region) (k : Kernel) (magic info : ℕ) (c : Console)
    (graphics : Bool)
    → base % 4096 ≡ 0
    → u32_mod ≤ ram.size
    → IsBytes ram
    → info + 0x10_0000 ≤ u32_mod
    → k.space.memory.size ≡ 0x20_0000
    → Returns (after_framebuffer base cpu ram k magic info c graphics) StartOutcome
unfolding after_framebuffer rootfs_error
after_framebuffer-StartOutcome base cpu ram k magic info c graphics aligned mapped bytes low whole =
    elim (Bool-cases (magic == 0x36d7_6289)) [
      | inl multiboot ↦
          rw multiboot (search-StartOutcome base cpu ram aligned mapped k info _ bytes low whole)
      | inr other ↦ rw other tt
    ]

-- With four gigabytes of mapped memory, a user memory of 2 MiB at a page boundary, the address of the
-- boot information at least 1 MiB below the end of those four gigabytes, and, if it is that of a
-- Multiboot 2 loader, boot information whose tags lead, before the search's fuel is used up, to a
-- last one or to a frame buffer on whose screen, if it is usable, the splash screen can be drawn:
-- Whatever else the boot information and the module hold, the kernel starts without a fault. It
-- never reads outside the memory, and writes for the user only in the user memory, and in the memory
-- of the device, which is mapped and apart from all of that, only pixels of the screen. If it enters
-- user mode, the invariant of the system calls holds, and the program starts on a page that it can
-- execute and not write, with a stack that it can write and not execute.
pub kernel_main-StartOutcome :
    (fuel base : ℕ) (cpu : Cpu) (ram : Region) (screen : FramebufferState) (video : Region)
    (k : Kernel) (magic info : ℕ)
    → base % 4096 ≡ 0
    → u32_mod ≤ ram.size
    → IsBytes ram
    → info + 0x10_0000 ≤ u32_mod
    → k.space.memory.size ≡ 0x20_0000
    → NeedsTags fuel ram magic info video
    → Returns
        (kernel_main fuel base cpu ram screen video k magic info)
        (λ r. OnlyPixels video (r.0) × StartOutcome (r.1))
unfolding kernel_main
kernel_main-StartOutcome fuel base cpu ram screen video k magic info aligned mapped bytes low whole
      needs =
    Returns-bind (framebuffer_init fuel ram magic info screen video) _ (OnlyPixels video) _
      (framebuffer_init-OnlyPixels fuel ram magic info screen video needs)
      λ g pixels.
        Returns-bind (after_framebuffer base cpu ram k magic info _ g.succeeded) _ StartOutcome _
          (after_framebuffer-StartOutcome base cpu ram k magic info _ g.succeeded aligned mapped
            bytes low whole)
          λ e out. (pixels, out)
