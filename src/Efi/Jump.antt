-- ===== src/Efi/Jump.antt =====
-- efi_main of boot/efi/loader.c: what holds when it jumps to the kernel, and when it returns.
use mantle_os.Base.{
  ℕ, ◌+◌, ◌%◌, ◌≤◌, ◌<◌, ◌≡◌, ◌⊎◌, inl, inr, true, false, Option, none, some, arith, u32_mod,
  Bool-cases, ltb, not, ◌==◌, ap, ◌∙◌, if◌then◌else◌,
}
use mantle_os.Memory.{done, ◌>>=◌, Returns, Returns-bind, Region, le16, le64}
use mantle_os.Console.{Console}
use mantle_os.Boot.{find_rootfs}
use mantle_os.Boot.Reads.{IsBytes}
use mantle_os.Efi.{Machine, load_kernel}
use mantle_os.Efi.Segments.{IsAllocator, Grown}
use mantle_os.Efi.Kernel.{KernelOutcome, Loaded, load_kernel-KernelOutcome}
use mantle_os.Efi.Info.{build_info}
use mantle_os.Efi.Page.{build_info_lem}
use mantle_os.Efi.Handover.{with_page, find_in, Finds, build_info-Finds}
use mantle_os.Efi.Files.{StatusCodes, ReadEnd, nothing_held, open_root, read_file}
use mantle_os.Efi.Released.{ReadOutcome, read_file-ReadOutcome}
use mantle_os.Efi.Main.{
  Firmware, EfiEnd, returned, jumped, leave_firmware, after_kernel, start_kernel, after_files,
  efi_main,
}

-- What the firmware promises: requests without a buffer fail, the files hold bytes, the kernel is
-- below 2 ^ 63 bytes, and pages are handed out as documented.
pub record IsFirmware (u : StatusCodes) (fw : Firmware) (memory : ℕ) : Type 0 where
  pub kernel_status : u.is_error fw.kernel.size_status ≡ true
  pub rootfs_status : u.is_error fw.rootfs.size_status ≡ true
  pub map_status : u.is_error fw.map_size_status ≡ true
  pub kernel_bytes : (i : ℕ) → fw.kernel.contents i < 256
  pub kernel_size : fw.kernel.file_size < 0x8000_0000_0000_0000
  pub allocator : IsAllocator fw.allocate memory
  pub page :
      (fw.info_page ≡ none)
      ⊎ ((address : ℕ) × (f : ℕ → ℕ) × (fw.info_page
            ≡ some (address, record { byte = f; size = 0x1000 }))
          × ((i : ℕ) → f i < 256)
          × (0 < address)
          × (address < u32_mod)
          × (address + 0x1000 ≤ memory))

abbrev pub kernel_image : Firmware → Region
kernel_image fw = record { byte = fw.kernel.contents; size = fw.kernel.file_size }

abbrev pub EfiOutcome : StatusCodes → Firmware → Machine → Console → EfiEnd → Type 0
EfiOutcome u fw m c (returned status) = u.is_error status ≡ true
EfiOutcome u fw m c (jumped entry address page m') =
    (fw.kernel.read_size ≡ fw.kernel.file_size)
    × (fw.rootfs.read_size ≡ fw.rootfs.file_size)
    × (u.is_error fw.exit_status ≡ false)
    × Grown m m'
    × (entry ≡ le64 fw.kernel.contents 24)
    × Loaded (kernel_image fw) (le16 fw.kernel.contents 56) m'
    × Returns (find_rootfs (with_page m'.ram address page) address c)
        (Finds (fw.rootfs.address % u32_mod) fw.rootfs.file_size)

module _ (u : StatusCodes) (fw : Firmware) (m : Machine) (c : Console)
    (good : IsFirmware u fw m.ram.size) (bytes : IsBytes m.ram)
    (small : m.ram.size ≤ 0x10_0000_0000_0000) (some_byte : 0 < fw.rootfs.file_size)
    (fits : fw.rootfs.address % u32_mod + fw.rootfs.file_size < u32_mod)
    (kernel_whole : fw.kernel.read_size ≡ fw.kernel.file_size)
    (rootfs_whole : fw.rootfs.read_size ≡ fw.rootfs.file_size) where
  leave_firmware-EfiOutcome :
      (entry address : ℕ) (page : Region) (m' : Machine)
      → (u.is_error fw.exit_status ≡ false → EfiOutcome u fw m c (jumped entry address page m'))
      → EfiOutcome u fw m c (leave_firmware u fw entry m' (some (address, page)))
  unfolding leave_firmware
  leave_firmware-EfiOutcome entry address page m' ready =
      elim (Bool-cases (not (fw.map_size_status == u.efi_buffer_too_small))) [
        | inl e ↦ rw e good.map_status
        | inr e ↦ rw e (elim (Bool-cases (u.is_error fw.map_pool)) [
          | inl e1 ↦ rw e1 e1
          | inr e1 ↦ rw e1 (elim (Bool-cases (u.is_error fw.map_status)) [
            | inl e2 ↦ rw e2 e2
            | inr e2 ↦ rw e2 (elim (Bool-cases (u.is_error fw.exit_status)) [
              | inl e3 ↦ rw e3 e3
              | inr e3 ↦ rw e3 (ready e3)
            ])
          ])
        ])
      ]

  no_page :
      fw.info_page ≡ none
      → build_info fw.info_page fw.graphics fw.rootfs.address fw.rootfs.file_size ≡ done none
  unfolding build_info
  no_page e = ap (λ p. build_info p fw.graphics fw.rootfs.address fw.rootfs.file_size) e

  -- The boot information on a page that the firmware grants.
  handed_over :
      (address entry : ℕ) (f : ℕ → ℕ) (m' : Machine)
      → fw.info_page ≡ some (address, record { byte = f; size = 0x1000 })
      → ((page : Region)
          → Returns
              (find_rootfs (with_page m'.ram address page) address c)
              (Finds (fw.rootfs.address % u32_mod) fw.rootfs.file_size)
          → EfiOutcome u fw m c (leave_firmware u fw entry m' (some (address, page))))
      → Returns
          (build_info
              (some (address, record { byte = f; size = 0x1000 }))
              fw.graphics
              fw.rootfs.address
              fw.rootfs.file_size
            >>= find_in m'.ram c)
          (Finds (fw.rootfs.address % u32_mod) fw.rootfs.file_size)
      → Returns
          (build_info fw.info_page fw.graphics fw.rootfs.address fw.rootfs.file_size >>= λ info.
            done (leave_firmware u fw entry m' info))
          (EfiOutcome u fw m c)
  handed_over address entry f m' e ready finds =
      let built = build_info_lem address f fw.graphics fw.rootfs.address fw.rootfs.file_size in
      let same =
        ap (λ p. build_info p fw.graphics fw.rootfs.address fw.rootfs.file_size) e ∙ built in
      rw same (ready _ (rw built at finds))

  after_kernel-EfiOutcome :
      (r : Machine × Option ℕ)
      → KernelOutcome (kernel_image fw) m r
      → Returns (after_kernel u fw r) (EfiOutcome u fw m c)
  unfolding after_kernel leave_firmware
  after_kernel-EfiOutcome (m', none) grown = u.load_error_lem
  after_kernel-EfiOutcome (m', some entry) (grown, at, loaded) = elim good.page [
    | inl e ↦ rw (no_page e) u.out_of_resources_lem
    | inr (address, f, e, f_bytes, some_address, low, room) ↦
        handed_over address entry f m' e
          (λ page finds.
            leave_firmware-EfiOutcome entry address page m'
              λ exited. (kernel_whole, rootfs_whole, exited, grown, at, loaded, finds))
          (build_info-Finds m'.ram address f fw.graphics fw.rootfs.address fw.rootfs.file_size c
            (grown.bytes bytes) f_bytes some_address low (rw grown.size room) some_byte fits)
  ]

  start_kernel-EfiOutcome :
      Returns (start_kernel u fw m (some (kernel_image fw))) (EfiOutcome u fw m c)
  unfolding start_kernel
  start_kernel-EfiOutcome =
      Returns-bind (load_kernel fw.allocate (kernel_image fw) m) (after_kernel u fw)
        (KernelOutcome (kernel_image fw) m) (EfiOutcome u fw m c)
        (load_kernel-KernelOutcome fw.allocate (kernel_image fw) m good.kernel_bytes
          good.kernel_size small good.allocator)
        after_kernel-EfiOutcome

module _ (u : StatusCodes) (fw : Firmware) (m : Machine) (c : Console)
    (good : IsFirmware u fw m.ram.size) (bytes : IsBytes m.ram)
    (small : m.ram.size ≤ 0x10_0000_0000_0000) (some_byte : 0 < fw.rootfs.file_size)
    (fits : fw.rootfs.address % u32_mod + fw.rootfs.file_size < u32_mod) where
  after_files-EfiOutcome :
      (kernel rootfs : ReadEnd)
      → ReadOutcome u fw.rootfs rootfs
      → fw.kernel.read_size ≡ fw.kernel.file_size
      → kernel.buffer ≡ some (kernel_image fw)
      → Returns (after_files u fw m kernel rootfs) (EfiOutcome u fw m c)
  unfolding after_files
  after_files-EfiOutcome kernel rootfs (closed, freed, read_end) kernel_whole e =
      elim (Bool-cases (u.is_error rootfs.status)) [
        | inl bad ↦ rw bad bad
        | inr read ↦ rw read (elim (Bool-cases (ltb 0xffff_ffff fw.rootfs.file_size)) [
          | inl large ↦ rw large u.load_error_lem
          | inr below ↦
              rw (below, e)
                (start_kernel-EfiOutcome u fw m c good bytes small some_byte fits kernel_whole
                  (ground (arith, read_end)))
        ])
      ]

  after_kernel_file-EfiOutcome :
      (kernel : ReadEnd)
      → ReadOutcome u fw.kernel kernel
      → Returns
          (if u.is_error kernel.status
            then done (returned kernel.status)
            else (read_file u fw.rootfs nothing_held >>= after_files u fw m kernel))
          (EfiOutcome u fw m c)
  after_kernel_file-EfiOutcome kernel (closed, freed, inr (bad, none_there, free)) = rw bad bad
  after_kernel_file-EfiOutcome kernel (closed, freed, inl (status, buffer, whole, held)) =
      let read : u.is_error kernel.status ≡ false = rw status u.success_lem in
      rw read (
        Returns-bind (read_file u fw.rootfs nothing_held) (after_files u fw m kernel)
          (ReadOutcome u fw.rootfs) (EfiOutcome u fw m c)
          (read_file-ReadOutcome u fw.rootfs good.rootfs_status)
          λ rootfs t. after_files-EfiOutcome kernel rootfs t whole buffer)

-- On a firmware that keeps its promises, in a memory of at most 2 ^ 52 bytes, with a root file
-- system of at least one byte whose addresses, cut to 32 bits, do not wrap: The loader ends, and stays within its
-- buffers. If it returns, then with an error. If it jumps to the kernel, then after both files were read whole and
-- the firmware's services were left without an error, to the entry point of the file's header, with every segment of the kernel in memory as loaded, and nothing else changed by
-- the load; and the kernel's search in the boot information, at the address that is handed over, finds
-- the root file system with its address and size.
pub efi_main-EfiOutcome :
    (u : StatusCodes) (fw : Firmware) (m : Machine) (c : Console)
    → IsFirmware u fw m.ram.size
    → IsBytes m.ram
    → m.ram.size ≤ 0x10_0000_0000_0000
    → 0 < fw.rootfs.file_size
    → fw.rootfs.address % u32_mod + fw.rootfs.file_size < u32_mod
    → Returns (efi_main u fw m) (EfiOutcome u fw m c)
unfolding efi_main
efi_main-EfiOutcome u fw m c good bytes small some_byte fits =
    elim (Bool-cases (u.is_error (open_root u fw.root))) [
      | inl bad ↦ rw bad bad
      | inr opened ↦ rw opened (
          Returns-bind (read_file u fw.kernel nothing_held) _ (ReadOutcome u fw.kernel)
            (EfiOutcome u fw m c) (read_file-ReadOutcome u fw.kernel good.kernel_status)
            (after_kernel_file-EfiOutcome u fw m c good bytes small some_byte fits))
    ]
