-- ===== src/Efi/Main.antt =====
-- efi_main of boot/efi/loader.c.
use mantle_os.Base.{ℕ, not, Option, none, some, ltb, ◌==◌, if◌then◌else◌}
use mantle_os.Memory.{Run, done, fault, ◌>>=◌, Region}
use mantle_os.Efi.{Machine, AllocateAddress, load_kernel}
use mantle_os.Efi.Info.{GraphicsMode, build_info}
use mantle_os.Efi.Files.{
  StatusCodes, RootAnswers, FileAnswers, ReadEnd, nothing_held, open_root, read_file,
}

-- What the firmware answers in one run of the loader: the volume, the two files, the pages, the
-- graphics output, the two calls of GetMemoryMap around that of AllocatePool, and ExitBootServices.
pub record Firmware : Type 0 where
  pub root : RootAnswers
  pub kernel : FileAnswers
  pub rootfs : FileAnswers
  pub allocate : AllocateAddress
  pub info_page : Option (ℕ × Region)
  pub graphics : Option GraphicsMode
  pub map_size_status : ℕ
  pub map_pool : ℕ
  pub map_status : ℕ
  pub exit_status : ℕ

-- efi_main returns a status to the firmware, or jumps to the kernel: with the entry point, the
-- address and the page of the boot information, and the memory.
pub data EfiEnd : Type 0 where
  returned : ℕ → EfiEnd
  jumped : ℕ → ℕ → Region → Machine → EfiEnd

-- From the memory map to the jump.
unfoldable pub leave_firmware : StatusCodes → Firmware → ℕ → Machine → Option (ℕ × Region) → EfiEnd
leave_firmware u fw entry m none = returned u.efi_out_of_resources
leave_firmware u fw entry m (some (address, page)) =
    if not (fw.map_size_status == u.efi_buffer_too_small)
    then returned fw.map_size_status
    else if u.is_error fw.map_pool
    then returned fw.map_pool
    else if u.is_error fw.map_status
    then returned fw.map_status
    else if u.is_error fw.exit_status
    then returned fw.exit_status
    else jumped entry address page m

-- From the boot information on, if the kernel was loaded.
unfoldable pub after_kernel : StatusCodes → Firmware → Machine × Option ℕ → Run EfiEnd
after_kernel u fw (m, none) = done (returned u.efi_load_error)
after_kernel u fw (m, some entry) =
    build_info fw.info_page fw.graphics fw.rootfs.address fw.rootfs.file_size >>= λ info.
    done (leave_firmware u fw entry m info)

-- A null pointer with a status of success is read by load_kernel.
unfoldable pub start_kernel : StatusCodes → Firmware → Machine → Option Region → Run EfiEnd
start_kernel u fw m none = fault
start_kernel u fw m (some kernel) = load_kernel fw.allocate kernel m >>= after_kernel u fw

unfoldable pub after_files : StatusCodes → Firmware → Machine → ReadEnd → ReadEnd → Run EfiEnd
after_files u fw m kernel rootfs =
    if u.is_error rootfs.status
    then done (returned rootfs.status)
    else if ltb 0xffff_ffff fw.rootfs.file_size
    then done (returned u.efi_load_error)
    else start_kernel u fw m kernel.buffer

unfoldable pub efi_main : StatusCodes → Firmware → Machine → Run EfiEnd
efi_main u fw m =
    if u.is_error (open_root u fw.root) then done (returned (open_root u fw.root)) else do
      kernel ← read_file u fw.kernel nothing_held
      if u.is_error kernel.status
          then done (returned kernel.status)
          else (read_file u fw.rootfs nothing_held >>= after_files u fw m kernel)
