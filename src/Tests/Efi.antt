-- ===== src/Tests/Efi.antt =====
-- boot/efi/loader.c with a kernel of one segment and a firmware that grants every free page.
use mantle_os.Base.{
  ℕ, ◌+◌, ◌*◌, ◌%◌, ◌≤◌, ◌<◌, ◌≡◌, refl, inr, Bool, true, ◌&&◌, ◌||◌, none, some, List, [], ◌∷◌,
  leb, ltb, if◌then◌else◌, arith, u32_mod,
}
use mantle_os.Memory.{done, ◌>>=◌, Returns, Region}
use mantle_os.Efi.{Machine, Extent, AllocateAddress, load_kernel}
use mantle_os.Efi.Segments.{Apart, IsAllocator}
use mantle_os.Efi.Kernel.{KernelOutcome, load_kernel-KernelOutcome}
use mantle_os.Efi.Info.{GraphicsMode, build_info}
use mantle_os.Efi.Handover.{find_in, Finds, build_info-Finds}
use mantle_os.Efi.Files.{StatusCodes, FileAnswers, nothing_held, read_file}
use mantle_os.Efi.Released.{ReadOutcome, read_file-ReadOutcome}
use mantle_os.Efi.Main.{Firmware, efi_main}
use mantle_os.Efi.Jump.{IsFirmware, EfiOutcome, efi_main-EfiOutcome}
use mantle_os.Efi.Screen.{init_in, Shows, build_info-Shows}
use mantle_os.Framebuffer.{FramebufferState}
use mantle_os.Tests.Bytes.{byte_of, byte_of-lt}
use mantle_os.Tests.Syscall.{kernel}

-- An ELF header, one program header, and four bytes for the address 0x10_0000.
abbrev kernel_bytes : List ℕ
kernel_bytes =
    0x7f ∷ b'E' ∷ b'L' ∷ b'F' ∷ 2 ∷ 1 ∷ 1 ∷ 0 ∷ 0 ∷ 0 ∷ 0 ∷ 0 ∷ 0 ∷ 0 ∷ 0 ∷ 0 ∷ 2 ∷ 0 ∷ 62 ∷ 0 ∷ 1
    ∷ 0 ∷ 0 ∷ 0 ∷ 0 ∷ 0 ∷ 0x10 ∷ 0 ∷ 0 ∷ 0 ∷ 0 ∷ 0 ∷ 64 ∷ 0 ∷ 0 ∷ 0 ∷ 0 ∷ 0 ∷ 0 ∷ 0 ∷ 0 ∷ 0 ∷ 0 ∷ 0
    ∷ 0 ∷ 0 ∷ 0 ∷ 0 ∷ 0 ∷ 0 ∷ 0 ∷ 0 ∷ 64 ∷ 0 ∷ 56 ∷ 0 ∷ 1 ∷ 0 ∷ 0 ∷ 0 ∷ 0 ∷ 0 ∷ 0 ∷ 0 ∷ 1 ∷ 0 ∷ 0
    ∷ 0 ∷ 5 ∷ 0 ∷ 0 ∷ 0 ∷ 120 ∷ 0 ∷ 0 ∷ 0 ∷ 0 ∷ 0 ∷ 0 ∷ 0 ∷ 0 ∷ 0 ∷ 0x10 ∷ 0 ∷ 0 ∷ 0 ∷ 0 ∷ 0 ∷ 0 ∷ 0
    ∷ 0x10 ∷ 0 ∷ 0 ∷ 0 ∷ 0 ∷ 0 ∷ 4 ∷ 0 ∷ 0 ∷ 0 ∷ 0 ∷ 0 ∷ 0 ∷ 0 ∷ 8 ∷ 0 ∷ 0 ∷ 0 ∷ 0 ∷ 0 ∷ 0 ∷ 0 ∷ 0
    ∷ 0x10 ∷ 0 ∷ 0 ∷ 0 ∷ 0 ∷ 0 ∷ 0 ∷ 0xfa ∷ 0xf4 ∷ 0xeb ∷ 0xfd ∷ []

abbrev memory : ℕ
memory = 0x1_0000_0000

abbrev machine : Machine
machine = record { ram = record { byte = λ i. 0; size = memory }; taken = [] }

abbrev is_free : ℕ → ℕ → List Extent → Bool
is_free a n [] = true
is_free a n ((b, k) ∷ l) = (leb (a + n * 0x1000) b || leb (b + k * 0x1000) a) && is_free a n l

is_free-Apart : (a n : ℕ) (l : List Extent) → is_free a n l ≡ true → Apart a n l
is_free-Apart a n [] e = tt
is_free-Apart a n ((b, k) ∷ l) e = (ground arith, is_free-Apart a n l (ground arith))

abbrev grant : AllocateAddress
grant taken address n =
    if ltb 0 n && leb (address + n * 0x1000) memory && is_free address n taken
    then some address
    else none

grant-cases :
    (taken : List Extent) (address n granted : ℕ)
    → grant taken address n ≡ some granted
    → (0 < n)
      × (address + n * 0x1000 ≤ memory)
      × (is_free address n taken ≡ true)
      × (granted ≡ address)
grant-cases taken address n granted e = ground arith

grant-IsAllocator : IsAllocator grant memory
grant-IsAllocator = record {
  some_page = λ taken address n granted e. (grant-cases taken address n granted e).0;
  exists = λ taken address n granted e. omega (arith, grant-cases taken address n granted e);
  apart = λ taken address n granted e.
      let (some_page, room, free, same) = grant-cases taken address n granted e in
      rw same (is_free-Apart address n taken free);
}

-- The codes of the UEFI specification.
abbrev codes : StatusCodes
codes = record {
  is_error = λ status. leb 0x8000_0000_0000_0000 status;
  efi_success = 0;
  efi_load_error = 0x8000_0000_0000_0001;
  efi_buffer_too_small = 0x8000_0000_0000_0005;
  efi_out_of_resources = 0x8000_0000_0000_0009;
  success_lem = refl;
  load_error_lem = refl;
  too_small_lem = refl;
  out_of_resources_lem = refl;
}

abbrev kernel_file : FileAnswers
kernel_file = record {
  open_status = 0;
  size_status = 0x8000_0000_0000_0005;
  info_pool = 0;
  info_status = 0;
  file_size = 124;
  buffer_pool = 0;
  read_status = 0;
  read_size = 124;
  address = 0x20_0000;
  contents = byte_of kernel_bytes;
}

abbrev rootfs_file : FileAnswers
rootfs_file = record kernel_file {
  file_size = 32;
  read_size = 32;
  address = 0x30_0000;
  contents = λ i. 0;
}

abbrev mode : GraphicsMode
mode = record {
  frame_buffer_base = 0xe000_0000;
  pixels_per_scan_line = 800;
  horizontal_resolution = 800;
  vertical_resolution = 600;
}

abbrev firmware : Firmware
firmware = record {
  root = record { loaded = 0; filesystem = 0; volume = 0 };
  kernel = kernel_file;
  rootfs = rootfs_file;
  allocate = grant;
  info_page = some (0x9000, record { byte = λ i. 0; size = 0x1000 });
  graphics = some mode;
  map_size_status = 0x8000_0000_0000_0005;
  map_pool = 0;
  map_status = 0;
  exit_status = 0;
}

kernel_bytes-small : (i : ℕ) → byte_of kernel_bytes i < 256
kernel_bytes-small i = byte_of-lt kernel_bytes i refl

firmware-IsFirmware : IsFirmware codes firmware memory
firmware-IsFirmware = record {
  kernel_status = refl;
  rootfs_status = refl;
  map_status = refl;
  kernel_bytes = kernel_bytes-small;
  kernel_size = omega arith;
  allocator = grant-IsAllocator;
  page = inr (0x9000, (λ i. 0), refl, (λ i. omega arith), omega arith, omega arith, omega arith);
}

-- A read that returns less than the file gives the buffer back.
short_read :
    read_file codes (record kernel_file { read_size = 100 }) nothing_held
    ≡ done (record { status = 0x8000_0000_0000_0001; buffer = none; held = nothing_held })
unfolding read_file
short_read = refl

load_kernel-KernelOutcome_example :
    Returns
      (load_kernel grant (record { byte = byte_of kernel_bytes; size = 124 }) machine)
      (KernelOutcome (record { byte = byte_of kernel_bytes; size = 124 }) machine)
load_kernel-KernelOutcome_example =
    load_kernel-KernelOutcome grant (record { byte = byte_of kernel_bytes; size = 124 }) machine
      kernel_bytes-small (omega arith) (omega arith) grant-IsAllocator

build_info-Finds_example :
    Returns
      (build_info (some (0x9000, record { byte = λ i. 7; size = 0x1000 })) (some mode) 0x30_0000 32
        >>= find_in machine.ram kernel.console)
      (Finds (0x30_0000 % u32_mod) 32)
build_info-Finds_example =
    build_info-Finds machine.ram 0x9000 (λ i. 7) (some mode) 0x30_0000 32 kernel.console
      (λ i. omega arith) (λ i. omega arith) (omega arith) (omega arith) (omega arith) (omega arith)
      (omega arith)

abbrev unset : FramebufferState
unset = record {
  address = 0;
  pitch = 0;
  width = 0;
  height = 0;
  bytes_per_pixel = 0;
  red_position = 0;
  green_position = 0;
  blue_position = 0;
}

abbrev device : Region
device = record { byte = λ i. 0; size = 0x20_0000 }

build_info-Shows_example :
    Returns
      (build_info (some (0x9000, record { byte = λ i. 7; size = 0x1000 })) (some mode) 0x30_0000 32
        >>= init_in 2 machine.ram unset device)
      (Shows mode device)
build_info-Shows_example =
    build_info-Shows machine.ram 0x9000 (λ i. 7) mode 0x30_0000 32 2 unset device
      (record {
        base = (omega arith, omega arith);
        line = omega arith;
        width = (omega arith, omega arith);
        height = (omega arith, omega arith);
      })
      (omega arith) (omega arith) (omega arith) (omega arith)
      (record {
        row = omega arith;
        room = omega arith;
        positions = (omega arith, omega arith, omega arith);
        columns = (omega arith, omega arith);
        lines = (omega arith, omega arith);
      })

read_file-ReadOutcome_example :
    Returns (read_file codes kernel_file nothing_held) (ReadOutcome codes kernel_file)
read_file-ReadOutcome_example = read_file-ReadOutcome codes kernel_file refl

efi_main-EfiOutcome_example :
    Returns (efi_main codes firmware machine) (EfiOutcome codes firmware machine kernel.console)
efi_main-EfiOutcome_example =
    efi_main-EfiOutcome codes firmware machine kernel.console firmware-IsFirmware (λ i. omega arith)
      (omega arith) (omega arith) (omega arith)
