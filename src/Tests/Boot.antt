-- ===== src/Tests/Boot.antt =====
-- The start of kernel/arch/x86_64/kernel.c with a module that holds the image of two files.
use mantle_os.Base.{
  ℕ, ◌+◌, ◌-◌, refl, inl, inr, true, Bool-cases, List, [], ◌∷◌, ltb, if◌then◌else◌, arith,
}
use mantle_os.Memory.{Returns, Region}
use mantle_os.Boot.{find_rootfs}
use mantle_os.Boot.Find.{FindOutcome, find_rootfs-FindOutcome}
use mantle_os.Boot.Reads.{IsBytes, field}
use mantle_os.Boot.Start.{Cpu, kernel_main}
use mantle_os.Boot.Ready.{StartOutcome, kernel_main-StartOutcome}
use mantle_os.Framebuffer.Search.{Passes, screen, pass}
use mantle_os.Framebuffer.Tags.{OnlyPixels, NeedsTags}
use mantle_os.Tests.Framebuffer.{small_screen, device}
use mantle_os.Tests.Bytes.{byte_of, byte_of-lt}
use mantle_os.Tests.Rootfs.{image_bytes}
use mantle_os.Tests.Syscall.{kernel}

-- 96 bytes: an unknown tag, the tag of the module from 0x10000 to 0x10026, that of a screen of 800 by
-- 600 pixels at 0xe000_0000, and the last tag.
abbrev pub info_bytes : List ℕ
info_bytes =
    96 ∷ 0 ∷ 0 ∷ 0 ∷ 0 ∷ 0 ∷ 0 ∷ 0 ∷ 1 ∷ 0 ∷ 0 ∷ 0 ∷ 8 ∷ 0 ∷ 0 ∷ 0 ∷ 3 ∷ 0 ∷ 0 ∷ 0 ∷ 30 ∷ 0 ∷ 0 ∷ 0
    ∷ 0 ∷ 0 ∷ 1 ∷ 0 ∷ 0x26 ∷ 0 ∷ 1 ∷ 0 ∷ b'm' ∷ b'a' ∷ b'n' ∷ b't' ∷ b'l' ∷ b'e' ∷ b'-' ∷ b'r'
    ∷ b'o' ∷ b'o' ∷ b't' ∷ b'f' ∷ b's' ∷ 0 ∷ 0 ∷ 0 ∷ 8 ∷ 0 ∷ 0 ∷ 0 ∷ 38 ∷ 0 ∷ 0 ∷ 0 ∷ 0 ∷ 0 ∷ 0
    ∷ 0xe0 ∷ 0 ∷ 0 ∷ 0 ∷ 0 ∷ 0x80 ∷ 0x0c ∷ 0 ∷ 0 ∷ 0x20 ∷ 3 ∷ 0 ∷ 0 ∷ 0x58 ∷ 2 ∷ 0 ∷ 0 ∷ 32 ∷ 1 ∷ 0
    ∷ 0 ∷ 0 ∷ 8 ∷ 8 ∷ 8 ∷ 16 ∷ 8 ∷ 0 ∷ 0 ∷ 0 ∷ 0 ∷ 0 ∷ 0 ∷ 8 ∷ 0 ∷ 0 ∷ 0 ∷ []

abbrev pub ram : Region
ram = record {
  byte = λ i.
      if ltb i 0x1000
      then 0
      else if ltb i 0x1_0000
      then byte_of info_bytes (i - 0x1000)
      else byte_of image_bytes (i - 0x1_0000);
  size = 0x1_0000_0000;
}

pub ram-IsBytes : IsBytes ram
ram-IsBytes i = elim (Bool-cases (ltb i 0x1000)) [
  | inl low ↦ rw low (omega arith)
  | inr above ↦ rw above (elim (Bool-cases (ltb i 0x1_0000)) [
    | inl info ↦ rw info (byte_of-lt info_bytes (i - 0x1000) refl)
    | inr module_at ↦ rw module_at (byte_of-lt image_bytes (i - 0x1_0000) refl)
  ])
]

abbrev pub cpu : Cpu
cpu = record {
  gdt3 = 0x00cf_f200_0000_ffff;
  gdt4 = 0x00af_fa00_0000_ffff;
  tss_loaded = true;
  kernel_pde = 0x83;
  cr3 = 0x1_1000;
}

find_rootfs-FindOutcome_example :
    Returns
      (find_rootfs ram 0x1000 kernel.console)
      (FindOutcome ram (0x1000 + field ram 0x1000 0) (0x1000 + 8))
find_rootfs-FindOutcome_example =
    find_rootfs-FindOutcome ram 0x1000 kernel.console ram-IsBytes (omega arith) (omega arith)
      (omega arith) (omega arith) (omega arith)

ram-Passes : Passes ram 0x1030 0x1008 2
ram-Passes =
    pass (omega arith) (omega arith) (inl (omega arith)) (
      pass (omega arith) (omega arith) (inl (omega arith))
        (screen (omega arith) refl (omega arith)))

pub ram-NeedsTags : NeedsTags 3 ram 0x36d7_6289 0x1000 device
ram-NeedsTags multiboot some_info = record {
  stop = 0x1030;
  passed = 2;
  passes = ram-Passes;
  enough = omega arith;
  drawable = λ usable. record {
    row = omega arith;
    room = omega arith;
    columns = (omega arith, omega arith);
    positions = (omega arith, omega arith, omega arith);
    lines = (omega arith, omega arith);
  };
}

kernel_main-StartOutcome_example :
    Returns
      (kernel_main 3 0x20_0000 cpu ram small_screen device kernel 0x36d7_6289 0x1000)
      (λ r. OnlyPixels device (r.0) × StartOutcome (r.1))
kernel_main-StartOutcome_example =
    kernel_main-StartOutcome 3 0x20_0000 cpu ram small_screen device kernel 0x36d7_6289 0x1000 refl
      (omega arith) ram-IsBytes (omega arith) refl ram-NeedsTags
