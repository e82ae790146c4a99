-- ===== src/Tests/Syscall.antt =====
-- kernel/syscall.c on a kernel that has mounted the image of two files.
use mantle_os.Base.{
  ℕ, ◌≡◌, refl, false, some, [], ◌∷◌, ◌-◌, ◌&&◌, ◌||◌, ◌==◌, if◌then◌else◌, arith, inl, inr,
}
use mantle_os.Memory.{done, Returns, advance, read8, read16, read32}
use mantle_os.Process.{ready}
use mantle_os.Rootfs.{mounted, rootfs_open, open_entries, read_entry, path_equal}
use mantle_os.Rootfs.Format.{bytes_at}
use mantle_os.Elf.{user_range}
use mantle_os.Syscall.{
  Kernel, SyscallFrame, failed, copy_path, string_length_user, string_length_from, read_user,
  read_bytes,
}
use mantle_os.Syscall.Calls.{syscall_read, syscall_write, syscall_open, syscall_exec}
use mantle_os.Syscall.Effects.{
  visible, put_all, syscall_write-visible, OpenOutcome, syscall_open-OpenOutcome,
}
use mantle_os.Keyboard.{keyboard_read, key_of}
use mantle_os.Keyboard.Characters.{FirstKey, keyboard_read-FirstKey}
use mantle_os.Syscall.Dispatch.{syscall_dispatch, mark_user, returns}
use mantle_os.Syscall.Reading.{ReadOutcome, syscall_read-ReadOutcome}
use mantle_os.Syscall.Unknown.{syscall_dispatch-other}
use mantle_os.Syscall.Invariant.{KernelOk}
use mantle_os.Syscall.Safe.{kernel_at, syscall_dispatch-KernelOk}
use mantle_os.Syscall.Exec.{ExecOutcome, syscall_exec-ExecOutcome}
use mantle_os.Tests.Bytes.{byte_of}
use mantle_os.Tests.Rootfs.{image, well_formed_lem}

-- The user memory starts with the path "/a".
abbrev pub kernel : Kernel
kernel = record {
  rootfs = mounted image 38 2;
  space = record {
    memory = record { byte = byte_of (b'/' ∷ b'a' ∷ 0 ∷ []); size = 0x20_0000 };
    pages = λ page. 0;
  };
  process = record {
    pid = 1;
    ppid = 0;
    uid = 0;
    gid = 0;
    state = ready;
    exit_code = 0;
    cwd = byte_of (b'/' ∷ []);
  };
  descriptors = λ i. record {
    used = false;
    file = record { contents = image; size = 0; mode = 0 };
    offset = 0;
  };
  user_marker_seen = false;
  hello_finished = false;
  origin_user = 1;
  console = record { serial = []; screen = λ cell. 0; cursor = 0 };
  keyboard = [];
}

kernel-KernelOk : KernelOk kernel
kernel-KernelOk = record {
  whole = refl;
  pages = λ page h. ground arith;
  files = inr (image, 38, omega arith, omega arith, well_formed_lem, refl);
  ended = (1, omega arith, refl);
}

-- A write of the path, an exec of it, a call that does not exist.
abbrev pub frame : ℕ → SyscallFrame
frame call = record {
  rax = call;
  rip = 0x40_1000;
  rflags = 2;
  rsp = 0x60_0000;
  rdi = 1;
  rsi = 0x40_0000;
  rdx = 2;
  r10 = 0;
  r8 = 0;
  r9 = 0;
}

syscall_dispatch-KernelOk_example :
    Returns (syscall_dispatch 0x20_0000 kernel (frame 1)) (λ e. KernelOk (kernel_at e))
syscall_dispatch-KernelOk_example =
    syscall_dispatch-KernelOk 0x20_0000 kernel (frame 1) refl kernel-KernelOk

syscall_exec-ExecOutcome_example :
    Returns
      (syscall_exec 0x20_0000 kernel (frame 6) 0x40_0000)
      (ExecOutcome kernel (frame 6) 0x40_0000)
syscall_exec-ExecOutcome_example =
    syscall_exec-ExecOutcome 0x20_0000 kernel (frame 6) 0x40_0000 refl kernel-KernelOk

program : Unit {0}
unfolding copy_path string_length_user string_length_from read_user user_range read_bytes
    rootfs_open open_entries read_entry path_equal read8 read16 read32
program = tt

-- The path "/a" is that of a file of two bytes.
copies : copy_path kernel.space.memory 0x40_0000 ≡ done (some (b'/' ∷ b'a' ∷ []))
unfolding program
copies = refl

finds :
    rootfs_open kernel.rootfs (some (b'/' ∷ b'a' ∷ []))
    ≡ done (some (record { contents = advance image 36; size = 2; mode = 1 }))
unfolding program
finds = refl

syscall_open-OpenOutcome_example :
    Returns
      (syscall_open kernel 0x40_0000)
      (OpenOutcome kernel (some (record { contents = advance image 36; size = 2; mode = 1 })) 3)
syscall_open-OpenOutcome_example =
    syscall_open-OpenOutcome kernel 0x40_0000 (b'/' ∷ b'a' ∷ [])
      (some (record { contents = advance image 36; size = 2; mode = 1 })) copies finds

syscall_write-visible_example :
    syscall_write kernel 1 0x40_0000 3
    ≡ done (
        if ((1 == 1) || (1 == 2)) && user_range 0x40_0000 3
        then (
          record kernel {
            console =
                put_all kernel.console
                  (visible (bytes_at kernel.space.memory.byte (0x40_0000 - 0x40_0000) 3));
          },
          3,
        )
        else (kernel, failed))
syscall_write-visible_example = syscall_write-visible kernel 1 0x40_0000 3 refl

keyboard_read-FirstKey_example :
    FirstKey (0x9e ∷ 0x39 ∷ 0x1e ∷ 0x1c ∷ []) (keyboard_read (0x9e ∷ 0x39 ∷ 0x1e ∷ 0x1c ∷ []))
keyboard_read-FirstKey_example = keyboard_read-FirstKey (0x9e ∷ 0x39 ∷ 0x1e ∷ 0x1c ∷ [])

types : keyboard_read (0x9e ∷ 0x39 ∷ 0x1e ∷ 0x1c ∷ []) ≡ some (b'a', 0x1c ∷ [])
unfolding keyboard_read key_of
types = refl

-- Two keys, the second of them the return key.
abbrev typing : Kernel
typing = record kernel { keyboard = 0x1e ∷ 0x1c ∷ [] }

syscall_read-ReadOutcome_example :
    Returns (syscall_read typing 0 0x40_0000 16) (ReadOutcome typing 0 0x40_0000 16)
syscall_read-ReadOutcome_example = syscall_read-ReadOutcome typing 0 0x40_0000 16 refl

syscall_dispatch-other_example :
    syscall_dispatch 0x20_0000 kernel (frame 7)
    ≡ done (returns (mark_user kernel) (record (frame 7) { rax = 0xffff_ffff_ffff_ffff }) failed)
syscall_dispatch-other_example =
    syscall_dispatch-other 0x20_0000 kernel (frame 7) (inr (inr (inl refl)))
