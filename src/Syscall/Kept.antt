-- ===== src/Syscall/Kept.antt =====
-- The calls of kernel/syscall.c on files and programs keep the invariant of the kernel.
use mantle_os.Base.{
  ℕ, zero, suc, ◌+◌, ◌%◌, ◌≤◌, ◌≡◌, refl, inl, inr, not, ◌&&◌, ◌||◌, Option, none, some, List, ltb,
  ◌==◌, arith, Bool-cases, length, u32_mod,
}
use mantle_os.Memory.{Returns, Returns-bind, Anything}
use mantle_os.Rootfs.{rootfs_open}
use mantle_os.Elf.{UserImage, user_range}
use mantle_os.Keyboard.{keyboard_read}
use mantle_os.Syscall.{SyscallFrame, Kernel, write_console, copy_path}
use mantle_os.Syscall.Calls.{
  write_chars, syscall_write, read_chars, syscall_read, open_descriptor, syscall_open,
  syscall_close, load_path, exec_result, next_frame, syscall_exec, load_next_user,
}
use mantle_os.Syscall.Access.{user_range_iff, read_user_lem, write_user_lem, copy_path-Returns}
use mantle_os.Syscall.Invariant.{
  Keeps, with_memory-KernelOk, KernelOk, FileOk, rootfs_open-FileOk, load_path-KernelOk,
}

write_chars-KernelOk :
    (left address : ℕ) (k : Kernel)
    → 0x40_0000 ≤ address
    → address + left ≤ 0x60_0000
    → KernelOk k
    → Returns (write_chars left address k) KernelOk
unfolding write_chars write_console
write_chars-KernelOk zero address k low high ok = ok
write_chars-KernelOk (suc left) address k low high ok =
    rw (read_user_lem k.space.memory ok.whole address low (omega arith))
      (write_chars-KernelOk left (address + 1) _ (omega arith) (omega arith) ok)

pub syscall_write-Keeps :
    (k : Kernel) (fd address length : ℕ)
    → KernelOk k
    → Returns (syscall_write k fd address length) Keeps
unfolding syscall_write
syscall_write-Keeps k fd address length ok =
    elim (Bool-cases ((not (fd == 1) && not (fd == 2)) || not (user_range address length))) [
      | inl bad ↦ rw bad ok
      | inr good ↦ rw good (
          Returns-bind (write_chars (length % u32_mod) address k) _ KernelOk Keeps
            (write_chars-KernelOk (length % u32_mod) address k
              (ground (arith, user_range_iff address length))
              (ground (arith, user_range_iff address length)) ok)
            λ k' ok'. ok')
    ]

read_chars-Keeps :
    (left index address : ℕ) (k : Kernel)
    → 0x40_0000 ≤ address
    → address + index + left ≤ 0x60_0000
    → KernelOk k
    → Returns (read_chars left index address k) Keeps
unfolding read_chars
read_chars-Keeps zero index address k low high ok = ok
read_chars-Keeps (suc left) index address k low high ok =
    go (λ k' ok'. read_chars-Keeps left (index + 1) address k' low (omega arith) ok')
      (keyboard_read k.keyboard) refl
  where
    go :
        ((k' : Kernel) → KernelOk k' → Returns (read_chars left (index + 1) address k') Keeps)
        → (r : Option (ℕ × List ℕ)) → keyboard_read k.keyboard ≡ r
        → Returns (read_chars (suc left) index address k) Keeps
    go later none e = rw (read_chars, e) ok
    go later (some (value, scans)) e =
        rw
          (
            read_chars,
            e,
            write_user_lem k.space.memory ok.whole (address + index) value (omega arith)
                (omega arith),
          )
          (elim (Bool-cases (value == b'\n')) [
            | inl last ↦ rw last (with_memory-KernelOk k ok _ ok.whole)
            | inr more ↦ rw more (later _ (with_memory-KernelOk k ok _ ok.whole))
          ])

pub syscall_read-Keeps :
    (k : Kernel) (fd address length : ℕ)
    → KernelOk k
    → Returns (syscall_read k fd address length) Keeps
unfolding syscall_read
syscall_read-Keeps k fd address length ok =
    elim (Bool-cases (not (fd == 0) || (length == 0) || not (user_range address length))) [
      | inl bad ↦ rw bad ok
      | inr good ↦ rw good (
          read_chars-Keeps (length % u32_mod) 0 address k
            (ground (arith, user_range_iff address length))
            (ground (arith, user_range_iff address length)) ok)
    ]

open_descriptor-Keeps :
    (k : Kernel) (path : List ℕ) (left fd : ℕ)
    → KernelOk k
    → Returns (open_descriptor k path left fd) Keeps
unfolding open_descriptor
open_descriptor-Keeps k path zero fd ok = ok
open_descriptor-Keeps k path (suc left) fd ok = elim (Bool-cases ((k.descriptors fd).used)) [
  | inl taken ↦ rw (open_descriptor, taken) (open_descriptor-Keeps k path left (fd + 1) ok)
  | inr free ↦
      rw (open_descriptor, free)
        (Returns-bind (rootfs_open k.rootfs (some path)) _ FileOk Keeps
          (rootfs_open-FileOk k.rootfs path ok.files)
          (elim [
            | none ↦ λ t. open_descriptor-Keeps k path left (fd + 1) ok
            | some file ↦ λ t. ok
          ]))
]

pub syscall_open-Keeps :
    (k : Kernel) (address : ℕ) → KernelOk k → Returns (syscall_open k address) Keeps
unfolding syscall_open
syscall_open-Keeps k address ok =
    Returns-bind (copy_path k.space.memory address) _ Anything Keeps
      (copy_path-Returns k.space.memory ok.whole address)
      (elim [ none ↦ λ t. ok | some path ↦ λ t. open_descriptor-Keeps k path 5 3 ok ])

pub syscall_close-Keeps : (k : Kernel) (fd : ℕ) → KernelOk k → Keeps (syscall_close k fd)
unfolding syscall_close
syscall_close-Keeps k fd ok = elim (Bool-cases (ltb fd 8 && (k.descriptors fd).used)) [
  | inl used ↦ rw used ok
  | inr unused ↦ rw unused ok
]

exec_result-Keeps :
    (frame : SyscallFrame) (r : Kernel × Option UserImage)
    → KernelOk r.0
    → KernelOk (exec_result frame r).0
exec_result-Keeps frame (k, none) ok = ok
exec_result-Keeps frame (k, some image) ok = ok

next_frame-Keeps :
    (frame : SyscallFrame) (r : Kernel × Option UserImage)
    → KernelOk r.0
    → KernelOk (next_frame frame r).0
next_frame-Keeps frame (k, none) ok = ok
next_frame-Keeps frame (k, some image) ok = ok

pub syscall_exec-Keeps :
    (base : ℕ) (k : Kernel) (frame : SyscallFrame) (address : ℕ)
    → base % 4096 ≡ 0
    → KernelOk k
    → Returns (syscall_exec base k frame address) (λ r. KernelOk r.0)
unfolding syscall_exec
syscall_exec-Keeps base k frame address aligned ok =
    Returns-bind (copy_path k.space.memory address) _ Anything (λ r. KernelOk r.0)
      (copy_path-Returns k.space.memory ok.whole address)
      (elim [
        | none ↦ λ t. ok
        | some path ↦ λ t.
            Returns-bind (load_path base k path) _ Keeps (λ r. KernelOk r.0)
              (load_path-KernelOk base k path aligned ok) (exec_result-Keeps frame)
      ])

pub load_next_user-Keeps :
    (base : ℕ) (k : Kernel) (frame : SyscallFrame) (path : List ℕ)
    → base % 4096 ≡ 0
    → KernelOk k
    → Returns (load_next_user base k frame path) Keeps
unfolding load_next_user
load_next_user-Keeps base k frame path aligned ok =
    Returns-bind (load_path base k path) _ Keeps Keeps (load_path-KernelOk base k path aligned ok)
      (next_frame-Keeps frame)
