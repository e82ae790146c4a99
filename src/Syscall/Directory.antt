-- ===== src/Syscall/Directory.antt =====
-- The calls of kernel/syscall.c on directories, and SYS_UNAME, keep the invariant of the kernel.
use mantle_os.Base.{
  ℕ, zero, suc, ◌+◌, ◌-◌, ◌%◌, ◌≤◌, ◌<◌, ◌≡◌, ◌≢◌, refl, ap, sym, subst, ◌∙◌, inl, inr, not, ◌||◌,
  none, some, List, ltb, leb, ◌==◌, arith, Bool-cases, length, u32_mod,
}
use mantle_os.Memory.{
  c_string, Run, done, fault, Returns, Returns-bind, Anything, Region, advance, le32,
}
use mantle_os.Rootfs.{RootfsState, mounted}
use mantle_os.Rootfs.Listing.{rootfs_list}
use mantle_os.Rootfs.Frame.{rootfs_list-ListOutcome}
use mantle_os.Elf.{user_range}
use mantle_os.Syscall.{Kernel, read_bytes, write_bytes, string_length_user}
use mantle_os.Syscall.Calls.{
  copy_cwd, change_directory, syscall_chdir, cwd_length, cwd_bytes, syscall_getcwd, list_at,
  syscall_readdir, uname_bytes, syscall_uname,
}
use mantle_os.Syscall.Access.{
  user_range_iff, read_user_lem, InUser, string_length_user-InUser, read_bytes-Returns,
  write_bytes-Returns,
}
use mantle_os.Syscall.Invariant.{Keeps, with_memory-KernelOk, KernelOk, RootfsOk}

Returns-map : {A : Type 0} (P : A → Type 0) (m : Run A) → Returns m P → Returns m Anything
Returns-map P (done a) p = tt
Returns-map P fault p = p

copy_cwd-ended :
    (left index : ℕ) (memory : Region) (address : ℕ) (cwd : ℕ → ℕ)
    → memory.size ≡ 0x20_0000
    → 0x40_0000 ≤ address
    → address + index + left ≤ 0x60_0000
    → memory.byte (address + index + left - 0x40_0001) ≡ 0
    → 0 < left
    → index + left ≤ 64
    → Returns (copy_cwd left index memory address cwd) (λ c. (i : ℕ) × (i < 64) × (c i ≡ 0))
unfolding copy_cwd
copy_cwd-ended zero index memory address cwd whole low high last some_left room =
    absurd (omega arith)
copy_cwd-ended (suc zero) index memory address cwd whole low high last some_left room =
    let e : address + index + 1 - 0x40_0001 ≡ address + index - 0x40_0000 = omega arith in
    rw (read_user_lem memory whole (address + index) (omega arith) (omega arith))
      (index, omega arith, ground (arith, ap memory.byte e))
copy_cwd-ended (suc (suc left)) index memory address cwd whole low high last some_left room =
    let e : address + index + suc (suc left) - 0x40_0001
        ≡ address + (index + 1) + suc left - 0x40_0001 =
      omega arith in
    rw (read_user_lem memory whole (address + index) (omega arith) (omega arith)) (
      copy_cwd-ended (suc left) (index + 1) memory address _ whole low (omega arith)
        (sym (ap memory.byte e) ∙ last) (omega arith) (omega arith))

change_directory-Keeps :
    (k : Kernel) (address : ℕ)
    → 0x40_0000 ≤ address
    → address + 1 < 0x60_0000
    → KernelOk k
    → Returns (change_directory k address 1) Keeps
unfolding change_directory
change_directory-Keeps k address low high ok =
    rw
      (
        read_user_lem k.space.memory ok.whole address low (omega arith),
        read_user_lem k.space.memory ok.whole (address + 1) (omega arith) high,
      )
      (elim (Bool-cases (
        not (k.space.memory.byte (address - 0x40_0000) == b'/')
        || not (k.space.memory.byte (address + 1 - 0x40_0000) == 0)
        || not (ltb 1 64))) [
          | inl bad ↦ rw bad ok
          | inr good ↦ rw good (
              Returns-bind (copy_cwd 2 0 k.space.memory address k.process.cwd) _
                (λ c. (i : ℕ) × (i < 64) × (c i ≡ 0)) Keeps
                (copy_cwd-ended 2 0 k.space.memory address k.process.cwd ok.whole low (omega arith)
                  (last (ground arith)) (omega arith) (omega arith))
                λ c ended. record {
                  whole = ok.whole;
                  pages = ok.pages;
                  files = ok.files;
                  ended = ended;
                })
        ])
  where
    last :
        k.space.memory.byte (address + 1 - 0x40_0000) ≡ 0
        → k.space.memory.byte (address + 0 + 2 - 0x40_0001) ≡ 0
    last e =
        let same : address + 0 + 2 - 0x40_0001 ≡ address + 1 - 0x40_0000 = omega arith in
        ap k.space.memory.byte same ∙ e

pub syscall_chdir-Keeps :
    (k : Kernel) (address : ℕ) → KernelOk k → Returns (syscall_chdir k address) Keeps
unfolding syscall_chdir
syscall_chdir-Keeps k address ok =
    Returns-bind (string_length_user k.space.memory address) _
      (InUser k.space.memory ok.whole address) Keeps
      (string_length_user-InUser k.space.memory ok.whole address)
      (elim [
        | none ↦ λ t. ok
        | some n ↦ λ h. elim (Bool-cases (n == 1)) [
          | inr other ↦ rw other ok
          | inl one ↦
              let e : n ≡ 1 = ground arith in
              rw (one, e) (change_directory-Keeps k address h.1 (omega arith) ok)
        ]
      ])

cwd_length-ended :
    (left : ℕ) (cwd : ℕ → ℕ) (start i : ℕ)
    → start ≤ i
    → i < start + left
    → cwd i ≡ 0
    → Returns (cwd_length left cwd start) (λ n. n < start + left)
unfolding cwd_length
cwd_length-ended zero cwd start i low high zero_at = absurd (omega arith)
cwd_length-ended (suc left) cwd start i low high zero_at = elim (Bool-cases (cwd start == 0)) [
  | inl here ↦ rw here (omega arith)
  | inr later ↦
      let e : start + 1 + left ≡ start + suc left = omega arith in
      let apart : start ≢ i = λ e. ground (arith, ap cwd e) in
      rw later (
        subst (λ limit. Returns (cwd_length left cwd (start + 1)) (λ n. n < limit)) e
          (cwd_length-ended left cwd (start + 1) i (omega arith) (omega arith) zero_at))
]

length-cwd_bytes : (n : ℕ) (cwd : ℕ → ℕ) (start : ℕ) → length (cwd_bytes n cwd start) ≡ n
length-cwd_bytes zero cwd start = refl
length-cwd_bytes (suc n) cwd start = ground (arith, length-cwd_bytes n cwd (start + 1))

pub syscall_getcwd-Keeps :
    (k : Kernel) (address size : ℕ) → KernelOk k → Returns (syscall_getcwd k address size) Keeps
unfolding syscall_getcwd
syscall_getcwd-Keeps k address size ok = elim (user_range_iff address size) [
  | inr (e, _) ↦ rw e ok
  | inl (e, low, high) ↦ rw e (
      Returns-bind (cwd_length 64 k.process.cwd 0) _ (λ n. n < 64) Keeps
        (cwd_length-ended 64 k.process.cwd 0 ok.ended.0 (omega arith) ok.ended.1 ok.ended.2)
        λ n h. elim (Bool-cases (leb size n)) [
          | inl small ↦ rw small ok
          | inr room ↦ rw room (
              Returns-bind (write_bytes k.space.memory address (cwd_bytes (n + 1) k.process.cwd 0))
                _ (λ m. m.size ≡ 0x20_0000) Keeps
                (write_bytes-Returns (cwd_bytes (n + 1) k.process.cwd 0) k.space.memory address
                  ok.whole low (ground (arith, length-cwd_bytes (n + 1) k.process.cwd 0)))
                (with_memory-KernelOk k ok))
        ])
]

pub syscall_uname-Keeps :
    (k : Kernel) (address size : ℕ) → KernelOk k → Returns (syscall_uname k address size) Keeps
unfolding syscall_uname
syscall_uname-Keeps k address size ok =
    elim (Bool-cases (not (user_range address size) || ltb size 18)) [
      | inl bad ↦ rw bad ok
      | inr good ↦ rw good (
          Returns-bind (write_bytes k.space.memory address uname_bytes) _ (λ m. m.size ≡ 0x20_0000)
            Keeps
            (write_bytes-Returns uname_bytes k.space.memory address ok.whole
              (ground (arith, user_range_iff address size))
              (ground (arith, user_range_iff address size)))
            (with_memory-KernelOk k ok))
    ]

rootfs_list-Returns :
    (state : RootfsState) (path : List ℕ) (output : Region) (output_size : ℕ)
    → RootfsOk state
    → output_size ≤ output.size
    → output_size + 256 < u32_mod
    → Returns (rootfs_list state (some path) output output_size) Anything
unfolding rootfs_list
rootfs_list-Returns state path output output_size (inl e) room small = rw e tt
rootfs_list-Returns state path output output_size (inr (image, size, inside, word, good, e)) room
      small =
    rw e (
      Returns-map _
        (rootfs_list (mounted image size (le32 image.byte 4)) (some path) output output_size)
        (rootfs_list-ListOutcome size image inside word good path output output_size room small))

list_at-Keeps :
    (k : Kernel) (path : List ℕ) (address size : ℕ)
    → 0x40_0000 ≤ address
    → address + size ≤ 0x60_0000
    → KernelOk k
    → Returns (list_at k path address size) Keeps
unfolding list_at
list_at-Keeps k path address size low high ok =
    Returns-bind
      (rootfs_list k.rootfs (some path) (advance k.space.memory (address - 0x40_0000))
        (size % u32_mod))
      _ Anything Keeps
      (rootfs_list-Returns k.rootfs path (advance k.space.memory (address - 0x40_0000))
        (size % u32_mod) ok.files (omega (arith, ok.whole)) (omega arith))
      λ l t. with_memory-KernelOk k ok _ ok.whole

pub syscall_readdir-Keeps :
    (k : Kernel) (path address size : ℕ)
    → KernelOk k
    → Returns (syscall_readdir k path address size) Keeps
unfolding syscall_readdir
syscall_readdir-Keeps k path address size ok =
    Returns-bind (string_length_user k.space.memory path) _ (InUser k.space.memory ok.whole path)
      Keeps (string_length_user-InUser k.space.memory ok.whole path)
      (elim [
        | none ↦ λ t. ok
        | some n ↦ λ h. elim (Bool-cases (not (n == 1) || not (user_range address size))) [
          | inl bad ↦ rw bad ok
          | inr good ↦ rw good (
              Returns-bind (read_bytes k.space.memory path (n + 1)) _ Anything Keeps
                (read_bytes-Returns k.space.memory ok.whole (n + 1) path h.1 (omega arith))
                λ bytes t.
                  list_at-Keeps k (c_string bytes) address size
                    (ground (arith, user_range_iff address size))
                    (ground (arith, user_range_iff address size)) ok)
        ]
      ])
