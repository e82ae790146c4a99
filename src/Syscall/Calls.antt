-- ===== src/Syscall/Calls.antt =====
-- The system calls of kernel/syscall.c, one function each. A call returns the new state and the
-- bit pattern of its result.
use mantle_os.Base.{
  ℕ, zero, suc, ◌+◌, ◌-◌, ◌%◌, true, false, not, ◌&&◌, ◌||◌, Option, none, some, List, [], ◌∷◌, ltb,
  leb, ◌==◌, if◌then◌else◌, u32_mod,
}
use mantle_os.Memory.{c_string, Run, done, fault, ◌>>=◌, Region, advance}
use mantle_os.Rootfs.{rootfs_open}
use mantle_os.Rootfs.Listing.{rootfs_list}
use mantle_os.Elf.{UserImage, user_range, user_base}
use mantle_os.Elf.Loader.{elf_load}
use mantle_os.Keyboard.{keyboard_read}
use mantle_os.Syscall.{
  FileDescriptor, SyscallFrame, Kernel, write_console, read_user, write_user, read_bytes,
  write_bytes, string_length_user, copy_path, max_fds, failed,
}

abbrev pub with_memory : Kernel → Region → Kernel
with_memory k memory = record k { space = record { memory = memory; pages = k.space.pages } }

-- The loop of syscall_write: one character at a time.
unfoldable pub write_chars : ℕ → ℕ → Kernel → Run Kernel
write_chars zero address k = done k
write_chars (suc left) address k = do
  b ← read_user k.space.memory address
  write_chars left (address + 1) (write_console k (b ∷ 0 ∷ []))

unfoldable pub syscall_write : Kernel → ℕ → ℕ → ℕ → Run (Kernel × ℕ)
syscall_write k fd address length =
    if (not (fd == 1) && not (fd == 2)) || not (user_range address length)
    then done (k, failed)
    else (write_chars (length % u32_mod) address k >>= λ k'. done (k', length % u32_mod))

-- The loop of syscall_read; `none` is a wait that never ends.
unfoldable pub read_chars : ℕ → ℕ → ℕ → Kernel → Run (Kernel × Option ℕ)
read_chars zero index address k = done (k, some index)
read_chars (suc left) index address k = elim (keyboard_read k.keyboard) [
  | none ↦ done (record k { keyboard = [] }, none)
  | some (value, scans) ↦
      (write_user k.space.memory (address + index) value >>= λ memory.
      let k' = record (with_memory k memory) { keyboard = scans } in
      elim (value == b'\n') [
        | true ↦ done (k', some (index + 1))
        | false ↦ read_chars left (index + 1) address k'
      ])
]

unfoldable pub syscall_read : Kernel → ℕ → ℕ → ℕ → Run (Kernel × Option ℕ)
syscall_read k fd address length =
    if not (fd == 0) || (length == 0) || not (user_range address length)
    then done (k, some failed)
    else read_chars (length % u32_mod) 0 address k

abbrev pub set_descriptor : Kernel → ℕ → FileDescriptor → Kernel
set_descriptor k fd d = record k { descriptors = λ i. if i == fd then d else k.descriptors i }

-- The loop of syscall_open over the `left` descriptors from `fd` on.
unfoldable pub open_descriptor : Kernel → List ℕ → ℕ → ℕ → Run (Kernel × ℕ)
open_descriptor k path zero fd = done (k, failed)
open_descriptor k path (suc left) fd = elim ((k.descriptors fd).used) [
  | true ↦ open_descriptor k path left (fd + 1)
  | false ↦
      (rootfs_open k.rootfs (some path) >>= λ found. elim found [
        | none ↦ open_descriptor k path left (fd + 1)
        | some file ↦
            done (set_descriptor k fd (record { used = true; file = file; offset = 0 }), fd)
      ])
]

unfoldable pub syscall_open : Kernel → ℕ → Run (Kernel × ℕ)
syscall_open k address = do
  path ← copy_path k.space.memory address
  elim path [ none ↦ done (k, failed) | some path ↦ open_descriptor k path 5 3 ]

unfoldable pub syscall_close : Kernel → ℕ → Kernel × ℕ
syscall_close k fd =
    if ltb fd max_fds && (k.descriptors fd).used
    then (set_descriptor k fd (record (k.descriptors fd) { used = false }), 0)
    else (k, failed)

-- rootfs_open and elf_load, as load_next_user and syscall_exec chain them. A load that fails may
-- have changed the user memory already.
unfoldable pub load_path : ℕ → Kernel → List ℕ → Run (Kernel × Option UserImage)
load_path base k path = do
  found ← rootfs_open k.rootfs (some path)
  elim found [
    | none ↦ done (k, none)
    | some file ↦
        (elf_load base (some file.contents) file.size k.space >>= λ (space, image).
        done (record k { space = space }, image))
  ]

abbrev pub enter_image : SyscallFrame → UserImage → SyscallFrame
enter_image frame image = record frame { rip = image.entry; rsp = image.stack }

abbrev pub exec_result : SyscallFrame → Kernel × Option UserImage → Kernel × SyscallFrame × ℕ
exec_result frame (k, none) = (k, frame, failed)
exec_result frame (k, some image) = (k, enter_image frame image, 0)

unfoldable pub syscall_exec : ℕ → Kernel → SyscallFrame → ℕ → Run (Kernel × SyscallFrame × ℕ)
syscall_exec base k frame address = do
  path ← copy_path k.space.memory address
  elim path [
    | none ↦ done (k, frame, failed)
    | some path ↦ load_path base k path >>= λ r. done (exec_result frame r)
  ]

-- `none` is `return -1`.
abbrev pub next_frame : SyscallFrame → Kernel × Option UserImage → Kernel × Option SyscallFrame
next_frame frame (k, none) = (k, none)
next_frame frame (k, some image) = (k, some (record (enter_image frame image) { rax = 0 }))

unfoldable pub load_next_user :
    ℕ → Kernel → SyscallFrame → List ℕ → Run (Kernel × Option SyscallFrame)
load_next_user base k frame path = load_path base k path >>= λ r. done (next_frame frame r)

-- The bytes up to `length` of a user string, into the process's directory.
unfoldable pub copy_cwd : ℕ → ℕ → Region → ℕ → (ℕ → ℕ) → Run (ℕ → ℕ)
copy_cwd zero index memory address cwd = done cwd
copy_cwd (suc left) index memory address cwd = do
  b ← read_user memory (address + index)
  copy_cwd left (index + 1) memory address (λ i. if i == index then b else cwd i)

-- The tests and the copy of SYS_CHDIR for a string of `n` bytes, which a second call of
-- string_length_user measures again.
unfoldable pub change_directory : Kernel → ℕ → ℕ → Run (Kernel × ℕ)
change_directory k address n = do
  first ← read_user k.space.memory address
  second ← read_user k.space.memory (address + 1)
  if not (first == b'/') || not (second == 0) || not (ltb n 64)
      then done (k, failed)
      else (copy_cwd (n + 1) 0 k.space.memory address k.process.cwd >>= λ cwd.
          done (record k { process = record k.process { cwd = cwd } }, 0))

unfoldable pub syscall_chdir : Kernel → ℕ → Run (Kernel × ℕ)
syscall_chdir k address = do
  length ← string_length_user k.space.memory address
  elim length [
    | none ↦ done (k, failed)
    | some n ↦ if not (n == 1) then done (k, failed) else change_directory k address n
  ]

-- The loop that measures the directory, inside its 64 bytes.
unfoldable pub cwd_length : ℕ → (ℕ → ℕ) → ℕ → Run ℕ
cwd_length zero cwd length = fault
cwd_length (suc left) cwd length =
    let rest = cwd_length left cwd (length + 1) in if cwd length == 0 then done length else rest

-- The bytes of the directory from `index` on.
abbrev pub cwd_bytes : ℕ → (ℕ → ℕ) → ℕ → List ℕ
cwd_bytes zero cwd index = []
cwd_bytes (suc left) cwd index = cwd index ∷ cwd_bytes left cwd (index + 1)

unfoldable pub syscall_getcwd : Kernel → ℕ → ℕ → Run (Kernel × ℕ)
syscall_getcwd k address size = if not (user_range address size) then done (k, failed) else do
  length ← cwd_length 64 k.process.cwd 0
  if leb size length
      then done (k, failed)
      else (write_bytes k.space.memory address (cwd_bytes (length + 1) k.process.cwd 0)
          >>= λ memory. done (with_memory k memory, length))

-- The memory from `offset` on is what the list left there.
abbrev pub put_back : Region → ℕ → Region → Region
put_back memory offset part = record memory {
  byte = λ i. if ltb i offset then memory.byte i else part.byte (i - offset);
}

-- The call of mantle_rootfs_list on the user memory from `address` on.
unfoldable pub list_at : Kernel → List ℕ → ℕ → ℕ → Run (Kernel × ℕ)
list_at k path address size = do
  l ←
      rootfs_list k.rootfs (some path) (advance k.space.memory (address - user_base))
        (size % u32_mod)
  let k' = with_memory k (put_back k.space.memory (address - user_base) l.output)
  done (k', elim l.written [ none ↦ failed | some written ↦ written ])

unfoldable pub syscall_readdir : Kernel → ℕ → ℕ → ℕ → Run (Kernel × ℕ)
syscall_readdir k path address size = do
  length ← string_length_user k.space.memory path
  elim length [
    | none ↦ done (k, failed)
    | some n ↦
        (if not (n == 1) || not (user_range address size)
          then done (k, failed)
          else (read_bytes k.space.memory path (n + 1) >>= λ bytes.
              list_at k (c_string bytes) address size))
  ]

-- The seventeen bytes of "MantleOS x86_64\0", with both zeros.
abbrev pub uname_bytes : List ℕ
uname_bytes =
    b'M' ∷ b'a' ∷ b'n' ∷ b't' ∷ b'l' ∷ b'e' ∷ b'O' ∷ b'S' ∷ b' ' ∷ b'x' ∷ b'8' ∷ b'6' ∷ b'_' ∷ b'6'
    ∷ b'4' ∷ 0 ∷ 0 ∷ []

unfoldable pub syscall_uname : Kernel → ℕ → ℕ → Run (Kernel × ℕ)
syscall_uname k address size =
    if not (user_range address size) || ltb size 18
    then done (k, failed)
    else (write_bytes k.space.memory address uname_bytes >>= λ memory.
        done (with_memory k memory, 16))
