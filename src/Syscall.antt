-- ===== src/Syscall.antt =====
-- kernel/syscall.c and syscall.h: the state that the system calls share, and the user memory as
-- they reach it. The kernel runs on the page table of the user, which maps the addresses from
-- `user_base` to `user_limit` to `mantle_user_memory`; an access at another address is a fault.
pub mod Calls
pub mod Dispatch
pub mod Access
pub mod Invariant
pub mod Kept
pub mod Directory
pub mod Safe
pub mod Effects
pub mod Exec
pub mod Reading
pub mod Unknown
use mantle_os.Base.{
  ℕ, zero, suc, ◌+◌, ◌-◌, ◌≡◌, Bool, true, false, not, ◌&&◌, ◌||◌, Option, none, some, List, [],
  ◌∷◌, ◌++◌, ltb, leb, ◌==◌, if◌then◌else◌, u32_mod, add64,
}
use mantle_os.Memory.{Run, done, fault, ◌>>=◌, Region, read8, write8, c_string}
use mantle_os.Rootfs.{RootfsState, RootfsFile}
use mantle_os.Elf.{UserSpace, user_range, user_base, user_limit}
use mantle_os.Process.{Process}
use mantle_os.Console.{Console, console_write}

abbrev pub max_path : ℕ
max_path = 128

abbrev pub max_fds : ℕ
max_fds = 8

pub record FileDescriptor : Type 0 where
  pub used : Bool
  pub file : RootfsFile
  pub offset : ℕ

-- struct mantle_syscall_frame
pub record SyscallFrame : Type 0 where
  pub rax : ℕ
  pub rip : ℕ
  pub rflags : ℕ
  pub rsp : ℕ
  pub rdi : ℕ
  pub rsi : ℕ
  pub rdx : ℕ
  pub r10 : ℕ
  pub r8 : ℕ
  pub r9 : ℕ

-- The variables of the kernel that the calls reach; `keyboard` holds the scan codes to come.
pub record Kernel : Type 0 where
  pub rootfs : RootfsState
  pub space : UserSpace
  pub process : Process
  pub descriptors : ℕ → FileDescriptor
  pub user_marker_seen : Bool
  pub hello_finished : Bool
  pub origin_user : ℕ
  pub console : Console
  pub keyboard : List ℕ

-- mantle_console_write on the console of the kernel.
unfoldable pub write_console : Kernel → List ℕ → Kernel
write_console k text = record k { console = console_write k.console text }

unfoldable pub read_user : Region → ℕ → Run ℕ
read_user memory address =
    if leb user_base address && ltb address user_limit
    then read8 memory (address - user_base)
    else fault

unfoldable pub write_user : Region → ℕ → ℕ → Run Region
write_user memory address value =
    if leb user_base address && ltb address user_limit
    then write8 memory (address - user_base) value
    else fault

-- The loop of string_length_user; `fuel` is above the rounds that it can make.
unfoldable pub string_length_from : Region → ℕ → ℕ → ℕ → Run ℕ
string_length_from memory address zero length = fault
string_length_from memory address (suc fuel) length =
    let rest = string_length_from memory address fuel (length + 1) in
    if not (ltb length max_path) || not (user_range (add64 address length) 1)
    then done length
    else (read_user memory (address + length) >>= λ b. if b == 0 then done length else rest)

-- `none` is 0xffffffff.
unfoldable pub string_length_user : Region → ℕ → Run (Option ℕ)
string_length_user memory address = if not (user_range address 1) then done none else do
  length ← string_length_from memory address (suc max_path) 0
  if (length == max_path) || not (user_range (add64 address length) 1)
      then done none
      else done (some length)

-- The `left` bytes from `address` on.
unfoldable pub read_bytes : Region → ℕ → ℕ → Run (List ℕ)
read_bytes memory address zero = done []
read_bytes memory address (suc left) = do
  b ← read_user memory address
  rest ← read_bytes memory (address + 1) left
  done (b ∷ rest)

-- The path at a user address, copied into a buffer with its terminating zero; `none` where the
-- calls return -1.
unfoldable pub copy_path : Region → ℕ → Run (Option (List ℕ))
copy_path memory address = do
  length ← string_length_user memory address
  elim length [
    | none ↦ done none
    | some n ↦
        (if leb max_path n
          then done none
          else (read_bytes memory address (n + 1) >>= λ bytes. done (some (c_string bytes))))
  ]

-- The bytes of a list, written from `address` on.
unfoldable pub write_bytes : Region → ℕ → List ℕ → Run Region
write_bytes memory address [] = done memory
write_bytes memory address (b ∷ bs) = do
  memory' ← write_user memory address b
  write_bytes memory' (address + 1) bs

-- Results are the bit patterns of an int32_t.
abbrev pub failed : ℕ
failed = 0xffff_ffff

-- The sign extension at the end of mantle_syscall_dispatch.
unfoldable pub to_rax : ℕ → ℕ
to_rax result = if ltb result 0x8000_0000 then result else result + 0xffff_ffff_0000_0000
