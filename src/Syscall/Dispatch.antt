-- ===== src/Syscall/Dispatch.antt =====
-- mantle_syscall_dispatch of kernel/syscall.c.
use mantle_os.Base.{
  ℕ, ◌%◌, true, not, ◌&&◌, Option, none, some, List, [], ◌∷◌, ◌==◌, if◌then◌else◌, u32_mod,
}
use mantle_os.Memory.{Run, done, ◌>>=◌}
use mantle_os.Process.{ready, exited}
use mantle_os.Syscall.{SyscallFrame, Kernel, write_console, failed, to_rax}
use mantle_os.Syscall.Calls.{
  syscall_read, syscall_write, syscall_open, syscall_close, syscall_exec, load_next_user,
  syscall_chdir, syscall_getcwd, syscall_readdir, syscall_uname,
}

-- How a call ends: with a result for the caller, in a loop that halts the processor (with or
-- without the reset of the machine before it), or in the wait for a key.
pub data CallEnd : Type 0 where
  returns : Kernel → SyscallFrame → ℕ → CallEnd
  halts : Kernel → CallEnd
  reboots : Kernel → CallEnd
  waits : Kernel → CallEnd

-- "/sbin/init"
abbrev pub init_path : List ℕ
init_path = b'/' ∷ b's' ∷ b'b' ∷ b'i' ∷ b'n' ∷ b'/' ∷ b'i' ∷ b'n' ∷ b'i' ∷ b't' ∷ []

-- "MANTLE_USERSPACE_OK\n"
abbrev pub userspace_ok : List ℕ
userspace_ok =
    b'M' ∷ b'A' ∷ b'N' ∷ b'T' ∷ b'L' ∷ b'E' ∷ b'_' ∷ b'U' ∷ b'S' ∷ b'E' ∷ b'R' ∷ b'S' ∷ b'P' ∷ b'A'
    ∷ b'C' ∷ b'E' ∷ b'_' ∷ b'O' ∷ b'K' ∷ b'\n' ∷ []

-- "MANTLE_USERSPACE_EXIT\n"
abbrev pub userspace_exit : List ℕ
userspace_exit =
    b'M' ∷ b'A' ∷ b'N' ∷ b'T' ∷ b'L' ∷ b'E' ∷ b'_' ∷ b'U' ∷ b'S' ∷ b'E' ∷ b'R' ∷ b'S' ∷ b'P' ∷ b'A'
    ∷ b'C' ∷ b'E' ∷ b'_' ∷ b'E' ∷ b'X' ∷ b'I' ∷ b'T' ∷ b'\n' ∷ []

-- The marker of the first call from user mode.
unfoldable pub mark_user : Kernel → Kernel
unfolding write_console
mark_user k =
    if not k.user_marker_seen && not (k.origin_user == 0)
    then write_console (record k { user_marker_seen = true; origin_user = 0 }) userspace_ok
    else k

abbrev pub same_frame : SyscallFrame → Kernel × ℕ → CallEnd
same_frame frame (k, result) = returns k frame result

abbrev pub end_read : SyscallFrame → Kernel × Option ℕ → CallEnd
end_read frame (k, none) = waits k
end_read frame (k, some result) = returns k frame result

abbrev pub end_exec : Kernel × SyscallFrame × ℕ → CallEnd
end_exec (k, frame, result) = returns k frame result

-- `exit_code` of SYS_EXIT is read from the frame after the load, which leaves `rdi` alone.
abbrev pub end_exit : SyscallFrame → Kernel × Option SyscallFrame → CallEnd
end_exit frame (k, some frame') =
    returns
      (record k {
        hello_finished = true;
        process = record k.process { state = ready; exit_code = frame'.rdi % u32_mod };
      })
      frame' failed
end_exit frame (k, none) = halts (
    write_console
      (record k { process = record k.process { state = exited; exit_code = frame.rdi % u32_mod } })
      userspace_exit)

unfoldable pub syscall_exit : ℕ → Kernel → SyscallFrame → Run CallEnd
syscall_exit base k frame =
    if k.hello_finished
    then done (end_exit frame (k, none))
    else (load_next_user base k frame init_path >>= λ r. done (end_exit frame r))

-- The cases of the switch.
pub data Call : Type 0 where
  read write opens close exec getpid chdir getcwd exit reboot readdir uname other : Call

unfoldable pub call_of : ℕ → Call
call_of n =
    if n == 0
    then read
    else if n == 1
    then write
    else if n == 2
    then opens
    else if n == 3
    then close
    else if n == 6
    then exec
    else if n == 8
    then getpid
    else if n == 9
    then chdir
    else if n == 10
    then getcwd
    else if n == 11
    then exit
    else if n == 12
    then reboot
    else if n == 13
    then readdir
    else if n == 14
    then uname
    else other

-- `base` is the address of `mantle_user_memory`.
unfoldable pub run_call : ℕ → Kernel → SyscallFrame → Call → Run CallEnd
run_call base k frame read =
    syscall_read k frame.rdi frame.rsi frame.rdx >>= λ r. done (end_read frame r)
run_call base k frame write =
    syscall_write k frame.rdi frame.rsi frame.rdx >>= λ r. done (same_frame frame r)
run_call base k frame opens = syscall_open k frame.rdi >>= λ r. done (same_frame frame r)
run_call base k frame close = done (same_frame frame (syscall_close k frame.rdi))
run_call base k frame exec = syscall_exec base k frame frame.rdi >>= λ r. done (end_exec r)
run_call base k frame getpid = done (returns k frame (k.process.pid % u32_mod))
run_call base k frame chdir = syscall_chdir k frame.rdi >>= λ r. done (same_frame frame r)
run_call base k frame getcwd =
    syscall_getcwd k frame.rdi frame.rsi >>= λ r. done (same_frame frame r)
run_call base k frame exit = syscall_exit base k frame
run_call base k frame reboot = done (reboots k)
run_call base k frame readdir =
    syscall_readdir k frame.rdi frame.rsi frame.rdx >>= λ r. done (same_frame frame r)
run_call base k frame uname = syscall_uname k frame.rdi frame.rsi >>= λ r. done (same_frame frame r)
run_call base k frame other = done (returns k frame failed)

-- The result is stored in the frame that the call leaves.
abbrev pub store_result : CallEnd → CallEnd
store_result (returns k frame result) = returns k (record frame { rax = to_rax result }) result
store_result (halts k) = halts k
store_result (reboots k) = reboots k
store_result (waits k) = waits k

unfoldable pub syscall_dispatch : ℕ → Kernel → SyscallFrame → Run CallEnd
syscall_dispatch base k frame =
    run_call base (mark_user k) frame (call_of (frame.rax % u32_mod)) >>= λ e. done (store_result e)
