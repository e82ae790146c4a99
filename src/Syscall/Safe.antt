-- ===== src/Syscall/Safe.antt =====
-- mantle_syscall_dispatch of kernel/syscall.c as a whole.
use mantle_os.Base.{ℕ, ◌%◌, ◌≡◌, inl, inr, Bool-cases, not, ◌&&◌, ◌==◌, Option, none, some, u32_mod}
use mantle_os.Memory.{Returns, Returns-bind}
use mantle_os.Syscall.{SyscallFrame, Kernel, write_console}
use mantle_os.Syscall.Calls.{load_next_user}
use mantle_os.Syscall.Dispatch.{
  CallEnd, returns, halts, reboots, waits, init_path, mark_user, end_read, end_exit, syscall_exit,
  Call, read, write, opens, close, exec, getpid, chdir, getcwd, exit, reboot, readdir, uname, other,
  call_of, run_call, store_result, syscall_dispatch,
}
use mantle_os.Syscall.Invariant.{KernelOk, Keeps}
use mantle_os.Syscall.Kept.{
  syscall_write-Keeps, syscall_read-Keeps, syscall_open-Keeps, syscall_close-Keeps,
  syscall_exec-Keeps, load_next_user-Keeps,
}
use mantle_os.Syscall.Directory.{
  syscall_chdir-Keeps, syscall_getcwd-Keeps, syscall_readdir-Keeps, syscall_uname-Keeps,
}

-- The kernel as a call leaves it, however it ends.
abbrev pub kernel_at : CallEnd → Kernel
kernel_at (returns k frame result) = k
kernel_at (halts k) = k
kernel_at (reboots k) = k
kernel_at (waits k) = k

abbrev pub EndOk : CallEnd → Type 0
EndOk e = KernelOk (kernel_at e)

mark_user-KernelOk : (k : Kernel) → KernelOk k → KernelOk (mark_user k)
unfolding mark_user write_console
mark_user-KernelOk k ok = elim (Bool-cases (not k.user_marker_seen && not (k.origin_user == 0))) [
  | inl first ↦ rw first ok
  | inr later ↦ rw later ok
]

end_read-EndOk : (frame : SyscallFrame) (r : Kernel × Option ℕ) → Keeps r → EndOk (end_read frame r)
end_read-EndOk frame (k, none) ok = ok
end_read-EndOk frame (k, some result) ok = ok

end_exit-EndOk :
    (frame : SyscallFrame) (r : Kernel × Option SyscallFrame) → Keeps r → EndOk (end_exit frame r)
unfolding write_console
end_exit-EndOk frame (k, none) ok = record {
  whole = ok.whole;
  pages = ok.pages;
  files = ok.files;
  ended = ok.ended;
}
end_exit-EndOk frame (k, some result) ok = record {
  whole = ok.whole;
  pages = ok.pages;
  files = ok.files;
  ended = ok.ended;
}

store_result-EndOk : (e : CallEnd) → EndOk e → EndOk (store_result e)
store_result-EndOk (returns k frame result) ok = ok
store_result-EndOk (halts k) ok = ok
store_result-EndOk (reboots k) ok = ok
store_result-EndOk (waits k) ok = ok

module _ (base : ℕ) (aligned : base % 4096 ≡ 0) where
  syscall_exit-EndOk :
      (k : Kernel) (frame : SyscallFrame) → KernelOk k → Returns (syscall_exit base k frame) EndOk
  unfolding syscall_exit write_console
  syscall_exit-EndOk k frame ok = elim (Bool-cases k.hello_finished) [
    | inl last ↦ simp (last) (end_exit-EndOk frame (k, none) ok)
    | inr first ↦ simp (first) (
        Returns-bind (load_next_user base k frame init_path) _ Keeps EndOk
          (load_next_user-Keeps base k frame init_path aligned ok) (end_exit-EndOk frame))
  ]

  run_call-EndOk :
      (k : Kernel) (frame : SyscallFrame) (call : Call)
      → KernelOk k
      → Returns (run_call base k frame call) EndOk
  unfolding run_call
  run_call-EndOk k frame read ok =
      Returns-bind _ _ Keeps EndOk (syscall_read-Keeps k frame.rdi frame.rsi frame.rdx ok)
        (end_read-EndOk frame)
  run_call-EndOk k frame write ok =
      Returns-bind _ _ Keeps EndOk (syscall_write-Keeps k frame.rdi frame.rsi frame.rdx ok)
        λ r ok'. ok'
  run_call-EndOk k frame opens ok =
      Returns-bind _ _ Keeps EndOk (syscall_open-Keeps k frame.rdi ok) λ r ok'. ok'
  run_call-EndOk k frame close ok = syscall_close-Keeps k frame.rdi ok
  run_call-EndOk k frame exec ok =
      Returns-bind _ _ (λ r. KernelOk r.0) EndOk
        (syscall_exec-Keeps base k frame frame.rdi aligned ok) λ r ok'. ok'
  run_call-EndOk k frame getpid ok = ok
  run_call-EndOk k frame chdir ok =
      Returns-bind _ _ Keeps EndOk (syscall_chdir-Keeps k frame.rdi ok) λ r ok'. ok'
  run_call-EndOk k frame getcwd ok =
      Returns-bind _ _ Keeps EndOk (syscall_getcwd-Keeps k frame.rdi frame.rsi ok) λ r ok'. ok'
  run_call-EndOk k frame exit ok = syscall_exit-EndOk k frame ok
  run_call-EndOk k frame reboot ok = ok
  run_call-EndOk k frame readdir ok =
      Returns-bind _ _ Keeps EndOk (syscall_readdir-Keeps k frame.rdi frame.rsi frame.rdx ok)
        λ r ok'. ok'
  run_call-EndOk k frame uname ok =
      Returns-bind _ _ Keeps EndOk (syscall_uname-Keeps k frame.rdi frame.rsi ok) λ r ok'. ok'
  run_call-EndOk k frame other ok = ok

-- Whatever the registers hold, a system call of a kernel that satisfies the invariant and whose user
-- memory starts at a page boundary ends without a fault: every address that it reads or writes for the user lies in the user memory, and every
-- access to the file system lies in the image. The kernel that it leaves satisfies the invariant
-- again, whether the call returns, halts, reboots or waits for a key: no page of the user is both
-- writable and executable, and the file system, if one is mounted, is a well-formed image.
pub syscall_dispatch-KernelOk :
    (base : ℕ) (k : Kernel) (frame : SyscallFrame)
    → base % 4096 ≡ 0
    → KernelOk k
    → Returns (syscall_dispatch base k frame) (λ e. KernelOk (kernel_at e))
unfolding syscall_dispatch
syscall_dispatch-KernelOk base k frame aligned ok =
    Returns-bind _ _ EndOk EndOk
      (run_call-EndOk base aligned (mark_user k) frame (call_of (frame.rax % u32_mod))
        (mark_user-KernelOk k ok))
      store_result-EndOk
