-- ===== src/Syscall/Unknown.antt =====
-- The numbers that docs/syscalls.md gives no call, in kernel/syscall.c.
use mantle_os.Base.{ℕ, ◌<◌, ◌≡◌, ◌%◌, ◌⊎◌, refl, arith, u32_mod}
use mantle_os.Memory.{done}
use mantle_os.Syscall.{SyscallFrame, Kernel, to_rax, failed}
use mantle_os.Syscall.Dispatch.{returns, mark_user, call_of, other, run_call, syscall_dispatch}

call_of-other : (n : ℕ) → (n ≡ 4) ⊎ (n ≡ 5) ⊎ (n ≡ 7) ⊎ (14 < n) → call_of n ≡ other
unfolding call_of
call_of-other n unknown = ground arith

-- A call with one of the numbers 4, 5 and 7 or a number above 14 returns -1 as a 64-bit number. But
-- for the marker of the first call from user mode it changes nothing of the kernel, and it leaves
-- every register but rax.
pub syscall_dispatch-other :
    (base : ℕ) (k : Kernel) (frame : SyscallFrame)
    → (let n = frame.rax % u32_mod in (n ≡ 4) ⊎ (n ≡ 5) ⊎ (n ≡ 7) ⊎ (14 < n))
    → syscall_dispatch base k frame
      ≡ done (returns (mark_user k) (record frame { rax = 0xffff_ffff_ffff_ffff }) failed)
unfolding syscall_dispatch run_call to_rax
syscall_dispatch-other base k frame unknown = rw (call_of-other (frame.rax % u32_mod) unknown) refl
