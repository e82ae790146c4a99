-- ===== src/Running.antt =====
-- The kernel from its start on: kernel/arch/x86_64/kernel.c enters user mode, and then
-- kernel/syscall.c answers the system calls of whatever programs run there.
use mantle_os.Base.{ℕ, ◌+◌, ◌%◌, ◌≤◌, ◌≡◌, List, [], ◌∷◌, u32_mod}
use mantle_os.Memory.{Run, done, ◌>>=◌, Returns, Returns-bind, Region}
use mantle_os.Boot.Reads.{IsBytes}
use mantle_os.Boot.Start.{Cpu, StartEnd, stops, enters, kernel_main}
use mantle_os.Boot.Ready.{StartOutcome, kernel_main-StartOutcome}
use mantle_os.Framebuffer.{FramebufferState}
use mantle_os.Framebuffer.Init.{InitEnd}
use mantle_os.Framebuffer.Tags.{OnlyPixels, NeedsTags}
use mantle_os.Syscall.{Kernel, SyscallFrame}
use mantle_os.Syscall.Calls.{with_memory}
use mantle_os.Syscall.Dispatch.{CallEnd, returns, halts, reboots, waits, syscall_dispatch}
use mantle_os.Syscall.Invariant.{KernelOk, with_memory-KernelOk}
use mantle_os.Syscall.Safe.{kernel_at, syscall_dispatch-KernelOk}

-- What happens in user mode: the program leaves other bytes in its memory, or it makes a system
-- call with some registers.
pub data Event : Type 0 where
  computes : (ℕ → ℕ) → Event
  calls : SyscallFrame → Event

-- The machine runs in user mode, the kernel has stopped or waits in a system call, or it has refused
-- to enter user mode.
pub data Running : Type 0 where
  runs : Kernel → Running
  rests : Kernel → Running
  refused : Kernel → Running

abbrev pub after_call : CallEnd → Running
after_call (returns k frame result) = runs k
after_call (halts k) = rests k
after_call (reboots k) = rests k
after_call (waits k) = rests k

unfoldable pub run_event : ℕ → Event → Kernel → Run Running
run_event base (computes bytes) k =
    done (runs (with_memory k (record { byte = bytes; size = k.space.memory.size })))
run_event base (calls frame) k = syscall_dispatch base k frame >>= λ e. done (after_call e)

-- The events in their order, as long as the machine runs.
abbrev pub while_running : Running → (Kernel → Run Running) → Run Running
while_running (runs k) next = next k
while_running (rests k) next = done (rests k)
while_running (refused k) next = done (refused k)

unfoldable pub run_events : ℕ → List Event → Kernel → Run Running
run_events base [] k = done (runs k)
run_events base (event ∷ events) k =
    run_event base event k >>= λ r. while_running r (run_events base events)

abbrev pub from_start : ℕ → List Event → InitEnd × StartEnd → Run Running
from_start base events (graphics, stops k) = done (refused k)
from_start base events (graphics, enters k entry stack) = run_events base events k

-- The invariant, unless user mode was never entered.
abbrev pub RunningOk : Running → Type 0
RunningOk (runs k) = KernelOk k
RunningOk (rests k) = KernelOk k
RunningOk (refused k) = Unit {0}

after_call-RunningOk : (e : CallEnd) → KernelOk (kernel_at e) → RunningOk (after_call e)
after_call-RunningOk (returns k frame result) ok = ok
after_call-RunningOk (halts k) ok = ok
after_call-RunningOk (reboots k) ok = ok
after_call-RunningOk (waits k) ok = ok

module _ (base : ℕ) (aligned : base % 4096 ≡ 0) where
  run_event-RunningOk :
      (event : Event) (k : Kernel) → KernelOk k → Returns (run_event base event k) RunningOk
  unfolding run_event
  run_event-RunningOk (computes bytes) k ok =
      with_memory-KernelOk k ok (record { byte = bytes; size = k.space.memory.size }) ok.whole
  run_event-RunningOk (calls frame) k ok =
      Returns-bind (syscall_dispatch base k frame) _ (λ e. KernelOk (kernel_at e)) RunningOk
        (syscall_dispatch-KernelOk base k frame aligned ok) after_call-RunningOk

  run_events-RunningOk :
      (events : List Event) (k : Kernel) → KernelOk k → Returns (run_events base events k) RunningOk
  unfolding run_events
  run_events-RunningOk [] k ok = ok
  run_events-RunningOk (event ∷ events) k ok =
      Returns-bind (run_event base event k) (λ r. while_running r (run_events base events))
        RunningOk RunningOk (run_event-RunningOk event k ok)
        (elim [
          | runs k' ↦ λ ok'. run_events-RunningOk events k' ok'
          | rests k' ↦ λ ok'. ok'
          | refused k' ↦ λ ok'. tt
        ])

  from_start-RunningOk :
      (events : List Event) (graphics : InitEnd) (e : StartEnd)
      → StartOutcome e
      → Returns (from_start base events (graphics, e)) RunningOk
  from_start-RunningOk events graphics (stops k) out = tt
  from_start-RunningOk events graphics (enters k entry stack) (ok, ready) =
      run_events-RunningOk events k ok

-- On a machine with four gigabytes of memory, boot information that starts at least 1 MiB below
-- their end and whose tags, if it is that of a Multiboot 2 loader, lead, before the search's fuel is
-- used up, to a last one or to a frame buffer on whose screen, if it is usable, the splash screen can
-- be drawn, a memory of the device that is mapped and apart from the rest, and a user memory of 2 MiB
-- that starts at a page boundary: From the start of the kernel on, any sequence of computations and
-- system calls in user mode, with any registers and any contents of the user memory, runs without a
-- fault. If user mode is entered, the kernel satisfies the invariant after each of them.
pub kernel_main-RunningOk :
    (fuel base : ℕ) (cpu : Cpu) (ram : Region) (screen : FramebufferState) (video : Region)
    (k : Kernel) (magic info : ℕ) (events : List Event)
    → base % 4096 ≡ 0
    → u32_mod ≤ ram.size
    → IsBytes ram
    → info + 0x10_0000 ≤ u32_mod
    → k.space.memory.size ≡ 0x20_0000
    → NeedsTags fuel ram magic info video
    → Returns
        (kernel_main fuel base cpu ram screen video k magic info >>= from_start base events)
        RunningOk
kernel_main-RunningOk fuel base cpu ram screen video k magic info events aligned mapped bytes low
      whole needs =
    Returns-bind (kernel_main fuel base cpu ram screen video k magic info) (from_start base events)
      (λ r. OnlyPixels video (r.0) × StartOutcome (r.1)) RunningOk
      (kernel_main-StartOutcome fuel base cpu ram screen video k magic info aligned mapped bytes low
        whole needs)
      (λ (g, e) (pixels, out). from_start-RunningOk base aligned events g e out)
