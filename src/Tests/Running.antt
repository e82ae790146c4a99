-- ===== src/Tests/Running.antt =====
-- The kernel from its start on, with a write and a call that does not exist.
use mantle_os.Base.{refl, [], ◌∷◌, arith}
use mantle_os.Memory.{◌>>=◌, Returns}
use mantle_os.Boot.Start.{kernel_main}
use mantle_os.Running.{computes, calls, from_start, RunningOk, kernel_main-RunningOk}
use mantle_os.Tests.Boot.{ram, ram-IsBytes, ram-NeedsTags, cpu}
use mantle_os.Tests.Framebuffer.{small_screen, device}
use mantle_os.Tests.Syscall.{kernel, frame}

kernel_main-RunningOk_example :
    Returns
      (kernel_main 3 0x20_0000 cpu ram small_screen device kernel 0x36d7_6289 0x1000
        >>= from_start 0x20_0000 (calls (frame 1) ∷ computes (λ i. 7) ∷ calls (frame 99) ∷ []))
      RunningOk
kernel_main-RunningOk_example =
    kernel_main-RunningOk 3 0x20_0000 cpu ram small_screen device kernel 0x36d7_6289 0x1000
      (calls (frame 1) ∷ computes (λ i. 7) ∷ calls (frame 99) ∷ []) refl (omega arith) ram-IsBytes
      (omega arith) refl ram-NeedsTags
