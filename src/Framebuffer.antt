-- ===== src/Framebuffer.antt =====
-- kernel/graphics/framebuffer.c and framebuffer.h: the state of the frame buffer, its pixels and its
-- rectangles. The memory of the device is a region that `state.address` leads to.
pub mod Bounds
pub mod Line
pub mod Splash
pub mod Init
pub mod Slope
pub mod Drawn
pub mod Search
pub mod Tags
use Prim.Native.Nat.{bit_or}
use mantle_os.Base.{
  ℕ, zero, suc, ◌+◌, ◌-◌, ◌*◌, ◌/◌, ◌%◌, ◌^◌, Bool, true, false, not, ◌&&◌, ◌||◌, Option, none,
  some, ltb, leb, ◌==◌, if◌then◌else◌, add32, u32_mod,
}
use mantle_os.Memory.{Run, done, fault, ◌>>=◌, Region, write8}

-- struct framebuffer_state
pub record FramebufferState : Type 0 where
  pub address : ℕ
  pub pitch : ℕ
  pub width : ℕ
  pub height : ℕ
  pub bytes_per_pixel : ℕ
  pub red_position : ℕ
  pub green_position : ℕ
  pub blue_position : ℕ

-- A shift by 32 or more is undefined: a fault.
unfoldable pub color : FramebufferState → ℕ → ℕ → ℕ → Run ℕ
color state red green blue =
    if ltb state.red_position 32 && ltb state.green_position 32 && ltb state.blue_position 32
    then done (
        bit_or
          (bit_or (red * 2 ^ state.red_position % u32_mod)
            (green * 2 ^ state.green_position % u32_mod))
          (blue * 2 ^ state.blue_position % u32_mod))
    else fault

-- The loop of pixel, from the byte `byte` on with `left` to come.
unfoldable pub write_pixel : ℕ → ℕ → ℕ → ℕ → Region → Run Region
write_pixel zero byte destination value video = done video
write_pixel (suc left) byte destination value video = do
  video' ← write8 video (destination + byte) (value / 2 ^ (byte * 8) % 256)
  write_pixel left (byte + 1) destination value video'

unfoldable pub pixel : FramebufferState → ℕ → ℕ → ℕ → Region → Run Region
pixel state x y value video =
    if leb state.width x || leb state.height y
    then done video
    else write_pixel state.bytes_per_pixel 0 (y * state.pitch + x * state.bytes_per_pixel) value
        video

-- The inner loop of rectangle; `fuel` is above the rounds that it can make.
unfoldable pub rectangle_row : ℕ → FramebufferState → ℕ → ℕ → ℕ → ℕ → Region → Run Region
rectangle_row zero state x y end value video = fault
rectangle_row (suc fuel) state x y end value video =
    let next = λ (v : Region). rectangle_row fuel state (x + 1) y end value v in
    if ltb x end && ltb x state.width then (pixel state x y value video >>= next) else done video

-- The outer loop.
unfoldable pub rectangle_rows : ℕ → FramebufferState → ℕ → ℕ → ℕ → ℕ → ℕ → Region → Run Region
rectangle_rows zero state left y right bottom value video = fault
rectangle_rows (suc fuel) state left y right bottom value video =
    let next = λ (v : Region). rectangle_rows fuel state left (y + 1) right bottom value v in
    if ltb y bottom && ltb y state.height
    then (rectangle_row (suc state.width) state left y right value video >>= next)
    else done video

unfoldable pub rectangle : FramebufferState → ℕ → ℕ → ℕ → ℕ → ℕ → Region → Run Region
rectangle state left top width height value video =
    rectangle_rows (suc state.height) state left top (add32 left width) (add32 top height) value
      video
