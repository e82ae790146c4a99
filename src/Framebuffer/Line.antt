-- ===== src/Framebuffer/Line.antt =====
-- line of kernel/graphics/framebuffer.c. A signed overflow is a fault.
use mantle_os.Base.Int.{ℤ, ◌+ℤ◌, ◌-ℤ◌, ◌*ℤ◌, ◌/ℤ◌, leb_ℤ, int32, uint32, fits_int32}
use mantle_os.Base.{ℕ, zero, suc, ◌+◌, ◌-◌, Bool, not, leb, ltb, ◌==◌, if◌then◌else◌, add32, sub32}
use mantle_os.Memory.{Run, done, fault, ◌>>=◌, Region}
use mantle_os.Framebuffer.{FramebufferState, pixel}

abbrev pub checked : ℤ → Run ℤ
checked z = if fits_int32 z then done z else fault

-- The loop of a vertical line, from `y` to `end`, downwards or upwards. `y` is current_y as a
-- uint32_t; a step towards `end` cannot overflow. `fuel` is above the rounds that it makes.
unfoldable pub vertical : ℕ → FramebufferState → ℕ → ℕ → ℕ → Bool → ℕ → Region → Run Region
vertical zero state x y end down value video = fault
vertical (suc fuel) state x y end down value video = do
  video' ← pixel state x y value video
  let rest = vertical fuel state x (if down then add32 y 1 else sub32 y 1) end down value video'
  if y == end then done video' else rest

-- The line's y at `x`.
unfoldable pub line_y : ℕ → ℕ → ℤ → ℤ → ℕ → Run ℕ
line_y x0 y0 delta_x delta_y x = do
  run ← checked (int32 x -ℤ int32 x0)
  product ← checked (delta_y *ℤ run)
  rise ← checked (product /ℤ delta_x)
  y ← checked (int32 y0 +ℤ rise)
  done (uint32 y)

-- The loop of the other lines, from `x` on. `fuel` is above the rounds that it makes, unless `x1` is
-- the highest number: then the loop of the code has no end.
unfoldable pub sloped : ℕ → FramebufferState → ℕ → ℕ → ℕ → ℤ → ℤ → ℕ → ℕ → Region → Run Region
sloped zero state x0 y0 x1 delta_x delta_y x value video = fault
sloped (suc fuel) state x0 y0 x1 delta_x delta_y x value video =
    let next = λ (v : Region). sloped fuel state x0 y0 x1 delta_x delta_y (add32 x 1) value v in
    if not (leb x x1)
    then done video
    else (line_y x0 y0 delta_x delta_y x >>= λ y. (pixel state x y value video >>= next))

-- The distance between the ends of a vertical line.
abbrev pub distance : Bool → ℕ → ℕ → ℕ
distance down y0 y1 = if down then sub32 y1 y0 else sub32 y0 y1

unfoldable pub line : FramebufferState → ℕ → ℕ → ℕ → ℕ → ℕ → Region → Run Region
line state x0 y0 x1 y1 value video =
    if x0 == x1
    then vertical (suc (distance (leb_ℤ (int32 y0) (int32 y1)) y0 y1)) state x0 y0 y1
        (leb_ℤ (int32 y0) (int32 y1)) value video
    else if ltb x1 x0
    then done video
    else do
      delta_x ← checked (int32 x1 -ℤ int32 x0)
      delta_y ← checked (int32 y1 -ℤ int32 y0)
      sloped (x1 - x0 + 2) state x0 y0 x1 delta_x delta_y x0 value video
