-- ===== src/Framebuffer/Splash.antt =====
-- draw_mantle_splash of kernel/graphics/framebuffer.c.
use mantle_os.Base.{ℕ, ◌/◌, ltb, if◌then◌else◌, add32, sub32}
use mantle_os.Memory.{Run, ◌>>=◌, Region}
use mantle_os.Framebuffer.{FramebufferState, color, rectangle}
use mantle_os.Framebuffer.Line.{line}

-- The width and the height of the mark.
abbrev pub mark_width : FramebufferState → ℕ
mark_width state = if ltb 640 state.width then 180 else 96

abbrev pub mark_height : FramebufferState → ℕ
mark_height state = if ltb 480 state.height then 136 else 80

-- The left upper corner of the mark, and the line of the bar.
abbrev pub mark_left : FramebufferState → ℕ
mark_left state = sub32 state.width (mark_width state) / 2

abbrev pub mark_top : FramebufferState → ℕ
mark_top state = sub32 state.height (mark_height state) / 2

abbrev pub bar_top : FramebufferState → ℕ
bar_top state = if ltb 64 state.height then sub32 state.height 48 else 0

-- The three rectangles of the background.
unfoldable pub draw_background : FramebufferState → Region → Run Region
draw_background state video = do
  accent ← color state 108 174 255
  background ← color state 12 19 29
  a ← rectangle state 0 0 state.width state.height background video
  b ← rectangle state 0 0 state.width 2 accent a
  panel ← color state 24 36 49
  rectangle state 0 (bar_top state) state.width 1 panel b

-- The six lines of the mark.
unfoldable pub draw_mark : FramebufferState → Region → Run Region
draw_mark state video = do
  let left = mark_left state
  let top = mark_top state
  let middle = add32 left (mark_width state / 2)
  let centre = add32 top (mark_height state / 2)
  let right = add32 left (mark_width state)
  let bottom = add32 top (mark_height state)
  white ← color state 238 244 249
  accent ← color state 108 174 255
  a ← line state left bottom left top white video
  b ← line state left top middle centre white a
  c ← line state middle centre right top white b
  d ← line state right top right bottom white c
  e ← line state (add32 left 10) (add32 bottom 12) middle (add32 centre 12) accent d
  line state middle (add32 centre 12) (sub32 right 10) (add32 bottom 12) accent e

-- The two rectangles of the progress bar.
unfoldable pub draw_bar : FramebufferState → Region → Run Region
draw_bar state video = do
  let left = sub32 (add32 (mark_left state) (mark_width state / 2)) 38
  let top = sub32 (bar_top state) 13
  panel ← color state 24 36 49
  a ← rectangle state left top 76 3 panel video
  accent ← color state 108 174 255
  rectangle state left top 25 3 accent a

unfoldable pub draw_mantle_splash : FramebufferState → Region → Run Region
draw_mantle_splash state video =
    draw_background state video >>= λ a. (draw_mark state a >>= draw_bar state)
