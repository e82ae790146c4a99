-- ===== src/Framebuffer/Drawn.antt =====
-- draw_mantle_splash of kernel/graphics/framebuffer.c stays on the screen.
use mantle_os.Base.{ℕ, ◌*◌, ◌/◌, ◌≤◌, ◌<◌, ◌≡◌, ◌∙◌, add32, sub32, arith, lt→ltb}
use mantle_os.Memory.{Run, done, fault, ◌>>=◌, Region, Returns}
use mantle_os.Framebuffer.{FramebufferState, color, rectangle}
use mantle_os.Framebuffer.Bounds.{Framed, Framed-bind, InRectangle, rectangle-Framed}
use mantle_os.Framebuffer.Line.{line}
use mantle_os.Framebuffer.Slope.{Spanned, line-Framed}
use mantle_os.Framebuffer.Splash.{
  mark_width, mark_height, mark_left, mark_top, draw_background, draw_mark, draw_bar,
  draw_mantle_splash,
}

abbrev pub OnScreen : FramebufferState → ℕ → ℕ → Type 0
OnScreen state x y = (x < state.width) × (y < state.height)

-- The mark has room on the screen, the numbers are those of a usual screen, the positions of the colours
-- are below 32, the rows hold the pixels and the memory of the device holds the rows.
pub record IsDrawable (state : FramebufferState) (size : ℕ) : Type 0 where
  pub row : state.width * state.bytes_per_pixel ≤ state.pitch
  pub room : state.height * state.pitch ≤ size
  pub columns : (96 ≤ state.width) × (state.width < 0x7000)
  pub positions :
      (state.red_position < 32) × (state.green_position < 32) × (state.blue_position < 32)
  pub lines : (80 ≤ state.height) × (state.height < 0x7000)

Framed-weaken :
    (state : FramebufferState) (In Out : ℕ → ℕ → Type 0) (old : Region) (m : Run Region)
    → ((x y : ℕ) → In x y → Out x y)
    → Returns m (Framed state In old)
    → Returns m (Framed state Out old)
Framed-weaken state In Out old (done new) inside framed = record {
  size = framed.size;
  outside = λ i far. framed.outside i (λ x y b within. far x y b (inside x y within));
}
Framed-weaken state In Out old fault inside out = out

module _ (state : FramebufferState) (size : ℕ) (good : IsDrawable state size) where
  rectangle-OnScreen :
      (left top width height value : ℕ) (video : Region)
      → video.size ≡ size
      → Returns
          (rectangle state left top width height value video)
          (Framed state (OnScreen state) video)
  rectangle-OnScreen left top width height value video e =
      Framed-weaken state (InRectangle state left top (add32 left width) (add32 top height))
        (OnScreen state) video (rectangle state left top width height value video)
        (λ x y inside. (inside.columns.2, inside.lines.2))
        (rectangle-Framed state left top width height value video good.row
          (omega (arith, e, good.room)))

  line-OnScreen :
      (x0 y0 x1 y1 value : ℕ) (video : Region)
      → x0 < 0x8000
      → y0 < 0x8000
      → x1 < 0x8000
      → y1 < 0x8000
      → video.size ≡ size
      → Returns (line state x0 y0 x1 y1 value video) (Framed state (OnScreen state) video)
  line-OnScreen x0 y0 x1 y1 value video c0 l0 c1 l1 e =
      Framed-weaken state (Spanned state x0 y0 x1 y1) (OnScreen state) video
        (line state x0 y0 x1 y1 value video) (λ x y inside. inside.screen)
        (line-Framed state good.row x0 y0 x1 y1 value c0 c1 l0 l1 video
          (omega (arith, e, good.room)))

  -- One drawing after another.
  and_then :
      (video : Region) (m : Run Region) (k : Region → Run Region)
      → video.size ≡ size
      → Returns m (Framed state (OnScreen state) video)
      → ((v : Region) → v.size ≡ size → Returns (k v) (Framed state (OnScreen state) v))
      → Returns (m >>= k) (Framed state (OnScreen state) video)
  and_then video m k e first next =
      Framed-bind state (OnScreen state) good.row video m k first λ v same. next v (same ∙ e)

  -- A colour that is computed.
  with_color :
      (red green blue : ℕ) (k : ℕ → Run Region) (P : Region → Type 0)
      → ((value : ℕ) → Returns (k value) P)
      → Returns (color state red green blue >>= k) P
  unfolding color
  with_color red green blue k P later =
      let (r, g, b) = good.positions in
      rw
        (
          lt→ltb state.red_position 32 r,
          lt→ltb state.green_position 32 g,
          lt→ltb state.blue_position 32 b,
        )
        (later _)

  draw_background-OnScreen :
      (video : Region)
      → video.size ≡ size
      → Returns (draw_background state video) (Framed state (OnScreen state) video)
  unfolding draw_background
  draw_background-OnScreen video e = with_color 108 174 255 _ _ λ accent.
      with_color 12 19 29 _ _ λ background.
        and_then video _ _ e (rectangle-OnScreen _ _ _ _ _ video e) λ a ea.
          and_then a _ _ ea (rectangle-OnScreen _ _ _ _ _ a ea)
            λ b eb. with_color 24 36 49 _ _ λ panel. rectangle-OnScreen _ _ _ _ _ b eb

  draw_bar-OnScreen :
      (video : Region)
      → video.size ≡ size
      → Returns (draw_bar state video) (Framed state (OnScreen state) video)
  unfolding draw_bar
  draw_bar-OnScreen video e = with_color 24 36 49 _ _ λ panel.
      and_then video _ _ e (rectangle-OnScreen _ _ _ _ _ video e)
        λ a ea. with_color 108 174 255 _ _ λ accent. rectangle-OnScreen _ _ _ _ _ a ea

  -- The columns of the mark, and its lines.
  columns-lt :
      (mark_left state < 0x8000)
      × (add32 (mark_left state) (mark_width state / 2) < 0x8000)
      × (add32 (mark_left state) (mark_width state) < 0x8000)
      × (add32 (mark_left state) 10 < 0x8000)
      × (sub32 (add32 (mark_left state) (mark_width state)) 10 < 0x8000)
  columns-lt = (
    ground (arith, good.columns),
    ground (arith, good.columns),
    ground (arith, good.columns),
    ground (arith, good.columns),
    ground (arith, good.columns),
  )

  lines-lt :
      (mark_top state < 0x8000)
      × (add32 (mark_top state) (mark_height state / 2) < 0x8000)
      × (add32 (mark_top state) (mark_height state) < 0x8000)
      × (add32 (add32 (mark_top state) (mark_height state / 2)) 12 < 0x8000)
      × (add32 (add32 (mark_top state) (mark_height state)) 12 < 0x8000)
  lines-lt = (
    ground (arith, good.lines),
    ground (arith, good.lines),
    ground (arith, good.lines),
    ground (arith, good.lines),
    ground (arith, good.lines),
  )

  draw_mark-OnScreen :
      (video : Region)
      → video.size ≡ size
      → Returns (draw_mark state video) (Framed state (OnScreen state) video)
  unfolding draw_mark
  draw_mark-OnScreen video e =
      let x = columns-lt in
      let y = lines-lt in
      with_color 238 244 249 _ _ λ white. with_color 108 174 255 _ _ λ accent.
        and_then video _ _ e (line-OnScreen _ _ _ _ _ video x.0 y.2 x.0 y.0 e) λ a ea.
          and_then a _ _ ea (line-OnScreen _ _ _ _ _ a x.0 y.0 x.1 y.1 ea) λ b eb.
            and_then b _ _ eb (line-OnScreen _ _ _ _ _ b x.1 y.1 x.2 y.0 eb) λ c ec.
              and_then c _ _ ec (line-OnScreen _ _ _ _ _ c x.2 y.0 x.2 y.2 ec) λ d ed.
                and_then d _ _ ed (line-OnScreen _ _ _ _ _ d x.3 y.4 x.1 y.3 ed)
                  λ f ef. line-OnScreen _ _ _ _ _ f x.1 y.3 x.4 y.4 ef

  pub draw_mantle_splash-OnScreen :
      (video : Region)
      → video.size ≡ size
      → Returns (draw_mantle_splash state video) (Framed state (OnScreen state) video)
  unfolding draw_mantle_splash
  draw_mantle_splash-OnScreen video e =
      and_then video _ _ e (draw_background-OnScreen video e)
        λ a ea. and_then a _ _ ea (draw_mark-OnScreen a ea) draw_bar-OnScreen
