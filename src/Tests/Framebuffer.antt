-- ===== src/Tests/Framebuffer.antt =====
-- kernel/graphics/framebuffer.c on a small_screen of four by three pixels.
use mantle_os.Base.{inl, ◌≡◌, refl, [], ◌∷◌, add32, arith}
use mantle_os.Memory.{done, fault, ◌>>=◌, Returns, Region, write8}
use mantle_os.Rootfs.Format.{bytes_at}
use mantle_os.Framebuffer.{
  FramebufferState, write_pixel, pixel, rectangle_row, rectangle_rows, rectangle, color,
}
use mantle_os.Framebuffer.Bounds.{Framed, InRectangle, rectangle-Framed}
use mantle_os.Framebuffer.Line.{line, sloped, line_y}
use mantle_os.Framebuffer.Slope.{Spanned, line-Framed}
use mantle_os.Framebuffer.Init.{framebuffer_init}
use mantle_os.Framebuffer.Search.{
  Passes, screen, pass, InitOutcome, framebuffer_init-InitOutcome, framebuffer_init-endless,
}
use mantle_os.Tests.Bytes.{region}

abbrev pub small_screen : FramebufferState
small_screen = record {
  address = 0xe000_0000;
  pitch = 16;
  width = 4;
  height = 3;
  bytes_per_pixel = 4;
  red_position = 16;
  green_position = 8;
  blue_position = 0;
}

abbrev video : Region
video = record { byte = λ i. 0; size = 48 }

accent : color small_screen 108 174 255 ≡ done 0x6c_aeff
unfolding color
accent = refl

-- The last pixel of the middle row; the rectangle is wider than the small_screen.
draws :
    (rectangle small_screen 3 1 9 1 0x6c_aeff video >>= λ v. done (bytes_at v.byte 26 8))
    ≡ done (0 ∷ 0 ∷ 0xff ∷ 0xae ∷ 0x6c ∷ 0 ∷ 0 ∷ 0 ∷ [])
unfolding rectangle rectangle_rows rectangle_row pixel write_pixel write8
draws = refl

rectangle-Framed_example :
    Returns
      (rectangle small_screen 3 1 9 1 0x6c_aeff video)
      (Framed small_screen (InRectangle small_screen 3 1 (add32 3 9) (add32 1 1)) video)
rectangle-Framed_example =
    rectangle-Framed small_screen 3 1 9 1 0x6c_aeff video (omega arith) (omega arith)

-- From the left lower corner to the right upper one.
slopes :
    (line small_screen 0 2 3 0 0xff video >>= λ v.
    done (v.byte 32 ∷ v.byte 36 ∷ v.byte 20 ∷ v.byte 8 ∷ v.byte 24 ∷ v.byte 12 ∷ []))
    ≡ done (0xff ∷ 0xff ∷ 0 ∷ 0 ∷ 0xff ∷ 0xff ∷ [])
unfolding line sloped line_y pixel write_pixel write8
slopes = refl

line-Framed_example :
    Returns
      (line small_screen 0 2 3 0 0xff video)
      (Framed small_screen (Spanned small_screen 0 2 3 0) video)
line-Framed_example =
    line-Framed small_screen (omega arith) 0 2 3 0 0xff (omega arith) (omega arith) (omega arith)
      (omega arith) video (omega arith)

-- A tag without contents, and the tag of a screen of 800 by 600 pixels at 0xe000_0000.
abbrev info : Region
info = region (
    64 ∷ 0 ∷ 0 ∷ 0 ∷ 0 ∷ 0 ∷ 0 ∷ 0 ∷ 0 ∷ 0 ∷ 0 ∷ 0 ∷ 0 ∷ 0 ∷ 0 ∷ 0 ∷ 1 ∷ 0 ∷ 0 ∷ 0 ∷ 8 ∷ 0 ∷ 0 ∷ 0
    ∷ 8 ∷ 0 ∷ 0 ∷ 0 ∷ 38 ∷ 0 ∷ 0 ∷ 0 ∷ 0 ∷ 0 ∷ 0 ∷ 0xe0 ∷ 0 ∷ 0 ∷ 0 ∷ 0 ∷ 0x80 ∷ 0x0c ∷ 0 ∷ 0 ∷ 0x20
    ∷ 3 ∷ 0 ∷ 0 ∷ 0x58 ∷ 2 ∷ 0 ∷ 0 ∷ 32 ∷ 1 ∷ 0 ∷ 0 ∷ 0 ∷ 8 ∷ 8 ∷ 8 ∷ 16 ∷ 8 ∷ 0 ∷ 0 ∷ [])

abbrev pub device : Region
device = record { byte = λ i. 0; size = 0x20_0000 }

info-Passes : Passes info 24 16 1
info-Passes =
    pass (omega arith) (omega arith) (inl (omega arith)) (screen (omega arith) refl (omega arith))

framebuffer_init-InitOutcome_example :
    Returns (framebuffer_init 2 info 0x36d7_6289 8 small_screen device) (InitOutcome info 24 device)
framebuffer_init-InitOutcome_example =
    framebuffer_init-InitOutcome info 8 24 1 2 small_screen device (omega arith) info-Passes
      (omega arith)
      λ usable. record {
        row = omega arith;
        room = omega arith;
        columns = (omega arith, omega arith);
        positions = (omega arith, omega arith, omega arith);
        lines = (omega arith, omega arith);
      }

-- A tag of the type 1 and the size 0.
abbrev endless : Region
endless = region (
    24 ∷ 0 ∷ 0 ∷ 0 ∷ 0 ∷ 0 ∷ 0 ∷ 0 ∷ 24 ∷ 0 ∷ 0 ∷ 0 ∷ 0 ∷ 0 ∷ 0 ∷ 0 ∷ 1 ∷ 0 ∷ 0 ∷ 0 ∷ 0 ∷ 0 ∷ 0 ∷ 0
    ∷ [])

framebuffer_init-endless_example :
    framebuffer_init 1000 endless 0x36d7_6289 8 small_screen device ≡ fault
framebuffer_init-endless_example =
    framebuffer_init-endless 1000 endless 8 small_screen device (omega arith) (omega arith)
      (omega arith) (omega arith) refl
