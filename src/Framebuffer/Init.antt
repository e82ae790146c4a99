-- ===== src/Framebuffer/Init.antt =====
-- mantle_framebuffer_init of kernel/graphics/framebuffer.c: the search for the frame buffer in the boot
-- information.
use mantle_os.Base.{
  ℕ, zero, suc, ◌+◌, ◌/◌, ◌*◌, Bool, true, false, not, ◌&&◌, ◌||◌, ltb, leb, ◌==◌, if◌then◌else◌,
  add32, add64,
}
use mantle_os.Memory.{Run, done, fault, ◌>>=◌, Region, read8, read32, read64}
use mantle_os.Framebuffer.{FramebufferState}
use mantle_os.Framebuffer.Splash.{draw_mantle_splash}

-- The fields of struct multiboot_tag_framebuffer_common, and the positions behind them.
pub record FramebufferTag : Type 0 where
  pub framebuffer_addr : ℕ
  pub framebuffer_pitch : ℕ
  pub framebuffer_width : ℕ
  pub framebuffer_height : ℕ
  pub framebuffer_bpp : ℕ
  pub framebuffer_type : ℕ
  pub red_position : ℕ
  pub green_position : ℕ
  pub blue_position : ℕ

unfoldable pub read_framebuffer_tag : Region → ℕ → Run FramebufferTag
unfolding read8 read32 read64
read_framebuffer_tag ram at = do
  address ← read64 ram (at + 8)
  pitch ← read32 ram (at + 16)
  width ← read32 ram (at + 20)
  height ← read32 ram (at + 24)
  bpp ← read8 ram (at + 28)
  type ← read8 ram (at + 29)
  red ← read8 ram (at + 32)
  green ← read8 ram (at + 34)
  blue ← read8 ram (at + 36)
  done (record {
    framebuffer_addr = address;
    framebuffer_pitch = pitch;
    framebuffer_width = width;
    framebuffer_height = height;
    framebuffer_bpp = bpp;
    framebuffer_type = type;
    red_position = red;
    green_position = green;
    blue_position = blue;
  })

unfoldable pub framebuffer_rejected : FramebufferTag → Bool
framebuffer_rejected tag =
    not (tag.framebuffer_type == 1)
    || (tag.framebuffer_addr == 0)
    || ltb tag.framebuffer_bpp 24
    || ltb 32 tag.framebuffer_bpp

-- The static variable, after it was set from a tag.
abbrev pub state_of : FramebufferTag → FramebufferState
state_of tag = record {
  address = tag.framebuffer_addr;
  pitch = tag.framebuffer_pitch;
  width = tag.framebuffer_width;
  height = tag.framebuffer_height;
  bytes_per_pixel = (tag.framebuffer_bpp + 7) / 8;
  red_position = tag.red_position;
  green_position = tag.green_position;
  blue_position = tag.blue_position;
}

-- The static variable, the memory of the device, and whether the result is 0.
pub record InitEnd : Type 0 where
  pub state : FramebufferState
  pub video : Region
  pub succeeded : Bool

-- A tag of the frame buffer.
unfoldable pub use_framebuffer : FramebufferTag → FramebufferState → Region → Run InitEnd
use_framebuffer tag state video =
    let set = state_of tag in
    if framebuffer_rejected tag
    then done (record { state = state; video = video; succeeded = false })
    else if (set.width == 0) || (set.height == 0) || (set.pitch == 0)
    then done (record { state = set; video = video; succeeded = false })
    else (draw_mantle_splash set video >>= λ drawn.
        done (record { state = set; video = drawn; succeeded = true }))

-- The loop over the tags from `cursor` on. The code has no bound for it: `fuel` is the number of
-- tags after which the model gives up.
unfoldable pub search_tags : ℕ → Region → ℕ → FramebufferState → Region → Run InitEnd
search_tags zero ram cursor state video = fault
search_tags (suc fuel) ram cursor state video = do
  type ← read32 ram cursor
  let rest = λ (size : ℕ). search_tags fuel ram (add64 cursor (add32 size 7 / 8 * 8)) state video
  if type == 0
      then done (record { state = state; video = video; succeeded = false })
      else (read32 ram (cursor + 4) >>= λ size.
          if (type == 8) && leb 38 size
          then (read_framebuffer_tag ram cursor >>= λ tag. use_framebuffer tag state video)
          else rest size)

unfoldable pub framebuffer_init : ℕ → Region → ℕ → ℕ → FramebufferState → Region → Run InitEnd
framebuffer_init fuel ram magic info state video =
    if not (magic == 0x36d7_6289) || (info == 0)
    then done (record { state = state; video = video; succeeded = false })
    else search_tags fuel ram (add64 info 8) state video
