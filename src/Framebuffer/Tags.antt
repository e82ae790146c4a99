-- ===== src/Framebuffer/Tags.antt =====
-- The tags that mantle_framebuffer_init of kernel/graphics/framebuffer.c needs to find an end.
use mantle_os.Base.{
  ℕ, ◌<◌, ◌≡◌, ◌≢◌, refl, ◌⊎◌, inl, inr, not, ◌||◌, ◌==◌, add64, arith, Bool-cases,
}
use mantle_os.Memory.{Returns, Returns-weaken, Region}
use mantle_os.Framebuffer.{FramebufferState}
use mantle_os.Framebuffer.Bounds.{Framed}
use mantle_os.Framebuffer.Drawn.{OnScreen, IsDrawable}
use mantle_os.Framebuffer.Init.{InitEnd, state_of, framebuffer_init}
use mantle_os.Framebuffer.Search.{
  framebuffer_tag, Passes, IsUsable, InitOutcome, framebuffer_init-InitOutcome,
}

-- From the ninth byte of the boot information on, fewer than `fuel` tags lead to the last one or to one of the
-- frame buffer, and the screen that this one describes, if it is usable, can be drawn on.
pub record HasTags (fuel : ℕ) (ram : Region) (info : ℕ) (video : Region) : Type 0 where
  pub stop : ℕ
  pub passed : ℕ
  pub passes : Passes ram stop (add64 info 8) passed
  pub enough : passed < fuel
  pub drawable :
      IsUsable (framebuffer_tag ram stop)
      → IsDrawable (state_of (framebuffer_tag ram stop)) video.size

-- The memory of the device is as before, or only bytes of pixels of the screen are written.
abbrev pub OnlyPixels : Region → InitEnd → Type 0
OnlyPixels video g = (g.video ≡ video) ⊎ Framed g.state (OnScreen g.state) video g.video

InitOutcome-OnlyPixels :
    (ram : Region) (stop : ℕ) (video : Region) (g : InitEnd)
    → InitOutcome ram stop video g
    → OnlyPixels video g
InitOutcome-OnlyPixels ram stop video g (inl (ok, type, usable, same, framed)) = inr framed
InitOutcome-OnlyPixels ram stop video g (inr (failed, never, same)) = inl same

-- If a Multiboot 2 loader is given, with boot information, then with tags as above.
abbrev pub NeedsTags : ℕ → Region → ℕ → ℕ → Region → Type 0
NeedsTags fuel ram magic info video = magic ≡ 0x36d7_6289 → info ≢ 0 → HasTags fuel ram info video

pub framebuffer_init-OnlyPixels :
    (fuel : ℕ) (ram : Region) (magic info : ℕ) (state : FramebufferState) (video : Region)
    → NeedsTags fuel ram magic info video
    → Returns (framebuffer_init fuel ram magic info state video) (OnlyPixels video)
unfolding framebuffer_init
framebuffer_init-OnlyPixels fuel ram magic info state video needs =
    elim (Bool-cases (not (magic == 0x36d7_6289) || (info == 0))) [
      | inl refused ↦ rw refused (inl refl)
      | inr accepted ↦
          let multiboot : magic ≡ 0x36d7_6289 = ground arith in
          let tags = needs multiboot (ground arith) in
          rw multiboot (
            Returns-weaken (framebuffer_init fuel ram 0x36d7_6289 info state video)
              (InitOutcome ram tags.stop video) (OnlyPixels video)
              (framebuffer_init-InitOutcome ram info tags.stop tags.passed fuel state video
                (ground arith) tags.passes tags.enough tags.drawable)
              (InitOutcome-OnlyPixels ram tags.stop video))
    ]
