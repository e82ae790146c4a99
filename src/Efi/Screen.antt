-- ===== src/Efi/Screen.antt =====
-- The frame buffer in the boot information that boot/efi/loader.c builds, as
-- kernel/graphics/framebuffer.c reads it.
use mantle_os.Base.{
  ℕ, ◌+◌, ◌*◌, ◌/◌, ◌%◌, ◌≤◌, ◌<◌, ◌≡◌, ◌≢◌, refl, sym, ap, ◌∙◌, inl, inr, true, false, Option,
  none, some, add32, add64, arith, u32_mod, u64_mod,
}
use mantle_os.Memory.{Run, done, fault, ◌>>=◌, Returns, Region, le32}
use mantle_os.Framebuffer.{FramebufferState}
use mantle_os.Framebuffer.Bounds.{Framed}
use mantle_os.Framebuffer.Drawn.{OnScreen, IsDrawable}
use mantle_os.Framebuffer.Init.{InitEnd, state_of, framebuffer_init}
use mantle_os.Framebuffer.Search.{
  framebuffer_tag, Passes, screen, pass, IsUsable, InitOutcome, framebuffer_init-InitOutcome,
}
use mantle_os.Efi.Info.{GraphicsMode, build_info}
use mantle_os.Efi.Page.{info_page, blank, build_info_lem}
use mantle_os.Efi.Handover.{with_page, with_page-byte}

-- The kernel's search in the boot information that was built.
abbrev pub init_in : ℕ → Region → FramebufferState → Region → Option (ℕ × Region) → Run InitEnd
init_in fuel ram state video none =
    done (record { state = state; video = video; succeeded = false })
init_in fuel ram state video (some (address, page)) =
    framebuffer_init fuel (with_page ram address page) 0x36d7_6289 address state video

-- The screen of a mode: four bytes for a pixel, red first.
abbrev pub screen_of : GraphicsMode → FramebufferState
screen_of mode = record {
  address = mode.frame_buffer_base;
  pitch = mode.pixels_per_scan_line * 4 % u32_mod;
  width = mode.horizontal_resolution;
  height = mode.vertical_resolution;
  bytes_per_pixel = 4;
  red_position = 0;
  green_position = 8;
  blue_position = 16;
}

-- A mode with a frame buffer and a screen, whose numbers are in range.
pub record IsMode (mode : GraphicsMode) : Type 0 where
  pub base : (mode.frame_buffer_base ≢ 0) × (mode.frame_buffer_base < u64_mod)
  pub line : mode.pixels_per_scan_line * 4 % u32_mod ≢ 0
  pub width : (mode.horizontal_resolution ≢ 0) × (mode.horizontal_resolution < u32_mod)
  pub height : (mode.vertical_resolution ≢ 0) × (mode.vertical_resolution < u32_mod)

-- The screen of the mode is set up, and only its pixels are written.
abbrev pub Shows : GraphicsMode → Region → InitEnd → Type 0
Shows mode video r =
    (r.succeeded ≡ true)
    × (r.state ≡ screen_of mode)
    × Framed r.state (OnScreen r.state) video r.video

module _ (ram page : Region) (address : ℕ) (whole : page.size ≡ 0x1000) where
  byte_at :
      (a k : ℕ) → a ≡ address + k → k < 0x1000 → (with_page ram address page).byte a ≡ page.byte k
  byte_at a k e h = rw e (with_page-byte ram page address whole k h)

  word_at :
      (a k : ℕ)
      → a ≡ address + k
      → k + 4 ≤ 0x1000
      → le32 (with_page ram address page).byte a ≡ le32 page.byte k
  word_at a k e h = omega (
    arith,
    byte_at a k e (omega arith),
    byte_at (a + 1) (k + 1) (omega arith) (omega arith),
    byte_at (a + 2) (k + 2) (omega arith) (omega arith),
    byte_at (a + 2 + 1) (k + 2 + 1) (omega arith) (omega arith),
  )

module _ (ram : Region) (address : ℕ) (f : ℕ → ℕ) (mode : GraphicsMode) (start end : ℕ)
    (good : IsMode mode) (room : address + 0x1000 ≤ ram.size) (low : address < u32_mod) where
  abbrev page : Region
  page = record { byte = info_page (blank f) (some mode) start end; size = 0x1000 }

  abbrev seen : Region
  seen = with_page ram address page

  word : (a k : ℕ) → a ≡ address + k → k + 4 ≤ 0x1000 → le32 seen.byte a ≡ le32 page.byte k
  word = word_at ram page address refl

  byte : (a k : ℕ) → a ≡ address + k → k < 0x1000 → seen.byte a ≡ page.byte k
  byte = byte_at ram page address refl

  tag-Passes : Passes seen (address + 40) (add64 address 8) 1
  tag-Passes =
      let first : add64 address 8 ≡ address + 8 = omega arith in
      let size = word (address + 8 + 4) 12 (omega arith) (omega arith) in
      let second : add64 (address + 8) (add32 30 7 / 8 * 8) ≡ address + 40 = omega arith in
      rw first (
        pass (omega arith) (omega (arith, word (address + 8) 8 refl (omega arith)))
          (inl (omega (arith, word (address + 8) 8 refl (omega arith))))
          (rw (size, second)
            (screen (omega arith) (word (address + 40) 40 refl (omega arith))
              (omega (arith, word (address + 40 + 4) 44 (omega arith) (omega arith))))))

  state_of-screen : state_of (framebuffer_tag seen (address + 40)) ≡ screen_of mode
  state_of-screen = ground (
    arith,
    word (address + 40 + 8) 48 (omega arith) (omega arith),
    word (address + 40 + 8 + 4) 52 (omega arith) (omega arith),
    word (address + 40 + 16) 56 (omega arith) (omega arith),
    word (address + 40 + 20) 60 (omega arith) (omega arith),
    word (address + 40 + 24) 64 (omega arith) (omega arith),
    byte (address + 40 + 28) 68 (omega arith) (omega arith),
    byte (address + 40 + 32) 72 (omega arith) (omega arith),
    byte (address + 40 + 34) 74 (omega arith) (omega arith),
    byte (address + 40 + 36) 76 (omega arith) (omega arith),
  )

  tag-IsUsable : IsUsable (framebuffer_tag seen (address + 40))
  tag-IsUsable =
      let same = state_of-screen in
      record {
        type = byte (address + 40 + 29) 69 (omega arith) (omega arith);
        address = λ none_there. good.base.0 (sym (ap FramebufferState.address same) ∙ none_there);
        depth = (
          omega (arith, byte (address + 40 + 28) 68 (omega arith) (omega arith)),
          omega (arith, byte (address + 40 + 28) 68 (omega arith) (omega arith)),
        );
        width = λ none_there. good.width.0 (sym (ap FramebufferState.width same) ∙ none_there);
        height = λ none_there. good.height.0 (sym (ap FramebufferState.height same) ∙ none_there);
        pitch = λ none_there. good.line (sym (ap FramebufferState.pitch same) ∙ none_there);
      }

  outcome-Shows :
      (video : Region) (m : Run InitEnd)
      → Returns m (InitOutcome seen (address + 40) video)
      → Returns m (Shows mode video)
  outcome-Shows video (done r) (inl (ok, type, usable, same, framed)) =
      (ok, same ∙ state_of-screen, framed)
  outcome-Shows video (done r) (inr (failed, never, same)) =
      absurd (never (word (address + 40) 40 refl (omega arith)) tag-IsUsable)
  outcome-Shows video fault out = out

  framebuffer_init-Shows :
      (fuel : ℕ) (state : FramebufferState) (video : Region)
      → 1 < fuel
      → address ≢ 0
      → IsDrawable (screen_of mode) video.size
      → Returns (framebuffer_init fuel seen 0x36d7_6289 address state video) (Shows mode video)
  framebuffer_init-Shows fuel state video enough some_address drawable =
      outcome-Shows video (framebuffer_init fuel seen 0x36d7_6289 address state video) (
        framebuffer_init-InitOutcome seen address (address + 40) 1 fuel state video some_address
          tag-Passes enough λ usable. rw state_of-screen drawable)

-- With a page below 4 GiB that is not at the address 0, a memory that holds it, a mode in range with a screen on which
-- the mark has room, and the memory of the device for its rows: The boot information that the
-- loader builds leads the kernel's search to the frame buffer. The search and the drawing end within two tags,
-- the kernel's state is that of the mode, and only bytes of the pixels of its screen are written.
pub build_info-Shows :
    (ram : Region) (address : ℕ) (f : ℕ → ℕ) (mode : GraphicsMode) (rootfs size fuel : ℕ)
    (state : FramebufferState) (video : Region)
    → IsMode mode
    → address ≢ 0
    → address < u32_mod
    → address + 0x1000 ≤ ram.size
    → 1 < fuel
    → IsDrawable (screen_of mode) video.size
    → Returns
        (build_info (some (address, record { byte = f; size = 0x1000 })) (some mode) rootfs size
          >>= init_in fuel ram state video)
        (Shows mode video)
build_info-Shows ram address f mode rootfs size fuel state video good some_address low room enough
      drawable =
    rw (build_info_lem address f (some mode) rootfs size) (
      framebuffer_init-Shows ram address f mode (rootfs % u32_mod)
        (add32 (rootfs % u32_mod) (size % u32_mod)) good room low fuel state video enough
        some_address drawable)
