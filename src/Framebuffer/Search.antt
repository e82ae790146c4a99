-- ===== src/Framebuffer/Search.antt =====
-- mantle_framebuffer_init of kernel/graphics/framebuffer.c on boot information that has an end.
use mantle_os.Base.{
  ℕ, zero, suc, ◌+◌, ◌*◌, ◌/◌, ◌≤◌, ◌<◌, ◌≡◌, ◌≢◌, refl, ◌⊎◌, inl, inr, true, false, ◌&&◌, ◌||◌,
  leb, ◌==◌, add32, add64, arith, Bool-cases, le→leb,
}
use mantle_os.Memory.{Run, done, fault, ◌>>=◌, Returns, Region, le32, le64, read32}
use mantle_os.Framebuffer.{FramebufferState}
use mantle_os.Framebuffer.Bounds.{Framed}
use mantle_os.Framebuffer.Splash.{draw_mantle_splash}
use mantle_os.Framebuffer.Drawn.{OnScreen, IsDrawable, draw_mantle_splash-OnScreen}
use mantle_os.Framebuffer.Init.{
  FramebufferTag, InitEnd, read_framebuffer_tag, framebuffer_rejected, state_of, use_framebuffer,
  search_tags, framebuffer_init,
}

-- The tag of the frame buffer at `at`.
abbrev pub framebuffer_tag : Region → ℕ → FramebufferTag
framebuffer_tag ram at = record {
  framebuffer_addr = le64 ram.byte (at + 8);
  framebuffer_pitch = le32 ram.byte (at + 16);
  framebuffer_width = le32 ram.byte (at + 20);
  framebuffer_height = le32 ram.byte (at + 24);
  framebuffer_bpp = ram.byte (at + 28);
  framebuffer_type = ram.byte (at + 29);
  red_position = ram.byte (at + 32);
  green_position = ram.byte (at + 34);
  blue_position = ram.byte (at + 36);
}

-- From `at` on, the search passes a number of tags and stops at `stop`: at the last tag, or at
-- one of the frame buffer. All of them are in memory.
pub data Passes (ram : Region) (stop : ℕ) : ℕ → ℕ → Type 0 where
  last : stop + 4 ≤ ram.size → le32 ram.byte stop ≡ 0 → Passes ram stop stop 0
  screen :
      stop + 38 ≤ ram.size
      → le32 ram.byte stop ≡ 8
      → 38 ≤ le32 ram.byte (stop + 4)
      → Passes ram stop stop 0
  pass :
      {at n : ℕ}
      → at + 8 ≤ ram.size
      → le32 ram.byte at ≢ 0
      → ((le32 ram.byte at ≢ 8) ⊎ (le32 ram.byte (at + 4) < 38))
      → Passes ram stop (add64 at (add32 (le32 ram.byte (at + 4)) 7 / 8 * 8)) n
      → Passes ram stop at (suc n)

-- A frame buffer that the kernel can use: direct colours of 24 to 32 bits, and no empty screen.
pub record IsUsable (tag : FramebufferTag) : Type 0 where
  pub type : tag.framebuffer_type ≡ 1
  pub address : tag.framebuffer_addr ≢ 0
  pub depth : (24 ≤ tag.framebuffer_bpp) × (tag.framebuffer_bpp ≤ 32)
  pub width : tag.framebuffer_width ≢ 0
  pub height : tag.framebuffer_height ≢ 0
  pub pitch : tag.framebuffer_pitch ≢ 0

-- Success: the screen of a usable tag is set up, and only its pixels are written. Failure: no
-- usable tag is there, and nothing is written.
abbrev pub InitOutcome : Region → ℕ → Region → InitEnd → Type 0
InitOutcome ram stop video r =
    ((r.succeeded ≡ true)
      × (le32 ram.byte stop ≡ 8)
      × IsUsable (framebuffer_tag ram stop)
      × (r.state ≡ state_of (framebuffer_tag ram stop))
      × Framed r.state (OnScreen r.state) video r.video)
    ⊎ ((r.succeeded ≡ false)
        × ((le32 ram.byte stop ≡ 8) → IsUsable (framebuffer_tag ram stop) → ⊥)
        × (r.video ≡ video))

read_framebuffer_tag_lem :
    (ram : Region) (at : ℕ)
    → at + 38 ≤ ram.size
    → read_framebuffer_tag ram at ≡ done (framebuffer_tag ram at)
unfolding read_framebuffer_tag
read_framebuffer_tag_lem ram at h = ground arith

framebuffer_rejected_iff :
    (tag : FramebufferTag)
    → ((framebuffer_rejected tag ≡ true)
        × ((tag.framebuffer_type ≢ 1)
            ⊎ (tag.framebuffer_addr ≡ 0)
            ⊎ (tag.framebuffer_bpp < 24)
            ⊎ (32 < tag.framebuffer_bpp)))
      ⊎ ((framebuffer_rejected tag ≡ false)
          × (tag.framebuffer_type ≡ 1)
          × (tag.framebuffer_addr ≢ 0)
          × (24 ≤ tag.framebuffer_bpp)
          × (tag.framebuffer_bpp ≤ 32))
unfolding framebuffer_rejected
framebuffer_rejected_iff tag = ground arith

drawn :
    (ram : Region) (stop : ℕ) (video : Region) (state : FramebufferState) (m : Run Region)
    → state ≡ state_of (framebuffer_tag ram stop)
    → le32 ram.byte stop ≡ 8
    → IsUsable (framebuffer_tag ram stop)
    → Returns m (Framed state (OnScreen state) video)
    → Returns
        (m >>= λ v. done (record { state = state; video = v; succeeded = true }))
        (InitOutcome ram stop video)
drawn ram stop video state (done v) same type usable framed = inl (refl, type, usable, same, framed)
drawn ram stop video state fault same type usable out = out

use_framebuffer-InitOutcome :
    (ram : Region) (stop : ℕ) (state : FramebufferState) (video : Region)
    → le32 ram.byte stop ≡ 8
    → (IsUsable (framebuffer_tag ram stop)
        → IsDrawable (state_of (framebuffer_tag ram stop)) video.size)
    → Returns (use_framebuffer (framebuffer_tag ram stop) state video) (InitOutcome ram stop video)
unfolding use_framebuffer
use_framebuffer-InitOutcome ram stop state video type drawable =
    let tag = framebuffer_tag ram stop in
    elim (framebuffer_rejected_iff tag) [
      | inl (e, bad) ↦ rw e (
          inr (
            refl,
            (λ is_screen usable. ground (arith, usable.type, usable.address, usable.depth)),
            refl,
          ))
      | inr (e, direct, address, deep, shallow) ↦
          rw e
            (elim (Bool-cases (
              (tag.framebuffer_width == 0)
              || (tag.framebuffer_height == 0)
              || (tag.framebuffer_pitch == 0))) [
                | inl empty ↦ rw empty (
                    inr (
                      refl,
                      (λ is_screen usable.
                          ground (arith, usable.width, usable.height, usable.pitch)),
                      refl,
                    ))
                | inr some_screen ↦
                    let usable : IsUsable tag = record {
                      type = direct;
                      address = address;
                      depth = (deep, shallow);
                      width = ground arith;
                      height = ground arith;
                      pitch = ground arith;
                    } in
                    rw some_screen (
                      drawn ram stop video (state_of tag) (draw_mantle_splash (state_of tag) video)
                        refl type usable
                        (draw_mantle_splash-OnScreen (state_of tag) video.size (drawable usable)
                          video refl))
              ])
    ]

read32_here : (ram : Region) (at : ℕ) → at + 4 ≤ ram.size → read32 ram at ≡ done (le32 ram.byte at)
unfolding read32
read32_here ram at h = ground arith

search_tags-InitOutcome :
    (ram : Region) (stop : ℕ) (state : FramebufferState) (video : Region)
    → (IsUsable (framebuffer_tag ram stop)
        → IsDrawable (state_of (framebuffer_tag ram stop)) video.size)
    → {at n : ℕ} → Passes ram stop at n
    → (fuel : ℕ) → n < fuel
    → Returns (search_tags fuel ram at state video) (InitOutcome ram stop video)
unfolding search_tags
search_tags-InitOutcome ram stop state video drawable (last mapped end) zero enough =
    absurd (omega arith)
search_tags-InitOutcome ram stop state video drawable (last mapped end) (suc fuel) enough =
    rw (read32_here ram stop mapped, end) (inr (refl, (λ type. absurd (omega arith)), refl))
search_tags-InitOutcome ram stop state video drawable (screen mapped type size) zero enough =
    absurd (omega arith)
search_tags-InitOutcome ram stop state video drawable (screen mapped type size) (suc fuel) enough =
    rw
      (
        read32_here ram stop (omega arith),
        type,
        read32_here ram (stop + 4) (omega arith),
        le→leb 38 (le32 ram.byte (stop + 4)) size,
        read_framebuffer_tag_lem ram stop mapped,
      )
      (use_framebuffer-InitOutcome ram stop state video type drawable)
search_tags-InitOutcome ram stop state video drawable (pass mapped not_last other more) zero
      enough =
    absurd (omega arith)
search_tags-InitOutcome ram stop state video drawable (pass {at} {n} mapped not_last other more)
      (suc fuel) enough =
    let going : (le32 ram.byte at == 0) ≡ false = ground arith in
    let passing : ((le32 ram.byte at == 8) && leb 38 (le32 ram.byte (at + 4))) ≡ false =
      ground arith in
    rw (read32_here ram at (omega arith), going, read32_here ram (at + 4) (omega arith), passing)
      (search_tags-InitOutcome ram stop state video drawable more fuel (omega arith))

-- With boot information whose tags, from its ninth byte on, lead through `n` others to the last one
-- or to one of the frame buffer, more rounds than that, and, if that one is usable, a screen on
-- which the mark has room, whose positions of colours are below 32 and whose rows are in the memory
-- of the device: The search and the drawing end. If the tag is a usable frame buffer, the state is
-- set from it, and only bytes of pixels of the screen are written; if not, the result is an error
-- and nothing is written.
pub framebuffer_init-InitOutcome :
    (ram : Region) (info stop n fuel : ℕ) (state : FramebufferState) (video : Region)
    → info ≢ 0
    → Passes ram stop (add64 info 8) n
    → n < fuel
    → (IsUsable (framebuffer_tag ram stop)
        → IsDrawable (state_of (framebuffer_tag ram stop)) video.size)
    → Returns (framebuffer_init fuel ram 0x36d7_6289 info state video) (InitOutcome ram stop video)
unfolding framebuffer_init
framebuffer_init-InitOutcome ram info stop n fuel state video some_info passes enough drawable =
    let some : (info == 0) ≡ false = ground arith in
    rw some (search_tags-InitOutcome ram stop state video drawable passes fuel enough)

search_tags-endless :
    (fuel : ℕ) (ram : Region) (at : ℕ) (state : FramebufferState) (video : Region)
    → at + 8 ≤ ram.size
    → at < 0x1_0000_0000_0000_0000
    → le32 ram.byte at ≢ 0
    → le32 ram.byte (at + 4) ≡ 0
    → search_tags fuel ram at state video ≡ fault
unfolding search_tags
search_tags-endless zero ram at state video mapped low not_last empty = refl
search_tags-endless (suc fuel) ram at state video mapped low not_last empty =
    let going : (le32 ram.byte at == 0) ≡ false = ground arith in
    let passing : ((le32 ram.byte at == 8) && leb 38 (le32 ram.byte (at + 4))) ≡ false =
      ground arith in
    let same : add64 at 0 ≡ at = omega arith in
    rw
      (
        read32_here ram at (omega arith),
        going,
        read32_here ram (at + 4) (omega arith),
        passing,
        empty,
        same,
      )
      (search_tags-endless fuel ram at state video mapped low not_last empty)

-- If the first tag of the boot information is not the last one and has the size 0: The search does not end,
-- whatever the number of rounds.
pub framebuffer_init-endless :
    (fuel : ℕ) (ram : Region) (info : ℕ) (state : FramebufferState) (video : Region)
    → info ≢ 0
    → info + 16 ≤ ram.size
    → info + 8 < 0x1_0000_0000_0000_0000
    → le32 ram.byte (info + 8) ≢ 0
    → le32 ram.byte (info + 8 + 4) ≡ 0
    → framebuffer_init fuel ram 0x36d7_6289 info state video ≡ fault
unfolding framebuffer_init
framebuffer_init-endless fuel ram info state video some_info mapped low not_last empty =
    let some : (info == 0) ≡ false = ground arith in
    let first : add64 info 8 ≡ info + 8 = omega arith in
    rw (some, first)
      (search_tags-endless fuel ram (info + 8) state video (omega arith) low not_last empty)
