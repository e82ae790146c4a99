-- ===== src/Efi/Info.antt =====
-- build_info of boot/efi/loader.c: the boot information that the kernel is handed. The page that the
-- firmware grants for it is a region of its own, at an address.
use mantle_os.Base.{ℕ, ◌+◌, ◌*◌, ◌%◌, Option, none, some, List, [], ◌∷◌, add32, u32_mod}
use mantle_os.Memory.{Run, done, ◌>>=◌, Region, write8, write32, write64}
use mantle_os.Elf.{clear_bytes}

-- The mode of the graphics output protocol, as far as it is read.
pub record GraphicsMode : Type 0 where
  pub frame_buffer_base : ℕ
  pub pixels_per_scan_line : ℕ
  pub horizontal_resolution : ℕ
  pub vertical_resolution : ℕ

-- "mantle-rootfs"
abbrev pub module_command : List ℕ
module_command =
    b'm' ∷ b'a' ∷ b'n' ∷ b't' ∷ b'l' ∷ b'e' ∷ b'-' ∷ b'r' ∷ b'o' ∷ b'o' ∷ b't' ∷ b'f' ∷ b's' ∷ []

-- The bytes of a text of the program, from `at` on.
unfoldable pub store_text : Region → ℕ → List ℕ → Run Region
unfolding write8
store_text r at [] = done r
store_text r at (c ∷ cs) = write8 r at c >>= λ r'. store_text r' (at + 1) cs

-- The tag of the root file system at `offset`.
unfoldable pub write_module : Region → ℕ → ℕ → ℕ → Run Region
unfolding write32 store_text
write_module info offset rootfs rootfs_size = do
  let start = rootfs % u32_mod
  a ← write32 info offset 3
  b ← write32 a (offset + 4) 30
  c ← write32 b (offset + 8) start
  d ← write32 c (offset + 12) (add32 start (rootfs_size % u32_mod))
  store_text d (offset + 16) module_command

-- The tag of the frame buffer at `offset`.
unfoldable pub write_framebuffer : Region → ℕ → GraphicsMode → Run Region
unfolding write8 write32 write64
write_framebuffer info offset mode = do
  a ← write32 info offset 8
  b ← write32 a (offset + 4) 38
  c ← write64 b (offset + 8) mode.frame_buffer_base
  d ← write32 c (offset + 16) (mode.pixels_per_scan_line * 4 % u32_mod)
  e ← write32 d (offset + 20) mode.horizontal_resolution
  f ← write32 e (offset + 24) mode.vertical_resolution
  g ← write8 f (offset + 28) 32
  h ← write8 g (offset + 29) 1
  i ← write8 h (offset + 32) 0
  j ← write8 i (offset + 34) 8
  write8 j (offset + 36) 16

-- The last tag at `offset`, and the size of the whole.
unfoldable pub write_end : Region → ℕ → Run Region
unfolding write32
write_end info offset = do
  a ← write32 info offset 0
  b ← write32 a (offset + 4) 8
  write32 b 0 (offset + 8)

-- The graphics output protocol, `none` if it is not there or has no mode.
unfoldable pub write_graphics : Region → Option GraphicsMode → Run Region
unfolding write_framebuffer write_end
write_graphics info none = write_end info 40
write_graphics info (some mode) = write_framebuffer info 40 mode >>= λ r. write_end r 80

-- `granted` is the answer of AllocatePages: an address with the page behind it. The result is
-- `*info_address` with that page, `none` is EFI_OUT_OF_RESOURCES.
unfoldable pub build_info :
    Option (ℕ × Region) → Option GraphicsMode → ℕ → ℕ → Run (Option (ℕ × Region))
build_info none graphics rootfs rootfs_size = done none
build_info (some (address, page)) graphics rootfs rootfs_size = do
  cleared ← clear_bytes 0x1000 page 0
  tagged ← write_module cleared 8 rootfs rootfs_size
  info ← write_graphics tagged graphics
  done (some (address, info))
