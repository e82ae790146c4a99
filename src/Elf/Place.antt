-- ===== src/Elf/Place.antt =====
-- One segment in closed form: the loader writes its bytes and its pages, inside the user memory.
use mathlib.Core.Path.{fun_ext}
use mantle_os.Base.{ℕ, ◌+◌, ◌-◌, ◌/◌, ◌%◌, ◌≤◌, ◌<◌, ◌≡◌, ap, arith, add32, sub64, u32_mod}
use mantle_os.Memory.{Returns, Region}
use mantle_os.Elf.{ProgramHeader, UserSpace}
use mantle_os.Memory.Overlay.{overlay, with_bytes}
use mantle_os.Elf.Copy.{copy_bytes-overlay, clear_bytes-overlay}
use mantle_os.Elf.Pages.{AllWx, IsWx, set_pages-overlay, page_entry-IsWx, permissions-IsSafe}
use mantle_os.Elf.Loader.{page_entry, permissions, place_segment}
use mantle_os.Elf.Format.{SegmentFits, segment_bytes}

-- File bytes, then zeros, is one overlay.
overlay_segment :
    (f g : ℕ → ℕ) (p : ProgramHeader) (d : ℕ)
    → p.filesz ≤ p.memsz
    → overlay
        (overlay f d p.filesz (λ k. g (p.offset + k)))
        (d + p.filesz)
        (p.memsz - p.filesz)
        (λ k. 0)
      ≡ overlay f d p.memsz (segment_bytes g p)
overlay_segment f g p d h = fun_ext λ i. ground arith

pub overlay-AllWx :
    (pages g : ℕ → ℕ) (page n : ℕ)
    → AllWx pages
    → ((k : ℕ) → IsWx (g k))
    → AllWx (overlay pages page n g)
overlay-AllWx pages g page n old new i h = ground (arith, old i h, new (i - page))

abbrev pub placed_bytes : Region → ProgramHeader → (ℕ → ℕ) → ℕ → ℕ
placed_bytes image p memory =
    overlay memory (p.vaddr - 0x40_0000) p.memsz (segment_bytes image.byte p)

-- The segment's part of the result of `place_segment`.
pub record Placed (image : Region) (p : ProgramHeader) (old new : UserSpace) : Type 0 where
  pub memory : new.memory ≡ with_bytes old.memory (placed_bytes image p old.memory.byte)
  pub pages : AllWx new.pages

module _ (base : ℕ) (aligned : base % 4096 ≡ 0) (image : Region) (size : ℕ)
    (inside : size ≤ image.size) (small : size < u32_mod) where
  pub place_segment-Placed :
      (p : ProgramHeader) (space : UserSpace)
      → SegmentFits p size
      → space.memory.size ≡ 0x20_0000
      → AllWx space.pages
      → Returns (place_segment base image p space) (Placed image p space)
  unfolding place_segment
  place_segment-Placed p space fits whole wx =
      let d = p.vaddr - 0x40_0000 in
      let d_eq : sub64 p.vaddr 0x40_0000 % u32_mod ≡ d = omega arith in
      let f_eq : p.filesz % u32_mod ≡ p.filesz = omega arith in
      let m_eq : p.memsz % u32_mod ≡ p.memsz = omega arith in
      let z_eq : sub64 p.memsz p.filesz % u32_mod ≡ p.memsz - p.filesz = omega arith in
      let first = d / 4096 in
      let last = (d + p.memsz + 4095) / 4096 in
      let l_eq : add32 (add32 d p.memsz) 4095 / 4096 ≡ last = omega arith in
      let span : first + (last - first) ≤ 512 = omega arith in
      let copied =
        with_bytes space.memory
          (overlay space.memory.byte d p.filesz (λ k. image.byte (p.offset + k))) in
      rw
        (
          d_eq,
          f_eq,
          m_eq,
          z_eq,
          l_eq,
          copy_bytes-overlay p.filesz space.memory d image p.offset (omega arith) (omega arith),
          clear_bytes-overlay (p.memsz - p.filesz) copied (d + p.filesz) (omega arith),
          set_pages-overlay base (last - first) first (permissions p.flags) space.pages span,
        )
        (record {
          memory =
              ap (with_bytes space.memory)
                (overlay_segment space.memory.byte image.byte p d fits.file_le_memory);
          pages =
              overlay-AllWx space.pages (λ k. page_entry base (first + k) (permissions p.flags))
                first (last - first) wx
                (λ k.
                  page_entry-IsWx base (first + k) (permissions p.flags) aligned
                    (permissions-IsSafe p.flags fits.not_write_execute));
        })
