-- ===== src/Efi/Page.antt =====
-- The page of the boot information that boot/efi/loader.c builds.
use mantle_os.Base.{
  ℕ, ◌+◌, ◌*◌, ◌/◌, ◌%◌, ◌<◌, ◌≡◌, refl, ◌⊎◌, inl, inr, Option, none, some, List, [], ◌∷◌, add32,
  u32_mod, arith,
}
use mantle_os.Memory.{done, Spells, update, put32, le32}
use mantle_os.Memory.Overlay.{overlay}
use mantle_os.Elf.Copy.{clear_bytes-overlay}
use mantle_os.Efi.Info.{GraphicsMode, module_command, write_module, write_graphics, build_info}

abbrev pub stored : (ℕ → ℕ) → ℕ → List ℕ → ℕ → ℕ
stored f at [] = f
stored f at (c ∷ cs) = stored (update f at c) (at + 1) cs

-- A page with the tag of the module.
abbrev pub module_page : (ℕ → ℕ) → ℕ → ℕ → ℕ → ℕ
module_page f start end =
    stored (put32 (put32 (put32 (put32 f 8 3) 12 30) 16 start) 20 end) 24 module_command

abbrev pub graphics_page : (ℕ → ℕ) → GraphicsMode → ℕ → ℕ
graphics_page f mode =
    let base = put32 (put32 (put32 f 40 8) 44 38) 48 (mode.frame_buffer_base % 0x1_0000_0000) in
    let based = put32 base 52 (mode.frame_buffer_base / 0x1_0000_0000) in
    let pitched = put32 based 56 (mode.pixels_per_scan_line * 4 % u32_mod) in
    let wide = put32 (put32 pitched 60 mode.horizontal_resolution) 64 mode.vertical_resolution in
    update (update (update (update (update wide 68 32) 69 1) 72 0) 74 8) 76 16

abbrev pub end_page : (ℕ → ℕ) → ℕ → ℕ → ℕ
end_page f offset = put32 (put32 (put32 f offset 0) (offset + 4) 8) 0 (offset + 8)

abbrev pub info_page : (ℕ → ℕ) → Option GraphicsMode → ℕ → ℕ → ℕ → ℕ
info_page f none start end = end_page (module_page f start end) 40
info_page f (some mode) start end = end_page (graphics_page (module_page f start end) mode) 80

abbrev pub blank : (ℕ → ℕ) → ℕ → ℕ
blank f = overlay f 0 0x1000 (λ k. 0)

pub build_info_lem :
    (address : ℕ) (f : ℕ → ℕ) (graphics : Option GraphicsMode) (rootfs size : ℕ)
    → build_info (some (address, record { byte = f; size = 0x1000 })) graphics rootfs size
      ≡ done (
          some (
            address,
            record {
              byte =
                  info_page
                    (blank f)
                    graphics
                    (rootfs % u32_mod)
                    (add32 (rootfs % u32_mod) (size % u32_mod));
              size = 0x1000;
            },
          ))
unfolding build_info write_module write_graphics
build_info_lem address f none rootfs size =
    rw (clear_bytes-overlay 0x1000 (record { byte = f; size = 0x1000 }) 0 (omega arith)) refl
build_info_lem address f (some mode) rootfs size =
    rw (clear_bytes-overlay 0x1000 (record { byte = f; size = 0x1000 }) 0 (omega arith)) refl

-- What the kernel reads of the module's tag.
pub record ModulePage (p : ℕ → ℕ) (start end : ℕ) : Type 0 where
  pub total : (le32 p 0 ≡ 48) ⊎ (le32 p 0 ≡ 88)
  pub type : le32 p 8 ≡ 3
  pub size : le32 p 12 ≡ 30
  pub first : le32 p 16 ≡ start
  pub last : le32 p 20 ≡ end
  pub command : Spells p 24 module_command
  pub terminated : p 37 ≡ 0

pub info_page-ModulePage :
    (f : ℕ → ℕ) (graphics : Option GraphicsMode) (start end : ℕ)
    → start < u32_mod
    → end < u32_mod
    → ModulePage (info_page (blank f) graphics start end) start end
info_page-ModulePage f none start end s e = record {
  total = inl refl;
  type = refl;
  size = refl;
  first = omega arith;
  last = omega arith;
  command = omega arith;
  terminated = refl;
}
info_page-ModulePage f (some mode) start end s e = record {
  total = inr refl;
  type = refl;
  size = refl;
  first = omega arith;
  last = omega arith;
  command = omega arith;
  terminated = refl;
}

-- Every value is a byte.
pub record AreBytes (f : ℕ → ℕ) : Type 0 where
  pub small : (i : ℕ) → f i < 256

update-AreBytes : {f : ℕ → ℕ} (a v : ℕ) → v < 256 → AreBytes f → AreBytes (update f a v)
update-AreBytes a v small bytes = record { small = λ i. ground (arith, bytes.small i) }

put32-AreBytes : {f : ℕ → ℕ} (a v : ℕ) → AreBytes f → AreBytes (put32 f a v)
put32-AreBytes a v bytes = record { small = λ i. ground (arith, bytes.small i) }

pub blank-AreBytes : {f : ℕ → ℕ} → AreBytes f → AreBytes (blank f)
blank-AreBytes bytes = record { small = λ i. ground (arith, bytes.small i) }

abbrev pub Small : List ℕ → Type 0
Small [] = Unit {0}
Small (c ∷ cs) = (c < 256) × Small cs

stored-AreBytes :
    (f : ℕ → ℕ) (at : ℕ) (cs : List ℕ) → Small cs → AreBytes f → AreBytes (stored f at cs)
stored-AreBytes f at [] small bytes = bytes
stored-AreBytes f at (c ∷ cs) (small, rest) bytes =
    stored-AreBytes (update f at c) (at + 1) cs rest (update-AreBytes {f = f} at c small bytes)

module_page-AreBytes : (f : ℕ → ℕ) (start end : ℕ) → AreBytes f → AreBytes (module_page f start end)
module_page-AreBytes f start end bytes =
    stored-AreBytes _ 24 module_command (omega arith) (search put32-AreBytes)

end_page-AreBytes : (f : ℕ → ℕ) (offset : ℕ) → AreBytes f → AreBytes (end_page f offset)
end_page-AreBytes f offset bytes = search put32-AreBytes

graphics_page-AreBytes :
    (f : ℕ → ℕ) (mode : GraphicsMode) → AreBytes f → AreBytes (graphics_page f mode)
graphics_page-AreBytes f mode bytes = search (put32-AreBytes, update-AreBytes, arith)

pub info_page-AreBytes :
    (f : ℕ → ℕ) (graphics : Option GraphicsMode) (start end : ℕ)
    → AreBytes f
    → AreBytes (info_page f graphics start end)
info_page-AreBytes f none start end bytes =
    end_page-AreBytes (module_page f start end) 40 (module_page-AreBytes f start end bytes)
info_page-AreBytes f (some mode) start end bytes =
    end_page-AreBytes (graphics_page (module_page f start end) mode) 80 (
      graphics_page-AreBytes (module_page f start end) mode
        (module_page-AreBytes f start end bytes))
