-- ===== src/Multiboot2.antt =====
-- kernel/boot/multiboot2.c and multiboot2.h: the tag of the boot module that holds the root file
-- system. The tag is the memory that a pointer leads to, `none` if that is null.
pub mod Accept
use mantle_os.Base.{
  ℕ, zero, suc, ◌+◌, ◌-◌, Bool, true, false, not, ◌||◌, Option, none, some, List, [], ◌∷◌, ltb, leb,
  ◌==◌, if◌then◌else◌,
}
use mantle_os.Memory.{Run, done, ◌>>=◌, Region, read8, read32}

abbrev pub tag_module : ℕ
tag_module = 3

abbrev pub module_prefix_size : ℕ
module_prefix_size = 16

-- "mantle-rootfs"
abbrev pub rootfs_cmdline : List ℕ
rootfs_cmdline =
    b'm' ∷ b'a' ∷ b'n' ∷ b't' ∷ b'l' ∷ b'e' ∷ b'-' ∷ b'r' ∷ b'o' ∷ b'o' ∷ b't' ∷ b'f' ∷ b's' ∷ []

abbrev pub rootfs_cmdline_length : ℕ
rootfs_cmdline_length = 13

-- The fixed part of struct mb2_tag_module.
pub record TagModule : Type 0 where
  pub type : ℕ
  pub size : ℕ
  pub mod_start : ℕ
  pub mod_end : ℕ

-- struct mantle_mb2_module
pub record BootModule : Type 0 where
  pub start : ℕ
  pub end : ℕ
  pub size : ℕ

unfoldable pub read_tag : Region → Run TagModule
unfolding read32
read_tag tag = do
  type ← read32 tag 0
  size ← read32 tag 4
  mod_start ← read32 tag 8
  mod_end ← read32 tag 12
  done (record { type = type; size = size; mod_start = mod_start; mod_end = mod_end })

unfoldable pub tag_rejected : TagModule → ℕ → Bool
tag_rejected tag available_size =
    ltb tag.size module_prefix_size
    || ltb available_size tag.size
    || not (tag.type == tag_module)
    || leb tag.mod_end tag.mod_start

-- The loop that compares the bytes from `at` on with the expected ones that are left.
unfoldable pub cmdline_equal : Region → ℕ → List ℕ → Run Bool
cmdline_equal tag at [] = done true
cmdline_equal tag at (c ∷ rest) = do
  b ← read8 tag at
  elim (b == c) [ true ↦ cmdline_equal tag (at + 1) rest | false ↦ done false ]

-- The tests of the command line, behind those of the fixed part.
unfoldable pub check_cmdline : Region → TagModule → Run (Option BootModule)
check_cmdline raw tag =
    if not (tag.size - module_prefix_size == rootfs_cmdline_length + 1) then done none else do
      equal ← cmdline_equal raw module_prefix_size rootfs_cmdline
      last ← read8 raw (module_prefix_size + rootfs_cmdline_length)
      if not equal || not (last == 0)
          then done none
          else done (
              some (record {
                start = tag.mod_start;
                end = tag.mod_end;
                size = tag.mod_end - tag.mod_start;
              }))

-- `none` is `return -1`; the out-parameter `module` is the result.
unfoldable pub parse_module : Option Region → ℕ → Run (Option BootModule)
parse_module none available_size = done none
parse_module (some raw) available_size =
    if ltb available_size module_prefix_size then done none else do
      tag ← read_tag raw
      if tag_rejected tag available_size then done none else check_cmdline raw tag
