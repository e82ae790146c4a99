-- ===== src/Tests/Rootfs.antt =====
-- kernel/fs/rootfs.c on an image of two files.
use mantle_os.Base.{ℕ, ◌≡◌, refl, some, List, [], ◌∷◌, ◌++◌, arith}
use mantle_os.Memory.{done, ◌>>=◌, Returns, Region, advance, read8, read16, read32, write8}
use mantle_os.Tests.Bytes.{region}
use mantle_os.Rootfs.{
  valid, invalid, unmounted, mounted, rootfs_mount, rootfs_open, read_header, read_entry,
  range_valid, entry_rejected, header_rejected, mount_entries, path_equal, open_entries,
}
use mantle_os.Rootfs.Format.{IsImage, bytes_at, directory, find}
use mantle_os.Rootfs.Listing.{
  word_end, match_length, word_matches, name_seen_from, name_seen, component_length, copy_name,
  append_name, list_entry, list_entries, end_list, rootfs_list,
}
use mantle_os.Rootfs.Frame.{ListOutcome, rootfs_list-ListOutcome}
use mantle_os.Rootfs.Mount.{MountOutcome, rootfs_mount-MountOutcome}
use mantle_os.Rootfs.Open.{FileFits, rootfs_open-find, rootfs_open-FileFits}

abbrev pub header_bytes : List ℕ
header_bytes = 0x52 ∷ 0x46 ∷ 0x53 ∷ 0x31 ∷ 2 ∷ 0 ∷ 0 ∷ 0 ∷ []

-- "/a" with two bytes and "/b" with none.
abbrev pub entry_bytes : List ℕ
entry_bytes =
    2 ∷ 0 ∷ 1 ∷ 0 ∷ 36 ∷ 0 ∷ 0 ∷ 0 ∷ 2 ∷ 0 ∷ 0 ∷ 0 ∷ b'/' ∷ b'a' ∷ 2 ∷ 0 ∷ 3 ∷ 0 ∷ 38 ∷ 0 ∷ 0 ∷ 0
    ∷ 0 ∷ 0 ∷ 0 ∷ 0 ∷ b'/' ∷ b'b' ∷ []

abbrev pub image_bytes : List ℕ
image_bytes = header_bytes ++ entry_bytes ++ b'h' ∷ b'i' ∷ []

abbrev pub image : Region
image = region image_bytes

program : Unit {0}
unfolding rootfs_mount rootfs_open read_header read_entry range_valid entry_rejected header_rejected
    mount_entries path_equal open_entries read8 read16 read32
program = tt

mounts : rootfs_mount unmounted (some image) 38 ≡ done (mounted image 38 2, valid)
unfolding program
mounts = refl

short : rootfs_mount unmounted (some image) 37 ≡ done (unmounted, invalid)
unfolding program
short = refl

opens :
    rootfs_open (mounted image 38 2) (some (b'/' ∷ b'b' ∷ []))
    ≡ done (some (record { contents = advance image 38; size = 0; mode = 3 }))
unfolding program
opens = refl

pub well_formed_lem : IsImage image.byte 38
well_formed_lem = omega arith

rootfs_mount-MountOutcome_example :
    Returns (rootfs_mount unmounted (some image) 38) (MountOutcome image 38)
rootfs_mount-MountOutcome_example =
    rootfs_mount-MountOutcome unmounted image 38 (omega arith) (omega arith)

rootfs_open-find_example :
    rootfs_open (mounted image 38 2) (some (b'/' ∷ b'a' ∷ []))
    ≡ done (find (b'/' ∷ b'a' ∷ []) (directory image))
rootfs_open-find_example =
    rootfs_open-find image 38 (omega arith) (omega arith) (b'/' ∷ b'a' ∷ []) well_formed_lem

rootfs_open-FileFits_example :
    Returns
      (rootfs_mount unmounted (some image) 38 >>= λ m. rootfs_open m.0 (some (b'/' ∷ b'a' ∷ [])))
      (FileFits image 38)
rootfs_open-FileFits_example =
    rootfs_open-FileFits unmounted image 38 (b'/' ∷ b'a' ∷ []) (omega arith) (omega arith)

-- Sixteen bytes for the names.
listed : Unit {0}
unfolding program append_name list_entry list_entries end_list rootfs_list component_length
    copy_name word_end match_length word_matches name_seen_from name_seen write8
listed = tt

lists :
    (rootfs_list
        (mounted image 38 2)
        (some (b'/' ∷ []))
        (region (0 ∷ 0 ∷ 0 ∷ 0 ∷ 0 ∷ 0 ∷ 0 ∷ 0 ∷ []))
        8
      >>= λ l. done (bytes_at l.output.byte 0 5))
    ≡ done (b'a' ∷ b' ' ∷ b'b' ∷ b'\n' ∷ 0 ∷ [])
unfolding listed
lists = refl

rootfs_list-ListOutcome_example :
    Returns
      (rootfs_list
        (mounted image 38 2)
        (some (b'/' ∷ []))
        (region (0 ∷ 0 ∷ 0 ∷ 0 ∷ 0 ∷ 0 ∷ 0 ∷ 0 ∷ []))
        8)
      (ListOutcome 8 (region (0 ∷ 0 ∷ 0 ∷ 0 ∷ 0 ∷ 0 ∷ 0 ∷ 0 ∷ [])))
rootfs_list-ListOutcome_example =
    rootfs_list-ListOutcome 38 image (omega arith) (omega arith) well_formed_lem (b'/' ∷ [])
      (region (0 ∷ 0 ∷ 0 ∷ 0 ∷ 0 ∷ 0 ∷ 0 ∷ 0 ∷ [])) 8 (omega arith) (omega arith)
