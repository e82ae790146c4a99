-- ===== src/Rootfs/Open.antt =====
-- `mantle_rootfs_open` refines the look-up in the image's directory.
use mantle_os.Base.{
  ℕ, zero, suc, ◌+◌, ◌≤◌, ◌<◌, ◌≡◌, refl, inl, inr, Option, none, some, List, [], ◌∷◌, Bool-cases,
  arith, add32, u32_mod,
}
use mantle_os.Memory.{Run, done, fault, ◌>>=◌, Returns, if-done, Region, advance, read8, le16, le32}
use mantle_os.Rootfs.{
  RootfsState, RootfsStatus, valid, invalid, rootfs_mount, RootfsFile, path_equal, open_entries,
  rootfs_open, mounted,
}
use mantle_os.Rootfs.Mount.{MountOutcome, rootfs_mount-MountOutcome}
use mantle_os.Rootfs.Format.{
  AllFit, IsImage, items, directory, bytes_at, same, find, read_entry_lem,
}

-- The comparison from the path's byte `index` on; it reads the `k` bytes of the name that are left.
path_equal-same :
    (r : Region) (left length : ℕ) (path : List ℕ) (k index : ℕ)
    → index + k ≡ length
    → length ≤ 255
    → left + length ≤ r.size
    → path_equal r left length path index ≡ done (same (bytes_at r.byte (left + index) k) path)
unfolding path_equal read8
path_equal-same r left length [] zero index e s h = ground arith
path_equal-same r left length [] (suc k) index e s h = ground arith
path_equal-same r left length (c ∷ path) zero index e s h = ground arith
path_equal-same r left length (c ∷ path) (suc k) index e s h =
    ground (arith, path_equal-same r left length path k (index + 1))

module _ (r : Region) (size : ℕ) (inside : size ≤ r.size) (small : size < u32_mod) where
  open_entries-find :
      (n cursor : ℕ) (path : List ℕ)
      → AllFit r.byte size n cursor
      → open_entries r n cursor path ≡ done (find path (items r n cursor))
  unfolding open_entries
  open_entries-find zero cursor path fits = refl
  open_entries-find (suc n) cursor path (e, fits) =
      let k = le16 r.byte cursor in
      let name_at : add32 cursor 12 ≡ cursor + 12 = omega arith in
      let next_at : add32 (cursor + 12) k ≡ cursor + 12 + k = omega arith in
      let start : cursor + 12 + 0 ≡ cursor + 12 = omega arith in
      rw
        (
          read_entry_lem r cursor (omega arith),
          name_at,
          path_equal-same r (cursor + 12) k path k 0 (omega arith) e.short (omega arith),
          start,
          next_at,
          open_entries-find n (cursor + 12 + k) path fits,
        )
        (if-done (same (bytes_at r.byte (cursor + 12) k) path) _ _)

  -- On a mounted well-formed image of a 32-bit size an open finds the first file of that name in the directory, or reports that
  -- there is none, and reads nothing outside the image.
  pub rootfs_open-find :
      (path : List ℕ)
      → IsImage r.byte size
      → rootfs_open (mounted r size (le32 r.byte 4)) (some path) ≡ done (find path (directory r))
  unfolding rootfs_open
  rootfs_open-find path i = open_entries-find (le32 r.byte 4) 8 path i.fits

-- A file of that list lies within the image's first `size` bytes.
abbrev pub FileFits : Region → ℕ → Option RootfsFile → Type 0
FileFits r size none = Unit {0}
FileFits r size (some f) = (offset : ℕ) × (offset + f.size ≤ size) × (f.contents ≡ advance r offset)

pub find-FileFits :
    (r : Region) (size n cursor : ℕ) (path : List ℕ)
    → AllFit r.byte size n cursor
    → FileFits r size (find path (items r n cursor))
find-FileFits r size zero cursor path fits = tt
find-FileFits r size (suc n) cursor path (e, fits) =
    elim (Bool-cases (same (bytes_at r.byte (cursor + 12) (le16 r.byte cursor)) path)) [
      | inl hit ↦ rw hit (le32 r.byte (cursor + 4), e.file_inside, refl)
      | inr miss ↦ rw miss (find-FileFits r size n (cursor + 12 + le16 r.byte cursor) path fits)
    ]

-- With an image of at least `size` bytes and a 32-bit size: An open after any mount, whether that succeeded or not, never reads outside the image, and a file
-- that it finds lies within the part of the image that was mounted.
pub rootfs_open-FileFits :
    (state : RootfsState) (r : Region) (size : ℕ) (path : List ℕ)
    → size ≤ r.size
    → size < u32_mod
    → Returns
        (rootfs_mount state (some r) size >>= λ m. rootfs_open m.0 (some path))
        (FileFits r size)
unfolding rootfs_open
rootfs_open-FileFits state r size path inside small =
    go (rootfs_mount state (some r) size) (rootfs_mount-MountOutcome state r size inside small)
  where
    go :
        (m : Run (RootfsState × RootfsStatus))
        → Returns m (MountOutcome r size)
        → Returns (m >>= λ m. rootfs_open m.0 (some path)) (FileFits r size)
    go (done (s, valid)) (i, e) =
        rw (e, open_entries-find r size inside small (le32 r.byte 4) 8 path i.fits)
          (find-FileFits r size (le32 r.byte 4) 8 path i.fits)
    go (done (s, invalid)) (i, e) = rw e tt
    go fault out = out
