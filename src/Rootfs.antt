-- ===== src/Rootfs.antt =====
-- kernel/fs/rootfs.c and rootfs.h: the read-only root file system in the boot module.
-- A pointer to the image is a region of memory, `none` where it is null. A path is the list of its
-- bytes before the terminating zero.
pub mod Format
pub mod Mount
pub mod Open
pub mod Listing
pub mod Bounds
pub mod Frame
use mantle_os.Base.{
  ℕ, zero, suc, ◌+◌, ◌-◌, ◌≤◌, ◌<◌, ◌≡◌, Bool, true, false, not, ◌&&◌, ◌||◌, Option, none, some,
  List, [], ◌∷◌, ltb, leb, ◌==◌, if◌then◌else◌, arith, add16, add32, sub32,
}
use mantle_os.Memory.{Run, done, fault, ◌>>=◌, Region, advance, read8, read16, read32}

abbrev pub rootfs_magic : ℕ
rootfs_magic = 0x31534652

abbrev pub rootfs_max_entries : ℕ
rootfs_max_entries = 128

-- sizeof(struct rootfs_header) and sizeof(struct rootfs_entry)
abbrev pub header_size : ℕ
header_size = 8

abbrev pub entry_size : ℕ
entry_size = 12

pub record Header : Type 0 where
  pub magic : ℕ
  pub entries : ℕ

pub record Entry : Type 0 where
  pub path_length : ℕ
  pub mode : ℕ
  pub offset : ℕ
  pub size : ℕ

pub record RootfsState : Type 0 where
  pub image : Option Region
  pub size : ℕ
  pub entries : ℕ

-- struct mantle_rootfs_file: `contents` is the image from the file's first byte on.
pub record RootfsFile : Type 0 where
  pub contents : Region
  pub size : ℕ
  pub mode : ℕ

pub data RootfsStatus : Type 0 where
  valid invalid : RootfsStatus

unfoldable pub read_header : Region → Run Header
unfolding read32
read_header image = do
  magic ← read32 image 0
  entries ← read32 image 4
  done (record { magic = magic; entries = entries })

unfoldable pub read_entry : Region → ℕ → Run Entry
unfolding read16 read32
read_entry image cursor = do
  path_length ← read16 image cursor
  mode ← read16 image (cursor + 2)
  offset ← read32 image (cursor + 4)
  size ← read32 image (cursor + 8)
  done (record { path_length = path_length; mode = mode; offset = offset; size = size })

unfoldable pub range_valid : ℕ → ℕ → ℕ → Bool
range_valid offset length size = leb offset size && leb length (sub32 size offset)

unfoldable pub path_equal : Region → ℕ → ℕ → List ℕ → ℕ → Run Bool
path_equal image left left_length [] index = done (index == left_length)
path_equal image left left_length (c ∷ rest) index =
    let next = path_equal image left left_length rest (add16 index 1) in
    if leb left_length index
    then done false
    else (read8 image (left + index) >>= λ b. if b == c then next else done false)

-- The second test of that loop, of an entry whose path starts at `name`.
unfoldable pub entry_rejected : Entry → ℕ → ℕ → Bool
entry_rejected entry name size =
    (entry.path_length == 0)
    || (ltb 255 entry.path_length)
    || not (range_valid name entry.path_length size)
    || not (range_valid entry.offset entry.size size)

-- The loop of `mantle_rootfs_mount` over the entries that are left; false is its `return -1`.
unfoldable pub mount_entries : Region → ℕ → ℕ → ℕ → Run Bool
mount_entries image size zero cursor = done true
mount_entries image size (suc left) cursor =
    if not (range_valid cursor entry_size size) then done false else do
      entry ← read_entry image cursor
      let name = add32 cursor entry_size
      if entry_rejected entry name size
          then done false
          else mount_entries image size left (add32 name entry.path_length)

-- The state before the first mount, and after a failed one.
abbrev pub unmounted : RootfsState
unmounted = record { image = none; size = 0; entries = 0 }

abbrev pub mounted : Region → ℕ → ℕ → RootfsState
mounted image size entries = record { image = some image; size = size; entries = entries }

unfoldable pub header_rejected : Header → Bool
header_rejected header =
    not (header.magic == rootfs_magic)
    || (header.entries == 0)
    || (ltb rootfs_max_entries header.entries)

abbrev finish_mount : Region → ℕ → ℕ → Bool → Run (RootfsState × RootfsStatus)
finish_mount image size entries true = done (mounted image size entries, valid)
finish_mount image size entries false = done (unmounted, invalid)

mount_image : Region → ℕ → Run (RootfsState × RootfsStatus)
mount_image image size = do
  header ← read_header image
  if header_rejected header
      then done (unmounted, invalid)
      else (mount_entries image size header.entries header_size
          >>= finish_mount image size header.entries)

-- The old state is cleared first, whatever it was.
unfoldable pub rootfs_mount : RootfsState → Option Region → ℕ → Run (RootfsState × RootfsStatus)
unfolding mount_image
rootfs_mount state none size = done (unmounted, invalid)
rootfs_mount state (some image) size =
    if ltb size header_size then done (unmounted, invalid) else mount_image image size

unfoldable pub rootfs_ready : RootfsState → Bool
rootfs_ready state = elim state.image [ none ↦ false | some image ↦ true ]

-- The loop of `mantle_rootfs_open`; `none` is its `return -1`.
unfoldable pub open_entries : Region → ℕ → ℕ → List ℕ → Run (Option RootfsFile)
open_entries image zero cursor path = done none
open_entries image (suc left) cursor path = do
  entry ← read_entry image cursor
  let name = add32 cursor entry_size
  equal ← path_equal image name entry.path_length path 0
  if equal
      then done (
          some (record {
            contents = advance image entry.offset;
            size = entry.size;
            mode = entry.mode;
          }))
      else open_entries image left (add32 name entry.path_length) path

-- The out-parameter `file` is the result, so its null test has no counterpart.
unfoldable pub rootfs_open : RootfsState → Option (List ℕ) → Run (Option RootfsFile)
rootfs_open state none = done none
rootfs_open state (some path) = elim state.image [
  | none ↦ done none
  | some image ↦ open_entries image state.entries header_size path
]
