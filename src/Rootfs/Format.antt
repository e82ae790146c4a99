-- ===== src/Rootfs/Format.antt =====
-- What a root file system image says, independently of the code that walks it: the layout of an
-- image that may be mounted, and the directory that it holds.
use mantle_os.Base.{
  ℕ, zero, suc, ◌+◌, ◌≤◌, ◌<◌, ◌≡◌, Bool, true, false, Option, none, some, List, [], ◌∷◌, ◌==◌,
  if◌then◌else◌, arith,
}
use mantle_os.Memory.{done, Region, advance, le16, le32}
use mantle_os.Rootfs.{Header, Entry, RootfsFile, read_header, read_entry}

-- The fields of the entry whose twelve bytes start at `cursor`.
abbrev pub entry_at : (ℕ → ℕ) → ℕ → Entry
entry_at f cursor = record {
  path_length = le16 f cursor;
  mode = le16 f (cursor + 2);
  offset = le32 f (cursor + 4);
  size = le32 f (cursor + 8);
}

abbrev pub header_at : (ℕ → ℕ) → Header
header_at f = record { magic = le32 f 0; entries = le32 f 4 }

-- The numbers are the image's, without wrap-around.
pub record EntryFits (e : Entry) (size name : ℕ) : Type 0 where
  pub named : 0 < e.path_length
  pub short : e.path_length ≤ 255
  pub name_inside : name + e.path_length ≤ size
  pub file_inside : e.offset + e.size ≤ size

-- `n` entries follow from `cursor` on, all inside the first `size` bytes.
abbrev pub AllFit : (ℕ → ℕ) → ℕ → ℕ → ℕ → Type 0
AllFit f size zero cursor = Unit {0}
AllFit f size (suc n) cursor =
    EntryFits (entry_at f cursor) size (cursor + 12) × AllFit f size n (cursor + 12 + le16 f cursor)

pub record IsImage (f : ℕ → ℕ) (size : ℕ) : Type 0 where
  pub has_header : 8 ≤ size
  pub magic : le32 f 0 ≡ 0x31534652
  pub some_entries : 0 < le32 f 4
  pub few_entries : le32 f 4 ≤ 128
  pub fits : AllFit f size (le32 f 4) 8

abbrev pub bytes_at : (ℕ → ℕ) → ℕ → ℕ → List ℕ
bytes_at f start zero = []
bytes_at f start (suc n) = f start ∷ bytes_at f (start + 1) n

pub record Item : Type 0 where
  pub name : List ℕ
  pub file : RootfsFile

-- The names and files that the image lists, in its order.
abbrev pub items : Region → ℕ → ℕ → List Item
items image zero cursor = []
items image (suc n) cursor =
    let e = entry_at image.byte cursor in
    record {
      name = bytes_at image.byte (cursor + 12) e.path_length;
      file = record { contents = advance image e.offset; size = e.size; mode = e.mode };
    }
    ∷ items image n (cursor + 12 + e.path_length)

abbrev pub directory : Region → List Item
directory image = items image (le32 image.byte 4) 8

abbrev pub same : List ℕ → List ℕ → Bool
same [] [] = true
same [] (c ∷ cs) = false
same (b ∷ bs) [] = false
same (b ∷ bs) (c ∷ cs) = if b == c then same bs cs else false

-- The first file of that name.
abbrev pub find : List ℕ → List Item → Option RootfsFile
find path [] = none
find path (i ∷ is) = if same i.name path then some i.file else find path is

pub read_header_lem : (r : Region) → 8 ≤ r.size → read_header r ≡ done (header_at r.byte)
unfolding read_header
read_header_lem r h = ground arith

pub read_entry_lem :
    (r : Region) (cursor : ℕ)
    → cursor + 12 ≤ r.size
    → read_entry r cursor ≡ done (entry_at r.byte cursor)
unfolding read_entry
read_entry_lem r cursor h = ground arith
