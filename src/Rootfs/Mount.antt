-- ===== src/Rootfs/Mount.antt =====
-- `mantle_rootfs_mount` accepts exactly the well-formed images, and reads nothing outside them.
use mantle_os.Base.{
  ℕ, zero, suc, ◌+◌, ◌≤◌, ◌<◌, ◌≡◌, refl, Bool, true, false, ◌⊎◌, inl, inr, some, if◌then◌else◌,
  lt→ltb, ltb-false, arith, dec_lt, add32, u32_mod,
}
use mantle_os.Memory.{Run, done, fault, ◌>>=◌, Returns, Region, le16, le32}
use mantle_os.Rootfs.{
  Header, Entry, RootfsState, header_rejected, finish_mount, RootfsStatus, valid, invalid,
  range_valid, entry_rejected, mount_entries, mount_image, rootfs_mount, mounted, unmounted,
}
use mantle_os.Rootfs.Format.{
  entry_at, header_at, EntryFits, AllFit, IsImage, read_entry_lem, read_header_lem,
}

pub range_valid_iff :
    (offset length size : ℕ)
    → size < u32_mod
    → ((range_valid offset length size ≡ true) × (offset + length ≤ size))
      ⊎ ((range_valid offset length size ≡ false) × (size < offset + length))
unfolding range_valid
range_valid_iff offset length size h = ground arith

entry_rejected_iff :
    (e : Entry) (name size : ℕ)
    → size < u32_mod
    → ((entry_rejected e name size ≡ false) × EntryFits e size name)
      ⊎ ((entry_rejected e name size ≡ true) × (EntryFits e size name → ⊥))
unfolding entry_rejected
entry_rejected_iff e name size h =
    ground
      (arith, range_valid_iff name e.path_length size h, range_valid_iff e.offset e.size size h)

-- What a result of the entries' loop says.
abbrev Verdict : Type 0 → Bool → Type 0
Verdict P true = P
Verdict P false = ¬ P

module _ (r : Region) (size : ℕ) (inside : size ≤ r.size) (small : size < u32_mod) where
  mount_entries_step :
      (n cursor : ℕ)
      → cursor + 12 ≤ size
      → mount_entries r size (suc n) cursor ≡ (
          if entry_rejected (entry_at r.byte cursor) (cursor + 12) size
          then done false
          else mount_entries r size n (add32 (cursor + 12) (le16 r.byte cursor)))
  unfolding mount_entries
  mount_entries_step n cursor h =
      let wraps : add32 cursor 12 ≡ cursor + 12 = omega arith in
      let fits : range_valid cursor 12 size ≡ true =
        ground (arith, range_valid_iff cursor 12 size small) in
      rw (fits, read_entry_lem r cursor (omega arith), wraps) refl

  mount_entries-Verdict :
      (n cursor : ℕ)
      → Returns (mount_entries r size n cursor) (Verdict (AllFit r.byte size n cursor))
  unfolding mount_entries
  mount_entries-Verdict zero cursor = tt
  mount_entries-Verdict (suc n) cursor = elim (range_valid_iff cursor 12 size small) [
    | inl (_, h) ↦ rw (mount_entries_step n cursor h) (
        ground (
          arith,
          entry_rejected_iff (entry_at r.byte cursor) (cursor + 12) size small,
          mount_entries-Verdict n (cursor + 12 + le16 r.byte cursor),
        ))
    | inr (out, gt) ↦ rw out (λ fits. absurd (omega arith))
  ]

-- The state and the status that a mount of the image's first `size` bytes may end with.
abbrev pub MountOutcome : Region → ℕ → RootfsState × RootfsStatus → Type 0
MountOutcome r size (state, valid) = IsImage r.byte size × (state ≡ mounted r size (le32 r.byte 4))
MountOutcome r size (state, invalid) = (IsImage r.byte size → ⊥) × (state ≡ unmounted)

header_rejected_iff :
    (h : Header)
    → ((header_rejected h ≡ false) × (h.magic ≡ 0x31534652) × (0 < h.entries) × (h.entries ≤ 128))
      ⊎ ((header_rejected h ≡ true)
          × (((h.magic ≡ 0x31534652) × (0 < h.entries) × (h.entries ≤ 128)) → ⊥))
unfolding header_rejected
header_rejected_iff h = ground arith

module _ (r : Region) (size : ℕ) (h : 8 ≤ size) where
  finish_mount-MountOutcome :
      (m : Run Bool)
      → (le32 r.byte 0 ≡ 0x31534652) × (0 < le32 r.byte 4) × (le32 r.byte 4 ≤ 128)
      → Returns m (Verdict (AllFit r.byte size (le32 r.byte 4) 8))
      → Returns (m >>= finish_mount r size (le32 r.byte 4)) (MountOutcome r size)
  finish_mount-MountOutcome (done true) (a, b, c) fits =
      (record { has_header = h; magic = a; some_entries = b; few_entries = c; fits = fits }, refl)
  finish_mount-MountOutcome (done false) good out = ((λ i. out i.fits), refl)
  finish_mount-MountOutcome fault good out = out

  mount_image-MountOutcome :
      size ≤ r.size → size < u32_mod → Returns (mount_image r size) (MountOutcome r size)
  unfolding mount_image
  mount_image-MountOutcome inside small =
      rw (read_header_lem r (omega arith)) (elim (header_rejected_iff (header_at r.byte)) [
        | inl (e, a, b, c) ↦ rw e (
            finish_mount-MountOutcome (mount_entries r size (le32 r.byte 4) 8) (a, b, c)
              (mount_entries-Verdict r size inside small (le32 r.byte 4) 8))
        | inr (e, bad) ↦ rw e ((λ i. bad (i.magic, i.some_entries, i.few_entries)), refl)
      ])

-- With an image of at least `size` bytes and a 32-bit size: A mount never reads outside it. It succeeds exactly on a well-formed image, which is
-- then the mounted one, and on any other it leaves nothing mounted, whatever was mounted before.
pub rootfs_mount-MountOutcome :
    (state : RootfsState) (r : Region) (size : ℕ)
    → size ≤ r.size
    → size < u32_mod
    → Returns (rootfs_mount state (some r) size) (MountOutcome r size)
unfolding rootfs_mount
rootfs_mount-MountOutcome state r size inside small = elim (dec_lt size 8) [
  | yes h ↦ rw (lt→ltb size 8 h) ((λ i. absurd (omega arith)), refl)
  | no h ↦
      rw (ltb-false size 8 (omega arith))
        (mount_image-MountOutcome r size (omega arith) inside small)
]
