-- ===== src/Rootfs/Frame.antt =====
-- What `mantle_rootfs_list` leaves of the caller's memory.
use mantle_os.Base.{
  ℕ, zero, suc, ◌+◌, ◌-◌, ◌≤◌, ◌<◌, ◌≡◌, refl, ap, sym, inl, inr, true, false, not, ◌||◌, Option,
  none, some, List, leb, ◌==◌, arith, Bool-cases, le→leb, leb-false, add32, u32_mod,
}
use native.Mathlib.Decide.{dec_le}
use mantle_os.Memory.{
  Run, done, Returns, Returns-bind, Anything, Region, update, read8_lem, write8_lem, le32, le16,
}
use mantle_os.Memory.Overlay.{overlay, with_bytes, overlay_none, overlay_first}
use mantle_os.Rootfs.{Entry, mounted}
use mantle_os.Rootfs.Listing.{
  name_seen, component_length, copy_name, Listing, append_name, list_entry, go_on, list_entries,
  end_list, is_root, rootfs_list,
}
use mantle_os.Rootfs.Format.{EntryFits, AllFit, IsImage, entry_at, read_entry_lem}
use mantle_os.Rootfs.Bounds.{name_seen-Returns, component_length-Returns}

pub copy_name-overlay :
    (n : ℕ) (image : Region) (name : ℕ) (output : Region) (written : ℕ)
    → name + n ≤ image.size
    → written + n ≤ output.size
    → copy_name n image name output written
      ≡ done (with_bytes output (overlay output.byte written n (λ k. image.byte (name + k))))
unfolding copy_name
copy_name-overlay zero image name output written h k =
    ap (λ f. done (with_bytes output f))
      (sym (overlay_none output.byte (λ k. image.byte (name + k)) written))
copy_name-overlay (suc n) image name output written h k =
    rw
      (
        read8_lem image name (omega arith),
        write8_lem output written (image.byte name) (omega arith),
        copy_name-overlay n image (name + 1)
            (with_bytes output (update output.byte written (image.byte name))) (written + 1)
            (omega arith) (omega arith),
      )
      (ap (λ f. done (with_bytes output f))
        (overlay_first output.byte (λ k. image.byte (name + k)) (λ k. image.byte (name + 1 + k))
          (image.byte name) written n (ap image.byte (omega arith))
          (λ k. ap image.byte (omega arith))))

abbrev pub Below : ℕ → Option ℕ → Type 0
Below limit none = Unit {0}
Below limit (some w) = w < limit

-- A text of `w` bytes that a zero follows, its last byte a newline.
abbrev pub IsText : (ℕ → ℕ) → Option ℕ → Type 0
IsText f none = Unit {0}
IsText f (some w) = (0 < w) × (f (w - 1) ≡ 10) × (f w ≡ 0)

-- The memory outside the `output_size` bytes of the output is unchanged.
pub record Framed (output_size : ℕ) (old : Region) (l : Listing) : Type 0 where
  pub size : l.output.size ≡ old.size
  pub outside : (i : ℕ) → output_size ≤ i → l.output.byte i ≡ old.byte i
  pub below : Below output_size l.written

module _ (image : Region) (output_size : ℕ) (old : Region) (room : output_size ≤ old.size)
    (small : output_size + 256 < u32_mod) where
  abbrev Ok : Region → ℕ → Type 0
  Ok output written = Framed output_size old (record { output = output; written = some written })

  append_name-Framed :
      (name name_length : ℕ) (output : Region) (written : ℕ)
      → name + name_length ≤ image.size
      → name_length ≤ 255
      → Ok output written
      → Returns
          (append_name image name name_length output written output_size)
          (Framed output_size old)
  unfolding append_name
  append_name-Framed name n output written inside short ok =
      let sum : add32 (add32 written n) 1 ≡ written + n + 1 = omega (arith, ok.below) in
      rw sum (elim (dec_le output_size (written + n + 1)) [
        | yes full ↦
            rw (le→leb _ _ full) (record { size = ok.size; outside = ok.outside; below = tt })
        | no fits ↦
            rw
              (
                leb-false output_size (written + n + 1) (omega arith),
                copy_name-overlay n image name output written inside (omega (arith, ok.size)),
                write8_lem
                    (with_bytes output (overlay output.byte written n (λ k. image.byte (name + k))))
                    (written + n) 32 (omega (arith, ok.size)),
              )
              (record {
                size = ok.size;
                outside = λ i h. ground (arith, ok.outside i h);
                below = omega arith;
              })
      ])

  list_entry-Framed :
      (size : ℕ) (entry : Entry) (path : ℕ) (output : Region) (written : ℕ)
      → size ≤ image.size
      → EntryFits entry size path
      → Ok output written
      → Returns (list_entry image entry path output written output_size) (Framed output_size old)
  unfolding list_entry
  list_entry-Framed size entry path output written inside fits ok =
      elim (dec_le entry.path_length 1) [
        | yes root ↦ rw (le→leb entry.path_length 1 root) ok
        | no long ↦ rw (leb-false entry.path_length 1 (omega arith)) (
            Returns-bind
              (component_length image (path + 1) entry.path_length (suc entry.path_length) 0) _
              (λ n. n < entry.path_length) (Framed output_size old)
              (component_length-Returns image (path + 1) entry.path_length
                (omega (arith, fits.name_inside)) fits.short (suc entry.path_length) 0 (omega arith)
                (omega arith))
              λ n h.
                Returns-bind (name_seen output written image (path + 1) n) _ Anything
                  (Framed output_size old)
                  (name_seen-Returns image (path + 1) n (omega (arith, fits.name_inside))
                    (omega (arith, fits.short)) output written (omega (arith, ok.below, ok.size))
                    (omega (arith, ok.below)))
                  (elim [
                    | true ↦ λ t. ok
                    | false ↦ λ t.
                        append_name-Framed (path + 1) n output written
                          (omega (arith, fits.name_inside)) (omega (arith, fits.short)) ok
                  ]))
      ]

  go_on-Framed :
      (l : Listing) (k : Region → ℕ → Run Listing)
      → Framed output_size old l
      → ((output : Region) (written : ℕ)
          → Ok output written
          → Returns (k output written) (Framed output_size old))
      → Returns (go_on l k) (Framed output_size old)
  go_on-Framed l k framed next = go l.output l.written framed
    where
      go :
          (o : Region) (w : Option ℕ)
          → Framed output_size old (record { output = o; written = w })
          → Returns (go_on (record { output = o; written = w }) k) (Framed output_size old)
      go o none f = f
      go o (some w) f = next o w f

  list_entries-Framed :
      (size n cursor : ℕ) (output : Region) (written : ℕ)
      → size ≤ image.size
      → size < u32_mod
      → AllFit image.byte size n cursor
      → Ok output written
      → Returns (list_entries image n cursor output written output_size) (Framed output_size old)
  unfolding list_entries
  list_entries-Framed size zero cursor output written inside s fits ok = ok
  list_entries-Framed size (suc n) cursor output written inside s (e, fits) ok =
      let k = le16 image.byte cursor in
      let name_at : add32 cursor 12 ≡ cursor + 12 = omega (arith, e.name_inside) in
      let next_at : add32 (cursor + 12) k ≡ cursor + 12 + k = omega (arith, e.name_inside) in
      rw (read_entry_lem image cursor (omega (arith, e.name_inside)), name_at, next_at)
        (Returns-bind
          (list_entry image (entry_at image.byte cursor) (cursor + 12) output written output_size) _
          (Framed output_size old) (Framed output_size old)
          (list_entry-Framed size (entry_at image.byte cursor) (cursor + 12) output written inside e
            ok)
          λ l framed.
            go_on-Framed l
              (λ output' written'.
                list_entries image n (cursor + 12 + k) output' written' output_size)
              framed
              λ output' written' ok'.
                list_entries-Framed size n (cursor + 12 + k) output' written' inside s fits ok')

  end_list-Framed :
      (output : Region) (written : ℕ)
      → Ok output written
      → Returns
          (end_list output_size output written)
          (λ l. Framed output_size old l × IsText l.output.byte l.written)
  unfolding end_list
  end_list-Framed output written ok =
      let sum : add32 written 1 ≡ written + 1 = omega (arith, ok.below) in
      rw sum (elim (Bool-cases ((written == 0) || leb output_size (written + 1))) [
        | inl bad ↦ rw bad (record { size = ok.size; outside = ok.outside; below = tt }, tt)
        | inr good ↦
            let some_bytes : 0 < written = ground arith in
            rw
              (
                good,
                write8_lem output (written - 1) 10 (omega (arith, ok.below, ok.size)),
                write8_lem (record output { byte = update output.byte (written - 1) 10 }) written 0
                    (omega (arith, ok.below, ok.size)),
              )
              (
                record {
                  size = ok.size;
                  outside = λ i h. ground (arith, ok.outside i h);
                  below = ok.below;
                },
                (some_bytes, ground arith, ground arith),
              )
      ])

-- What a call may end with.
abbrev pub ListOutcome : ℕ → Region → Listing → Type 0
ListOutcome output_size old l = Framed output_size old l × IsText l.output.byte l.written

module _ (state_size : ℕ) (image : Region) (inside : state_size ≤ image.size)
    (word : state_size < u32_mod) (good : IsImage image.byte state_size) where
  -- With a mounted well-formed image, and an output of at least `output_size` bytes, more than 256
  -- below 2 ^ 32: A listing ends, reads nothing outside the image and writes nothing outside
  -- the first `output_size` bytes of the output. If it succeeds, it returns the length of a text
  -- that is not empty, ends with a newline and a zero, and lies within those bytes.
  pub rootfs_list-ListOutcome :
      (path : List ℕ) (output : Region) (output_size : ℕ)
      → output_size ≤ output.size
      → output_size + 256 < u32_mod
      → Returns
          (rootfs_list
            (mounted image state_size (le32 image.byte 4))
            (some path)
            output
            output_size)
          (ListOutcome output_size output)
  unfolding rootfs_list
  rootfs_list-ListOutcome path output output_size room small =
      elim (Bool-cases ((output_size == 0) || not (is_root path))) [
        | inl bad ↦ rw bad (record { size = refl; outside = λ i h. refl; below = tt }, tt)
        | inr ok ↦ rw ok (
            Returns-bind (list_entries image (le32 image.byte 4) 8 output 0 output_size) _
              (Framed output_size output) (ListOutcome output_size output)
              (list_entries-Framed image output_size output room small state_size
                (le32 image.byte 4) 8 output 0 inside word good.fits
                (record { size = refl; outside = λ i h. refl; below = ground arith }))
              λ l framed. end_go l.output l.written framed)
      ]
    where
      end_go :
          (o : Region) (w : Option ℕ)
          → Framed output_size output (record { output = o; written = w })
          → Returns
              (go_on (record { output = o; written = w }) (end_list output_size))
              (ListOutcome output_size output)
      end_go o none f = (f, tt)
      end_go o (some w) f = end_list-Framed image output_size output room small o w f
