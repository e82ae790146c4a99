-- ===== src/Boot/Find.antt =====
-- find_rootfs of kernel/arch/x86_64/kernel.c and the tags of the boot information.
use mantle_os.Base.{
  ℕ, zero, suc, ◌+◌, ◌*◌, ◌/◌, ◌≤◌, ◌<◌, ◌≡◌, ◌≢◌, refl, ◌⊎◌, inl, inr, true, false, ◌&&◌, ◌||◌,
  none, some, ltb, leb, ◌==◌, if◌then◌else◌, arith, Bool-cases, add64, u32_mod, leb-false, le→leb,
}
use native.Mathlib.Decide.{dec_le}
use mantle_os.Memory.{Run, done, fault, ◌>>=◌, Returns, Returns-bind, Anything, Region, advance}
use mantle_os.Console.{Console}
use mantle_os.Multiboot2.{parse_module}
use mantle_os.Multiboot2.Accept.{IsRootfsTag, ParseOutcome, parse_module-ParseOutcome}
use mantle_os.Boot.{
  Lookup, found, missing, malformed, show_module, padded, found_or, scan_tags, find_rootfs,
  serial_tag,
}
use mantle_os.Boot.Reads.{field, field-lt, IsBytes, read32-field, read32-type, show_module-Returns}

-- A tag that lies before `end` and is neither the last one nor that of the root file system.
pub record Skipped (ram : Region) (end at : ℕ) : Type 0 where
  pub header : at + 8 ≤ end
  pub some_size : 8 ≤ field ram at 4
  pub inside : at + field ram at 4 ≤ end
  pub not_last : field ram at 0 ≢ 0
  pub other : IsRootfsTag (λ i. ram.byte (at + i)) (field ram at 4) → ⊥

-- The tags that are skipped lead from one address to another; each starts at a multiple of eight
-- bytes behind the one before.
pub data Leads (ram : Region) (end : ℕ) : ℕ → ℕ → Type 0 where
  here : {at : ℕ} → Leads ram end at at
  skip :
      {at to : ℕ}
      → Skipped ram end at
      → Leads ram end (at + (field ram at 4 + 7) / 8 * 8) to
      → Leads ram end at to

-- Where the search stops, and why.
abbrev pub StopsAt : Region → ℕ → ℕ → Lookup → Type 0
StopsAt ram end at (found m) =
    (at + field ram at 4 ≤ end)
    × IsRootfsTag (λ i. ram.byte (at + i)) (field ram at 4)
    × (m.start ≡ field ram at 8)
    × (m.end ≡ field ram at 12)
    × (m.start + m.size ≡ m.end)
StopsAt ram end at missing = (end < at + 8) ⊎ (field ram at 0 ≡ 0)
StopsAt ram end at malformed = (at + 8 ≤ end) × ((field ram at 4 < 8) ⊎ (end < at + field ram at 4))

abbrev pub FindOutcome : Region → ℕ → ℕ → Console × Lookup → Type 0
FindOutcome ram end from r = (at : ℕ) × Leads ram end from at × StopsAt ram end at r.1

-- The test of the loop on the size of a tag.
tag_inside_iff :
    (info end at size : ℕ)
    → size < u32_mod
    → info < 0x1_0000_0000_0000
    → end ≤ info + 0x10_0000
    → info ≤ at
    → at + 8 ≤ end
    → (((ltb size 8 || ltb end (add64 at size) || ltb (add64 at (padded size)) at) ≡ false)
        × (8 ≤ size)
        × (at + size ≤ end)
        × (add64 at (padded size) ≡ at + (size + 7) / 8 * 8))
      ⊎ (((ltb size 8 || ltb end (add64 at size) || ltb (add64 at (padded size)) at) ≡ true)
          × ((size < 8) ⊎ (end < at + size)))
tag_inside_iff info end at size small low span above header = ground arith

module _ (ram : Region) (bytes : IsBytes ram) (info end : ℕ) (mapped : end ≤ ram.size)
    (low : info < 0x1_0000_0000_0000) (span : end ≤ info + 0x10_0000) where
  -- One tag that lies inside: the rest of the search is reached only if it is skipped.
  module_tag :
      (at : ℕ) (c : Console) (rest : Console → Run (Console × Lookup))
      → at + 8 ≤ end
      → 8 ≤ field ram at 4
      → at + field ram at 4 ≤ end
      → 16 ≤ field ram at 4
      → field ram at 0 ≡ 3
      → ((c' : Console) → Skipped ram end at → Returns (rest c') (FindOutcome ram end at))
      → Returns
          (show_module ram at (field ram at 4) c >>= λ c'.
            (parse_module (some (advance ram at)) (field ram at 4) >>= λ m.
            found_or c' m (rest c')))
          (FindOutcome ram end at)
  module_tag at c rest header some_size inside big type next =
      Returns-bind (show_module ram at (field ram at 4) c) _ Anything (FindOutcome ram end at)
        (show_module-Returns ram at (field ram at 4) c (omega arith) big)
        λ c' t.
          Returns-bind (parse_module (some (advance ram at)) (field ram at 4)) _
            (ParseOutcome (advance ram at) (field ram at 4)) (FindOutcome ram end at)
            (parse_module-ParseOutcome (advance ram at) (field ram at 4) (omega arith))
            (elim [
              | none ↦ λ other. next c' (record {
                header = header;
                some_size = some_size;
                inside = inside;
                not_last = λ last. absurd (omega arith);
                other = other;
              })
              | some m ↦ λ (tag, start, ends, size). (at, here, (inside, tag, start, ends, size))
            ])

  -- The tests of the loop on a tag that lies inside.
  one_tag :
      (at : ℕ) (c : Console) (rest : Console → Run (Console × Lookup))
      → at + 8 ≤ end
      → 8 ≤ field ram at 4
      → at + field ram at 4 ≤ end
      → ((c' : Console) → Skipped ram end at → Returns (rest c') (FindOutcome ram end at))
      → Returns
          (if field ram at 0 == 0
            then done (c, missing)
            else if (field ram at 0 == 3) && leb 16 (field ram at 4)
            then (show_module ram at (field ram at 4) c >>= λ c'.
                (parse_module (some (advance ram at)) (field ram at 4) >>= λ m.
                found_or c' m (rest c')))
            else rest c)
          (FindOutcome ram end at)
  one_tag at c rest header some_size inside next = elim (Bool-cases (field ram at 0 == 0)) [
    | inl last ↦ rw last (at, here, inr (ground arith))
    | inr more ↦ rw more (elim (Bool-cases ((field ram at 0 == 3) && leb 16 (field ram at 4))) [
      | inl tag ↦
          rw tag (module_tag at c rest header some_size inside (ground arith) (ground arith) next)
      | inr other ↦ rw other (
          next c (record {
            header = header;
            some_size = some_size;
            inside = inside;
            not_last = ground arith;
            other = λ tag. ground (arith, tag.type, tag.size);
          }))
    ])
  ]

  prefixed :
      (at : ℕ)
      → Skipped ram end at
      → (m : Run (Console × Lookup))
      → Returns m (FindOutcome ram end (at + (field ram at 4 + 7) / 8 * 8))
      → Returns m (FindOutcome ram end at)
  prefixed at skipped (done r) (to, leads, stops) = (to, skip skipped leads, stops)
  prefixed at skipped fault out = out

  scan_tags-FindOutcome :
      (fuel at : ℕ) (c : Console)
      → 0 < fuel
      → end < at + fuel
      → info ≤ at
      → at < info + 0x20_0000
      → Returns (scan_tags fuel ram end at c) (FindOutcome ram end at)
  unfolding scan_tags
  scan_tags-FindOutcome zero at c some_fuel enough above near = absurd (omega arith)
  scan_tags-FindOutcome (suc fuel) at c some_fuel enough above near =
      let header_end : add64 at 8 ≡ at + 8 = omega arith in
      rw header_end (elim (dec_le (at + 8) end) [
        | no last ↦ rw (leb-false (at + 8) end (omega arith)) (at, here, inl (omega arith))
        | yes header ↦
            rw
              (
                le→leb (at + 8) end header,
                read32-type ram at (omega arith),
                read32-field ram at 4 (omega arith),
              )
              (elim (tag_inside_iff info end at (field ram at 4) (field-lt ram at 4 bytes) low span
                above header) [
                  | inr (e, bad) ↦ rw e (at, here, (header, bad))
                  | inl (e, some_size, inside, next_at) ↦
                      rw (e, next_at)
                        (one_tag at (serial_tag c (field ram at 0) (field ram at 4))
                          (scan_tags fuel ram end (at + (field ram at 4 + 7) / 8 * 8)) header
                          some_size inside
                          λ c' skipped. prefixed at skipped _ (
                            scan_tags-FindOutcome fuel (at + (field ram at 4 + 7) / 8 * 8) c'
                              (omega arith) (omega arith) (omega arith) (omega arith)))
                ])
      ])

pub find_rootfs-cases :
    (ram : Region) (info : ℕ) (c : Console)
    → info + 4 ≤ ram.size
    → (find_rootfs ram info c ≡ done (c, missing))
      ⊎ (find_rootfs ram info c ≡ done (c, malformed))
      ⊎ ((0 < info) × (8 ≤ field ram info 0) × (field ram info 0 ≤ 0x10_0000))
unfolding find_rootfs
find_rootfs-cases ram info c inside = elim (Bool-cases (info == 0)) [
  | inl null ↦ inl (rw null refl)
  | inr address ↦
      rw (address, read32-type ram info inside)
        (elim (Bool-cases (ltb (field ram info 0) 8 || ltb 0x10_0000 (field ram info 0))) [
          | inl bad ↦ inr (inl (rw bad refl))
          | inr good ↦ inr (inr (ground arith, ground arith, ground arith))
        ])
]

-- With boot information of 8 bytes to 1 MiB that is mapped, not at the address 0 and below 2 ^ 48: The
-- search ends, and reads nothing outside the boot information. It follows the tags and stops at
-- the first one that is the last, does not fit or is that of the root file system; it reports a
-- module exactly in the third case, with the start, the end and the size that the tag holds.
pub find_rootfs-FindOutcome :
    (ram : Region) (info : ℕ) (c : Console)
    → IsBytes ram
    → 0 < info
    → info < 0x1_0000_0000_0000
    → 8 ≤ field ram info 0
    → field ram info 0 ≤ 0x10_0000
    → info + field ram info 0 ≤ ram.size
    → Returns (find_rootfs ram info c) (FindOutcome ram (info + field ram info 0) (info + 8))
unfolding find_rootfs
find_rootfs-FindOutcome ram info c bytes some_info low big fits mapped =
    let total = field ram info 0 in
    let start : add64 info 8 ≡ info + 8 = omega arith in
    let end : add64 info total ≡ info + total = omega arith in
    let nonzero : (info == 0) ≡ false = ground arith in
    let accepted : (ltb total 8 || ltb 0x10_0000 total) ≡ false = ground arith in
    rw (nonzero, read32-type ram info (omega arith), accepted, start, end)
      (scan_tags-FindOutcome ram bytes info (info + total) mapped low (omega arith) total (info + 8)
        c (omega arith) (omega arith) (omega arith) (omega arith))
