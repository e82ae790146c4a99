-- ===== src/Multiboot2/Accept.antt =====
-- Which tags `mantle_mb2_parse_module` accepts.
use mantle_os.Base.{
  ℕ, zero, suc, ◌+◌, ◌-◌, ◌≤◌, ◌<◌, ◌≡◌, refl, ◌⊎◌, inl, inr, true, false, Option, none, some, List,
  [], ◌∷◌, ◌==◌, length, arith, lt→ltb, ltb-false, Bool-cases, dec_lt,
}
use mantle_os.Memory.{done, Returns, Region, Spells, le32, read8, read8_lem}
use mantle_os.Multiboot2.{
  TagModule, BootModule, read_tag, tag_rejected, cmdline_equal, check_cmdline, parse_module,
  rootfs_cmdline,
}

abbrev pub tag_at : (ℕ → ℕ) → TagModule
tag_at f = record { type = le32 f 0; size = le32 f 4; mod_start = le32 f 8; mod_end = le32 f 12 }

-- A module tag of thirty bytes whose command line is "mantle-rootfs".
pub record IsRootfsTag (f : ℕ → ℕ) (available_size : ℕ) : Type 0 where
  pub fits : 30 ≤ available_size
  pub type : le32 f 0 ≡ 3
  pub size : le32 f 4 ≡ 30
  pub ordered : le32 f 8 < le32 f 12
  pub cmdline : Spells f 16 rootfs_cmdline
  pub terminated : f 29 ≡ 0

abbrev pub ParseOutcome : Region → ℕ → Option BootModule → Type 0
ParseOutcome r available_size none = IsRootfsTag r.byte available_size → ⊥
ParseOutcome r available_size (some m) =
    IsRootfsTag r.byte available_size
    × (m.start ≡ le32 r.byte 8)
    × (m.end ≡ le32 r.byte 12)
    × (m.start + m.size ≡ m.end)

read_tag_lem : (r : Region) → 16 ≤ r.size → read_tag r ≡ done (tag_at r.byte)
unfolding read_tag
read_tag_lem r h = ground arith

cmdline_equal-Spells :
    (r : Region) (cs : List ℕ) (at n : ℕ)
    → at + n ≤ r.size
    → length cs ≤ n
    → ((cmdline_equal r at cs ≡ done true) × Spells r.byte at cs)
      ⊎ ((cmdline_equal r at cs ≡ done false) × (Spells r.byte at cs → ⊥))
unfolding cmdline_equal read8
cmdline_equal-Spells r [] at n h k = inl (refl, tt)
cmdline_equal-Spells r (c ∷ cs) at zero h k = absurd (omega arith)
cmdline_equal-Spells r (c ∷ cs) at (suc n) h k =
    ground (arith, cmdline_equal-Spells r cs (at + 1) n)

tag_rejected_iff :
    (t : TagModule) (available_size : ℕ)
    → ((tag_rejected t available_size ≡ false)
        × (16 ≤ t.size)
        × (t.size ≤ available_size)
        × (t.type ≡ 3)
        × (t.mod_start < t.mod_end))
      ⊎ ((tag_rejected t available_size ≡ true)
          × (((t.size ≡ 30) × (t.size ≤ available_size) × (t.type ≡ 3) × (t.mod_start < t.mod_end))
              → ⊥))
unfolding tag_rejected
tag_rejected_iff t available_size = ground arith

check_cmdline-ParseOutcome :
    (r : Region) (available_size : ℕ)
    → available_size ≤ r.size
    → 16 ≤ le32 r.byte 4
    → le32 r.byte 4 ≤ available_size
    → le32 r.byte 0 ≡ 3
    → le32 r.byte 8 < le32 r.byte 12
    → Returns (check_cmdline r (tag_at r.byte)) (ParseOutcome r available_size)
unfolding check_cmdline
check_cmdline-ParseOutcome r available_size inside big fits type ordered =
    elim (Bool-cases (le32 r.byte 4 - 16 == 14)) [
      | inr other ↦ rw other (λ t. let never : ⊥ = ground arith in never)
      | inl thirty ↦
          let size : le32 r.byte 4 ≡ 30 = ground arith in
          rw (thirty, read8_lem r 29 (omega arith))
            (elim (cmdline_equal-Spells r rootfs_cmdline 16 13 (ground arith) (omega arith)) [
              | inl (e, spelt) ↦ rw e (elim (Bool-cases (r.byte 29 == 0)) [
                | inl last ↦ rw last (
                  record {
                    fits = omega arith;
                    type = type;
                    size = size;
                    ordered = ordered;
                    cmdline = spelt;
                    terminated = ground arith;
                  },
                  refl,
                  refl,
                  omega arith,
                )
                | inr last ↦ rw last (λ t. let never : ⊥ = ground arith in never)
              ])
              | inr (e, wrong) ↦ rw e (λ t. wrong t.cmdline)
            ])
    ]

-- With a tag of at least `available_size` bytes: The parser reads nothing outside the tag, and accepts exactly a module tag whose command line is
-- "mantle-rootfs" and whose module is not empty; it returns the module's bounds and size.
pub parse_module-ParseOutcome :
    (r : Region) (available_size : ℕ)
    → available_size ≤ r.size
    → Returns (parse_module (some r) available_size) (ParseOutcome r available_size)
unfolding parse_module
parse_module-ParseOutcome r available_size inside = elim (dec_lt available_size 16) [
  | yes h ↦ rw (lt→ltb available_size 16 h) (λ t. absurd (omega arith))
  | no h ↦
      rw (ltb-false available_size 16 (omega arith), read_tag_lem r (omega arith))
        (elim (tag_rejected_iff (tag_at r.byte) available_size) [
          | inl (e, big, fits, type, ordered) ↦
              rw e (check_cmdline-ParseOutcome r available_size inside big fits type ordered)
          | inr (e, bad) ↦ rw e (λ t. bad (t.size, omega arith, t.type, t.ordered))
        ])
]
