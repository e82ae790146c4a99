-- ===== src/Elf/Pages.antt =====
-- No page of the user memory is both writable and executable.
use Prim.Native.Nat.{bit_and, bit_or}
use mantle_os.Base.{
  ℕ, zero, suc, ◌+◌, ◌*◌, ◌/◌, ◌%◌, ◌≤◌, ◌<◌, ◌≡◌, refl, ap, sym, ◌≢◌, ◌==◌, arith, lt→ltb, add64,
  Bool-cases, inl, inr,
}
use mantle_os.Base.Bits.{bit, bit-or, bit_and-pow, bit_and_lowest, bit-lt, bit_and-zero}
use mantle_os.Memory.{done, update}
use mantle_os.Elf.{page_write, page_nx}
use mantle_os.Memory.Overlay.{overlay, overlay_none, overlay_first}
use mantle_os.Elf.Loader.{
  page_entry, set_page, set_pages, permissions, blank_permissions, stack_permissions,
}

-- A writable page-table entry has the no-execute flag.
abbrev pub IsWx : ℕ → Type 0
IsWx entry = bit_and entry page_write ≢ 0 → bit_and entry page_nx ≢ 0

abbrev pub AllWx : (ℕ → ℕ) → Type 0
AllWx pages = (page : ℕ) → page < 512 → IsWx (pages page)

-- The same of permissions before they are joined to an address.
abbrev pub IsSafe : ℕ → Type 0
IsSafe permissions = bit 1 permissions ≡ 1 → bit 63 permissions ≡ 1

pub page_entry-IsWx :
    (base page permissions : ℕ)
    → base % 4096 ≡ 0
    → IsSafe permissions
    → IsWx (page_entry base page permissions)
unfolding page_entry
page_entry-IsWx base page permissions aligned safe written clear =
    let frame = add64 base (page * 4096) in
    let plain : bit 1 frame ≡ 0 = unfold bit in omega arith in
    let w : bit 1 permissions ≡ 1 = omega (
      arith,
      bit_and-pow 1 (bit_or frame permissions),
      bit-or 1 frame permissions,
      bit-lt 1 permissions,
    ) in
    omega (arith, bit_and-pow 63 (bit_or frame permissions), bit-or 63 frame permissions, safe w)

write_and_execute : (flags : ℕ) → bit_and flags 2 ≢ 0 → bit_and flags 1 ≢ 0 → bit_and flags 3 ≡ 3
write_and_execute flags w x = omega (
  arith,
  bit_and_lowest flags 3,
  bit_and_lowest flags 2,
  bit_and_lowest flags 1,
  bit_and-pow 0 (flags / 2),
  bit-lt 0 (flags / 2),
  bit_and-pow 0 flags,
  bit-lt 0 flags,
  bit_and-zero (flags / 2),
)

pub blank-IsSafe : IsSafe blank_permissions
unfolding bit
blank-IsSafe e = refl

pub stack-IsSafe : IsSafe stack_permissions
unfolding bit
stack-IsSafe e = refl

pub permissions-IsSafe : (flags : ℕ) → bit_and flags 3 ≢ 3 → IsSafe (permissions flags)
unfolding permissions bit
permissions-IsSafe flags h = elim (Bool-cases (bit_and flags 2 == 0)) [
  | inl w ↦ elim (Bool-cases (bit_and flags 1 == 0)) [
    | inl x ↦ rw (w, x) (λ e. refl)
    | inr x ↦ rw (w, x) (λ e. absurd (omega arith))
  ]
  | inr w ↦ elim (Bool-cases (bit_and flags 1 == 0)) [
    | inl x ↦ rw (w, x) (λ e. refl)
    | inr x ↦ absurd (h (write_and_execute flags (ground arith) (ground arith)))
  ]
]

pub set_pages-overlay :
    (base n page permissions : ℕ) (pages : ℕ → ℕ)
    → page + n ≤ 512
    → set_pages base n page permissions pages
      ≡ done (overlay pages page n (λ k. page_entry base (page + k) permissions))
unfolding set_pages set_page
set_pages-overlay base zero page permissions pages h =
    ap done (sym (overlay_none pages (λ k. page_entry base (page + k) permissions) page))
set_pages-overlay base (suc n) page permissions pages h =
    rw
      (
        lt→ltb page 512 (omega arith),
        set_pages-overlay base n (page + 1) permissions
            (update pages page (page_entry base page permissions)) (omega arith),
      )
      (ap done (
        overlay_first pages (λ k. page_entry base (page + k) permissions)
          (λ k. page_entry base (page + 1 + k) permissions) (page_entry base page permissions) page
          n (ap (λ p. page_entry base p permissions) (omega arith))
          (λ k. ap (λ p. page_entry base p permissions) (omega arith))))
