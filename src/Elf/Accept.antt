-- ===== src/Elf/Accept.antt =====
-- `mantle_elf_load` accepts every well-formed executable.
use Prim.Native.Nat.{bit_and}
use mantle_os.Base.{
  ℕ, zero, suc, ◌-◌, ◌%◌, ◌^◌, ◌≤◌, ◌<◌, ◌≡◌, refl, ap, sym, ◌∙◌, ◌⊎◌, inl, inr, false, arith,
  u32_mod, u64_mod, sub64,
}
use native.Mathlib.Nat.{one-le-pow}
use mantle_os.Base.Bits.{bit_and-mask, bit_and-pow_mask}
use mantle_os.Elf.{ElfHeader, ProgramHeader, elf_header_rejected, program_rejected}
use mantle_os.Elf.Format.{HeaderFits, SegmentFits}

-- The segment may start at any address, or at one that is congruent to its offset in the file.
abbrev pub IsAligned : ProgramHeader → Type 0
IsAligned p =
    (p.align ≤ 1)
    ⊎ ((k : ℕ) × (p.align < u64_mod) × (p.align ≡ 2 ^ k) × (p.vaddr % 2 ^ k ≡ p.offset % 2 ^ k))

pub header_accepted :
    (h : ElfHeader) (size : ℕ)
    → size < u32_mod
    → HeaderFits h size
    → (h.ident 4 ≡ 2) × (h.ident 5 ≡ 1)
    → h.version ≡ 1
    → h.ehsize ≡ 64
    → elf_header_rejected h size ≡ false
unfolding elf_header_rejected
header_accepted h size small fits class version ehsize = ground arith

-- What the two tests of the alignment compute.
abbrev Masked : ProgramHeader → Type 0
Masked p =
    ((p.align ≡ 0) ⊎ (bit_and p.align (sub64 p.align 1) ≡ 0))
    × ((p.align ≤ 1) ⊎ (bit_and p.vaddr (sub64 p.align 1) ≡ bit_and p.offset (sub64 p.align 1)))

IsAligned-Masked : (p : ProgramHeader) → IsAligned p → Masked p
IsAligned-Masked p (inl small) = (one p.align small, inl small)
  where
    one : (a : ℕ) → a ≤ 1 → (a ≡ 0) ⊎ (bit_and a (sub64 a 1) ≡ 0)
    one zero h = inl refl
    one (suc zero) h = inr refl
    one (suc (suc a)) h = absurd (omega arith)
IsAligned-Masked p (inr (k, word, power, congruent)) =
    let mask : sub64 p.align 1 ≡ 2 ^ k - 1 = omega (arith, one-le-pow k 2 (omega arith)) in
    rw mask (
      inr (ap (λ a. bit_and a (2 ^ k - 1)) power ∙ bit_and-pow_mask k),
      inr (bit_and-mask k p.vaddr ∙ congruent ∙ sym (bit_and-mask k p.offset)),
    )

pub program_accepted :
    (p : ProgramHeader) (size : ℕ)
    → size < u32_mod
    → SegmentFits p size
    → IsAligned p
    → program_rejected p size ≡ false
unfolding program_rejected
program_accepted p size small fits aligned = ground (arith, IsAligned-Masked p aligned)
