-- ===== src/Boot/Reads.antt =====
-- What find_rootfs of kernel/arch/x86_64/kernel.c reads of one tag.
use mantle_os.Base.{
  ℕ, zero, suc, ◌+◌, ◌-◌, ◌≤◌, ◌<◌, ◌≡◌, ap, sym, ◌∙◌, inl, inr, ◌==◌, arith, Bool-cases, u32_mod,
}
use mantle_os.Memory.{done, Returns, Returns-bind, Anything, Region, le32, read32, read8_lem}
use mantle_os.Console.{Console}
use mantle_os.Boot.{show_cmdline, show_bytes, show_module}

-- The 32 bits at the offset `k` of the tag at `at`.
abbrev pub field : Region → ℕ → ℕ → ℕ
field ram at k = le32 (λ i. ram.byte (at + i)) k

pub read32-field :
    (ram : Region) (at k : ℕ) → at + k + 4 ≤ ram.size → read32 ram (at + k) ≡ done (field ram at k)
unfolding read32
read32-field ram at k inside =
    let one : at + (k + 1) ≡ at + k + 1 = omega arith in
    let two : at + (k + 2) ≡ at + k + 2 = omega arith in
    let three : at + (k + 2 + 1) ≡ at + k + 2 + 1 = omega arith in
    let same : le32 ram.byte (at + k) ≡ field ram at k =
      omega (arith, ap ram.byte one, ap ram.byte two, ap ram.byte three) in
    ground (arith, same)

pub read32-type :
    (ram : Region) (at : ℕ) → at + 4 ≤ ram.size → read32 ram at ≡ done (field ram at 0)
read32-type ram at inside =
    let same : at + 0 ≡ at = omega arith in
    ap (read32 ram) (sym same) ∙ read32-field ram at 0 (omega arith)

show_cmdline-Returns :
    (left : ℕ) (ram : Region) (at : ℕ) (c : Console)
    → at + left ≤ ram.size
    → Returns (show_cmdline left ram at c) Anything
unfolding show_cmdline
show_cmdline-Returns zero ram at c inside = tt
show_cmdline-Returns (suc left) ram at c inside =
    rw (read8_lem ram at (omega arith)) (elim (Bool-cases (ram.byte at == 0)) [
      | inl end ↦ rw end tt
      | inr more ↦ rw more (show_cmdline-Returns left ram (at + 1) _ (omega arith))
    ])

show_bytes-Returns :
    (left : ℕ) (ram : Region) (at : ℕ) (c : Console)
    → at + left ≤ ram.size
    → Returns (show_bytes left ram at c) Anything
unfolding show_bytes
show_bytes-Returns zero ram at c inside = tt
show_bytes-Returns (suc left) ram at c inside =
    rw (read8_lem ram at (omega arith)) (show_bytes-Returns left ram (at + 1) _ (omega arith))

pub show_module-Returns :
    (ram : Region) (at size : ℕ) (c : Console)
    → at + size ≤ ram.size
    → 16 ≤ size
    → Returns (show_module ram at size c) Anything
unfolding show_module
show_module-Returns ram at size c inside big =
    rw (read32-field ram at 8 (omega arith), read32-field ram at 12 (omega arith))
      (Returns-bind (show_cmdline (size - 16) ram (at + 16) _) _ Anything Anything
        (show_cmdline-Returns (size - 16) ram (at + 16) _ (omega arith))
        λ c' t. show_bytes-Returns (size - 16) ram (at + 16) _ (omega arith))

abbrev pub IsBytes : Region → Type 0
IsBytes ram = (i : ℕ) → ram.byte i < 256

pub field-lt : (ram : Region) (at k : ℕ) → IsBytes ram → field ram at k < u32_mod
field-lt ram at k bytes =
    omega
      (arith, bytes (at + k), bytes (at + (k + 1)), bytes (at + (k + 2)), bytes (at + (k + 2 + 1)))
