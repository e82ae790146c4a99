-- ===== src/Efi/Handover.antt =====
-- The boot information that boot/efi/loader.c builds, read by kernel/arch/x86_64/kernel.c.
use mantle_os.Base.{
  ℕ, ◌+◌, ◌-◌, ◌%◌, ◌≤◌, ◌<◌, length, subst, ◌≡◌, ◌∙◌, refl, ◌⊎◌, inl, inr, Option, none, some,
  List, [], ◌∷◌, add32, u32_mod, arith, ap,
}
use mantle_os.Memory.{Run, done, fault, ◌>>=◌, Region, Returns, Spells, le32}
use mantle_os.Memory.Overlay.{overlay}
use mantle_os.Console.{Console}
use mantle_os.Multiboot2.{BootModule}
use mantle_os.Multiboot2.Accept.{IsRootfsTag}
use mantle_os.Boot.{Lookup, found, missing, malformed, find_rootfs}
use mantle_os.Boot.Reads.{IsBytes, field}
use mantle_os.Boot.Find.{FindOutcome, StopsAt, Leads, here, skip, find_rootfs-FindOutcome}
use mantle_os.Efi.Page.{
  info_page, blank, build_info_lem, ModulePage, AreBytes, info_page-ModulePage, blank-AreBytes,
  info_page-AreBytes,
}
use mantle_os.Efi.Info.{GraphicsMode, module_command, build_info}

-- The memory with the page at its address.
abbrev pub with_page : Region → ℕ → Region → Region
with_page ram address page = record ram { byte = overlay ram.byte address page.size page.byte }

-- The kernel's search in the boot information that was built; without any there is no kernel to run.
abbrev pub find_in : Region → Console → Option (ℕ × Region) → Run (Console × Lookup)
find_in ram c none = done (c, missing)
find_in ram c (some (address, page)) = find_rootfs (with_page ram address page) address c

-- The memory with a page, read inside the page.
module _ (ram page : Region) (address : ℕ) (whole : page.size ≡ 0x1000) where
  pub with_page-byte :
      (i : ℕ) → i < 0x1000 → (with_page ram address page).byte (address + i) ≡ page.byte i
  with_page-byte i h =
      let same : address + i - address ≡ i = omega arith in ground (arith, ap page.byte same)

  pub with_page-field :
      (a k : ℕ)
      → a + k + 4 ≤ 0x1000
      → field (with_page ram address page) (address + a) k ≡ le32 page.byte (a + k)
  with_page-field a k h = omega (
    arith,
    at k (a + k) (omega arith) (omega arith),
    at (k + 1) (a + k + 1) (omega arith) (omega arith),
    at (k + 2) (a + k + 2) (omega arith) (omega arith),
    at (k + 2 + 1) (a + k + 2 + 1) (omega arith) (omega arith),
  )
    where
      at :
          (i j : ℕ)
          → a + i ≡ j
          → j < 0x1000
          → (with_page ram address page).byte (address + a + i) ≡ page.byte j
      at i j e inside =
          let here : address + a + i ≡ address + j = omega arith in
          rw here (with_page-byte j inside)

  with_page-IsBytes : IsBytes ram → AreBytes page.byte → IsBytes (with_page ram address page)
  with_page-IsBytes old new i = ground (arith, old i, new.small (i - address))

-- The search found the module that was handed over.
abbrev pub Finds : ℕ → ℕ → Console × Lookup → Type 0
Finds start size r =
    (m : BootModule) × (r.1 ≡ found m)
    × (m.start ≡ start)
    × (m.end ≡ start + size)
    × (m.size ≡ size)

module _ (ram : Region) (address start end : ℕ) (p : ℕ → ℕ) (c : Console) (bytes : IsBytes ram)
    (small : AreBytes p) (tag : ModulePage p start end) (some_address : 0 < address)
    (room : address + 0x1000 ≤ ram.size) (low : address < u32_mod) (ordered : start < end) where
  abbrev seen : Region
  seen = with_page ram address (record { byte = p; size = 0x1000 })

  seen-field : (a k : ℕ) → a + k + 4 ≤ 0x1000 → field seen (address + a) k ≡ le32 p (a + k)
  seen-field = with_page-field ram (record { byte = p; size = 0x1000 }) address refl

  seen_byte : (i j : ℕ) → 8 + i ≡ j → j < 0x1000 → seen.byte (address + 8 + i) ≡ p j
  seen_byte i j e inside =
      let at : address + 8 + i ≡ address + j = omega arith in
      rw at (with_page-byte ram (record { byte = p; size = 0x1000 }) address refl j inside)

  seen-Spells :
      (i j : ℕ) (cs : List ℕ)
      → 8 + i ≡ j
      → j + length cs < 0x1000
      → Spells p j cs
      → Spells (λ k. seen.byte (address + 8 + k)) i cs
  seen-Spells i j [] e inside spelt = tt
  seen-Spells i j (x ∷ cs) e inside (one, rest) = (
    seen_byte i j e (omega arith) ∙ one,
    seen-Spells (i + 1) (j + 1) cs (omega arith) (omega arith) rest,
  )

  tag-IsRootfsTag : (size : ℕ) → 30 ≤ size → IsRootfsTag (λ i. seen.byte (address + 8 + i)) size
  tag-IsRootfsTag size big = record {
    fits = big;
    type = seen-field 8 0 (omega arith) ∙ tag.type;
    size = seen-field 8 4 (omega arith) ∙ tag.size;
    ordered =
        omega
          (arith, seen-field 8 8 (omega arith), seen-field 8 12 (omega arith), tag.first, tag.last);
    cmdline = seen-Spells 16 24 module_command refl (omega arith) tag.command;
    terminated = seen_byte 29 37 refl (omega arith) ∙ tag.terminated;
  }

  seen_total : (field seen address 0 ≡ 48) ⊎ (field seen address 0 ≡ 88)
  seen_total =
      let here : address + 0 ≡ address = omega arith in
      rw (← here) (ground (arith, seen-field 0 0 (omega arith), tag.total))

  first-Finds :
      (c' : Console) (l : Lookup)
      → StopsAt seen (address + field seen address 0) (address + 8) l
      → Finds start (end - start) (c', l)
  first-Finds c' (found m) (inside, t, first, last, size) =
      let starts = seen-field 8 8 (omega arith) in
      let ends = seen-field 8 12 (omega arith) in
      (
        m,
        refl,
        omega (arith, starts, tag.first),
        omega (arith, ends, tag.last),
        omega (arith, starts, ends, tag.first, tag.last),
      )
  first-Finds c' missing (inl over) = absurd (ground (arith, seen_total))
  first-Finds c' missing (inr last) = absurd (omega (arith, seen-field 8 0 (omega arith), tag.type))
  first-Finds c' malformed (header, bad) =
      absurd (ground (arith, seen_total, seen-field 8 4 (omega arith), tag.size))

  stops-Finds :
      (at : ℕ) (r : Console × Lookup)
      → Leads seen (address + field seen address 0) (address + 8) at
      → StopsAt seen (address + field seen address 0) at r.1
      → Finds start (end - start) r
  stops-Finds at (c', l) here stops = first-Finds c' l stops
  stops-Finds at (c', l) (skip skipped more) stops = absurd (
      skipped.other (
        tag-IsRootfsTag (field seen (address + 8) 4)
          (omega (arith, seen-field 8 4 (omega arith), tag.size))))

  outcome-Finds :
      (r : Run (Console × Lookup))
      → Returns r (FindOutcome seen (address + field seen address 0) (address + 8))
      → Returns r (Finds start (end - start))
  outcome-Finds (done r) (at, leads, stops) = stops-Finds at r leads stops
  outcome-Finds fault out = out

  find_rootfs-Finds : Returns (find_rootfs seen address c) (Finds start (end - start))
  find_rootfs-Finds = outcome-Finds (find_rootfs seen address c) (
      find_rootfs-FindOutcome seen address c
        (with_page-IsBytes ram (record { byte = p; size = 0x1000 }) address refl bytes small)
        some_address (omega arith) (ground (arith, seen_total)) (ground (arith, seen_total))
        (ground (arith, seen_total)))

-- With a page below 4 GiB that is not at the address 0, a memory that holds it, and a root file system
-- of at least one byte whose addresses, cut to 32 bits, do not wrap: The loader builds the
-- boot information without leaving its page, with or without a frame buffer, and the kernel's search in
-- it ends and finds the module with its address, its end and its size.
pub build_info-Finds :
    (ram : Region) (address : ℕ) (f : ℕ → ℕ) (graphics : Option GraphicsMode) (rootfs size : ℕ)
    (c : Console)
    → IsBytes ram
    → IsBytes (record { byte = f; size = 0x1000 })
    → 0 < address
    → address < u32_mod
    → address + 0x1000 ≤ ram.size
    → 0 < size
    → rootfs % u32_mod + size < u32_mod
    → Returns
        (build_info (some (address, record { byte = f; size = 0x1000 })) graphics rootfs size
          >>= find_in ram c)
        (Finds (rootfs % u32_mod) size)
build_info-Finds ram address f graphics rootfs size c bytes page some_address low room some_byte
      fits =
    let start = rootfs % u32_mod in
    let end = add32 start (size % u32_mod) in
    let ends : end ≡ start + size = omega arith in
    let sized : end - start ≡ size = omega arith in
    let blank_bytes : AreBytes (blank f) = blank-AreBytes {f = f} (record { small = page }) in
    rw (build_info_lem address f graphics rootfs size) (
      subst
        (λ n.
          Returns
            (find_in ram c (
              some
                (address, record { byte = info_page (blank f) graphics start end; size = 0x1000 })))
            (Finds start n))
        sized
        (find_rootfs-Finds ram address start end (info_page (blank f) graphics start end) c bytes
          (info_page-AreBytes (blank f) graphics start end blank_bytes)
          (info_page-ModulePage f graphics start end (omega arith) (omega arith)) some_address room
          low (omega arith)))
