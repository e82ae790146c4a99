-- ===== src/Packages/Effects.antt =====
-- What services/mantle.c relies on of the file system, and the files that a transaction is about.
use mantle_os.Base.{
  ℕ, ◌≡◌, ◌≢◌, refl, ◌⊎◌, inl, inr, Bool, true, false, ◌&&◌, Option, none, some, List, [], ◌∷◌,
  arith, Bool-cases,
}
use mantle_os.Rootfs.Format.{same}
use mantle_os.Packages.{Files, safe_rel, target_of, backup_of}
use mantle_os.Packages.Critical.{same-eq}
use mantle_os.Packages.Paths.{components, walk}

abbrev pub is_some : Option (List ℕ) → Bool
is_some none = false
is_some (some text) = true

pub is_some-none : (o : Option (List ℕ)) → is_some o ≡ false → o ≡ none
is_some-none none e = refl
is_some-none (some text) e = absurd (ground arith)

-- The paths lead to different places, from the root of the file system.
abbrev pub Elsewhere : List ℕ → List ℕ → Type 0
Elsewhere p q = walk (components [] p) [] ≢ walk (components [] q) []

-- What is documented of the calls, where there are no links: `contents` is what a path holds, `none`
-- if there is nothing, and `plain` tells that no directory is there. A copy of a file onto what is no
-- directory, or an unlink, that succeeds changes the file that it names, and none
-- changes what is elsewhere.
pub record IsFiles {F : Type 0} (files : Files F) (contents : F → List ℕ → Option (List ℕ))
    (plain : F → List ℕ → Bool) : Type 0 where
  pub there : (f : F) (p : List ℕ) → files.is_there f p ≡ is_some (contents f p)
  pub copied :
      (f : F) (p q : List ℕ)
      → plain f p ≡ true
      → plain f q ≡ true
      → (files.copy f p q).1 ≡ true
      → contents (files.copy f p q).0 q ≡ contents f p
  pub copy_keeps :
      (f : F) (p q r : List ℕ)
      → plain f p ≡ true
      → plain f q ≡ true
      → Elsewhere r q
      → contents (files.copy f p q).0 r ≡ contents f r
  pub copy_plain :
      (f : F) (p q r : List ℕ)
      → plain f p ≡ true
      → plain f q ≡ true
      → plain (files.copy f p q).0 r ≡ plain f r
  pub unlinked :
      (f : F) (p : List ℕ) → (files.unlink f p).1 ≡ true → contents (files.unlink f p).0 p ≡ none
  pub unlink_keeps :
      (f : F) (p r : List ℕ) → Elsewhere r p → contents (files.unlink f p).0 r ≡ contents f r
  pub unlink_plain : (f : F) (p r : List ℕ) → plain (files.unlink f p).0 r ≡ plain f r

-- The path is one of the list, and safe.
abbrev pub IsListed : List ℕ → List (List ℕ) → Type 0
IsListed rel [] = ⊥
IsListed rel (r ∷ rs) = ((rel ≡ r) × (safe_rel (some rel) false ≡ true)) ⊎ IsListed rel rs

same_refl : (a : List ℕ) → same a a ≡ true
same_refl [] = refl
same_refl (c ∷ a) = ground (arith, same_refl a)

pub IsListed-cases :
    (rel : List ℕ) (rels : List (List ℕ)) → IsListed rel rels ⊎ (IsListed rel rels → ⊥)
IsListed-cases rel [] = inr (λ t. t)
IsListed-cases rel (r ∷ rs) = elim (IsListed-cases rel rs) [
  | inl later ↦ inl (inr later)
  | inr never ↦ elim (Bool-cases (same rel r && safe_rel (some rel) false)) [
    | inl here ↦ inl (inl (same-eq rel r (ground arith), ground arith))
    | inr other ↦
        inr (elim [ inl (e, safe) ↦ ground (arith, same_refl r) | inr later ↦ never later ])
  ]
]

-- No directory stands where the path leads or where its backup belongs.
abbrev pub IsPlain : (List ℕ → Bool) → List ℕ → List ℕ → Type 0
IsPlain plain tx rel = (plain (backup_of tx rel) ≡ true) × (plain (target_of rel) ≡ true)

-- The backups of the safe paths hold what was there before the transaction, if anything, and no
-- directory is involved.
abbrev pub IsBackedUp :
    (List ℕ → Option (List ℕ))
    → (List ℕ → Bool)
    → List ℕ
    → (List ℕ → Option (List ℕ))
    → List (List ℕ)
    → Type 0
IsBackedUp contents plain tx before rels =
    (rel : List ℕ)
    → IsListed rel rels
    → (contents (backup_of tx rel) ≡ before (target_of rel)) × IsPlain plain tx rel

-- No backup lies where a path of the transaction leads.
abbrev pub AreApart : List ℕ → List (List ℕ) → Type 0
AreApart tx rels =
    (rel rel' : List ℕ)
    → IsListed rel rels
    → IsListed rel' rels
    → Elsewhere (backup_of tx rel) (target_of rel')

-- Different paths of the transaction lead to different places.
abbrev pub AreDistinct : List (List ℕ) → Type 0
AreDistinct rels =
    (rel rel' : List ℕ)
    → IsListed rel rels
    → IsListed rel' rels
    → (rel ≡ rel') ⊎ Elsewhere (target_of rel) (target_of rel')

-- Every path is as before the transaction, and all that is elsewhere as it was.
pub record Restored (before was is : List ℕ → Option (List ℕ)) (rels : List (List ℕ)) : Type 0 where
  pub targets : (rel : List ℕ) → IsListed rel rels → is (target_of rel) ≡ before (target_of rel)
  pub others :
      (p : List ℕ)
      → ((rel : List ℕ) → IsListed rel rels → Elsewhere p (target_of rel))
      → is p ≡ was p
