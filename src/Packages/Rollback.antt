-- ===== src/Packages/Rollback.antt =====
-- The rollback of a transaction of services/mantle.c.
use mantle_os.Base.{
  ℕ, ◌≡◌, refl, sym, subst, ◌∙◌, inl, inr, Bool, true, false, ◌&&◌, Option, none, some, List, [],
  ◌∷◌, arith, Bool-cases,
}
use mantle_os.Packages.{
  Files, safe_rel, target_of, backup_of, rollback_one, rollback_files, rollback_tx,
}
use mantle_os.Packages.Effects.{
  is_some-none, Elsewhere, IsFiles, IsListed, IsListed-cases, IsPlain, IsBackedUp, AreApart,
  AreDistinct, Restored,
}

module _ {F : Type 0} (files : Files F) (contents : F → List ℕ → Option (List ℕ))
    (plain : F → List ℕ → Bool) (good : IsFiles files contents plain) (tx : List ℕ)
    (before : List ℕ → Option (List ℕ)) where
  abbrev unlinked_target : List ℕ → F → F
  unlinked_target rel f = (files.unlink f (target_of rel)).0

  IsPlain-unlinked :
      (rel : List ℕ) (f : F)
      → IsPlain (plain f) tx rel
      → IsPlain (plain (unlinked_target rel f)) tx rel
  IsPlain-unlinked rel f (backup, target) = (
    good.unlink_plain f (target_of rel) (backup_of tx rel) ∙ backup,
    good.unlink_plain f (target_of rel) (target_of rel) ∙ target,
  )

  -- What one path of the transaction comes to.
  rollback_one-Restored :
      (rel : List ℕ) (f : F)
      → IsPlain (plain f) tx rel
      → Elsewhere (backup_of tx rel) (target_of rel)
      → contents f (backup_of tx rel) ≡ before (target_of rel)
      → (rollback_one files tx rel f).1 ≡ true
      → contents (rollback_one files tx rel f).0 (target_of rel) ≡ before (target_of rel)
  unfolding rollback_one
  rollback_one-Restored rel f is_plain apart saved ok =
      let f1 = unlinked_target rel f in
      elim (Bool-cases (files.is_there f (backup_of tx rel))) [
        | inl there ↦
            let copied : (files.copy f1 (backup_of tx rel) (target_of rel)).1 ≡ true =
              rw there at ok in
            let plain1 = IsPlain-unlinked rel f is_plain in
            rw there (
              good.copied f1 (backup_of tx rel) (target_of rel) (plain1.0) (plain1.1) copied
              ∙ good.unlink_keeps f (target_of rel) (backup_of tx rel) apart
              ∙ saved)
        | inr missing ↦
            let unlinked : (files.unlink f (target_of rel)).1 ≡ true = rw missing at ok in
            let nothing : contents f (backup_of tx rel) ≡ none =
              is_some-none (contents f (backup_of tx rel))
                (sym (good.there f (backup_of tx rel)) ∙ missing) in
            rw missing (good.unlinked f (target_of rel) unlinked ∙ sym nothing ∙ saved)
      ]

  rollback_one-keeps :
      (rel : List ℕ) (f : F) (p : List ℕ)
      → IsPlain (plain f) tx rel
      → Elsewhere p (target_of rel)
      → contents (rollback_one files tx rel f).0 p ≡ contents f p
  unfolding rollback_one
  rollback_one-keeps rel f p is_plain other =
      let plain1 = IsPlain-unlinked rel f is_plain in
      elim (Bool-cases (files.is_there f (backup_of tx rel))) [
        | inl there ↦ rw there (
            good.copy_keeps (unlinked_target rel f) (backup_of tx rel) (target_of rel) p (plain1.0)
              (plain1.1) other
            ∙ good.unlink_keeps f (target_of rel) p other)
        | inr missing ↦ rw missing (good.unlink_keeps f (target_of rel) p other)
      ]

  rollback_one-plain :
      (rel : List ℕ) (f : F) (p : List ℕ)
      → IsPlain (plain f) tx rel
      → plain (rollback_one files tx rel f).0 p ≡ plain f p
  unfolding rollback_one
  rollback_one-plain rel f p is_plain =
      let plain1 = IsPlain-unlinked rel f is_plain in
      elim (Bool-cases (files.is_there f (backup_of tx rel))) [
        | inl there ↦ rw there (
            good.copy_plain (unlinked_target rel f) (backup_of tx rel) (target_of rel) p (plain1.0)
              (plain1.1)
            ∙ good.unlink_plain f (target_of rel) p)
        | inr missing ↦ rw missing (good.unlink_plain f (target_of rel) p)
      ]

  IsBackedUp-rolled_back :
      (r : List ℕ) (rs : List (List ℕ)) (f : F)
      → safe_rel (some r) false ≡ true
      → AreApart tx (r ∷ rs)
      → IsBackedUp (contents f) (plain f) tx before (r ∷ rs)
      → IsBackedUp
          (contents ((rollback_one files tx r f).0))
          (plain ((rollback_one files tx r f).0))
          tx
          before
          rs
  IsBackedUp-rolled_back r rs f safe apart saved rel listed =
      let is_plain : IsPlain (plain f) tx r = (saved r (inl (refl, safe))).1 in
      let (backed_up, (backup, target)) = saved rel (inr listed) in
      (
        rollback_one-keeps r f (backup_of tx rel) is_plain
              (apart rel r (inr listed) (inl (refl, safe)))
            ∙ backed_up,
        (
          rollback_one-plain r f (backup_of tx rel) is_plain ∙ backup,
          rollback_one-plain r f (target_of rel) is_plain ∙ target,
        ),
      )

  Restored-safe :
      (r : List ℕ) (rs : List (List ℕ)) (f f' : F)
      → safe_rel (some r) false ≡ true
      → AreDistinct (r ∷ rs)
      → contents (rollback_one files tx r f).0 (target_of r) ≡ before (target_of r)
      → IsPlain (plain f) tx r
      → Restored before (contents (rollback_one files tx r f).0) (contents f') rs
      → Restored before (contents f) (contents f') (r ∷ rs)
  Restored-safe r rs f f' safe distinct first is_plain rest = record {
    targets = there;
    others = λ p far.
        rest.others p (λ rel later. far rel (inr later))
        ∙ rollback_one-keeps r f p is_plain (far r (inl (refl, safe)));
  }
    where
      apart_from :
          (IsListed r rs → ⊥)
          → (rel : List ℕ) → IsListed rel rs
          → Elsewhere (target_of r) (target_of rel)
      apart_from never rel later = elim (distinct r rel (inl (refl, safe)) (inr later)) [
        | inl equal ↦ absurd (never (subst (λ x. IsListed x rs) (sym equal) later))
        | inr elsewhere ↦ elsewhere
      ]

      here : contents f' (target_of r) ≡ before (target_of r)
      here = elim (IsListed-cases r rs) [
        | inl later ↦ rest.targets r later
        | inr never ↦ rest.others (target_of r) (apart_from never) ∙ first
      ]

      there :
          (rel : List ℕ)
          → IsListed rel (r ∷ rs)
          → contents f' (target_of rel) ≡ before (target_of rel)
      there rel (inl (e, s)) = rw e here
      there rel (inr later) = rest.targets rel later

  Restored-skipped :
      (r : List ℕ) (rs : List (List ℕ)) (f f' : F)
      → safe_rel (some r) false ≡ false
      → Restored before (contents f) (contents f') rs
      → Restored before (contents f) (contents f') (r ∷ rs)
  Restored-skipped r rs f f' unsafe rest = record {
    targets = later;
    others = λ p far. rest.others p (λ rel t. far rel (inr t));
  }
    where
      later :
          (rel : List ℕ)
          → IsListed rel (r ∷ rs)
          → contents f' (target_of rel) ≡ before (target_of rel)
      later rel (inl (e, safe)) =
          let contrary : safe_rel (some r) false ≡ true = rw e at safe in absurd (ground arith)
      later rel (inr t) = rest.targets rel t

  rollback_files-Restored :
      (rels : List (List ℕ)) (f : F)
      → AreApart tx rels
      → AreDistinct rels
      → IsBackedUp (contents f) (plain f) tx before rels
      → (rollback_files files tx rels f).1 ≡ true
      → Restored before (contents f) (contents (rollback_files files tx rels f).0) rels
  unfolding rollback_files
  rollback_files-Restored [] f apart distinct saved ok = record {
    targets = λ rel listed. absurd listed;
    others = λ p far. refl;
  }
  rollback_files-Restored (r ∷ rs) f apart distinct saved ok =
      let apart' : AreApart tx rs = λ a b l m. apart a b (inr l) (inr m) in
      let distinct' : AreDistinct rs = λ a b l m. distinct a b (inr l) (inr m) in
      elim (Bool-cases (safe_rel (some r) false)) [
        | inr unsafe ↦
            let ok' : (rollback_files files tx rs f).1 ≡ true = ground (arith, (rw unsafe at ok)) in
            rw unsafe (
              Restored-skipped r rs f _ unsafe
                (rollback_files-Restored rs f apart' distinct' (λ a l. saved a (inr l)) ok'))
        | inl safe ↦
            let f1 = (rollback_one files tx r f).0 in
            let both : ((rollback_one files tx r f).1 && (rollback_files files tx rs f1).1) ≡ true =
              rw safe at ok in
            let (backed_up, is_plain) = saved r (inl (refl, safe)) in
            let apart_here = apart r r (inl (refl, safe)) (inl (refl, safe)) in
            rw safe (
              Restored-safe r rs f _ safe distinct
                (rollback_one-Restored r f is_plain apart_here backed_up (ground arith)) is_plain
                (rollback_files-Restored rs f1 apart' distinct'
                  (IsBackedUp-rolled_back r rs f safe apart saved) (ground arith)))
      ]

-- If the backups hold what the safe paths of the transaction led to before it, no directory stands
-- where these paths or backups lead, different paths lead to different places, and none to a backup: A
-- rollback that returns 0 has put all of them back, files that were not there before included, and has
-- changed nothing elsewhere. This relies on the documented effects of access, cp -a and unlink on
-- files that are no links.
pub rollback_tx-Restored :
    {F : Type 0} (files : Files F) (contents : F → List ℕ → Option (List ℕ))
    (plain : F → List ℕ → Bool) (tx : List ℕ) (before : List ℕ → Option (List ℕ))
    (rels : List (List ℕ)) (f : F)
    → IsFiles files contents plain
    → AreApart tx rels
    → AreDistinct rels
    → IsBackedUp (contents f) (plain f) tx before rels
    → (rollback_tx files tx (some rels) f).1 ≡ 0
    → Restored before (contents f) (contents (rollback_tx files tx (some rels) f).0) rels
unfolding rollback_tx
rollback_tx-Restored files contents plain tx before rels f good apart distinct saved ok =
    rollback_files-Restored files contents plain good tx before rels f apart distinct saved
      (ground arith)
