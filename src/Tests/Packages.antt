-- ===== src/Tests/Packages.antt =====
-- services/mantle.c on a small file system.
use mantle_os.Base.{
  ℕ, zero, suc, ◌++◌, ◌≡◌, refl, ap, ◌∙◌, ◌⊎◌, ◌+◌, sym, true, false, Option, none, some, List, [],
  ◌∷◌, if◌then◌else◌, arith, inl, inr, Bool-cases,
}
use mantle_os.Rootfs.Format.{same}
use mantle_os.Packages.{
  Files, allowed, all_allowed, safe_rel, critical_path, path_passwd, manifest_path, scan_word,
  skip_space, all_xdigits, without_prefix, starts_with, target_of, backup_of, rollback_one,
  rollback_files, rollback_tx, extension, from_last, payload,
}
use mantle_os.Packages.Paths.{components, walk, Below, safe_rel-Below}
use mantle_os.Packages.Critical.{Evades, critical_path-Evades, same-eq}
use mantle_os.Packages.Effects.{
  is_some, Elsewhere, IsFiles, IsListed, IsBackedUp, AreApart, AreDistinct, Restored,
}
use mantle_os.Packages.Rollback.{rollback_tx-Restored}

abbrev Disk : Type 0
Disk = List ℕ → Option (List ℕ)

abbrev put : Disk → List ℕ → Option (List ℕ) → Disk
put f p text q = if same q p then text else f q

abbrev on_disk : Files Disk
on_disk = record {
  is_there = λ f p. is_some (f p);
  copy = λ f p q. (put f q (f p), is_some (f p));
  unlink = λ f p. (put f p none, true);
}

same_self : (a : List ℕ) → same a a ≡ true
same_self [] = refl
same_self (c ∷ a) = ground (arith, same_self a)

put-keeps :
    (f : Disk) (p : List ℕ) (text : Option (List ℕ)) (r : List ℕ)
    → Elsewhere r p
    → put f p text r ≡ f r
put-keeps f p text r elsewhere = elim (Bool-cases (same r p)) [
  | inl equal ↦ absurd (elsewhere (ap (λ x. walk (components [] x) []) (same-eq r p equal)))
  | inr apart ↦ rw apart refl
]

on_disk-IsFiles : IsFiles on_disk (λ f p. f p) (λ f p. true)
on_disk-IsFiles = record {
  there = λ f p. refl;
  copied = λ f p q from to e. rw (same_self q) refl;
  copy_plain = λ f p q r from to. refl;
  copy_keeps = λ f p q r from to other. put-keeps f q (f p) r other;
  unlinked = λ f p e. rw (same_self p) refl;
  unlink_plain = λ f p r. refl;
  unlink_keeps = λ f p r other. put-keeps f p none r other;
}

-- "a" was there before the transaction "/t", "b" was not.
abbrev rels : List (List ℕ)
rels = (b'a' ∷ []) ∷ (b'b' ∷ []) ∷ []

abbrev tx : List ℕ
tx = b'/' ∷ b't' ∷ []

abbrev before : Disk
before = put (λ p. none) (target_of (b'a' ∷ [])) (some (b'1' ∷ []))

abbrev changed : Disk
changed =
    put
      (put (put (λ p. none) (backup_of tx (b'a' ∷ [])) (some (b'1' ∷ []))) (target_of (b'a' ∷ []))
        (some (b'2' ∷ [])))
      (target_of (b'b' ∷ [])) (some (b'3' ∷ []))

abbrev first_name : List (List ℕ) → List ℕ
first_name [] = []
first_name (name ∷ names) = name

rels-cases : (rel : List ℕ) → IsListed rel rels → (rel ≡ b'a' ∷ []) ⊎ (rel ≡ b'b' ∷ [])
rels-cases rel (inl (e, safe)) = inl e
rels-cases rel (inr (inl (e, safe))) = inr e
rels-cases rel (inr (inr never)) = elim never [ ]

a-b : Elsewhere (target_of (b'a' ∷ [])) (target_of (b'b' ∷ []))
a-b e = ground (arith, ap first_name e)

b-a : Elsewhere (target_of (b'b' ∷ [])) (target_of (b'a' ∷ []))
b-a e = a-b (sym e)

rels-distinct : AreDistinct rels
rels-distinct rel rel' listed listed' = elim (rels-cases rel listed) [
  | inl e ↦ elim (rels-cases rel' listed') [
    | inl e' ↦ inl (e ∙ sym e')
    | inr e' ↦ inr (rw (e, e') a-b)
  ]
  | inr e ↦ elim (rels-cases rel' listed') [
    | inl e' ↦ inr (rw (e, e') b-a)
    | inr e' ↦ inl (e ∙ sym e')
  ]
]

abbrev depth : List (List ℕ) → ℕ
depth [] = 0
depth (name ∷ names) = 1 + depth names

rels-apart : AreApart tx rels
rels-apart rel rel' listed listed' = elim (rels-cases rel listed) [
  | inl e ↦ elim (rels-cases rel' listed') [
    | inl e' ↦ rw (e, e') (λ equal. ground (arith, ap depth equal))
    | inr e' ↦ rw (e, e') (λ equal. ground (arith, ap depth equal))
  ]
  | inr e ↦ elim (rels-cases rel' listed') [
    | inl e' ↦ rw (e, e') (λ equal. ground (arith, ap depth equal))
    | inr e' ↦ rw (e, e') (λ equal. ground (arith, ap depth equal))
  ]
]

rels-saved : IsBackedUp changed (λ p. true) tx before rels
rels-saved rel listed = elim (rels-cases rel listed) [
  | inl e ↦ rw e (refl, (refl, refl))
  | inr e ↦ rw e (refl, (refl, refl))
]

rolls_back : (rollback_tx on_disk tx (some rels) changed).1 ≡ 0
unfolding rollback_tx rollback_files rollback_one safe_rel all_allowed allowed
rolls_back = refl

rollback_tx-Restored_example :
    Restored before changed (rollback_tx on_disk tx (some rels) changed).0 rels
rollback_tx-Restored_example =
    rollback_tx-Restored on_disk (λ f p. f p) (λ f p. true) tx before rels changed on_disk-IsFiles
      rels-apart rels-distinct rels-saved rolls_back

passwd_is_critical : critical_path path_passwd ≡ true
unfolding critical_path
passwd_is_critical = refl

critical_path-Evades_example : Evades path_passwd
critical_path-Evades_example = critical_path-Evades path_passwd passwd_is_critical

abbrev tool : List ℕ
tool = b'u' ∷ b's' ∷ b'r' ∷ b'/' ∷ b't' ∷ []

tool_is_safe : safe_rel (some tool) false ≡ true
unfolding safe_rel all_allowed allowed
tool_is_safe = refl

safe_rel-Below_example : ((starts_with b'/' tool) ≡ false) × Below [] (walk (components [] tool) [])
safe_rel-Below_example = safe_rel-Below tool false [] tool_is_safe

abbrev hash_of : ℕ → List ℕ → List ℕ
hash_of zero rest = rest
hash_of (suc n) rest = b'a' ∷ hash_of n rest

abbrev line_of : ℕ → List ℕ → List ℕ
line_of n path = hash_of n (b' ' ∷ b' ' ∷ payload ++ path)

good_line : manifest_path (line_of 64 tool) ≡ some tool
unfolding manifest_path scan_word skip_space all_xdigits without_prefix safe_rel all_allowed allowed
good_line = refl

short_hash : manifest_path (line_of 63 tool) ≡ none
unfolding manifest_path scan_word skip_space all_xdigits without_prefix safe_rel all_allowed allowed
short_hash = refl

path_up : manifest_path (line_of 64 (b'.' ∷ b'.' ∷ b'/' ∷ tool)) ≡ none
unfolding manifest_path scan_word skip_space all_xdigits without_prefix safe_rel all_allowed allowed
path_up = refl

mt_extension : extension (b'a' ∷ b'.' ∷ b'm' ∷ b't' ∷ []) (b'.' ∷ b'm' ∷ b't' ∷ []) ≡ true
unfolding extension from_last
mt_extension = refl
