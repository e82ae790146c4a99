-- ===== src/Packages/Critical.antt =====
-- The test for critical paths of services/mantle.c, and paths that lead to the same file.
use mantle_os.Base.{
  ℕ, ◌≡◌, refl, sym, subst, Bool, true, false, ◌||◌, some, List, [], ◌∷◌, inl, inr, ◌==◌, arith,
  Bool-cases,
}
use mantle_os.Rootfs.Format.{same}
use mantle_os.Packages.{
  allowed, all_allowed, safe_rel, critical_path, path_passwd, path_shadow, path_group,
  path_mantle_init, path_mantle_supervise, path_mantle_shell, path_mantle,
}
use mantle_os.Packages.Paths.{components, walk}

pub same-eq : (a b : List ℕ) → same a b ≡ true → a ≡ b
same-eq [] [] e = refl
same-eq [] (c ∷ b) e = absurd (ground arith)
same-eq (c ∷ a) [] e = absurd (ground arith)
same-eq (c ∷ a) (d ∷ b) e = elim (Bool-cases (c == d)) [
  | inl equal ↦
      let head : c ≡ d = ground arith in
      let tail : same a b ≡ true = ground arith in ground (arith, same-eq a b tail)
  | inr other ↦ absurd (ground arith)
]

-- "./" and the path.
abbrev pub dotted : List ℕ → List ℕ
dotted path = b'.' ∷ b'/' ∷ path

-- A path that is accepted, is not critical, and leads where the other leads.
abbrev pub Evades : List ℕ → Type 0
Evades path =
    (safe_rel (some (dotted path)) false ≡ true)
    × (critical_path (dotted path) ≡ false)
    × ((directory : List (List ℕ))
        → walk (components [] (dotted path)) directory ≡ walk (components [] path) directory)

abbrev Unnoticed : List ℕ → Type 0
Unnoticed path =
    (safe_rel (some (dotted path)) false ≡ true) × (critical_path (dotted path) ≡ false)

abbrev AllUnnoticed : List (List ℕ) → Type 0
AllUnnoticed [] = Unit {0}
AllUnnoticed (path ∷ paths) = Unnoticed path × AllUnnoticed paths

abbrev any_same : List ℕ → List (List ℕ) → Bool
any_same path [] = false
any_same path (p ∷ ps) = same path p || any_same path ps

any_same-Unnoticed :
    (path : List ℕ) (paths : List (List ℕ))
    → any_same path paths ≡ true
    → AllUnnoticed paths
    → Unnoticed path
any_same-Unnoticed path [] e all = absurd (ground arith)
any_same-Unnoticed path (p ∷ ps) e (first, rest) = elim (Bool-cases (same path p)) [
  | inl equal ↦ subst Unnoticed (sym (same-eq path p equal)) first
  | inr other ↦ any_same-Unnoticed path ps (ground arith) rest
]

abbrev critical_paths : List (List ℕ)
critical_paths =
    path_passwd ∷ path_shadow ∷ path_group ∷ path_mantle_init ∷ path_mantle_supervise
    ∷ path_mantle_shell ∷ path_mantle ∷ []

critical_paths-AllUnnoticed : AllUnnoticed critical_paths
unfolding safe_rel critical_path all_allowed allowed
critical_paths-AllUnnoticed = (
  (refl, refl),
  (
    (refl, refl),
    ((refl, refl), ((refl, refl), ((refl, refl), ((refl, refl), ((refl, refl), tt))))),
  ),
)

critical-any_same :
    (path : List ℕ) → critical_path path ≡ true → any_same path critical_paths ≡ true
unfolding critical_path
critical-any_same path e = ground arith

-- For every critical path: The same path behind "./" is accepted by safe_rel and is not a critical one, but
-- leads to the same file, wherever it is followed from.
pub critical_path-Evades : (path : List ℕ) → critical_path path ≡ true → Evades path
critical_path-Evades path e =
    let unnoticed =
      any_same-Unnoticed path critical_paths (critical-any_same path e)
        critical_paths-AllUnnoticed in
    (unnoticed.0, unnoticed.1, λ directory. refl)
