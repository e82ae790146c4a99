-- ===== src/Packages/Paths.antt =====
-- The paths that safe_rel of services/mantle.c accepts.
use mantle_os.Base.{
  ℕ, ◌≡◌, refl, ap, sym, ◌∙◌, Bool, true, false, ◌||◌, some, List, [], ◌∷◌, ◌++◌, inl, inr, length,
  ◌==◌, if◌then◌else◌, arith, Bool-cases, append-append, append-one,
}
use mantle_os.Rootfs.Format.{same}
use mantle_os.Packages.{contains_two, starts_with, safe_rel}

-- The components of a path; `current` is the start of the next one.
abbrev pub components : List ℕ → List ℕ → List (List ℕ)
components current [] = current ∷ []
components current (c ∷ cs) =
    if c == b'/' then current ∷ components [] cs else components (current ++ c ∷ []) cs

abbrev pub dot : List ℕ
dot = b'.' ∷ []

abbrev pub dots : List ℕ
dots = b'.' ∷ b'.' ∷ []

abbrev pub parent : List (List ℕ) → List (List ℕ)
parent [] = []
parent (d ∷ ds) = ds

-- One component: from a directory, given as the names above it, to another.
abbrev pub step_to : List ℕ → List (List ℕ) → List (List ℕ)
step_to name directory =
    if same name dots
    then parent directory
    else if (length name == 0) || same name dot
    then directory
    else name ∷ directory

abbrev pub walk : List (List ℕ) → List (List ℕ) → List (List ℕ)
walk [] directory = directory
walk (name ∷ names) directory = walk names (step_to name directory)

-- The directory or a file below it.
abbrev pub Below : List (List ℕ) → List (List ℕ) → Type 0
Below directory place = (names : List (List ℕ)) × (place ≡ names ++ directory)

contains_two-suffix :
    (xs ys : List ℕ) → contains_two b'.' b'.' (xs ++ ys) ≡ false → contains_two b'.' b'.' ys ≡ false
contains_two-suffix [] ys e = e
contains_two-suffix (x ∷ []) [] e = refl
contains_two-suffix (x ∷ []) (y ∷ ys) e = ground arith
contains_two-suffix (x ∷ z ∷ xs) ys e = contains_two-suffix (z ∷ xs) ys (ground arith)

same-dots :
    (name rest : List ℕ) → contains_two b'.' b'.' (name ++ rest) ≡ false → same name dots ≡ false
same-dots [] rest e = refl
same-dots (a ∷ []) rest e = ground arith
same-dots (a ∷ b ∷ []) rest e = ground arith
same-dots (a ∷ b ∷ c ∷ name) rest e = ground arith

Below-step :
    (name : List ℕ) (directory : List (List ℕ))
    → same name dots ≡ false
    → Below directory (step_to name directory)
Below-step name directory e = rw e (elim (Bool-cases ((length name == 0) || same name dot)) [
  | inl stays ↦ rw stays ([], refl)
  | inr down ↦ rw down (name ∷ [], refl)
])

Below-then : (a b c : List (List ℕ)) → Below a b → Below b c → Below a c
Below-then a b c (xs, e) (ys, e') =
    (ys ++ xs, e' ∙ ap (λ l. ys ++ l) e ∙ sym (append-append ys xs a))

components-Below :
    (path current : List ℕ) (directory : List (List ℕ))
    → contains_two b'.' b'.' (current ++ path) ≡ false
    → Below directory (walk (components current path) directory)
components-Below [] current directory e = Below-step current directory (same-dots current [] e)
components-Below (c ∷ cs) current directory e = elim (Bool-cases (c == b'/')) [
  | inl slash ↦ rw slash (
      Below-then directory (step_to current directory) _
        (Below-step current directory (same-dots current (c ∷ cs) e))
        (components-Below cs [] (step_to current directory) (
          contains_two-suffix (current ++ c ∷ []) cs
            (ap (contains_two b'.' b'.') (append-one current c cs) ∙ e))))
  | inr other ↦ rw other (
      components-Below cs (current ++ c ∷ []) directory
        (ap (contains_two b'.' b'.') (append-one current c cs) ∙ e))
]

-- If safe_rel accepts a path: The path is relative, and wherever it is followed from, component by
-- component, it leads to the directory itself or to a place below it.
pub safe_rel-Below :
    (path : List ℕ) (component_only : Bool) (directory : List (List ℕ))
    → safe_rel (some path) component_only ≡ true
    → (starts_with b'/' path ≡ false) × Below directory (walk (components [] path) directory)
unfolding safe_rel
safe_rel-Below path component_only directory e =
    let relative : starts_with b'/' path ≡ false = ground arith in
    let up : contains_two b'.' b'.' path ≡ false = ground arith in
    (relative, components-Below path [] directory up)
