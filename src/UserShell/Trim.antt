-- ===== src/UserShell/Trim.antt =====
-- The loop of execute_line of userspace/mantle-shell.c that ends a line before its newlines.
use mantle_os.Base.{
  ℕ, zero, suc, ◌+◌, ◌<◌, ◌≡◌, refl, ap, sym, subst, ◌∙◌, inl, inr, Bool, true, false, ◌||◌, List,
  [], ◌∷◌, ◌++◌, length, ◌==◌, arith, Bool-cases, length-append,
}
use mantle_os.Memory.{Region, Returns, update, read8_lem, write8_lem}
use mantle_os.Strings.Compare.{HoldsFrom}
use mantle_os.UserShell.{trim}
use mantle_os.UserShell.Commands.{strip}

abbrev is_newline : ℕ → Bool
is_newline c = (c == b'\n') || (c == b'\r')

strip-nothing : strip [] ≡ []
unfolding strip
strip-nothing = refl

strip-snoc_newline : (xs : List ℕ) (c : ℕ) → is_newline c ≡ true → strip (xs ++ c ∷ []) ≡ strip xs
unfolding strip
strip-snoc_newline [] c e = rw e refl
strip-snoc_newline (x ∷ xs) c e = rw (strip-snoc_newline xs c e) refl

strip-snoc_other :
    (xs : List ℕ) (c : ℕ) → is_newline c ≡ false → strip (xs ++ c ∷ []) ≡ xs ++ c ∷ []
unfolding strip
strip-snoc_other [] c e = rw e refl
strip-snoc_other (x ∷ xs) c e =
    let longer : (length (xs ++ c ∷ []) == 0) ≡ false = ground (arith, length-append xs (c ∷ [])) in
    rw (strip-snoc_other xs c e, longer) (ground arith)

-- The last byte of a text.
snoc-cases :
    (text : List ℕ) (n : ℕ)
    → length text ≡ suc n
    → (xs : List ℕ) × (c : ℕ) × (text ≡ xs ++ c ∷ []) × (length xs ≡ n)
snoc-cases [] n e = absurd (omega arith)
snoc-cases (x ∷ []) zero e = ([], x, refl, refl)
snoc-cases (x ∷ []) (suc n) e = absurd (omega arith)
snoc-cases (x ∷ y ∷ text) zero e = absurd (omega arith)
snoc-cases (x ∷ y ∷ text) (suc n) e =
    let (xs, c, split, size) = snoc-cases (y ∷ text) n (omega arith) in
    (x ∷ xs, c, ap (λ l. x ∷ l) split, omega arith)

holds-last :
    (xs : List ℕ) (c at : ℕ) (r : Region)
    → HoldsFrom r at (xs ++ c ∷ [])
    → (at + length xs < r.size) × (r.byte (at + length xs) ≡ c)
holds-last [] c at r (inside, some_c, first, rest) =
    let here : at + 0 ≡ at = omega arith in (omega arith, rw here first)
holds-last (x ∷ xs) c at r (inside, some_x, first, rest) =
    let there : at + suc (length xs) ≡ at + 1 + length xs = omega arith in
    rw there (holds-last xs c (at + 1) r rest)

-- A string without its last byte.
holds-cut :
    (xs : List ℕ) (c at : ℕ) (r : Region) (f : ℕ → ℕ)
    → ((i : ℕ) → i < at + length xs → f i ≡ r.byte i)
    → f (at + length xs) ≡ 0
    → HoldsFrom r at (xs ++ c ∷ [])
    → HoldsFrom (record r { byte = f }) at xs
holds-cut [] c at r f same last (inside, some_c, first, rest) =
    let here : at + 0 ≡ at = omega arith in (inside, ap f (sym here) ∙ last)
holds-cut (x ∷ xs) c at r f same last (inside, some_x, first, rest) =
    let there : at + suc (length xs) ≡ at + 1 + length xs = omega arith in
    (
      inside,
      some_x,
      same at (omega arith) ∙ first,
      holds-cut xs c (at + 1) r f (λ i h. same i (omega arith)) (ap f (sym there) ∙ last) rest,
    )

-- The line holds the text, in as much memory as before.
abbrev pub Stripped : List ℕ → ℕ → Region → Type 0
Stripped text size line = HoldsFrom line 0 text × (line.size ≡ size)

pub trim-Stripped :
    (n : ℕ) (text : List ℕ) (line : Region)
    → length text ≡ n
    → HoldsFrom line 0 text
    → Returns (trim n line) (Stripped (strip text) line.size)
unfolding trim
trim-Stripped zero [] line e held = rw strip-nothing (held, refl)
trim-Stripped zero (c ∷ cs) line e held = absurd (omega arith)
trim-Stripped (suc n) text line e held =
    let (xs, c, split, size) = snoc-cases text n e in
    let whole : HoldsFrom line 0 (xs ++ c ∷ []) = subst (λ t. HoldsFrom line 0 t) split held in
    let end = holds-last xs c 0 line whole in
    let at : 0 + length xs ≡ n = omega arith in
    let inside : n < line.size = subst (λ k. k < line.size) at end.0 in
    let byte : line.byte n ≡ c = subst (λ k. line.byte k ≡ c) at end.1 in
    rw (split, read8_lem line n inside, byte)
      (elim (Bool-cases (is_newline c)) [
        | inr other ↦ rw (other, strip-snoc_other xs c other) (whole, refl)
        | inl newline ↦
            let cut : HoldsFrom (record line { byte = update line.byte n 0 }) 0 xs =
              holds-cut xs c 0 line (update line.byte n 0) (λ i h. ground arith) (ground arith)
                whole in
            rw (newline, strip-snoc_newline xs c newline, write8_lem line n 0 inside)
              (trim-Stripped n xs (record line { byte = update line.byte n 0 }) size cut)
      ])
