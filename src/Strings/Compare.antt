-- ===== src/Strings/Compare.antt =====
-- The string functions of userspace/libc/mantle-string.c on memory that holds strings.
use mantle_os.Base.{
  ℕ, zero, suc, ◌+◌, ◌≤◌, ◌<◌, ◌≡◌, ◌≢◌, refl, ap, ◌∙◌, inl, inr, true, false, List, [], ◌∷◌, ◌==◌,
  length, arith, Bool-cases,
}
use mantle_os.Memory.{done, Region, read8_lem}
use mantle_os.Rootfs.Format.{same}
use mantle_os.Strings.{strlen_from, strlen, streq_from, streq}

-- The memory holds the string from the byte `at` on, with its zero.
abbrev pub HoldsFrom : Region → ℕ → List ℕ → Type 0
HoldsFrom r at [] = (at < r.size) × (r.byte at ≡ 0)
HoldsFrom r at (c ∷ cs) = (at < r.size) × (c ≢ 0) × (r.byte at ≡ c) × HoldsFrom r (at + 1) cs

strlen_from-length :
    (text : List ℕ) (r : Region) (fuel at : ℕ)
    → HoldsFrom r at text
    → r.size ≤ at + fuel
    → strlen_from fuel r at ≡ done (at + length text)
unfolding strlen_from
strlen_from-length [] r zero at (inside, ending) enough = absurd (omega arith)
strlen_from-length [] r (suc fuel) at (inside, ending) enough =
    let test : (r.byte at == 0) ≡ true = ground (arith, ending) in
    rw (read8_lem r at inside, test) (ap done (omega arith))
strlen_from-length (c ∷ text) r zero at (inside, some_c, first, rest) enough = absurd (omega arith)
strlen_from-length (c ∷ text) r (suc fuel) at (inside, some_c, first, rest) enough =
    let test : (r.byte at == 0) ≡ false = ground (arith, first) in
    let sum : at + 1 + length text ≡ at + suc (length text) = omega arith in
    rw (read8_lem r at inside, test)
      (strlen_from-length text r fuel (at + 1) rest (omega arith) ∙ ap done sum)

streq_from-same :
    (left right : List ℕ) (r s : Region) (fuel at : ℕ)
    → HoldsFrom r at left
    → HoldsFrom s at right
    → r.size ≤ at + fuel
    → streq_from fuel r s at ≡ done (same left right)
unfolding streq_from
streq_from-same [] right r s zero at (inside, ending) held enough = absurd (omega arith)
streq_from-same (c ∷ left) right r s zero at (inside, some_c, first, rest) held enough =
    absurd (omega arith)
streq_from-same [] [] r s (suc fuel) at (inside, ending) (inside', ending') enough =
    rw (read8_lem r at inside, read8_lem s at inside', ending, ending') refl
streq_from-same [] (d ∷ right) r s (suc fuel) at (inside, ending) (inside', some_d, first', rest')
      enough =
    let test : (0 == d) ≡ false = ground arith in
    rw (read8_lem r at inside, read8_lem s at inside', ending, first', test) refl
streq_from-same (c ∷ left) [] r s (suc fuel) at (inside, some_c, first, rest) (inside', ending')
      enough =
    let test : (c == 0) ≡ false = ground arith in
    rw (read8_lem r at inside, read8_lem s at inside', first, ending', test) refl
streq_from-same (c ∷ left) (d ∷ right) r s (suc fuel) at (inside, some_c, first, rest)
      (inside', some_d, first', rest') enough =
    let test : (c == 0) ≡ false = ground arith in
    rw
      (
        read8_lem r at inside,
        read8_lem s at inside',
        first,
        first',
        test,
        streq_from-same left right r s fuel (at + 1) rest rest' (omega arith),
      )
      (elim (Bool-cases (c == d)) [ inl equal ↦ rw equal refl | inr other ↦ rw other refl ])

-- On memory that holds a string with its zero, the length function reads no further than that zero
-- and returns the number of the bytes before it.
pub strlen-length :
    (text : List ℕ) (r : Region) → HoldsFrom r 0 text → strlen r ≡ done (length text)
unfolding strlen
strlen-length text r held =
    strlen_from-length text r r.size 0 held (omega arith) ∙ ap done (omega arith)

-- On two memories that hold strings with their zeros, the comparison reads no further than the
-- zeros and tells whether the strings are the same.
pub streq-same :
    (left right : List ℕ) (r s : Region)
    → HoldsFrom r 0 left
    → HoldsFrom s 0 right
    → streq r s ≡ done (same left right)
unfolding streq
streq-same left right r s held held' =
    streq_from-same left right r s r.size 0 held held' (omega arith)
