-- ===== src/CommandLine/Reading.antt =====
-- The reading of tokens by shell/mantle-shell.c: what is left of the line, and the buffers.
use mantle_os.Base.{
  ℕ, ◌+◌, ◌-◌, ◌≤◌, ◌≡◌, refl, false, not, ◌&&◌, ◌||◌, List, [], ◌∷◌, ◌++◌, length, ltb, ◌==◌, inl,
  inr, Bool-cases, arith, length-append,
}
use mantle_os.Packages.{is_space, contains}
use mantle_os.CommandLine.{max_word, read_quoted, add_raw, skip_byte, skip_blanks}

-- No `$` is in the text.
abbrev pub IsPlain : List ℕ → Type 0
IsPlain text = contains b'$' text ≡ false

-- From `raw` and the rest `cs` of the line, the code has come to `raw'` and `cs'`.
pub record Reads (raw cs raw' cs' : List ℕ) : Type 0 where
  pub total : length raw' + length cs' ≤ length raw + length cs
  pub shorter : length cs' ≤ length cs
  pub plain_raw : IsPlain raw'
  pub plain_rest : IsPlain cs'

IsPlain-add : (raw : List ℕ) (c : ℕ) → IsPlain raw → (b'$' == c) ≡ false → IsPlain (raw ++ c ∷ [])
IsPlain-add [] c plain e = rw e refl
IsPlain-add (r ∷ raw) c plain e = ground (arith, IsPlain-add raw c (ground arith) e)

pub IsPlain-skip_blanks : (cs : List ℕ) → IsPlain cs → IsPlain (skip_blanks cs)
unfolding skip_blanks
IsPlain-skip_blanks [] plain = plain
IsPlain-skip_blanks (c ∷ cs) plain = elim (Bool-cases (is_space c && not (c == b'\n'))) [
  | inl blank ↦ rw blank (IsPlain-skip_blanks cs (ground arith))
  | inr other ↦ rw other plain
]

pub length-skip_blanks : (cs : List ℕ) → length (skip_blanks cs) ≤ length cs
unfolding skip_blanks
length-skip_blanks [] = omega arith
length-skip_blanks (c ∷ cs) = elim (Bool-cases (is_space c && not (c == b'\n'))) [
  | inl blank ↦ rw blank (omega (arith, length-skip_blanks cs))
  | inr other ↦ rw other (omega arith)
]

pub Reads-refl : (raw cs : List ℕ) → IsPlain raw → IsPlain cs → Reads raw cs raw cs
Reads-refl raw cs plain plain' = record {
  total = omega arith;
  shorter = omega arith;
  plain_raw = plain;
  plain_rest = plain';
}

pub Reads-after :
    (raw cs raw1 cs1 raw' cs' : List ℕ)
    → length raw1 + length cs1 ≤ length raw + length cs
    → length cs1 ≤ length cs
    → Reads raw1 cs1 raw' cs'
    → Reads raw cs raw' cs'
Reads-after raw cs raw1 cs1 raw' cs' total shorter reads = record {
  total = omega (arith, reads.total);
  shorter = omega (arith, reads.shorter);
  plain_raw = reads.plain_raw;
  plain_rest = reads.plain_rest;
}

pub read_quoted-Reads :
    (q : ℕ) (raw cs : List ℕ)
    → IsPlain raw
    → IsPlain cs
    → Reads raw cs (read_quoted q raw cs).0 (read_quoted q raw cs).1
unfolding read_quoted
read_quoted-Reads q raw [] plain plain' = Reads-refl raw [] plain plain'
read_quoted-Reads q raw (c ∷ []) plain plain' =
    elim (Bool-cases ((c == q) || not (ltb (length raw) (max_word - 2)))) [
      | inl stops ↦ rw stops (Reads-refl raw (c ∷ []) plain plain')
      | inr goes ↦ rw goes (
          Reads-after raw (c ∷ []) (raw ++ c ∷ []) [] _ _
            (omega (arith, length-append raw (c ∷ []))) (omega arith)
            (Reads-refl (raw ++ c ∷ []) [] (IsPlain-add raw c plain (ground arith)) refl))
    ]
read_quoted-Reads q raw (c ∷ d ∷ cs) plain plain' =
    elim (Bool-cases ((c == q) || not (ltb (length raw) (max_word - 2)))) [
      | inl stops ↦ rw stops (Reads-refl raw (c ∷ d ∷ cs) plain plain')
      | inr goes ↦ rw goes (elim (Bool-cases (c == b'\\')) [
        | inl escape ↦ rw escape (
            Reads-after raw (c ∷ d ∷ cs) (raw ++ d ∷ []) cs _ _
              (omega (arith, length-append raw (d ∷ []))) (omega arith)
              (read_quoted-Reads q (raw ++ d ∷ []) cs (IsPlain-add raw d plain (ground arith))
                (ground arith)))
        | inr other ↦ rw other (
            Reads-after raw (c ∷ d ∷ cs) (raw ++ c ∷ []) (d ∷ cs) _ _
              (omega (arith, length-append raw (c ∷ []))) (omega arith)
              (read_quoted-Reads q (raw ++ c ∷ []) (d ∷ cs) (IsPlain-add raw c plain (ground arith))
                (ground arith)))
      ])
    ]

-- What a run from `raw` and `cs` comes to, if it returns.
abbrev pub ReadsTo : List ℕ → List ℕ → List ℕ × List ℕ → Type 0
ReadsTo raw cs p = Reads raw cs (p.0) (p.1)

pub Reads-skip_byte :
    (q : ℕ) (raw cs raw' cs' : List ℕ) → Reads raw cs raw' cs' → Reads raw cs raw' (skip_byte q cs')
Reads-skip_byte q raw cs raw' [] reads = reads
Reads-skip_byte q raw cs raw' (c ∷ cs') reads = elim (Bool-cases (c == q)) [
  | inl quote ↦ rw quote (record {
    total = omega (arith, reads.total);
    shorter = omega (arith, reads.shorter);
    plain_raw = reads.plain_raw;
    plain_rest = ground (arith, reads.plain_rest);
  })
  | inr other ↦ rw other reads
]

pub Reads-add :
    (raw : List ℕ) (c : ℕ) (cs : List ℕ)
    → IsPlain raw
    → IsPlain (c ∷ cs)
    → Reads raw (c ∷ cs) (raw ++ c ∷ []) cs
Reads-add raw c cs plain plain' = record {
  total = omega (arith, length-append raw (c ∷ []));
  shorter = omega arith;
  plain_raw = IsPlain-add raw c plain (ground arith);
  plain_rest = ground arith;
}

pub Reads-add_raw :
    (raw : List ℕ) (c : ℕ) (cs : List ℕ)
    → IsPlain raw
    → IsPlain (c ∷ cs)
    → Reads raw (c ∷ cs) (add_raw raw c) cs
Reads-add_raw raw c cs plain plain' = elim (Bool-cases (ltb (length raw) (max_word - 1))) [
  | inl room ↦ rw room (Reads-add raw c cs plain plain')
  | inr full ↦ rw full (record {
    total = omega arith;
    shorter = omega arith;
    plain_raw = plain;
    plain_rest = ground arith;
  })
]
