-- ===== src/CommandLine/Words.antt =====
-- The loop over a word of shell/mantle-shell.c, and the token it yields.
use mantle_os.Base.{
  ℕ, zero, suc, ◌+◌, ◌≤◌, ◌<◌, ◌≡◌, refl, true, false, not, ◌&&◌, ◌||◌, Option, List, [], ◌∷◌,
  length, ltb, ◌==◌, inl, inr, Bool-cases, arith,
}
use mantle_os.Memory.{◌>>=◌, Returns, Returns-bind, Returns-weaken}
use mantle_os.Packages.{is_space}
use mantle_os.CommandLine.{
  max_word, TokenKind, t_word, t_pipe, t_in, t_out, t_append, t_semi, t_end, Token, is_operator,
  read_part, read_plain, end_raw, read_word, skip_blanks, expanded, angle, token_at, next,
}
use mantle_os.CommandLine.Quoting.{expand-plain}
use mantle_os.CommandLine.Reading.{
  IsPlain, Reads, ReadsTo, Reads-refl, Reads-after, read_quoted-Reads, Reads-skip_byte, Reads-add,
  Reads-add_raw,
}

-- A round has taken the byte `c` and perhaps more.
abbrev pub PartOf : ℕ → List ℕ → List ℕ → List ℕ × List ℕ → Type 0
PartOf c raw cs p = Reads raw (c ∷ cs) (p.0) (p.1) × (length (p.1) ≤ length cs)

module _ (c : ℕ) (raw : List ℕ) (plain : IsPlain raw) (small : length raw < 4096) where
  read_plain-PartOf :
      (cs : List ℕ) → IsPlain (c ∷ cs) → Returns (read_plain c raw cs) (PartOf c raw cs)
  unfolding read_plain
  read_plain-PartOf [] plain' = (Reads-add_raw raw c [] plain plain', omega arith)
  read_plain-PartOf (d ∷ cs) plain' = elim (Bool-cases (c == b'\\')) [
    | inl escape ↦
        let room : ltb (length raw) max_word ≡ true = ground arith in
        rw (escape, room)
          (
            Reads-after raw (c ∷ d ∷ cs) raw (d ∷ cs) _ _ (omega arith) (omega arith)
                (Reads-add raw d cs plain (ground arith)),
            omega arith,
          )
    | inr other ↦ rw other (Reads-add_raw raw c (d ∷ cs) plain plain', omega arith)
  ]

  read_part-PartOf :
      (cs : List ℕ) → IsPlain (c ∷ cs) → Returns (read_part c raw cs) (PartOf c raw cs)
  unfolding read_part
  read_part-PartOf cs plain' =
      let inside = Reads-skip_byte c raw cs _ _ (read_quoted-Reads c raw cs plain (ground arith)) in
      elim (Bool-cases ((c == b'"') || (c == b'\''))) [
        | inl quote ↦
            rw quote (
              Reads-after raw (c ∷ cs) raw cs _ _ (omega arith) (omega arith) inside,
              inside.shorter,
            )
        | inr other ↦ rw other (read_plain-PartOf cs plain')
      ]

-- Both hold no `$`, and the word would fit if it were all that is left.
abbrev pub IsShort : List ℕ → List ℕ → Type 0
IsShort raw cs = IsPlain raw × IsPlain cs × (length raw + length cs < 4096)

read_rest-PartOf :
    (fuel c : ℕ) (raw cs : List ℕ)
    → ((raw' cs' : List ℕ)
        → IsShort raw' cs'
        → length cs' ≤ fuel
        → Returns (read_word fuel raw' cs') (ReadsTo raw' cs'))
    → IsShort raw (c ∷ cs)
    → length cs ≤ fuel
    → Returns (read_part c raw cs >>= λ part. read_word fuel (part.0) (part.1)) (PartOf c raw cs)
read_rest-PartOf fuel c raw cs later (plain, plain', small) enough =
    Returns-bind (read_part c raw cs) _ (PartOf c raw cs) (PartOf c raw cs)
      (read_part-PartOf c raw plain (omega arith) cs plain')
      λ part (reads, less).
        Returns-weaken (read_word fuel (part.0) (part.1)) (ReadsTo (part.0) (part.1))
          (PartOf c raw cs)
          (later (part.0) (part.1) (reads.plain_raw, reads.plain_rest, omega (arith, reads.total))
            (omega arith))
          (λ p reads'. (
            Reads-after raw (c ∷ cs) (part.0) (part.1) _ _ reads.total reads.shorter reads',
            omega (arith, reads'.shorter),
          ))

end_raw-ReadsTo : (raw cs : List ℕ) → IsShort raw cs → Returns (end_raw raw cs) (ReadsTo raw cs)
end_raw-ReadsTo raw cs (plain, plain', small) =
    let room : ltb (length raw) max_word ≡ true = ground arith in
    rw room (Reads-refl raw cs plain plain')

read_word-ReadsTo :
    (fuel : ℕ) (raw cs : List ℕ)
    → IsShort raw cs
    → length cs ≤ fuel
    → Returns (read_word fuel raw cs) (ReadsTo raw cs)
unfolding read_word
read_word-ReadsTo fuel raw [] is_short enough = end_raw-ReadsTo raw [] is_short
read_word-ReadsTo zero raw (c ∷ cs) is_short enough = absurd (omega arith)
read_word-ReadsTo (suc fuel) raw (c ∷ cs) is_short enough =
    elim (Bool-cases (is_space c || is_operator c)) [
      | inl ends ↦ rw ends (end_raw-ReadsTo raw (c ∷ cs) is_short)
      | inr goes ↦ rw goes (
          Returns-weaken (read_part c raw cs >>= λ part. read_word fuel (part.0) (part.1))
            (PartOf c raw cs) (ReadsTo raw (c ∷ cs))
            (read_rest-PartOf fuel c raw cs (read_word-ReadsTo fuel) is_short (omega arith))
            (λ p part. part.0))
    ]

read_word-PartOf :
    (fuel c : ℕ) (raw cs : List ℕ)
    → IsShort raw (c ∷ cs)
    → length cs ≤ fuel
    → (is_space c || is_operator c) ≡ false
    → Returns (read_word (suc fuel) raw (c ∷ cs)) (PartOf c raw cs)
unfolding read_word
read_word-PartOf fuel c raw cs is_short enough goes =
    rw goes (read_rest-PartOf fuel c raw cs (read_word-ReadsTo fuel) is_short enough)

-- Behind a token, less of the line is left, unless it is the end.
abbrev pub Moves : TokenKind → List ℕ → List ℕ → Type 0
Moves t_end cs rest = length rest ≤ length cs
Moves t_word cs rest = length rest < length cs
Moves t_pipe cs rest = length rest < length cs
Moves t_in cs rest = length rest < length cs
Moves t_out cs rest = length rest < length cs
Moves t_append cs rest = length rest < length cs
Moves t_semi cs rest = length rest < length cs

abbrev pub TokenOf : List ℕ → Token × List ℕ → Type 0
TokenOf cs p = Moves (p.0).kind cs (p.1) × IsPlain (p.1)

angle-TokenOf :
    (old : List ℕ) (c : ℕ) (cs : List ℕ) → IsPlain (c ∷ cs) → TokenOf (c ∷ cs) (angle old cs)
angle-TokenOf old c [] plain = (omega arith, refl)
angle-TokenOf old c (d ∷ ds) plain = elim (Bool-cases (d == b'>')) [
  | inl more ↦ rw more (omega arith, ground arith)
  | inr other ↦ rw other (omega arith, ground arith)
]

Moves-longer :
    (kind : TokenKind) (c : ℕ) (cs rest : List ℕ) → Moves kind cs rest → Moves kind (c ∷ cs) rest
Moves-longer t_end c cs rest moves = omega arith
Moves-longer t_word c cs rest moves = omega arith
Moves-longer t_pipe c cs rest moves = omega arith
Moves-longer t_in c cs rest moves = omega arith
Moves-longer t_out c cs rest moves = omega arith
Moves-longer t_append c cs rest moves = omega arith
Moves-longer t_semi c cs rest moves = omega arith

module _ (environment : List ℕ → Option (List ℕ)) (last_status : ℕ) where
  expanded-TokenOf :
      (c : ℕ) (cs : List ℕ) (p : List ℕ × List ℕ)
      → length cs < 4095
      → PartOf c [] cs p
      → Returns (expanded environment last_status p) (TokenOf (c ∷ cs))
  expanded-TokenOf c cs (raw, rest) small (reads, less) =
      rw
        (expand-plain environment last_status (length raw) raw [] reads.plain_raw (omega arith)
          (omega (arith, reads.total)))
        (omega arith, reads.plain_rest)

  word-TokenOf :
      (c : ℕ) (cs : List ℕ)
      → IsPlain (c ∷ cs)
      → length cs < 4095
      → (is_space c || is_operator c) ≡ false
      → Returns
          (read_word (suc (length cs)) [] (c ∷ cs) >>= expanded environment last_status)
          (TokenOf (c ∷ cs))
  word-TokenOf c cs plain small goes =
      Returns-bind (read_word (suc (length cs)) [] (c ∷ cs)) (expanded environment last_status)
        (PartOf c [] cs) (TokenOf (c ∷ cs))
        (read_word-PartOf (length cs) c [] cs (refl, plain, omega arith) (omega arith) goes)
        (λ p part. expanded-TokenOf c cs p small part)

  token_at-TokenOf :
      (old : List ℕ) (c : ℕ) (cs : List ℕ)
      → IsPlain (c ∷ cs)
      → length cs < 4095
      → (is_space c && not (c == b'\n')) ≡ false
      → Returns (token_at environment last_status old (c ∷ cs)) (TokenOf (c ∷ cs))
  token_at-TokenOf old c cs plain small no_blank = elim (Bool-cases (c == b'\n')) [
    | inl line_end ↦ rw line_end (omega arith, plain)
    | inr e1 ↦ rw e1 (elim (Bool-cases (c == b'|')) [
      | inl pipe ↦ rw pipe (omega arith, ground arith)
      | inr e2 ↦ rw e2 (elim (Bool-cases (c == b';')) [
        | inl semi ↦ rw semi (omega arith, ground arith)
        | inr e3 ↦ rw e3 (elim (Bool-cases (c == b'<')) [
          | inl less ↦ rw less (omega arith, ground arith)
          | inr e4 ↦ rw e4 (elim (Bool-cases (c == b'>')) [
            | inl more ↦ rw more (angle-TokenOf old c cs plain)
            | inr e5 ↦ rw e5 (word-TokenOf c cs plain small (ground arith))
          ])
        ])
      ])
    ])
  ]

  pub next-TokenOf :
      (old cs : List ℕ)
      → IsPlain cs
      → length cs < 4096
      → Returns (next environment last_status old cs) (TokenOf cs)
  unfolding next skip_blanks
  next-TokenOf old [] plain small = (omega arith, refl)
  next-TokenOf old (c ∷ cs) plain small = elim (Bool-cases (is_space c && not (c == b'\n'))) [
    | inl blank ↦ rw blank (
        Returns-weaken (next environment last_status old cs) (TokenOf cs) (TokenOf (c ∷ cs))
          (next-TokenOf old cs (ground arith) (omega arith))
          (λ p token. (Moves-longer (p.0).kind c cs (p.1) (token.0), token.1)))
    | inr other ↦ rw other (token_at-TokenOf old c cs plain (omega arith) other)
  ]
