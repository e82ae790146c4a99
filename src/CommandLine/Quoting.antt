-- ===== src/CommandLine/Quoting.antt =====
-- Words in quotes on a line of shell/mantle-shell.c.
use mantle_os.Base.{
  ℕ, zero, suc, ◌+◌, ◌≤◌, ◌<◌, ◌≡◌, refl, ap, ◌∙◌, true, false, ◌||◌, Option, List, [], ◌∷◌, ◌++◌,
  length, ltb, ◌==◌, if◌then◌else◌, inl, inr, Bool-cases, arith, append-one, append-nothing,
  length-append,
}
use mantle_os.Memory.{done, fault}
use mantle_os.Packages.{is_space, contains}
use mantle_os.CommandLine.{
  max_word, t_word, is_operator, read_quoted, read_part, read_plain, end_raw, read_word,
  skip_blanks, expand, next,
}

-- A text as it stands between double quotes.
abbrev pub quoted : List ℕ → List ℕ
quoted [] = []
quoted (c ∷ cs) = if (c == b'"') || (c == b'\\') then b'\\' ∷ c ∷ quoted cs else c ∷ quoted cs

-- The line ends there, or goes on with a blank or an operator.
abbrev pub IsDelimited : List ℕ → Type 0
IsDelimited [] = Unit {0}
IsDelimited (c ∷ cs) = (is_space c || is_operator c) ≡ true

read_quoted-plain :
    (raw : List ℕ) (c : ℕ) (s rest : List ℕ)
    → length raw < 4094
    → (c == b'"') ≡ false
    → (c == b'\\') ≡ false
    → read_quoted b'"' raw (c ∷ quoted s ++ b'"' ∷ rest)
      ≡ read_quoted b'"' (raw ++ c ∷ []) (quoted s ++ b'"' ∷ rest)
unfolding read_quoted
read_quoted-plain raw c [] rest room e e' = ground arith
read_quoted-plain raw c (d ∷ s) rest room e e' = elim (Bool-cases ((d == b'"') || (d == b'\\'))) [
  | inl special ↦ rw special (ground arith)
  | inr other ↦ rw other (ground arith)
]

read_quoted-quoted :
    (s raw rest : List ℕ)
    → length raw + length s ≤ 4094
    → read_quoted b'"' raw (quoted s ++ b'"' ∷ rest) ≡ (raw ++ s, b'"' ∷ rest)
unfolding read_quoted
read_quoted-quoted [] raw [] room = rw (append-nothing raw) refl
read_quoted-quoted [] raw (d ∷ rest) room = rw (append-nothing raw) refl
read_quoted-quoted (c ∷ s) raw rest room =
    let more : length (raw ++ c ∷ []) + length s ≤ 4094 =
      omega (arith, length-append raw (c ∷ [])) in
    let later : read_quoted b'"' (raw ++ c ∷ []) (quoted s ++ b'"' ∷ rest)
        ≡ (raw ++ c ∷ s, b'"' ∷ rest) =
      read_quoted-quoted s (raw ++ c ∷ []) rest more
      ∙ ap (λ l. (l, b'"' ∷ rest)) (append-one raw c s) in
    elim (Bool-cases ((c == b'"') || (c == b'\\'))) [
      | inl special ↦ rw special (ground (arith, later))
      | inr other ↦
          rw other
            (read_quoted-plain raw c s rest (omega arith) (ground arith) (ground arith) ∙ later)
    ]

pub expand-plain :
    (environment : List ℕ → Option (List ℕ)) (last_status fuel : ℕ) (s out : List ℕ)
    → contains b'$' s ≡ false
    → length s ≤ fuel
    → length out + length s < 4096
    → expand environment last_status fuel out s ≡ done (out ++ s)
unfolding expand
expand-plain environment last_status fuel [] out plain enough room = rw (append-nothing out) refl
expand-plain environment last_status zero (c ∷ s) out plain enough room = absurd (ground arith)
expand-plain environment last_status (suc fuel) (c ∷ s) out plain enough room =
    let room' : length (out ++ c ∷ []) + length s < 4096 =
      omega (arith, length-append out (c ∷ [])) in
    let later =
      expand-plain environment last_status fuel s (out ++ c ∷ []) (ground arith) (omega arith) room'
      ∙ ap done (append-one out c s) in
    ground (arith, later)

end_raw-fits : (raw rest : List ℕ) → length raw ≤ 4095 → end_raw raw rest ≡ done (raw, rest)
end_raw-fits raw rest room = ground arith

read_word-ends :
    (fuel : ℕ) (raw rest : List ℕ)
    → 1 ≤ fuel
    → IsDelimited rest
    → read_word fuel raw rest ≡ end_raw raw rest
unfolding read_word
read_word-ends fuel raw [] some_fuel ends = refl
read_word-ends zero raw (c ∷ rest) some_fuel ends = absurd (omega arith)
read_word-ends (suc fuel) raw (c ∷ rest) some_fuel ends = rw ends refl

read_word-quoted :
    (fuel : ℕ) (s rest : List ℕ)
    → 2 ≤ fuel
    → length s ≤ 4094
    → IsDelimited rest
    → read_word fuel [] (b'"' ∷ quoted s ++ b'"' ∷ rest) ≡ done (s, rest)
unfolding read_word read_part
read_word-quoted zero s rest some_fuel room ends = absurd (omega arith)
read_word-quoted (suc fuel) s rest some_fuel room ends =
    rw (read_quoted-quoted s [] rest (omega arith))
      (read_word-ends fuel s rest (omega arith) ends ∙ end_raw-fits s rest (omega arith))

-- A text of at most 4094 bytes without a `$`, put between double quotes with a backslash before each double quote
-- and backslash in it, and followed by the end of the line, a blank or an operator: It is read
-- as one word, which is the text, and the rest of the line is what follows it.
pub next-quoted :
    (environment : List ℕ → Option (List ℕ)) (last_status : ℕ) (old s rest : List ℕ)
    → length s ≤ 4094
    → contains b'$' s ≡ false
    → IsDelimited rest
    → next environment last_status old (b'"' ∷ quoted s ++ b'"' ∷ rest)
      ≡ done (record { kind = t_word; text = s }, rest)
unfolding next skip_blanks
next-quoted environment last_status old s rest room plain ends =
    let fuel : 2 ≤ suc (length (quoted s ++ b'"' ∷ rest)) =
      omega (arith, length-append (quoted s) (b'"' ∷ rest)) in
    rw
      (
        read_word-quoted (suc (length (quoted s ++ b'"' ∷ rest))) s rest fuel room ends,
        expand-plain environment last_status (length s) s [] plain (omega arith) (omega arith),
      )
      refl

-- A text with a backslash before each of its bytes.
abbrev pub escaped : List ℕ → List ℕ
escaped [] = []
escaped (c ∷ cs) = b'\\' ∷ c ∷ escaped cs

length-escaped : (s : List ℕ) → length s ≤ length (escaped s)
length-escaped [] = omega arith
length-escaped (c ∷ s) = omega (arith, length-escaped s)

read_word-escaped :
    (s rest raw : List ℕ) (fuel : ℕ)
    → 4096 ≤ length raw + length s
    → length s + 1 ≤ fuel
    → IsDelimited rest
    → read_word fuel raw (escaped s ++ rest) ≡ fault
unfolding read_word read_part read_plain
read_word-escaped [] rest raw fuel full enough ends =
    read_word-ends fuel raw rest (omega arith) ends ∙ ground arith
read_word-escaped (c ∷ s) rest raw zero full enough ends = absurd (omega arith)
read_word-escaped (c ∷ s) rest raw (suc fuel) full enough ends =
    elim (Bool-cases (ltb (length raw) max_word)) [
      | inl room ↦
          let full' : 4096 ≤ length (raw ++ c ∷ []) + length s =
            omega (arith, length-append raw (c ∷ [])) in
          rw room (read_word-escaped s rest (raw ++ c ∷ []) fuel full' (omega arith) ends)
      | inr over ↦ rw over refl
    ]

-- A text of at least 4096 bytes with a backslash before each byte, followed by the end of the line, a blank or an
-- operator, is read past the end of the buffer of 4096 bytes that takes the word.
pub next-overflows :
    (environment : List ℕ → Option (List ℕ)) (last_status : ℕ) (old s rest : List ℕ)
    → 4096 ≤ length s
    → IsDelimited rest
    → next environment last_status old (escaped s ++ rest) ≡ fault
unfolding next skip_blanks
next-overflows environment last_status old [] rest long ends = absurd (ground arith)
next-overflows environment last_status old (c ∷ s) rest long ends =
    let enough : length (c ∷ s) + 1 ≤ suc (length (c ∷ escaped s ++ rest)) =
      omega (arith, length-escaped s, length-append (escaped s) rest) in
    rw
      (read_word-escaped (c ∷ s) rest [] (suc (length (c ∷ escaped s ++ rest))) (omega arith) enough
        ends)
      refl
