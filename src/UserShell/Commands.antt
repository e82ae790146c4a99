-- ===== src/UserShell/Commands.antt =====
-- The command that execute_line of userspace/mantle-shell.c takes from a line.
use mantle_os.Base.{
  ℕ, ◌+◌, ◌≡◌, ◌≢◌, refl, ◌∙◌, inl, inr, ◌||◌, ◌&&◌, List, [], ◌∷◌, length, ◌==◌, if◌then◌else◌,
  arith, Bool-cases,
}
use mantle_os.Memory.{done, Region, read8_lem}
use mantle_os.Rootfs.Format.{same}
use mantle_os.Strings.Compare.{HoldsFrom, streq-same}
use mantle_os.UserShell.{
  Command, change_to, unknown, commands, nth, literal, change_or_unknown, find_command,
}

-- The text without the newlines at its end.
unfoldable pub strip : List ℕ → List ℕ
strip [] = []
strip (c ∷ cs) =
    let rest = strip cs in
    if ((c == b'\n') || (c == b'\r')) && (length rest == 0) then [] else c ∷ rest

-- A change of the directory starts with "cd ".
abbrev pub change_of : List ℕ → Command
change_of (a ∷ b ∷ c ∷ rest) =
    if (a == b'c') && (b == b'd') && (c == b' ') then change_to else unknown
change_of text = unknown

-- The first command of a table whose text is the line's, or a change of the directory.
abbrev pub lookup_command : List (List ℕ × Command) → List ℕ → Command
lookup_command [] text = change_of text
lookup_command ((name, command) ∷ rest) text =
    if same text name then command else lookup_command rest text

-- No zero among the bytes of a text.
abbrev pub NoZero : List ℕ → Type 0
NoZero [] = Unit {0}
NoZero (c ∷ cs) = (c ≢ 0) × NoZero cs

holds_shift :
    (text : List ℕ) (r s : Region) (at : ℕ)
    → ((i : ℕ) → s.byte (i + 1) ≡ r.byte i)
    → s.size ≡ r.size + 1
    → HoldsFrom r at text
    → HoldsFrom s (at + 1) text
holds_shift [] r s at e size (inside, ending) = (omega (arith, size), e at ∙ ending)
holds_shift (c ∷ cs) r s at e size (inside, some_c, first, rest) =
    (omega (arith, size), some_c, e at ∙ first, holds_shift cs r s (at + 1) e size rest)

pub literal-HoldsFrom : (text : List ℕ) → NoZero text → HoldsFrom (literal text) 0 text
literal-HoldsFrom [] nonzero = (omega arith, refl)
literal-HoldsFrom (c ∷ cs) (some_c, rest) = (
  omega arith,
  some_c,
  refl,
  holds_shift cs (literal cs) (literal (c ∷ cs)) 0 (λ i. nth-suc i) (omega arith)
      (literal-HoldsFrom cs rest),
)
  where
    nth-suc : (i : ℕ) → nth (c ∷ cs) (i + 1) ≡ nth cs i
    nth-suc i = ground arith

change_or_unknown-change_of :
    (text : List ℕ) (line : Region)
    → HoldsFrom line 0 text
    → change_or_unknown line ≡ done (change_of text)
unfolding change_or_unknown
change_or_unknown-change_of [] line (inside, ending) = rw (read8_lem line 0 inside, ending) refl
change_or_unknown-change_of (a ∷ []) line (inside, some_a, first, (inside', ending)) =
    rw (read8_lem line 0 inside, first, read8_lem line 1 inside', ending) (ground arith)
change_or_unknown-change_of (a ∷ b ∷ []) line
      (inside, some_a, first, (inside', some_b, second, (inside'', ending))) =
    rw
      (
        read8_lem line 0 inside,
        first,
        read8_lem line 1 inside',
        second,
        read8_lem line 2 inside'',
        ending,
      )
      (ground arith)
change_or_unknown-change_of (a ∷ b ∷ c ∷ text) line
      (inside, some_a, first, (inside', some_b, second, (inside'', some_c, third, rest))) =
    rw
      (
        read8_lem line 0 inside,
        first,
        read8_lem line 1 inside',
        second,
        read8_lem line 2 inside'',
        third,
      )
      (ground arith)

-- The texts of a table have no zero.
abbrev pub NoZeros : List (List ℕ × Command) → Type 0
NoZeros [] = Unit {0}
NoZeros ((name, command) ∷ rest) = NoZero name × NoZeros rest

pub find_command-lookup :
    (table : List (List ℕ × Command)) (text : List ℕ) (line : Region)
    → NoZeros table
    → HoldsFrom line 0 text
    → find_command table line ≡ done (lookup_command table text)
unfolding find_command
find_command-lookup [] text line none_there held = change_or_unknown-change_of text line held
find_command-lookup ((name, command) ∷ rest) text line (nonzero, others) held =
    rw (streq-same text name line (literal name) held (literal-HoldsFrom name nonzero))
      (elim (Bool-cases (same text name)) [
        | inl equal ↦ rw equal refl
        | inr other ↦ rw other (find_command-lookup rest text line others held)
      ])

-- What a line means.
abbrev pub meaning : List ℕ → Command
meaning text = lookup_command commands (strip text)
