-- ===== src/CommandLine.antt =====
-- shell/mantle-shell.c: the words of a command line. A line is the list of its bytes before the zero.
pub mod Quoting
pub mod Reading
pub mod Words
pub mod Commands
pub mod Parsed
pub mod Shown
pub mod Pipelines
use mantle_os.Base.{
  ℕ, zero, suc, ◌+◌, ◌-◌, ◌≡◌, Bool, true, false, not, ◌&&◌, ◌||◌, Option, none, some, List, [],
  ◌∷◌, ◌++◌, length, take, leb, ltb, ◌==◌, if◌then◌else◌,
}
use mantle_os.Memory.{Run, done, fault, ◌>>=◌}
use mantle_os.Rootfs.Format.{same}
use mantle_os.Packages.{is_space}

abbrev pub max_word : ℕ
max_word = 4096

pub data TokenKind : Type 0 where
  t_word t_pipe t_in t_out t_append t_semi t_end : TokenKind

pub record Token : Type 0 where
  pub kind : TokenKind
  pub text : List ℕ

-- strchr("|;<>", c), of a byte that is not zero.
abbrev pub is_operator : ℕ → Bool
is_operator c = (c == b'|') || (c == b';') || (c == b'<') || (c == b'>')

abbrev pub is_alnum : ℕ → Bool
is_alnum c = (leb b'a' c && leb c b'z') || (leb b'A' c && leb c b'Z') || (leb b'0' c && leb c b'9')

unfoldable pub skip_blanks : List ℕ → List ℕ
skip_blanks [] = []
skip_blanks (c ∷ cs) = if is_space c && not (c == b'\n') then skip_blanks cs else c ∷ cs

-- The loop inside quotes: what `raw` holds then, and the rest of the line from where it stops.
unfoldable pub read_quoted : ℕ → List ℕ → List ℕ → List ℕ × List ℕ
read_quoted q raw [] = (raw, [])
read_quoted q raw (c ∷ []) =
    if (c == q) || not (ltb (length raw) (max_word - 2)) then (raw, c ∷ []) else (raw ++ c ∷ [], [])
read_quoted q raw (c ∷ d ∷ cs) =
    if (c == q) || not (ltb (length raw) (max_word - 2))
    then (raw, c ∷ d ∷ cs)
    else if c == b'\\'
    then read_quoted q (raw ++ d ∷ []) cs
    else read_quoted q (raw ++ c ∷ []) (d ∷ cs)

abbrev pub skip_byte : ℕ → List ℕ → List ℕ
skip_byte q [] = []
skip_byte q (c ∷ cs) = if c == q then cs else c ∷ cs

-- raw[n++] = c: behind the end of `raw`, a fault.
abbrev pub put_raw : List ℕ → ℕ → Run (List ℕ)
put_raw raw c = if ltb (length raw) max_word then done (raw ++ c ∷ []) else fault

abbrev pub add_raw : List ℕ → ℕ → List ℕ
add_raw raw c = if ltb (length raw) (max_word - 1) then raw ++ c ∷ [] else raw

-- A byte outside quotes.
unfoldable pub read_plain : ℕ → List ℕ → List ℕ → Run (List ℕ × List ℕ)
read_plain c raw [] = done (add_raw raw c, [])
read_plain c raw (d ∷ cs) =
    if c == b'\\' then (put_raw raw d >>= λ raw'. done (raw', cs)) else done (add_raw raw c, d ∷ cs)

-- One round of the loop of `next`, whose byte is `c`.
unfoldable pub read_part : ℕ → List ℕ → List ℕ → Run (List ℕ × List ℕ)
read_part c raw cs =
    if (c == b'"') || (c == b'\'')
    then (let (raw', rest) = read_quoted c raw cs in done (raw', skip_byte c rest))
    else read_plain c raw cs

-- raw[n] = 0.
abbrev pub end_raw : List ℕ → List ℕ → Run (List ℕ × List ℕ)
end_raw raw cs = if ltb (length raw) max_word then done (raw, cs) else fault

-- The loop of `next`; a round takes at least one byte of the line.
unfoldable pub read_word : ℕ → List ℕ → List ℕ → Run (List ℕ × List ℕ)
read_word fuel raw [] = end_raw raw []
read_word zero raw (c ∷ cs) = fault
read_word (suc fuel) raw (c ∷ cs) =
    if is_space c || is_operator c
    then end_raw raw (c ∷ cs)
    else (read_part c raw cs >>= λ part. read_word fuel (part.0) (part.1))

-- The name behind a `$`: what it is, and the rest of the text.
unfoldable pub scan_name : List ℕ → List ℕ × List ℕ
scan_name [] = ([], [])
scan_name (c ∷ cs) =
    let (name, rest) = scan_name cs in
    if is_alnum c || (c == b'_') then (c ∷ name, rest) else ([], c ∷ cs)

-- The name between braces, of at most `n` bytes.
unfoldable pub scan_braced : ℕ → List ℕ → List ℕ × List ℕ
scan_braced zero cs = ([], cs)
scan_braced (suc n) [] = ([], [])
scan_braced (suc n) (c ∷ cs) =
    let (name, rest) = scan_braced n cs in if c == b'}' then ([], c ∷ cs) else (c ∷ name, rest)

-- `name` has 256 bytes, and name[j-s] = 0 is behind the end for a longer name: a fault.
abbrev pub checked_name : List ℕ × List ℕ → Run (List ℕ × List ℕ)
checked_name (name, rest) = if ltb (length name) 256 then done (name, rest) else fault

-- `none` is a `$` that stands for itself.
unfoldable pub read_name : List ℕ → Run (Option (List ℕ × List ℕ))
read_name [] = done none
read_name (c ∷ cs) =
    if c == b'{'
    then (let (name, rest) = scan_braced 255 cs in done (some (name, skip_byte b'}' rest)))
    else if c == b'?'
    then done (some (b'?' ∷ [], cs))
    else read_bare (scan_name (c ∷ cs))
  where
    read_bare : List ℕ × List ℕ → Run (Option (List ℕ × List ℕ))
    read_bare ([], rest) = done none
    read_bare (n ∷ name, rest) = checked_name (n ∷ name, rest) >>= λ found. done (some found)

-- Behind a `>`.
abbrev pub angle : List ℕ → List ℕ → Token × List ℕ
angle old [] = (record { kind = t_out; text = old }, [])
angle old (d ∷ ds) =
    if d == b'>'
    then (record { kind = t_append; text = old }, ds)
    else (record { kind = t_out; text = old }, d ∷ ds)

module _ (environment : List ℕ → Option (List ℕ)) (last_status : ℕ) where
  -- getenv; a variable that is not set is empty.
  unfoldable pub value_of : List ℕ → List ℕ
  value_of name =
      if same name (b'?' ∷ [])
      then (if last_status == 0 then b'0' ∷ [] else b'1' ∷ [])
      else elim (environment name) [ none ↦ [] | some value ↦ value ]

  -- `out` is what is written; a round takes at least one byte of the text.
  unfoldable pub expand : ℕ → List ℕ → List ℕ → Run (List ℕ)
  expand fuel out [] = done out
  expand zero out (c ∷ cs) = fault
  expand (suc fuel) out (c ∷ cs) =
      if not (ltb (length out + 1) max_word)
      then done out
      else if not (c == b'$')
      then expand fuel (out ++ c ∷ []) cs
      else (read_name cs >>= elim [
        | none ↦ expand fuel (out ++ b'$' ∷ []) cs
        | some (name, rest) ↦
            expand fuel (out ++ take (max_word - length out - 1) (value_of name)) rest
      ])

  abbrev pub expanded : List ℕ × List ℕ → Run (Token × List ℕ)
  expanded (raw, rest) =
      expand (length raw) [] raw >>= λ text. done (record { kind = t_word; text = text }, rest)

  abbrev pub token_at : List ℕ → List ℕ → Run (Token × List ℕ)
  token_at old [] = done (record { kind = t_end; text = [] }, [])
  token_at old (c ∷ cs) =
      if c == b'\n'
      then done (record { kind = t_end; text = [] }, c ∷ cs)
      else if c == b'|'
      then done (record { kind = t_pipe; text = old }, cs)
      else if c == b';'
      then done (record { kind = t_semi; text = old }, cs)
      else if c == b'<'
      then done (record { kind = t_in; text = old }, cs)
      else if c == b'>'
      then done (angle old cs)
      else (read_word (suc (length cs)) [] (c ∷ cs) >>= expanded)

  -- The token that follows, after one with the text `old`, and the rest of the line.
  unfoldable pub next : List ℕ → List ℕ → Run (Token × List ℕ)
  next old cs = token_at old (skip_blanks cs)
