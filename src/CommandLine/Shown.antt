-- ===== src/CommandLine/Shown.antt =====
-- Pipelines written as a line for shell/mantle-shell.c.
use mantle_os.Base.{
  ℕ, zero, suc, ◌+◌, ◌≤◌, ◌<◌, ◌≡◌, refl, ap, ◌∙◌, false, Option, List, [], ◌∷◌, ◌++◌, length,
  arith, length-append, append-one,
}
use mantle_os.Memory.{done}
use mantle_os.Packages.{contains}
use mantle_os.CommandLine.{t_word, t_in, t_out, t_append, Token, skip_blanks, next}
use mantle_os.CommandLine.Quoting.{quoted, next-quoted}
use mantle_os.CommandLine.Commands.{
  Command, is_word, add_argument, redirected, new_command, read_words,
}

-- A word in quotes and a blank.
abbrev pub show_word : List ℕ → List ℕ → List ℕ
show_word word tail = b'"' ∷ quoted word ++ b'"' ∷ b' ' ∷ tail

abbrev pub show_words : List (List ℕ) → List ℕ → List ℕ
show_words [] tail = tail
show_words (word ∷ words) tail = show_word word (show_words words tail)

pub data Redirection : Type 0 where
  nowhere : Redirection
  from : List ℕ → Redirection
  to : List ℕ → Redirection
  onto : List ℕ → Redirection

abbrev pub show_redirection : Redirection → List ℕ → List ℕ
show_redirection nowhere tail = tail
show_redirection (from file) tail = b'<' ∷ show_word file tail
show_redirection (to file) tail = b'>' ∷ show_word file tail
show_redirection (onto file) tail = b'>' ∷ b'>' ∷ show_word file tail

-- A command of at least one word.
pub record Written : Type 0 where
  pub first : List ℕ
  pub others : List (List ℕ)
  pub redirection : Redirection

abbrev pub with_redirection : Redirection → Command → Command
with_redirection nowhere c = c
with_redirection (from file) c = redirected t_in file c
with_redirection (to file) c = redirected t_out file c
with_redirection (onto file) c = redirected t_append file c

abbrev pub command_of : Written → Command
command_of w = with_redirection w.redirection (new_command (w.first ∷ w.others))

abbrev pub show_written : Written → List ℕ → List ℕ
show_written w tail = show_words (w.first ∷ w.others) (show_redirection w.redirection tail)

-- A pipeline: its first command and the others.
abbrev pub show_pipeline : Written → List Written → List ℕ
show_pipeline w [] = show_written w []
show_pipeline w (v ∷ vs) = show_written w (b'|' ∷ show_pipeline v vs)

abbrev pub IsWord : List ℕ → Type 0
IsWord word = (length word ≤ 4094) × (contains b'$' word ≡ false)

abbrev pub AreWords : List (List ℕ) → Type 0
AreWords [] = Unit {0}
AreWords (word ∷ words) = IsWord word × AreWords words

abbrev pub IsFile : Redirection → Type 0
IsFile nowhere = Unit {0}
IsFile (from file) = IsWord file
IsFile (to file) = IsWord file
IsFile (onto file) = IsWord file

abbrev pub IsWritten : Written → Type 0
IsWritten w = (length w.others ≤ 126) × IsWord w.first × AreWords w.others × IsFile w.redirection

abbrev pub AreWritten : List Written → Type 0
AreWritten [] = Unit {0}
AreWritten (w ∷ ws) = IsWritten w × AreWritten ws

pub length-show_words :
    (words : List (List ℕ)) (tail : List ℕ) → length words ≤ length (show_words words tail)
length-show_words [] tail = omega arith
length-show_words (word ∷ words) tail = omega (
  arith,
  length-show_words words tail,
  length-append (quoted word) (b'"' ∷ b' ' ∷ show_words words tail),
)

module _ (environment : List ℕ → Option (List ℕ)) (last_status : ℕ) where
  pub next-show_word :
      (old word tail : List ℕ)
      → IsWord word
      → next environment last_status old (show_word word tail)
        ≡ done (record { kind = t_word; text = word }, b' ' ∷ tail)
  next-show_word old word tail (short, plain) =
      next-quoted environment last_status old word (b' ' ∷ tail) short plain refl

  pub next-blank :
      (old cs : List ℕ)
      → next environment last_status old (b' ' ∷ cs) ≡ next environment last_status old cs
  unfolding next skip_blanks
  next-blank old cs = refl

  -- What stands there is read, whatever the token before, as such a token.
  abbrev pub ReadsAs : List ℕ → (List ℕ → Token) → List ℕ → Type 0
  ReadsAs tail token rest =
      (old : List ℕ) → next environment last_status old tail ≡ done (token old, rest)

  read_words-stops :
      (fuel : ℕ) (argv : List (List ℕ)) (p : Token × List ℕ)
      → is_word (p.0).kind ≡ false
      → read_words environment last_status fuel argv p ≡ done (argv, p)
  unfolding read_words
  read_words-stops zero argv p e = rw e refl
  read_words-stops (suc fuel) argv p e = rw e refl

  add_argument-room :
      (argv : List (List ℕ)) (word : List ℕ)
      → length argv < 127
      → add_argument argv word ≡ argv ++ word ∷ []
  add_argument-room argv word room = ground arith

  abbrev pub last : List ℕ → List (List ℕ) → List ℕ
  last word [] = word
  last word (v ∷ words) = last v words

  pub read_words-show_words :
      (fuel : ℕ) (word : List ℕ) (words argv : List (List ℕ)) (tail : List ℕ)
      (token : List ℕ → Token) (rest : List ℕ)
      → ReadsAs tail token rest
      → ((old : List ℕ) → is_word (token old).kind ≡ false)
      → AreWords words
      → length argv + suc (length words) ≤ 127
      → suc (length words) ≤ fuel
      → read_words environment last_status fuel argv
          (record { kind = t_word; text = word }, b' ' ∷ show_words words tail)
        ≡ done (argv ++ word ∷ words, (token (last word words), rest))
  unfolding read_words
  read_words-show_words zero word words argv tail token rest reads no_word fine room enough =
      absurd (omega arith)
  read_words-show_words (suc fuel) word [] argv tail token rest reads no_word fine room enough =
      rw (next-blank word tail, reads word, add_argument-room argv word (omega arith))
        (read_words-stops fuel (argv ++ word ∷ []) (token word, rest) (no_word word))
  read_words-show_words (suc fuel) word (v ∷ words) argv tail token rest reads no_word (good, fine)
        room enough =
      let room' : length (argv ++ word ∷ []) + suc (length words) ≤ 127 =
        omega (arith, length-append argv (word ∷ [])) in
      rw
        (
          next-blank word (show_word v (show_words words tail)),
          next-show_word word v (show_words words tail) good,
          add_argument-room argv word (omega arith),
        )
        (read_words-show_words fuel v words (argv ++ word ∷ []) tail token rest reads no_word fine
            room' (omega arith)
          ∙ ap (λ l. done (l, (token (last v words), rest))) (append-one argv word (v ∷ words)))
