-- ===== src/CommandLine/Pipelines.antt =====
-- What run_line of shell/mantle-shell.c reads in a written pipeline.
use mantle_os.Base.{
  ℕ, zero, suc, ◌≤◌, ◌<◌, ◌≡◌, refl, ap, ◌∙◌, true, false, Option, some, List, [], ◌∷◌, ◌++◌,
  length, arith, append-one, map,
}
use mantle_os.Memory.{done}
use mantle_os.CommandLine.{
  TokenKind, t_word, t_pipe, t_in, t_out, t_append, t_end, Token, skip_blanks, next,
}
use mantle_os.CommandLine.Commands.{
  Command, is_word, is_redirection, redirected, new_command, read_redirection, read_command,
  parse_commands, parse_line,
}
use mantle_os.CommandLine.Shown.{
  show_word, show_words, Redirection, nowhere, from, to, onto, show_redirection, Written,
  command_of, with_redirection, show_pipeline, IsWord, AreWords, IsFile, IsWritten, AreWritten,
  length-show_words, next-show_word, next-blank, ReadsAs, last, read_words-show_words,
}

module _ (environment : List ℕ → Option (List ℕ)) (last_status : ℕ) where
  -- The token starts neither a word nor a redirection.
  abbrev EndsCommand : (List ℕ → Token) → Type 0
  EndsCommand token =
      (old : List ℕ)
      → (is_word (token old).kind ≡ false) × (is_redirection (token old).kind ≡ false)

  -- The text that the token has behind a command.
  abbrev last_text : List ℕ → List (List ℕ) → Redirection → List ℕ
  last_text first others nowhere = last environment last_status first others
  last_text first others (from file) = file
  last_text first others (to file) = file
  last_text first others (onto file) = file

  read_file :
      (kind : TokenKind) (c : Command) (file tail old : List ℕ) (token : List ℕ → Token)
      (rest : List ℕ)
      → is_redirection kind ≡ true
      → ReadsAs environment last_status tail token rest
      → IsWord file
      → read_redirection environment last_status c
          (record { kind = kind; text = old }, show_word file tail)
        ≡ done (some (redirected kind file c, (token file, rest)))
  unfolding read_redirection
  read_file kind c file tail old token rest e reads good =
      rw
        (
          e,
          next-show_word environment last_status old file tail good,
          next-blank environment last_status file tail,
          reads file,
        )
        refl

  read_redirected :
      (kind : TokenKind) (first : List ℕ) (others : List (List ℕ)) (file line tail : List ℕ)
      (token : List ℕ → Token) (rest : List ℕ)
      → is_redirection kind ≡ true
      → is_word kind ≡ false
      → ReadsAs environment last_status line
          (λ old. record { kind = kind; text = old })
          (show_word file tail)
      → ReadsAs environment last_status tail token rest
      → length others ≤ 126
      → AreWords others
      → IsWord file
      → read_command environment last_status
          (record { kind = t_word; text = first }, b' ' ∷ show_words others line)
        ≡ done (some (redirected kind file (new_command (first ∷ others)), (token file, rest)))
  unfolding read_command
  read_redirected kind first others file line tail token rest e no_word starts reads few fine good =
      rw
        (read_words-show_words environment last_status (suc (suc (length (show_words others line))))
          first others [] line (λ old. record { kind = kind; text = old }) (show_word file tail)
          starts (λ old. no_word) fine (omega arith) (omega (arith, length-show_words others line)))
        (read_file kind (new_command (first ∷ others)) file tail
          (last environment last_status first others) token rest e reads good)

  read_command-parts :
      (first : List ℕ) (others : List (List ℕ)) (r : Redirection) (tail : List ℕ)
      (token : List ℕ → Token) (rest : List ℕ)
      → ReadsAs environment last_status tail token rest
      → EndsCommand token
      → length others ≤ 126
      → AreWords others
      → IsFile r
      → read_command environment last_status (
        record { kind = t_word; text = first },
        b' ' ∷ show_words others (show_redirection r tail),
      )
        ≡ done (
            some (
              with_redirection r (new_command (first ∷ others)),
              (token (last_text first others r), rest),
            ))
  unfolding read_command read_redirection next skip_blanks
  read_command-parts first others nowhere tail token rest reads ends few fine file =
      rw
        (
          read_words-show_words environment last_status
              (suc (suc (length (show_words others tail)))) first others [] tail token rest reads
              (λ old. (ends old).0) fine (omega arith)
              (omega (arith, length-show_words others tail)),
          (ends (last environment last_status first others)).1,
        )
        refl
  read_command-parts first others (from f) tail token rest reads ends few fine file =
      read_redirected t_in first others f (show_redirection (from f) tail) tail token rest refl refl
        (λ old. refl) reads few fine file
  read_command-parts first others (to f) tail token rest reads ends few fine file =
      read_redirected t_out first others f (show_redirection (to f) tail) tail token rest refl refl
        (λ old. refl) reads few fine file
  read_command-parts first others (onto f) tail token rest reads ends few fine file =
      read_redirected t_append first others f (show_redirection (onto f) tail) tail token rest refl
        refl (λ old. refl) reads few fine file

  -- The first token of a pipeline and what follows it.
  abbrev after_first : Written → List Written → List ℕ
  after_first w [] = b' ' ∷ show_words w.others (show_redirection w.redirection [])
  after_first w (v ∷ vs) =
      b' ' ∷ show_words w.others (show_redirection w.redirection (b'|' ∷ show_pipeline v vs))

  next-show_pipeline :
      (old : List ℕ) (w : Written) (ws : List Written)
      → IsWritten w
      → next environment last_status old (show_pipeline w ws)
        ≡ done (record { kind = t_word; text = w.first }, after_first w ws)
  next-show_pipeline old w [] (few, good, fine, file) =
      next-show_word environment last_status old w.first _ good
  next-show_pipeline old w (v ∷ vs) (few, good, fine, file) =
      next-show_word environment last_status old w.first _ good

  parse_commands-written :
      (room : ℕ) (w : Written) (ws : List Written) (commands : List Command)
      → length ws < room
      → IsWritten w
      → AreWritten ws
      → parse_commands environment last_status room commands
          (record { kind = t_word; text = w.first }, after_first w ws)
        ≡ done (some (commands ++ map command_of (w ∷ ws), t_end))
  unfolding parse_commands next skip_blanks
  parse_commands-written zero w ws commands room good all = absurd (omega arith)
  parse_commands-written (suc n) w [] commands room (few, good, fine, file) all =
      rw
        (read_command-parts w.first w.others w.redirection []
          (λ old. record { kind = t_end; text = [] }) [] (λ old. refl) (λ old. (refl, refl)) few
          fine file)
        refl
  parse_commands-written (suc n) w (v ∷ vs) commands room (few, good, fine, file) (good', all) =
      rw
        (
          read_command-parts w.first w.others w.redirection (b'|' ∷ show_pipeline v vs)
              (λ old. record { kind = t_pipe; text = old }) (show_pipeline v vs) (λ old. refl)
              (λ old. (refl, refl)) few fine file,
          next-show_pipeline (last_text w.first w.others w.redirection) v vs good',
        )
        (parse_commands-written n v vs (commands ++ command_of w ∷ []) (omega arith) good' all
          ∙ ap (λ l. done (some (l, t_end)))
              (append-one commands (command_of w) (map command_of (v ∷ vs))))

-- A pipeline of at most 16 commands, of 1 to 127 words each and with at most one redirection, whose
-- words have at most 4094 bytes and no `$`, is written as a line with the words in double quotes: The
-- line is read as these commands, with these words, files and kinds of redirection.
pub parse_line-show_pipeline :
    (environment : List ℕ → Option (List ℕ)) (last_status : ℕ) (w : Written) (ws : List Written)
    → length ws ≤ 15
    → IsWritten w
    → AreWritten ws
    → parse_line environment last_status (show_pipeline w ws)
      ≡ done (some (map command_of (w ∷ ws)))
unfolding parse_line
parse_line-show_pipeline environment last_status w ws few good all =
    rw
      (
        next-show_pipeline environment last_status [] w ws good,
        parse_commands-written environment last_status 16 w ws [] (omega arith) good all,
      )
      refl
