-- ===== src/CommandLine/Commands.antt =====
-- run_line of shell/mantle-shell.c up to the commands that it is about to execute.
use mantle_os.Base.{
  ℕ, zero, suc, ◌-◌, ◌&&◌, Bool, true, false, not, Option, none, some, List, [], ◌∷◌, ◌++◌, length,
  ltb, if◌then◌else◌,
}
use mantle_os.Memory.{Run, done, fault, ◌>>=◌}
use mantle_os.CommandLine.{
  TokenKind, t_word, t_pipe, t_in, t_out, t_append, t_semi, t_end, Token, next,
}

pub record Command : Type 0 where
  pub argv : List (List ℕ)
  pub input : Option (List ℕ)
  pub output : Option (List ℕ)
  pub append : Bool

abbrev pub max_tokens : ℕ
max_tokens = 128

abbrev pub is_word : TokenKind → Bool
is_word t_word = true
is_word t_pipe = false
is_word t_in = false
is_word t_out = false
is_word t_append = false
is_word t_semi = false
is_word t_end = false

abbrev pub is_pipe : TokenKind → Bool
is_pipe t_word = false
is_pipe t_pipe = true
is_pipe t_in = false
is_pipe t_out = false
is_pipe t_append = false
is_pipe t_semi = false
is_pipe t_end = false

abbrev pub is_end : TokenKind → Bool
is_end t_word = false
is_end t_pipe = false
is_end t_in = false
is_end t_out = false
is_end t_append = false
is_end t_semi = false
is_end t_end = true

abbrev pub is_redirection : TokenKind → Bool
is_redirection t_word = false
is_redirection t_pipe = false
is_redirection t_in = true
is_redirection t_out = true
is_redirection t_append = true
is_redirection t_semi = false
is_redirection t_end = false

-- A token that must not follow the commands.
abbrev pub is_refused : TokenKind → Bool
is_refused kind = not (is_end kind) && not (is_pipe kind)

abbrev pub add_argument : List (List ℕ) → List ℕ → List (List ℕ)
add_argument argv text = if ltb (length argv) (max_tokens - 1) then argv ++ text ∷ [] else argv

-- What follows a redirection of the kind is the file.
abbrev pub redirected : TokenKind → List ℕ → Command → Command
redirected t_in file c = record c { input = some file }
redirected t_append file c = record c { output = some file; append = true }
redirected t_word file c = record c { output = some file; append = false }
redirected t_pipe file c = record c { output = some file; append = false }
redirected t_out file c = record c { output = some file; append = false }
redirected t_semi file c = record c { output = some file; append = false }
redirected t_end file c = record c { output = some file; append = false }

abbrev pub new_command : List (List ℕ) → Command
new_command argv = record { argv = argv; input = none; output = none; append = false }

module _ (environment : List ℕ → Option (List ℕ)) (last_status : ℕ) where
  abbrev pub next_token : Token × List ℕ → Run (Token × List ℕ)
  next_token (token, rest) = next environment last_status token.text rest

  -- The loop over the words of a command; each takes at least one byte of the line.
  unfoldable pub read_words :
      ℕ → List (List ℕ) → Token × List ℕ → Run (List (List ℕ) × (Token × List ℕ))
  read_words zero argv p = if is_word (p.0).kind then fault else done (argv, p)
  read_words (suc fuel) argv p =
      if is_word (p.0).kind
      then (next_token p >>= read_words fuel (add_argument argv (p.0).text))
      else done (argv, p)

  abbrev pub redirection_file :
      TokenKind → Command → Token × List ℕ → Run (Option (Command × (Token × List ℕ)))
  redirection_file kind c p =
      if not (is_word (p.0).kind)
      then done none
      else (next_token p >>= λ q. done (some (redirected kind (p.0).text c, q)))

  -- `none` is a syntax error.
  unfoldable pub read_redirection :
      Command → Token × List ℕ → Run (Option (Command × (Token × List ℕ)))
  read_redirection c p =
      if is_redirection (p.0).kind
      then (next_token p >>= redirection_file (p.0).kind c)
      else done (some (c, p))

  -- The words and the redirection of one command.
  unfoldable pub read_command : Token × List ℕ → Run (Option (Command × (Token × List ℕ)))
  read_command p = read_words (suc (length (p.1))) [] p >>= λ words.
      read_redirection (new_command (words.0)) (words.1)

  -- Behind one command: a pipe and the next command, or the end of the loop.
  abbrev pub after_command :
      List Command
      → (List Command → Token × List ℕ → Run (Option (List Command × TokenKind)))
      → Option (Command × (Token × List ℕ))
      → Run (Option (List Command × TokenKind))
  after_command commands go_on none = done none
  after_command commands go_on (some (c, q)) =
      if is_pipe (q.0).kind
      then (next_token q >>= λ r.
          if is_end (r.0).kind then done none else go_on (commands ++ c ∷ []) r)
      else done (some (commands ++ c ∷ [], (q.0).kind))

  -- The loop over the commands, with room for that many more. `none` is a syntax error.
  unfoldable pub parse_commands :
      ℕ → List Command → Token × List ℕ → Run (Option (List Command × TokenKind))
  parse_commands zero commands p = done (some (commands, (p.0).kind))
  parse_commands (suc room) commands p =
      if is_end (p.0).kind
      then done (some (commands, (p.0).kind))
      else (read_command p >>= after_command commands (parse_commands room))

  abbrev pub accepted : Option (List Command × TokenKind) → Option (List Command)
  accepted none = none
  accepted (some (commands, kind)) = if is_refused kind then none else some commands

  unfoldable pub parse_line : List ℕ → Run (Option (List Command))
  parse_line line = next environment last_status [] line >>= λ p.
      parse_commands 16 [] p >>= λ parsed. done (accepted parsed)
