-- ===== src/CommandLine/Parsed.antt =====
-- The commands that run_line of shell/mantle-shell.c reads: that the reading ends, and their numbers.
use mantle_os.Base.{
  ℕ, zero, suc, ◌+◌, ◌-◌, ◌≤◌, ◌<◌, ◌≡◌, refl, true, false, Option, none, some, List, [], ◌∷◌, ◌++◌,
  length, ltb, inl, inr, Bool-cases, arith, length-append,
}
use mantle_os.Memory.{Run, Returns, Returns-bind, Returns-weaken}
use mantle_os.CommandLine.{
  TokenKind, t_word, t_pipe, t_in, t_out, t_append, t_semi, t_end, Token, next,
}
use mantle_os.Packages.{contains}
use mantle_os.CommandLine.Reading.{IsPlain}
use mantle_os.CommandLine.Words.{Moves, TokenOf, next-TokenOf}
use mantle_os.CommandLine.Commands.{
  Command, max_tokens, is_word, is_pipe, is_end, is_redirection, is_refused, add_argument,
  redirected, new_command, next_token, read_words, redirection_file, read_redirection, read_command,
  after_command, parse_commands, accepted, parse_line,
}

-- What is left of the line is short and has no `$`.
abbrev pub IsRest : Token × List ℕ → Type 0
IsRest p = (length (p.1) < 4096) × IsPlain (p.1)

abbrev pub AllFit : List Command → Type 0
AllFit [] = Unit {0}
AllFit (c ∷ cs) = (length c.argv ≤ 127) × AllFit cs

AllFit-add :
    (cs : List Command) (c : Command) → AllFit cs → length c.argv ≤ 127 → AllFit (cs ++ c ∷ [])
AllFit-add [] c all fits = (fits, tt)
AllFit-add (d ∷ cs) c (first, all) fits = (first, AllFit-add cs c all fits)

Moves-least : (kind : TokenKind) (cs rest : List ℕ) → Moves kind cs rest → length rest ≤ length cs
Moves-least t_end cs rest moves = moves
Moves-least t_word cs rest moves = omega arith
Moves-least t_pipe cs rest moves = omega arith
Moves-least t_in cs rest moves = omega arith
Moves-least t_out cs rest moves = omega arith
Moves-least t_append cs rest moves = omega arith
Moves-least t_semi cs rest moves = omega arith

Moves-word :
    (kind : TokenKind) (cs rest : List ℕ)
    → is_word kind ≡ true
    → Moves kind cs rest
    → length rest < length cs
Moves-word t_word cs rest e moves = moves
Moves-word t_end cs rest e moves = absurd (ground arith)
Moves-word t_pipe cs rest e moves = absurd (ground arith)
Moves-word t_in cs rest e moves = absurd (ground arith)
Moves-word t_out cs rest e moves = absurd (ground arith)
Moves-word t_append cs rest e moves = absurd (ground arith)
Moves-word t_semi cs rest e moves = absurd (ground arith)

IsRest-TokenOf : (p q : Token × List ℕ) → IsRest p → TokenOf (p.1) q → IsRest q
IsRest-TokenOf p q (short, plain) (moves, plain') =
    (omega (arith, Moves-least (q.0).kind (p.1) (q.1) moves), plain')

add_argument-fits :
    (argv : List (List ℕ)) (text : List ℕ)
    → length argv ≤ 127
    → length (add_argument argv text) ≤ 127
add_argument-fits argv text fits = elim (Bool-cases (ltb (length argv) (max_tokens - 1))) [
  | inl room ↦ rw room (ground (arith, length-append argv (text ∷ [])))
  | inr full ↦ rw full fits
]

-- The words of a command and where they end.
abbrev pub WordsOf : List (List ℕ) × (Token × List ℕ) → Type 0
WordsOf r = (length (r.0) ≤ 127) × IsRest (r.1)

abbrev pub CommandOf : Option (Command × (Token × List ℕ)) → Type 0
CommandOf none = Unit {0}
CommandOf (some (c, p)) = (length c.argv ≤ 127) × IsRest p

redirected-argv :
    (kind : TokenKind) (file : List ℕ) (c : Command) → (redirected kind file c).argv ≡ c.argv
redirected-argv t_in file c = refl
redirected-argv t_word file c = refl
redirected-argv t_end file c = refl
redirected-argv t_pipe file c = refl
redirected-argv t_out file c = refl
redirected-argv t_append file c = refl
redirected-argv t_semi file c = refl

module _ (environment : List ℕ → Option (List ℕ)) (last_status : ℕ) where
  next_token-TokenOf :
      (p : Token × List ℕ)
      → IsRest p
      → Returns (next_token environment last_status p) (λ q. TokenOf (p.1) q × IsRest q)
  next_token-TokenOf p rest =
      Returns-weaken (next_token environment last_status p) (TokenOf (p.1)) _
        (next-TokenOf environment last_status (p.0).text (p.1) (rest.1) (rest.0))
        (λ q token. (token, IsRest-TokenOf p q rest token))

  read_words-WordsOf :
      (fuel : ℕ) (argv : List (List ℕ)) (p : Token × List ℕ)
      → length argv ≤ 127
      → IsRest p
      → (is_word (p.0).kind ≡ true → length (p.1) < fuel)
      → Returns (read_words environment last_status fuel argv p) WordsOf
  unfolding read_words
  read_words-WordsOf zero argv p fits rest enough = elim (Bool-cases (is_word (p.0).kind)) [
    | inl word ↦ absurd (omega (arith, enough word))
    | inr other ↦ rw other (fits, rest)
  ]
  read_words-WordsOf (suc fuel) argv p fits rest enough = elim (Bool-cases (is_word (p.0).kind)) [
    | inl word ↦ rw word (
        Returns-bind (next_token environment last_status p)
          (read_words environment last_status fuel (add_argument argv (p.0).text))
          (λ q. TokenOf (p.1) q × IsRest q) WordsOf (next_token-TokenOf p rest)
          (λ q ((moves, plain), rest').
            read_words-WordsOf fuel (add_argument argv (p.0).text) q
              (add_argument-fits argv (p.0).text fits) rest'
              (λ w. omega (arith, enough word, Moves-word (q.0).kind (p.1) (q.1) w moves))))
    | inr other ↦ rw other (fits, rest)
  ]

  read_redirection-CommandOf :
      (c : Command) (p : Token × List ℕ)
      → length c.argv ≤ 127
      → IsRest p
      → Returns (read_redirection environment last_status c p) CommandOf
  unfolding read_redirection
  read_redirection-CommandOf c p fits rest = elim (Bool-cases (is_redirection (p.0).kind)) [
    | inr fails ↦ rw fails (fits, rest)
    | inl holds ↦ rw holds (
        Returns-bind (next_token environment last_status p)
          (redirection_file environment last_status (p.0).kind c) (λ q. TokenOf (p.1) q × IsRest q)
          CommandOf (next_token-TokenOf p rest) (λ q token. file_ok q (token.1)))
  ]
    where
      file_ok :
          (q : Token × List ℕ)
          → IsRest q
          → Returns (redirection_file environment last_status (p.0).kind c q) CommandOf
      file_ok q rest' = elim (Bool-cases (is_word (q.0).kind)) [
        | inr fails ↦ rw fails tt
        | inl holds ↦ rw holds (
            Returns-bind (next_token environment last_status q) _ (λ r. TokenOf (q.1) r × IsRest r)
              CommandOf (next_token-TokenOf q rest')
              (λ r token. (rw (redirected-argv (p.0).kind (q.0).text c) fits, token.1)))
      ]

  read_command-CommandOf :
      (p : Token × List ℕ) → IsRest p → Returns (read_command environment last_status p) CommandOf
  unfolding read_command
  read_command-CommandOf p rest =
      Returns-bind (read_words environment last_status (suc (length (p.1))) [] p) _ WordsOf
        CommandOf
        (read_words-WordsOf (suc (length (p.1))) [] p (omega arith) rest (λ word. omega arith))
        (λ words good.
          read_redirection-CommandOf (new_command (words.0)) (words.1) (good.0) (good.1))

  -- At most that many commands, with at most 127 words each.
  abbrev pub CommandsOf : Option (List Command × TokenKind) → Type 0
  CommandsOf none = Unit {0}
  CommandsOf (some (commands, kind)) = (length commands ≤ 16) × AllFit commands

  after_command-CommandsOf :
      (room : ℕ) (commands : List Command)
      (go_on : List Command → Token × List ℕ → Run (Option (List Command × TokenKind)))
      (command : Option (Command × (Token × List ℕ)))
      → ((commands' : List Command) (r : Token × List ℕ)
          → length commands' + room ≤ 16
          → AllFit commands'
          → IsRest r
          → Returns (go_on commands' r) CommandsOf)
      → length commands + suc room ≤ 16
      → AllFit commands
      → CommandOf command
      → Returns (after_command environment last_status commands go_on command) CommandsOf
  after_command-CommandsOf room commands go_on none later few all good = tt
  after_command-CommandsOf room commands go_on (some (c, q)) later few all (fits, rest) =
      let few' : length (commands ++ c ∷ []) + room ≤ 16 =
        omega (arith, length-append commands (c ∷ [])) in
      let all' = AllFit-add commands c all fits in
      elim (Bool-cases (is_pipe (q.0).kind)) [
        | inr fails ↦ rw fails (omega arith, all')
        | inl holds ↦ rw holds (
            Returns-bind (next_token environment last_status q) _ (λ r. TokenOf (q.1) r × IsRest r)
              CommandsOf (next_token-TokenOf q rest)
              (λ r (token, rest'). elim (Bool-cases (is_end (r.0).kind)) [
                | inl ends ↦ rw ends tt
                | inr goes ↦ rw goes (later (commands ++ c ∷ []) r few' all' rest')
              ]))
      ]

  parse_commands-CommandsOf :
      (room : ℕ) (commands : List Command) (p : Token × List ℕ)
      → length commands + room ≤ 16
      → AllFit commands
      → IsRest p
      → Returns (parse_commands environment last_status room commands p) CommandsOf
  unfolding parse_commands
  parse_commands-CommandsOf zero commands p few all rest = (omega arith, all)
  parse_commands-CommandsOf (suc room) commands p few all rest =
      elim (Bool-cases (is_end (p.0).kind)) [
        | inl holds ↦ rw holds (omega arith, all)
        | inr fails ↦ rw fails (
            Returns-bind (read_command environment last_status p)
              (after_command environment last_status commands
                (parse_commands environment last_status room))
              CommandOf CommandsOf (read_command-CommandOf p rest)
              (λ command good.
                after_command-CommandsOf room commands (parse_commands environment last_status room)
                  command (parse_commands-CommandsOf room) few all good))
      ]

-- What is executed: at most 16 commands, of at most 127 words each.
abbrev pub IsExecutable : Option (List Command) → Type 0
IsExecutable none = Unit {0}
IsExecutable (some commands) = (length commands ≤ 16) × AllFit commands

accepted-IsExecutable :
    (environment : List ℕ → Option (List ℕ)) (last_status : ℕ)
    (parsed : Option (List Command × TokenKind))
    → CommandsOf environment last_status parsed
    → IsExecutable (accepted environment last_status parsed)
accepted-IsExecutable environment last_status none good = tt
accepted-IsExecutable environment last_status (some (commands, kind)) good =
    elim (Bool-cases (is_refused kind)) [ inl refused ↦ rw refused tt | inr fine ↦ rw fine good ]

-- For a line of fewer than 4096 bytes without a `$`: The reading of its tokens ends and writes no
-- buffer past its end, and it is a syntax error or at most 16 commands of at most 127 words each.
pub parse_line-IsExecutable :
    (environment : List ℕ → Option (List ℕ)) (last_status : ℕ) (line : List ℕ)
    → contains b'$' line ≡ false
    → length line < 4096
    → Returns (parse_line environment last_status line) IsExecutable
unfolding parse_line
parse_line-IsExecutable environment last_status line plain short =
    Returns-bind (next environment last_status [] line) _ (λ q. TokenOf line q × IsRest q)
      IsExecutable
      (next_token-TokenOf environment last_status (record { kind = t_end; text = [] }, line)
        (short, plain))
      (λ p (token, rest).
        Returns-bind (parse_commands environment last_status 16 [] p) _
          (CommandsOf environment last_status) IsExecutable
          (parse_commands-CommandsOf environment last_status 16 [] p (omega arith) tt rest)
          (λ parsed good. accepted-IsExecutable environment last_status parsed good))
