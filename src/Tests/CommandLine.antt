-- ===== src/Tests/CommandLine.antt =====
-- Lines of shell/mantle-shell.c.
use mantle_os.Base.{
  ℕ, zero, suc, ◌≡◌, refl, false, Option, none, some, List, [], ◌∷◌, ◌++◌, length, map, arith,
}
use mantle_os.Memory.{done, fault, Returns}
use mantle_os.CommandLine.{
  next, expand, value_of, read_name, scan_braced, skip_blanks, read_word, read_part, read_plain,
  read_quoted,
}
use mantle_os.CommandLine.Quoting.{escaped, next-overflows}
use mantle_os.CommandLine.Commands.{
  Command, parse_line, parse_commands, read_command, read_words, read_redirection,
}
use mantle_os.CommandLine.Parsed.{IsExecutable, parse_line-IsExecutable}
use mantle_os.CommandLine.Shown.{Written, nowhere, onto, show_pipeline, command_of}
use mantle_os.CommandLine.Pipelines.{parse_line-show_pipeline}

abbrev unset : List ℕ → Option (List ℕ)
unset name = none

-- As many times the letter a.
letters : ℕ → List ℕ
letters zero = []
letters (suc n) = b'a' ∷ letters n

length-letters : (n : ℕ) → length (letters n) ≡ n
unfolding letters
length-letters zero = refl
length-letters (suc n) = omega (arith, length-letters n)

next-overflows_example : next unset 0 [] (escaped (letters 4096) ++ []) ≡ fault
next-overflows_example =
    next-overflows unset 0 [] (letters 4096) [] (omega (arith, length-letters 4096)) tt

-- "ls -l|wc >f"
abbrev line : List ℕ
line = b'l' ∷ b's' ∷ b' ' ∷ b'-' ∷ b'l' ∷ b'|' ∷ b'w' ∷ b'c' ∷ b' ' ∷ b'>' ∷ b'f' ∷ []

abbrev ls : Command
ls = record {
  argv = (b'l' ∷ b's' ∷ []) ∷ (b'-' ∷ b'l' ∷ []) ∷ [];
  input = none;
  output = none;
  append = false;
}

abbrev wc : Command
wc = record {
  argv = (b'w' ∷ b'c' ∷ []) ∷ [];
  input = none;
  output = some (b'f' ∷ []);
  append = false;
}

line_read : parse_line unset 0 line ≡ done (some (ls ∷ wc ∷ []))
unfolding parse_line parse_commands read_command read_words read_redirection next skip_blanks
    read_word read_part read_plain read_quoted expand
line_read = refl

-- "; ls"
semicolon_refused : parse_line unset 0 (b';' ∷ b'l' ∷ b's' ∷ []) ≡ done none
unfolding parse_line parse_commands read_command read_words read_redirection next skip_blanks
semicolon_refused = refl

-- "x$?y" behind a command that has failed.
status_expanded :
    expand unset 1 4 [] (b'x' ∷ b'$' ∷ b'?' ∷ b'y' ∷ []) ≡ done (b'x' ∷ b'1' ∷ b'y' ∷ [])
unfolding expand value_of read_name
status_expanded = refl

-- "${ab}c" where ab is set to z.
braces_expanded :
    expand (λ name. some (b'z' ∷ [])) 0 6 [] (b'$' ∷ b'{' ∷ b'a' ∷ b'b' ∷ b'}' ∷ b'c' ∷ [])
    ≡ done (b'z' ∷ b'c' ∷ [])
unfolding expand value_of read_name scan_braced
braces_expanded = refl

parse_line-IsExecutable_example : Returns (parse_line unset 0 line) IsExecutable
parse_line-IsExecutable_example = parse_line-IsExecutable unset 0 line refl (omega arith)

abbrev echo : Written
echo = record {
  first = b'e' ∷ b'c' ∷ b'h' ∷ b'o' ∷ [];
  others = (b'a' ∷ b' ' ∷ b'"' ∷ []) ∷ [];
  redirection = nowhere;
}

abbrev cat : Written
cat = record { first = b'c' ∷ b'a' ∷ b't' ∷ []; others = []; redirection = onto (b'f' ∷ []) }

parse_line-show_pipeline_example :
    parse_line unset 0 (show_pipeline echo (cat ∷ []))
    ≡ done (some (map command_of (echo ∷ cat ∷ [])))
parse_line-show_pipeline_example =
    parse_line-show_pipeline unset 0 echo (cat ∷ []) (omega arith)
      (omega arith, (omega arith, refl), ((omega arith, refl), tt), tt)
      ((omega arith, (omega arith, refl), tt, (omega arith, refl)), tt)
