-- ===== src/Tests/UserShell.antt =====
-- userspace/mantle-shell.c on a system that reads from a list of lines and keeps what is written.
use mantle_os.Base.{
  ℕ, ◌≡◌, refl, true, false, Option, none, some, List, [], ◌∷◌, ◌++◌, length, leb, if◌then◌else◌,
  arith, inl, inr, Bool-cases,
}
use mantle_os.Memory.{Returns, Region}
use mantle_os.Rootfs.Format.{bytes_at}
use mantle_os.UserShell.{System, literal, execute_line, shell_main, show_directory}
use mantle_os.UserShell.Commands.{strip, meaning}
use mantle_os.UserShell.Outputs.{IsSystem, IsShort}
use mantle_os.UserShell.Rounds.{Executes, execute_line-Executes, Fits, shell_main-Fits}
use mantle_os.Tests.Bytes.{region}

record Terminal : Type 0 where
  lines : List (List ℕ)
  written : List ℕ

-- A line that is too long is an error.
abbrev answer : ℕ → Terminal → List (List ℕ) → Terminal × Option (List ℕ)
answer n t [] = (t, none)
answer n t (l ∷ ls) = (record t { lines = ls }, if leb (length l) n then some l else none)

abbrev terminal : System Terminal
terminal = record {
  read = λ t n. answer n t t.lines;
  write = λ t text n. record t { written = t.written ++ bytes_at text.byte 0 n };
  exec = λ t path. (t, false);
  chdir = λ t path. (t, true);
  getcwd = λ t n. (t, some (literal (b'/' ∷ [])));
  readdir = λ t path n. (t, none);
  uname = λ t n. (t, some (literal (b'M' ∷ [])));
}

answer-IsShort : (n : ℕ) (t : Terminal) (ls : List (List ℕ)) → IsShort n (answer n t ls).1
answer-IsShort n t [] = tt
answer-IsShort n t (l ∷ ls) = elim (Bool-cases (leb (length l) n)) [
  | inl short ↦ rw short (ground arith)
  | inr long ↦ rw long tt
]

terminal-IsSystem : IsSystem terminal
terminal-IsSystem = record {
  read = λ t n. answer-IsShort n t t.lines;
  getcwd = λ t n. (b'/' ∷ [], omega arith);
  readdir = λ t path n. tt;
  uname = λ t n. (b'M' ∷ [], omega arith);
}

abbrev session : Terminal
session = record { lines = (b'p' ∷ b'w' ∷ b'd' ∷ b'\n' ∷ []) ∷ []; written = [] }

abbrev line : Region
line = record { byte = λ i. 0xff; size = 128 }

-- The newline is not part of the command.
means : meaning (b'p' ∷ b'w' ∷ b'd' ∷ b'\n' ∷ []) ≡ show_directory
unfolding strip
means = refl

execute_line-Executes_example :
    Executes terminal session
      (b'p' ∷ b'w' ∷ b'd' ∷ b'\n' ∷ [])
      (region (b'p' ∷ b'w' ∷ b'd' ∷ b'\n' ∷ 0 ∷ []))
      (execute_line terminal session (region (b'p' ∷ b'w' ∷ b'd' ∷ b'\n' ∷ 0 ∷ [])))
execute_line-Executes_example =
    execute_line-Executes terminal session (b'p' ∷ b'w' ∷ b'd' ∷ b'\n' ∷ [])
      (region (b'p' ∷ b'w' ∷ b'd' ∷ b'\n' ∷ 0 ∷ [])) (omega arith)

shell_main-Fits_example : Returns (shell_main terminal 2 session line) (Fits terminal 128)
shell_main-Fits_example = shell_main-Fits terminal 2 session line terminal-IsSystem refl
