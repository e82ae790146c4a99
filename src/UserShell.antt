-- ===== src/UserShell.antt =====
-- userspace/mantle-shell.c: the shell of the system console. The system calls are a parameter.
pub mod Texts
pub mod Commands
pub mod Trim
pub mod Outputs
pub mod Rounds
pub mod Programs
use mantle_os.Base.{
  ℕ, zero, suc, ◌+◌, Bool, true, false, ◌||◌, ◌&&◌, Option, none, some, List, [], ◌∷◌, length, ltb,
  ◌==◌, if◌then◌else◌,
}
use mantle_os.Memory.{Run, done, fault, ◌>>=◌, Region, advance, read8, write8}
use mantle_os.Strings.{strlen, streq}
use mantle_os.UserShell.Texts.{
  text_marker, text_prompt, text_newline, text_exit, text_pwd, text_echo, text_mantle_os, text_ls,
  text_root, text_no_directory, text_uname, text_version, text_mantle, text_exec_failed, text_hello,
  text_not_found,
}

-- The system calls of libc/mantle.h that the shell makes, over the state of the system. `none` and
-- `false` are negative results; a buffer that a call fills is its result.
pub record System (W : Type 0) : Type 0 where
  pub read : W → ℕ → W × Option (List ℕ)
  pub write : W → Region → ℕ → W
  pub exec : W → Region → W × Bool
  pub chdir : W → Region → W × Bool
  pub getcwd : W → ℕ → W × Option Region
  pub readdir : W → Region → ℕ → W × Option Region
  pub uname : W → ℕ → W × Option Region

abbrev pub nth : List ℕ → ℕ → ℕ
nth [] i = 0
nth (c ∷ cs) zero = c
nth (c ∷ cs) (suc i) = nth cs i

-- A text of the program, with its zero.
abbrev pub literal : List ℕ → Region
literal text = record { byte = nth text; size = suc (length text) }

-- What a line asks for.
pub data Command : Type 0 where
  nothing leave show_directory echo list_root show_system change_to unknown : Command
  start : List ℕ → Command

-- The comparisons of execute_line, in their order.
abbrev pub commands : List (List ℕ × Command)
commands =
    ([], nothing)
    ∷ (text_exit, leave)
    ∷ (text_pwd, show_directory)
    ∷ (text_echo, echo)
    ∷ (text_ls, list_root)
    ∷ (text_uname, show_system)
    ∷ (text_version, start text_mantle)
    ∷ (text_hello, start text_hello)
    ∷ []

-- The test of the line for "cd " at its start, the last one.
unfoldable pub change_or_unknown : Region → Run Command
change_or_unknown line = do
  a ← read8 line 0
  if a == b'c'
      then (read8 line 1 >>= λ b.
          if b == b'd'
          then (read8 line 2 >>= λ c. done (if c == b' ' then change_to else unknown))
          else done unknown)
      else done unknown

unfoldable pub find_command : List (List ℕ × Command) → Region → Run Command
find_command [] line = change_or_unknown line
find_command ((text, command) ∷ rest) line = do
  equal ← streq line (literal text)
  let others = find_command rest line
  if equal then done command else others

-- The loop that ends the line before its last newlines; `length` is the line's.
unfoldable pub trim : ℕ → Region → Run Region
trim zero line = done line
trim (suc n) line = do
  b ← read8 line n
  let rest = λ (line' : Region). trim n line'
  if (b == b'\n') || (b == b'\r') then (write8 line n 0 >>= rest) else done line

-- Whether the shell goes on, and the state of the system.
pub data Step (W : Type 0) : Type 0 where
  continues : W → Step W
  exits : W → Step W

-- main returns 1 if the read fails; else the loop goes on or mantle_exit ends it.
pub data Round (W : Type 0) : Type 0 where
  again : W → Region → Round W
  ended : W → Round W
  failed : W → Round W

module _ {W : Type 0} (sys : System W) where
  unfoldable pub output : W → Region → Run W
  output w text = strlen text >>= λ n. done (sys.write w text n)

  unfoldable pub output_line : W → Region → Run W
  output_line w text = output w text >>= λ w'. output w' (literal text_newline)

  -- A message if a call failed.
  abbrev pub unless : W × Bool → List ℕ → Run (Step W)
  unless (w, true) text = done (continues w)
  unless (w, false) text = output_line w (literal text) >>= λ w'. done (continues w')

  -- The text that a call has filled in, with a newline.
  abbrev pub show_line : W × Option Region → Run (Step W)
  show_line (w, none) = done (continues w)
  show_line (w, some buffer) = output_line w buffer >>= λ w'. done (continues w')

  -- The names of a directory, or a message.
  abbrev pub show_names : W × Option Region → Run (Step W)
  show_names (w, none) = output_line w (literal text_no_directory) >>= λ w'. done (continues w')
  show_names (w, some entries) = output w entries >>= λ w'. done (continues w')

  unfoldable pub run_command : W → Region → Command → Run (Step W)
  run_command w line nothing = done (continues w)
  run_command w line leave = done (exits w)
  run_command w line show_directory = show_line (sys.getcwd w 64)
  run_command w line echo = output_line w (literal text_mantle_os) >>= λ w'. done (continues w')
  run_command w line list_root = show_names (sys.readdir w (literal text_root) 128)
  run_command w line show_system = show_line (sys.uname w 32)
  run_command w line (start path) = unless (sys.exec w (literal path)) text_exec_failed
  run_command w line change_to = unless (sys.chdir w (advance line 3)) text_no_directory
  run_command w line unknown = output_line w (literal text_not_found) >>= λ w'. done (continues w')

  -- The line that is left, and the step.
  unfoldable pub execute_line : W → Region → Run (Region × Step W)
  execute_line w line = do
    n ← strlen line
    trimmed ← trim n line
    command ← find_command commands trimmed
    step ← run_command w trimmed command
    done (trimmed, step)

  -- The bytes that were read, at the start of the line.
  unfoldable pub fill_line : List ℕ → ℕ → Region → Run Region
  fill_line [] at line = done line
  fill_line (c ∷ cs) at line = write8 line at c >>= λ line'. fill_line cs (at + 1) line'

  abbrev pub after_line : Region × Step W → Round W
  after_line (line, continues w) = again w line
  after_line (line, exits w) = ended w

  abbrev pub after_read : Region → W × Option (List ℕ) → Run (Round W)
  after_read line (w, none) = done (failed w)
  after_read line (w, some bytes) = do
    filled ← fill_line bytes 0 line
    let n = length bytes
    closed ← write8 filled (if ltb n 128 then n else 127) 0
    r ← execute_line w closed
    done (after_line r)

  -- One round of the loop of main, with the line as the round before has left it.
  unfoldable pub shell_round : W → Region → Run (Round W)
  shell_round w line = output w (literal text_prompt) >>= λ w'. after_read line (sys.read w' 127)

  abbrev pub go_on : Round W → (W → Region → Run (Round W)) → Run (Round W)
  go_on (again w line) k = k w line
  go_on (ended w) k = done (ended w)
  go_on (failed w) k = done (failed w)

  -- At most `n` rounds of the loop.
  unfoldable pub shell_rounds : ℕ → W → Region → Run (Round W)
  shell_rounds zero w line = done (again w line)
  shell_rounds (suc n) w line = shell_round w line >>= λ r. go_on r (shell_rounds n)

  -- main, for at most `n` rounds.
  unfoldable pub shell_main : ℕ → W → Region → Run (Round W)
  shell_main n w line = shell_rounds n (sys.write w (literal text_marker) 24) line
