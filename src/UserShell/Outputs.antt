-- ===== src/UserShell/Outputs.antt =====
-- The commands of userspace/mantle-shell.c end, and stay within their buffers.
use mantle_os.Base.{ℕ, ◌≤◌, Bool, true, false, Option, none, some, List, length, arith}
use mantle_os.Memory.{Run, done, ◌>>=◌, Region, Returns, Returns-bind, Anything, advance}
use mantle_os.Strings.Compare.{HoldsFrom, strlen-length}
use mantle_os.UserShell.{
  System, Command, nothing, leave, show_directory, echo, list_root, show_system, change_to, unknown,
  start, literal, output, output_line, continues, unless, show_line, show_names, run_command,
}
use mantle_os.UserShell.Texts.{
  text_newline, text_mantle_os, text_root, text_no_directory, text_exec_failed, text_not_found,
}
use mantle_os.UserShell.Commands.{NoZero, literal-HoldsFrom}

-- A buffer that a call has filled in.
abbrev pub HoldsText : Option Region → Type 0
HoldsText none = Unit {0}
HoldsText (some buffer) = (text : List ℕ) × HoldsFrom buffer 0 text

abbrev pub IsShort : ℕ → Option (List ℕ) → Type 0
IsShort n none = Unit {0}
IsShort n (some bytes) = length bytes ≤ n

-- What the shell relies on: texts end with a zero, and a read returns no more than was asked for.
pub record IsSystem {W : Type 0} (sys : System W) : Type 0 where
  pub read : (w : W) (n : ℕ) → IsShort n (sys.read w n).1
  pub getcwd : (w : W) (n : ℕ) → HoldsText (sys.getcwd w n).1
  pub readdir : (w : W) (path : Region) (n : ℕ) → HoldsText (sys.readdir w path n).1
  pub uname : (w : W) (n : ℕ) → HoldsText (sys.uname w n).1

module _ {W : Type 0} (sys : System W) where
  pub output-Returns :
      (w : W) (text : List ℕ) (buffer : Region)
      → HoldsFrom buffer 0 text
      → Returns (output sys w buffer) Anything
  unfolding output
  output-Returns w text buffer held = rw (strlen-length text buffer held) tt

  output_line-Returns :
      (w : W) (text : List ℕ) (buffer : Region)
      → HoldsFrom buffer 0 text
      → Returns (output_line sys w buffer) Anything
  unfolding output_line
  output_line-Returns w text buffer held =
      Returns-bind (output sys w buffer) _ Anything Anything (output-Returns w text buffer held)
        λ w' t. output-Returns w' text_newline (literal text_newline) (omega arith)

  -- Some text, and the shell goes on.
  continues-Returns :
      (m : Run W) → Returns m Anything → Returns (m >>= λ w. done (continues w)) Anything
  continues-Returns m out = Returns-bind m (λ w. done (continues w)) Anything Anything out λ w t. tt

  message-Returns :
      (w : W) (text : List ℕ)
      → NoZero text
      → Returns (output_line sys w (literal text) >>= λ w'. done (continues w')) Anything
  message-Returns w text nonzero =
      continues-Returns (output_line sys w (literal text))
        (output_line-Returns w text (literal text) (literal-HoldsFrom text nonzero))

  unless-Returns :
      (r : W × Bool) (text : List ℕ) → NoZero text → Returns (unless sys r text) Anything
  unless-Returns (w, true) text nonzero = tt
  unless-Returns (w, false) text nonzero = message-Returns w text nonzero

  show_line-Returns : (r : W × Option Region) → HoldsText r.1 → Returns (show_line sys r) Anything
  show_line-Returns (w, none) held = tt
  show_line-Returns (w, some buffer) (text, held) =
      continues-Returns (output_line sys w buffer) (output_line-Returns w text buffer held)

  show_names-Returns : (r : W × Option Region) → HoldsText r.1 → Returns (show_names sys r) Anything
  show_names-Returns (w, none) held = message-Returns w text_no_directory (omega arith)
  show_names-Returns (w, some buffer) (text, held) =
      continues-Returns (output sys w buffer) (output-Returns w text buffer held)

  pub run_command-Returns :
      (w : W) (line : Region) (command : Command)
      → IsSystem sys
      → Returns (run_command sys w line command) Anything
  unfolding run_command
  run_command-Returns w line nothing good = tt
  run_command-Returns w line leave good = tt
  run_command-Returns w line show_directory good =
      show_line-Returns (sys.getcwd w 64) (good.getcwd w 64)
  run_command-Returns w line echo good = message-Returns w text_mantle_os (omega arith)
  run_command-Returns w line list_root good =
      show_names-Returns (sys.readdir w (literal text_root) 128)
        (good.readdir w (literal text_root) 128)
  run_command-Returns w line show_system good = show_line-Returns (sys.uname w 32) (good.uname w 32)
  run_command-Returns w line (start path) good =
      unless-Returns (sys.exec w (literal path)) text_exec_failed (omega arith)
  run_command-Returns w line change_to good =
      unless-Returns (sys.chdir w (advance line 3)) text_no_directory (omega arith)
  run_command-Returns w line unknown good = message-Returns w text_not_found (omega arith)
