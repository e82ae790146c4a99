-- ===== src/UserShell/Rounds.antt =====
-- userspace/mantle-shell.c: what a line does, and that the shell never leaves its buffers.
use mantle_os.Base.{
  ℕ, zero, suc, ◌+◌, ◌≤◌, ◌<◌, ◌≡◌, refl, ap, sym, subst, ◌∙◌, inl, inr, true, Option, none, some,
  List, [], ◌∷◌, length, ltb, if◌then◌else◌, arith, Bool-cases, ◌==◌,
}
use mantle_os.Memory.{
  Run, done, fault, ◌>>=◌, Region, Returns, Returns-bind, Anything, update, write8, write8_lem,
  c_string,
}
use mantle_os.Strings.Compare.{HoldsFrom, strlen-length}
use mantle_os.UserShell.{
  System, commands, literal, nth, find_command, trim, output, Step, continues, exits, run_command,
  execute_line, fill_line, Round, again, ended, failed, after_line, after_read, shell_round, go_on,
  shell_rounds, shell_main,
}
use mantle_os.UserShell.Texts.{text_marker, text_prompt}
use mantle_os.UserShell.Commands.{strip, meaning, literal-HoldsFrom, find_command-lookup}
use mantle_os.UserShell.Outputs.{IsShort, IsSystem, output-Returns, run_command-Returns}
use mantle_os.UserShell.Trim.{Stripped, trim-Stripped}

-- The line without its newlines, and the step that its command makes.
abbrev pub Executes : {W : Type 0} → System W → W → List ℕ → Region → Run (Region × Step W) → Type 0
Executes sys w text line r =
    (trimmed : Region) × HoldsFrom trimmed 0 (strip text)
    × (trimmed.size ≡ line.size)
    × (r ≡ (run_command sys w trimmed (meaning text) >>= λ step. done (trimmed, step)))

after_trim :
    {W : Type 0} (sys : System W) (w : W) (text : List ℕ) (line : Region) (m : Run Region)
    → Returns m (Stripped (strip text) line.size)
    → Executes sys w text line (
        m >>= λ trimmed.
        (find_command commands trimmed >>= λ command.
        (run_command sys w trimmed command >>= λ step. done (trimmed, step))))
after_trim sys w text line (done trimmed) (held, size) = (
  trimmed,
  held,
  size,
  rw (find_command-lookup commands (strip text) trimmed (omega arith) held) refl,
)
after_trim sys w text line fault out = absurd out

-- On a line that holds a text with its zero: The line is executed as its text without the newlines at its
-- end says. It is the first command of the table with that text, a change of the directory if it starts
-- with "cd ", or else unknown.
pub execute_line-Executes :
    {W : Type 0} (sys : System W) (w : W) (text : List ℕ) (line : Region)
    → HoldsFrom line 0 text
    → Executes sys w text line (execute_line sys w line)
unfolding execute_line
execute_line-Executes sys w text line held = rw (strlen-length text line held) (
    after_trim sys w text line (trim (length text) line)
      (trim-Stripped (length text) text line refl held))

module _ {W : Type 0} (sys : System W) where
  -- The line after a step, in as much memory as before.
  abbrev pub Fits : ℕ → Round W → Type 0
  Fits size (again w line) = line.size ≡ size
  Fits size (ended w) = Unit {0}
  Fits size (failed w) = Unit {0}

  stepped :
      (trimmed : Region) (size : ℕ) (m : Run (Step W))
      → trimmed.size ≡ size
      → Returns m Anything
      → Returns ((m >>= λ step. done (trimmed, step)) >>= λ r. done (after_line sys r)) (Fits size)
  stepped trimmed size (done (continues w)) e out = e
  stepped trimmed size (done (exits w)) e out = tt
  stepped trimmed size fault e out = out

  line-Fits :
      (w : W) (text : List ℕ) (line : Region)
      → IsSystem sys
      → HoldsFrom line 0 text
      → Returns (execute_line sys w line >>= λ r. done (after_line sys r)) (Fits line.size)
  line-Fits w text line good held =
      let (trimmed, stripped, size, runs) = execute_line-Executes sys w text line held in
      rw runs (
        stepped trimmed line.size (run_command sys w trimmed (meaning text)) size
          (run_command-Returns sys w trimmed (meaning text) good))

  -- The line after a read: the bytes that were read, behind those before `at`.
  abbrev Filled : List ℕ → ℕ → Region → Region → Type 0
  Filled bytes at old new =
      (new.size ≡ old.size)
      × ((i : ℕ) → i < at → new.byte i ≡ old.byte i)
      × ((k : ℕ) → k < length bytes → new.byte (at + k) ≡ nth bytes k)

  fill_line-Filled :
      (bytes : List ℕ) (at : ℕ) (line : Region)
      → at + length bytes ≤ line.size
      → Returns (fill_line sys bytes at line) (Filled bytes at line)
  unfolding fill_line
  fill_line-Filled [] at line inside = (refl, (λ i h. refl), λ k h. elim h [ ])
  fill_line-Filled (c ∷ cs) at line inside =
      let line' : Region = record line { byte = update line.byte at c } in
      rw (write8_lem line at c (omega arith))
        (more (fill_line sys cs (at + 1) line') (fill_line-Filled cs (at + 1) line' (omega arith)))
    where
      more :
          (m : Run Region)
          → Returns m (Filled cs (at + 1) (record line { byte = update line.byte at c }))
          → Returns m (Filled (c ∷ cs) at line)
      more (done new) (size, before, filled) =
          (size, (λ i h. before i (omega arith) ∙ ground arith), λ k h. byte k h)
        where
          byte : (k : ℕ) → k < suc (length cs) → new.byte (at + k) ≡ nth (c ∷ cs) k
          byte zero h =
              let here : at + 0 ≡ at = omega arith in
              rw here (before at (omega arith) ∙ ground arith)
          byte (suc k) h =
              let there : at + suc k ≡ at + 1 + k = omega arith in rw there (filled k (omega arith))
      more fault out = out

  -- The bytes up to the first zero, or all of them.
  closed-HoldsFrom :
      (bytes : List ℕ) (at : ℕ) (r : Region)
      → ((k : ℕ) → k < length bytes → r.byte (at + k) ≡ nth bytes k)
      → r.byte (at + length bytes) ≡ 0
      → at + length bytes < r.size
      → HoldsFrom r at (c_string bytes)
  closed-HoldsFrom [] at r same ending inside =
      let here : at + 0 ≡ at = omega arith in (omega arith, ap r.byte (sym here) ∙ ending)
  closed-HoldsFrom (c ∷ cs) at r same ending inside =
      let here : at + 0 ≡ at = omega arith in
      let there : at + 1 + length cs ≡ at + suc (length cs) = omega arith in
      let first : r.byte at ≡ c = ap r.byte (sym here) ∙ same 0 (omega arith) in
      let rest =
        closed-HoldsFrom cs (at + 1) r
          (λ k h.
            ap r.byte (let next : at + 1 + k ≡ at + suc k = omega arith in next)
            ∙ same (suc k) (omega arith))
          (ap r.byte there ∙ ending) (omega arith) in
      elim (Bool-cases (c == 0)) [
        | inl zero_byte ↦ rw zero_byte (omega arith, first ∙ ground arith)
        | inr other ↦ rw other (omega arith, (λ e. ground arith), first, rest)
      ]

  after_fill :
      (w : W) (bytes : List ℕ) (line : Region) (m : Run Region)
      → IsSystem sys
      → line.size ≡ 128
      → length bytes ≤ 127
      → Returns m (Filled bytes 0 line)
      → Returns
          (m >>= λ filled.
            (write8 filled (if ltb (length bytes) 128 then length bytes else 127) 0 >>= λ closed.
            (execute_line sys w closed >>= λ r. done (after_line sys r))))
          (Fits 128)
  after_fill w bytes line (done filled) good room short (size, before, same) =
      let test : ltb (length bytes) 128 ≡ true = ground arith in
      let closed : Region = record filled { byte = update filled.byte (length bytes) 0 } in
      let whole : closed.size ≡ 128 = size ∙ room in
      rw (test, write8_lem filled (length bytes) 0 (omega (arith, whole)))
        (subst (λ n. Returns (execute_line sys w closed >>= λ r. done (after_line sys r)) (Fits n))
          whole
          (line-Fits w (c_string bytes) closed good (
            closed-HoldsFrom bytes 0 closed (λ k h. ground (arith, same k h)) (ground arith)
              (omega (arith, whole)))))
  after_fill w bytes line fault good room short out = out

  after_read-Fits :
      (line : Region) (r : W × Option (List ℕ))
      → IsSystem sys
      → line.size ≡ 128
      → IsShort 127 r.1
      → Returns (after_read sys line r) (Fits 128)
  after_read-Fits line (w, none) good room short = tt
  after_read-Fits line (w, some bytes) good room short =
      after_fill w bytes line (fill_line sys bytes 0 line) good room short
        (fill_line-Filled bytes 0 line (omega arith))

  shell_round-Fits :
      (w : W) (line : Region)
      → IsSystem sys
      → line.size ≡ 128
      → Returns (shell_round sys w line) (Fits 128)
  unfolding shell_round
  shell_round-Fits w line good room =
      Returns-bind (output sys w (literal text_prompt)) _ Anything (Fits 128)
        (output-Returns sys w text_prompt (literal text_prompt)
          (literal-HoldsFrom text_prompt (omega arith)))
        λ w' t. after_read-Fits line (sys.read w' 127) good room (good.read w' 127)

  shell_rounds-Fits :
      (n : ℕ) (w : W) (line : Region)
      → IsSystem sys
      → line.size ≡ 128
      → Returns (shell_rounds sys n w line) (Fits 128)
  unfolding shell_rounds
  shell_rounds-Fits zero w line good room = room
  shell_rounds-Fits (suc n) w line good room =
      Returns-bind (shell_round sys w line) (λ r. go_on sys r (shell_rounds sys n)) (Fits 128)
        (Fits 128) (shell_round-Fits w line good room)
        (elim [
          | again w' line' ↦ λ fits. shell_rounds-Fits n w' line' good fits
          | ended w' ↦ λ fits. tt
          | failed w' ↦ λ fits. tt
        ])

-- On a system that ends texts with a zero and reads no more than it is asked for, with a line of 128
-- bytes that may hold anything: However many rounds the shell makes, it ends each one and stays within its
-- buffers, and it leaves the line in its 128 bytes.
pub shell_main-Fits :
    {W : Type 0} (sys : System W) (n : ℕ) (w : W) (line : Region)
    → IsSystem sys
    → line.size ≡ 128
    → Returns (shell_main sys n w line) (Fits sys 128)
unfolding shell_main
shell_main-Fits sys n w line good room =
    shell_rounds-Fits sys n (sys.write w (literal text_marker) 24) line good room
