-- ===== src/UserShell/Programs.antt =====
-- The other programs in user mode: userspace/init.c, userspace/hello.c and userspace/mantle.c.
use mantle_os.Base.{ℕ, Bool, true, false, List, [], ◌∷◌, length}
use mantle_os.UserShell.{System, literal}

abbrev pub text_started : List ℕ
text_started =
    b'M' ∷ b'A' ∷ b'N' ∷ b'T' ∷ b'L' ∷ b'E' ∷ b'_' ∷ b'I' ∷ b'N' ∷ b'I' ∷ b'T' ∷ b'_' ∷ b'U' ∷ b'S'
    ∷ b'E' ∷ b'R' ∷ b'_' ∷ b'O' ∷ b'K' ∷ b'\n' ∷ []

abbrev pub text_failed : List ℕ
text_failed =
    b'M' ∷ b'A' ∷ b'N' ∷ b'T' ∷ b'L' ∷ b'E' ∷ b'_' ∷ b'I' ∷ b'N' ∷ b'I' ∷ b'T' ∷ b'_' ∷ b'S' ∷ b'H'
    ∷ b'E' ∷ b'L' ∷ b'L' ∷ b'_' ∷ b'E' ∷ b'R' ∷ b'R' ∷ b'O' ∷ b'R' ∷ b'\n' ∷ []

abbrev pub text_shell : List ℕ
text_shell =
    b'/' ∷ b'b' ∷ b'i' ∷ b'n' ∷ b'/' ∷ b'm' ∷ b'a' ∷ b'n' ∷ b't' ∷ b'l' ∷ b'e' ∷ b'-' ∷ b's' ∷ b'h'
    ∷ b'e' ∷ b'l' ∷ b'l' ∷ []

abbrev pub text_message : List ℕ
text_message =
    b'M' ∷ b'a' ∷ b'n' ∷ b't' ∷ b'l' ∷ b'e' ∷ b'O' ∷ b'S' ∷ b' ' ∷ b'u' ∷ b's' ∷ b'e' ∷ b'r' ∷ b's'
    ∷ b'p' ∷ b'a' ∷ b'c' ∷ b'e' ∷ b'\n' ∷ []

abbrev pub text_mantle_version : List ℕ
text_mantle_version =
    b'M' ∷ b'a' ∷ b'n' ∷ b't' ∷ b'l' ∷ b'e' ∷ b'O' ∷ b'S' ∷ b' ' ∷ b'm' ∷ b'a' ∷ b'n' ∷ b't' ∷ b'l'
    ∷ b'e' ∷ b' ' ∷ b'0' ∷ b'.' ∷ b'1' ∷ b'\n' ∷ []

module _ {W : Type 0} (sys : System W) where
  -- A text is written without its zero.
  abbrev pub write_text : W → List ℕ → W
  write_text w text = sys.write w (literal text) (length text)

  -- The results of the programs are those of main.
  unfoldable pub hello_main : W → W × ℕ
  hello_main w = (write_text w text_message, 0)

  unfoldable pub mantle_main : W → W × ℕ
  mantle_main w = (write_text w text_mantle_version, 0)

  abbrev pub after_shell : W × Bool → W × ℕ
  after_shell (w, true) = (w, 1)
  after_shell (w, false) = (write_text w text_failed, 1)

  unfoldable pub init_main : W → W × ℕ
  init_main w = after_shell (sys.exec (write_text w text_started) (literal text_shell))
