-- ===== src/Keyboard.antt =====
-- keyboard_read of kernel/syscall.c: from scan codes of the PS/2 controller to characters.
pub mod Characters
use mantle_os.Base.{
  ℕ, zero, suc, ◌+◌, Bool, true, false, ◌||◌, Option, none, some, List, [], ◌∷◌, ltb, leb, ◌==◌,
  if◌then◌else◌, length,
}

-- The string of the source, `?` where a key has no character.
abbrev pub keymap : List ℕ
keymap =
    b'?' ∷ b'?' ∷ b'1' ∷ b'2' ∷ b'3' ∷ b'4' ∷ b'5' ∷ b'6' ∷ b'7' ∷ b'8' ∷ b'9' ∷ b'0' ∷ b'-' ∷ b'='
    ∷ b'?' ∷ b'?' ∷ b'q' ∷ b'w' ∷ b'e' ∷ b'r' ∷ b't' ∷ b'y' ∷ b'u' ∷ b'i' ∷ b'o' ∷ b'p' ∷ b'['
    ∷ b']' ∷ b'?' ∷ b'?' ∷ b'a' ∷ b's' ∷ b'd' ∷ b'f' ∷ b'g' ∷ b'h' ∷ b'j' ∷ b'k' ∷ b'l' ∷ b';'
    ∷ 0x27 ∷ b'`' ∷ b'?' ∷ 0x5c ∷ b'z' ∷ b'x' ∷ b'c' ∷ b'v' ∷ b'b' ∷ b'n' ∷ b'm' ∷ b',' ∷ b'.'
    ∷ b'/' ∷ []

abbrev pub key_at : List ℕ → ℕ → ℕ
key_at [] i = b'?'
key_at (c ∷ cs) zero = c
key_at (c ∷ cs) (suc i) = key_at cs i

-- The character of one scan code, `none` where the loop goes on.
unfoldable pub key_of : ℕ → Option ℕ
key_of scan =
    if leb 0x80 scan || leb (length keymap) scan
    then none
    else if scan == 0x1c
    then some b'\n'
    else if scan == 0x39
    then some b' '
    else if key_at keymap scan == b'?'
    then none
    else some (key_at keymap scan)

-- `scans` are the bytes that the controller yields. `none` is a wait that never ends, else the
-- character and the scans behind it.
unfoldable pub keyboard_read : List ℕ → Option (ℕ × List ℕ)
keyboard_read [] = none
keyboard_read (scan ∷ scans) =
    let rest = keyboard_read scans in elim (key_of scan) [ none ↦ rest | some c ↦ some (c, scans) ]
