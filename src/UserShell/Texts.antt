-- ===== src/UserShell/Texts.antt =====
-- The texts of userspace/mantle-shell.c.
use mantle_os.Base.{ℕ, List, [], ◌∷◌}

abbrev pub text_marker : List ℕ
text_marker =
    b'M' ∷ b'A' ∷ b'N' ∷ b'T' ∷ b'L' ∷ b'E' ∷ b'_' ∷ b'S' ∷ b'H' ∷ b'E' ∷ b'L' ∷ b'L' ∷ b'_' ∷ b'C'
    ∷ b'O' ∷ b'N' ∷ b'S' ∷ b'O' ∷ b'L' ∷ b'E' ∷ b'_' ∷ b'O' ∷ b'K' ∷ b'\n' ∷ []

abbrev pub text_prompt : List ℕ
text_prompt =
    b'm' ∷ b'a' ∷ b'n' ∷ b't' ∷ b'l' ∷ b'e' ∷ b'@' ∷ b'm' ∷ b'a' ∷ b'n' ∷ b't' ∷ b'l' ∷ b'e' ∷ b'o'
    ∷ b's' ∷ b':' ∷ b'~' ∷ b'$' ∷ b' ' ∷ []

abbrev pub text_newline : List ℕ
text_newline = b'\n' ∷ []

abbrev pub text_exit : List ℕ
text_exit = b'e' ∷ b'x' ∷ b'i' ∷ b't' ∷ []

abbrev pub text_pwd : List ℕ
text_pwd = b'p' ∷ b'w' ∷ b'd' ∷ []

abbrev pub text_echo : List ℕ
text_echo =
    b'e' ∷ b'c' ∷ b'h' ∷ b'o' ∷ b' ' ∷ b'M' ∷ b'a' ∷ b'n' ∷ b't' ∷ b'l' ∷ b'e' ∷ b'O' ∷ b'S' ∷ []

abbrev pub text_mantle_os : List ℕ
text_mantle_os = b'M' ∷ b'a' ∷ b'n' ∷ b't' ∷ b'l' ∷ b'e' ∷ b'O' ∷ b'S' ∷ []

abbrev pub text_ls : List ℕ
text_ls = b'l' ∷ b's' ∷ []

abbrev pub text_root : List ℕ
text_root = b'/' ∷ []

abbrev pub text_no_directory : List ℕ
text_no_directory =
    b'm' ∷ b'a' ∷ b'n' ∷ b't' ∷ b'l' ∷ b'e' ∷ b'-' ∷ b's' ∷ b'h' ∷ b'e' ∷ b'l' ∷ b'l' ∷ b':' ∷ b' '
    ∷ b'd' ∷ b'i' ∷ b'r' ∷ b'e' ∷ b'c' ∷ b't' ∷ b'o' ∷ b'r' ∷ b'y' ∷ b' ' ∷ b'u' ∷ b'n' ∷ b'a'
    ∷ b'v' ∷ b'a' ∷ b'i' ∷ b'l' ∷ b'a' ∷ b'b' ∷ b'l' ∷ b'e' ∷ []

abbrev pub text_uname : List ℕ
text_uname = b'u' ∷ b'n' ∷ b'a' ∷ b'm' ∷ b'e' ∷ []

abbrev pub text_version : List ℕ
text_version =
    b'm' ∷ b'a' ∷ b'n' ∷ b't' ∷ b'l' ∷ b'e' ∷ b' ' ∷ b'-' ∷ b'-' ∷ b'v' ∷ b'e' ∷ b'r' ∷ b's' ∷ b'i'
    ∷ b'o' ∷ b'n' ∷ []

abbrev pub text_mantle : List ℕ
text_mantle = b'/' ∷ b'b' ∷ b'i' ∷ b'n' ∷ b'/' ∷ b'm' ∷ b'a' ∷ b'n' ∷ b't' ∷ b'l' ∷ b'e' ∷ []

abbrev pub text_exec_failed : List ℕ
text_exec_failed =
    b'm' ∷ b'a' ∷ b'n' ∷ b't' ∷ b'l' ∷ b'e' ∷ b'-' ∷ b's' ∷ b'h' ∷ b'e' ∷ b'l' ∷ b'l' ∷ b':' ∷ b' '
    ∷ b'e' ∷ b'x' ∷ b'e' ∷ b'c' ∷ b' ' ∷ b'f' ∷ b'a' ∷ b'i' ∷ b'l' ∷ b'e' ∷ b'd' ∷ []

abbrev pub text_hello : List ℕ
text_hello = b'/' ∷ b'b' ∷ b'i' ∷ b'n' ∷ b'/' ∷ b'h' ∷ b'e' ∷ b'l' ∷ b'l' ∷ b'o' ∷ []

abbrev pub text_not_found : List ℕ
text_not_found =
    b'm' ∷ b'a' ∷ b'n' ∷ b't' ∷ b'l' ∷ b'e' ∷ b'-' ∷ b's' ∷ b'h' ∷ b'e' ∷ b'l' ∷ b'l' ∷ b':' ∷ b' '
    ∷ b'c' ∷ b'o' ∷ b'm' ∷ b'm' ∷ b'a' ∷ b'n' ∷ b'd' ∷ b' ' ∷ b'n' ∷ b'o' ∷ b't' ∷ b' ' ∷ b'f'
    ∷ b'o' ∷ b'u' ∷ b'n' ∷ b'd' ∷ []
