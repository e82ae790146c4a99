-- ===== src/Packages.antt =====
-- services/mantle.c: the package manager of the Linux side. A string is the list of its bytes before
-- the zero.
pub mod Paths
pub mod Critical
pub mod Effects
pub mod Rollback
use mantle_os.Base.{
  ℕ, zero, suc, ◌+◌, ◌-◌, ◌≡◌, Bool, true, false, not, ◌&&◌, ◌||◌, Option, none, some, List, [],
  ◌∷◌, ◌++◌, length, take, leb, ltb, ◌==◌, if◌then◌else◌,
}
use mantle_os.Rootfs.Format.{same}

-- strchr and strstr of two bytes.
abbrev pub contains : ℕ → List ℕ → Bool
contains b [] = false
contains b (c ∷ cs) = if b == c then true else contains b cs

abbrev pub contains_two : ℕ → ℕ → List ℕ → Bool
contains_two a b [] = false
contains_two a b (c ∷ []) = false
contains_two a b (c ∷ d ∷ cs) = ((a == c) && (b == d)) || contains_two a b (d ∷ cs)

abbrev pub starts_with : ℕ → List ℕ → Bool
starts_with b [] = false
starts_with b (c ∷ cs) = b == c

-- The characters of a path.
unfoldable pub allowed : ℕ → Bool
allowed c =
    (leb b'a' c && leb c b'z')
    || (leb b'A' c && leb c b'Z')
    || (leb b'0' c && leb c b'9')
    || contains c (b'/' ∷ b'.' ∷ b'_' ∷ b'-' ∷ b'+' ∷ b'@' ∷ [])

unfoldable pub all_allowed : List ℕ → Bool
all_allowed [] = true
all_allowed (c ∷ cs) = if not (allowed c) then false else all_allowed cs

-- `none` is the null pointer.
unfoldable pub safe_rel : Option (List ℕ) → Bool → Bool
safe_rel none component_only = false
safe_rel (some path) component_only =
    if (length path == 0)
      || starts_with b'/' path
      || contains b'\\' path
      || contains_two b'.' b'.' path
    then false
    else if component_only && contains b'/' path
    then false
    else all_allowed path

abbrev pub path_passwd : List ℕ
path_passwd = b'e' ∷ b't' ∷ b'c' ∷ b'/' ∷ b'p' ∷ b'a' ∷ b's' ∷ b's' ∷ b'w' ∷ b'd' ∷ []

abbrev pub path_shadow : List ℕ
path_shadow = b'e' ∷ b't' ∷ b'c' ∷ b'/' ∷ b's' ∷ b'h' ∷ b'a' ∷ b'd' ∷ b'o' ∷ b'w' ∷ []

abbrev pub path_group : List ℕ
path_group = b'e' ∷ b't' ∷ b'c' ∷ b'/' ∷ b'g' ∷ b'r' ∷ b'o' ∷ b'u' ∷ b'p' ∷ []

abbrev pub path_mantle_init : List ℕ
path_mantle_init =
    b's' ∷ b'b' ∷ b'i' ∷ b'n' ∷ b'/' ∷ b'm' ∷ b'a' ∷ b'n' ∷ b't' ∷ b'l' ∷ b'e' ∷ b'-' ∷ b'i' ∷ b'n'
    ∷ b'i' ∷ b't' ∷ []

abbrev pub path_mantle_supervise : List ℕ
path_mantle_supervise =
    b's' ∷ b'b' ∷ b'i' ∷ b'n' ∷ b'/' ∷ b'm' ∷ b'a' ∷ b'n' ∷ b't' ∷ b'l' ∷ b'e' ∷ b'-' ∷ b's' ∷ b'u'
    ∷ b'p' ∷ b'e' ∷ b'r' ∷ b'v' ∷ b'i' ∷ b's' ∷ b'e' ∷ []

abbrev pub path_mantle_shell : List ℕ
path_mantle_shell =
    b'b' ∷ b'i' ∷ b'n' ∷ b'/' ∷ b'm' ∷ b'a' ∷ b'n' ∷ b't' ∷ b'l' ∷ b'e' ∷ b'-' ∷ b's' ∷ b'h' ∷ b'e'
    ∷ b'l' ∷ b'l' ∷ []

abbrev pub path_mantle : List ℕ
path_mantle =
    b'u' ∷ b's' ∷ b'r' ∷ b'/' ∷ b'b' ∷ b'i' ∷ b'n' ∷ b'/' ∷ b'm' ∷ b'a' ∷ b'n' ∷ b't' ∷ b'l' ∷ b'e'
    ∷ []

unfoldable pub critical_path : List ℕ → Bool
critical_path path =
    same path path_passwd
    || same path path_shadow
    || same path path_group
    || same path path_mantle_init
    || same path path_mantle_supervise
    || same path path_mantle_shell
    || same path path_mantle

-- strrchr: the part from the last such byte on.
unfoldable pub from_last : ℕ → List ℕ → Option (List ℕ)
from_last b [] = none
from_last b (c ∷ cs) = elim (from_last b cs) [
  | some rest ↦ some rest
  | none ↦ if b == c then some (c ∷ cs) else none
]

unfoldable pub extension : List ℕ → List ℕ → Bool
unfolding from_last
extension path suffix = elim (from_last b'.' path) [ none ↦ false | some rest ↦ same rest suffix ]

abbrev pub is_space : ℕ → Bool
is_space c = (c == b' ') || (leb 9 c && leb c 13)

unfoldable pub skip_space : List ℕ → List ℕ
skip_space [] = []
skip_space (c ∷ cs) = if is_space c then skip_space cs else c ∷ cs

-- A word of at most `n` bytes and what is behind it, as `%s` of sscanf with a width reads it.
unfoldable pub scan_word : ℕ → List ℕ → List ℕ × List ℕ
scan_word zero cs = ([], cs)
scan_word (suc n) [] = ([], [])
scan_word (suc n) (c ∷ cs) =
    let (word, rest) = scan_word n cs in if is_space c then ([], c ∷ cs) else (c ∷ word, rest)

abbrev pub is_xdigit : ℕ → Bool
is_xdigit c = (leb b'0' c && leb c b'9') || (leb b'a' c && leb c b'f') || (leb b'A' c && leb c b'F')

unfoldable pub all_xdigits : List ℕ → Bool
all_xdigits [] = true
all_xdigits (c ∷ cs) = is_xdigit c && all_xdigits cs

-- "payload/"
abbrev pub payload : List ℕ
payload = b'p' ∷ b'a' ∷ b'y' ∷ b'l' ∷ b'o' ∷ b'a' ∷ b'd' ∷ b'/' ∷ []

-- What is behind a prefix.
unfoldable pub without_prefix : List ℕ → List ℕ → Option (List ℕ)
without_prefix [] text = some text
without_prefix (p ∷ ps) [] = none
without_prefix (p ∷ ps) (c ∷ cs) = if p == c then without_prefix ps cs else none

abbrev pub checked_path : List ℕ → Option (List ℕ) → Option (List ℕ)
checked_path hash none = none
checked_path hash (some rel) =
    if not (length hash == 64) || not (safe_rel (some rel) false) || not (all_xdigits hash)
    then none
    else some rel

-- `none` is 0; the path behind "payload/" is the out-parameter.
unfoldable pub manifest_path : List ℕ → Option (List ℕ)
manifest_path line =
    let (hash, behind) = scan_word 79 (skip_space line) in
    let (path, rest) = scan_word 4095 (skip_space behind) in
    if (length hash == 0) || (length path == 0)
    then none
    else checked_path hash (without_prefix payload path)

-- The loop of verify_manifest over the lines: `none` if one is refused, else how many there are.
unfoldable pub count_lines : List (List ℕ) → Option ℕ
count_lines [] = some 0
count_lines (line ∷ lines) = elim (manifest_path line) [
  | none ↦ none
  | some rel ↦ elim (count_lines lines) [ none ↦ none | some n ↦ some (suc n) ]
]

-- `none` is a manifest that cannot be opened; `checked` is the result of sha256sum.
unfoldable pub verify_manifest : Option (List (List ℕ)) → ℕ → ℕ
verify_manifest none checked = 3
verify_manifest (some lines) checked = elim (count_lines lines) [
  | none ↦ 3
  | some n ↦ if n == 0 then 3 else checked
]

-- What the package manager does to files: by access, by cp -a, by unlink. `true` is success, for
-- unlink also if there was no such file.
pub record Files (F : Type 0) : Type 0 where
  pub is_there : F → List ℕ → Bool
  pub copy : F → List ℕ → List ℕ → F × Bool
  pub unlink : F → List ℕ → F × Bool

-- What snprintf writes to an array of MAX_PATH bytes: at most 4095 bytes and the zero.
abbrev pub cut_path : List ℕ → List ℕ
cut_path path = take 4095 path

-- "/" and the path.
abbrev pub target_of : List ℕ → List ℕ
target_of rel = cut_path (b'/' ∷ rel)

-- "<transaction>/backup/" and the path.
abbrev pub backup_of : List ℕ → List ℕ → List ℕ
backup_of tx rel = cut_path (tx ++ (b'/' ∷ b'b' ∷ b'a' ∷ b'c' ∷ b'k' ∷ b'u' ∷ b'p' ∷ b'/' ∷ rel))

module _ {F : Type 0} (files : Files F) (tx : List ℕ) where
  -- One path of the transaction; `true` if nothing failed.
  unfoldable pub rollback_one : List ℕ → F → F × Bool
  rollback_one rel f =
      if files.is_there f (backup_of tx rel)
      then files.copy (files.unlink f (target_of rel)).0 (backup_of tx rel) (target_of rel)
      else files.unlink f (target_of rel)

  -- The loop over the paths of the transaction. A path that is not safe is passed over.
  unfoldable pub rollback_files : List (List ℕ) → F → F × Bool
  rollback_files [] f = (f, true)
  rollback_files (rel ∷ rels) f =
      let (f', done_one) = if safe_rel (some rel) false then rollback_one rel f else (f, true) in
      let (f'', done_rest) = rollback_files rels f' in (f'', done_one && done_rest)

  -- `none` is a list of files that cannot be opened. The result is 2, 1 or 0.
  unfoldable pub rollback_tx : Option (List (List ℕ)) → F → F × ℕ
  rollback_tx none f = (f, 2)
  rollback_tx (some rels) f =
      let (f', succeeded) = rollback_files rels f in (f', if succeeded then 0 else 1)
