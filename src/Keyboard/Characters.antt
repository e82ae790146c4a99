-- ===== src/Keyboard/Characters.antt =====
-- Which characters keyboard_read of kernel/syscall.c yields.
use mantle_os.Base.{ℕ, ◌≡◌, ◌≢◌, refl, ap, ◌∙◌, Option, none, some, List, [], ◌∷◌, ◌++◌, arith}
use mantle_os.Keyboard.{key_of, keyboard_read}

abbrev pub IsCharacter : Option ℕ → Type 0
IsCharacter none = Unit {0}
IsCharacter (some c) = (c ≢ b' ') × (c ≢ b'?') × (c ≢ 0)

key_of-IsCharacter : (scan : ℕ) → IsCharacter (key_of scan)
unfolding key_of
key_of-IsCharacter scan = ground arith

abbrev pub AllIgnored : List ℕ → Type 0
AllIgnored [] = Unit {0}
AllIgnored (scan ∷ scans) = (key_of scan ≡ none) × AllIgnored scans

-- The first scan code that is not ignored gives the character.
abbrev pub FirstKey : List ℕ → Option (ℕ × List ℕ) → Type 0
FirstKey scans none = AllIgnored scans
FirstKey scans (some (c, rest)) =
    (ignored : List ℕ) × (scan : ℕ) × (scans ≡ ignored ++ scan ∷ rest)
    × AllIgnored ignored
    × (key_of scan ≡ some c)
    × IsCharacter (some c)

FirstKey-skip :
    (scan : ℕ) (scans : List ℕ) (r : Option (ℕ × List ℕ))
    → key_of scan ≡ none
    → FirstKey scans r
    → FirstKey (scan ∷ scans) r
FirstKey-skip scan scans none e first = (e, first)
FirstKey-skip scan scans (some (c, rest)) e (ignored, key, split, none_before, found, good) =
    (scan ∷ ignored, key, ap (λ l. scan ∷ l) split, (e, none_before), found, good)

-- The driver skips the releases and the keys without a character, up to the first scan code that
-- has one, and returns that character and leaves the codes behind; it waits on only if there is no
-- such code. The character is never a zero, and it is never a space either, since the scan code of
-- the space bar lies behind the end of the table.
pub keyboard_read-FirstKey : (scans : List ℕ) → FirstKey scans (keyboard_read scans)
unfolding keyboard_read
keyboard_read-FirstKey [] = tt
keyboard_read-FirstKey (scan ∷ scans) =
    go (key_of scan) refl (key_of-IsCharacter scan) (keyboard_read-FirstKey scans)
  where
    go :
        (key : Option ℕ)
        → key_of scan ≡ key
        → IsCharacter key
        → FirstKey scans (keyboard_read scans)
        → FirstKey (scan ∷ scans) (keyboard_read (scan ∷ scans))
    go none e good later =
        rw (keyboard_read, e) (FirstKey-skip scan scans (keyboard_read scans) e later)
    go (some c) e good later = rw (keyboard_read, e) ([], scan, refl, tt, e, good)

-- The characters of the scan codes, in their order.
abbrev pub characters : List ℕ → List ℕ
characters [] = []
characters (scan ∷ scans) = elim (key_of scan) [
  | none ↦ characters scans
  | some c ↦ c ∷ characters scans
]

-- What keyboard_read does to the characters to come.
abbrev pub TakesFirst : List ℕ → Option (ℕ × List ℕ) → Type 0
TakesFirst scans none = characters scans ≡ []
TakesFirst scans (some (c, rest)) = characters scans ≡ c ∷ characters rest

characters-ignored :
    (scan : ℕ) (scans : List ℕ) → key_of scan ≡ none → characters (scan ∷ scans) ≡ characters scans
characters-ignored scan scans e = rw (characters, e) refl

characters-key :
    (scan c : ℕ) (scans : List ℕ)
    → key_of scan ≡ some c
    → characters (scan ∷ scans) ≡ c ∷ characters scans
characters-key scan c scans e = rw (characters, e) refl

TakesFirst-skip :
    (scan : ℕ) (scans : List ℕ) (r : Option (ℕ × List ℕ))
    → key_of scan ≡ none
    → TakesFirst scans r
    → TakesFirst (scan ∷ scans) r
TakesFirst-skip scan scans none e first = characters-ignored scan scans e ∙ first
TakesFirst-skip scan scans (some (c, rest)) e first = characters-ignored scan scans e ∙ first

pub keyboard_read-TakesFirst : (scans : List ℕ) → TakesFirst scans (keyboard_read scans)
unfolding keyboard_read
keyboard_read-TakesFirst [] = refl
keyboard_read-TakesFirst (scan ∷ scans) = go (key_of scan) refl (keyboard_read-TakesFirst scans)
  where
    go :
        (key : Option ℕ)
        → key_of scan ≡ key
        → TakesFirst scans (keyboard_read scans)
        → TakesFirst (scan ∷ scans) (keyboard_read (scan ∷ scans))
    go none e later =
        rw (keyboard_read, e) (TakesFirst-skip scan scans (keyboard_read scans) e later)
    go (some c) e later = rw (keyboard_read, e) (characters-key scan c scans e)
