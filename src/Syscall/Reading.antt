-- ===== src/Syscall/Reading.antt =====
-- What syscall_read of kernel/syscall.c leaves in the user memory.
use mantle_os.Base.{
  ℕ, zero, suc, ◌+◌, ◌-◌, ◌%◌, ◌≤◌, ◌<◌, ◌≡◌, ◌≢◌, refl, ap, subst, ◌∙◌, ◌⊎◌, inl, inr, Bool, true,
  false, not, ◌||◌, Option, none, some, List, [], ◌∷◌, ◌++◌, length, ◌==◌, if◌then◌else◌, arith,
  Bool-cases, u32_mod,
}
use mantle_os.Memory.{Run, done, fault, Returns, update}
use mantle_os.Elf.{user_range}
use mantle_os.Keyboard.{keyboard_read}
use mantle_os.Keyboard.Characters.{characters, TakesFirst, keyboard_read-TakesFirst}
use mantle_os.Syscall.{Kernel, failed}
use mantle_os.Syscall.Access.{user_range_iff, write_user_lem}
use mantle_os.Syscall.Calls.{with_memory, read_chars, syscall_read}

-- The characters that a read of at most `n` takes: up to the first newline, which is the last.
abbrev pub first_line : ℕ → List ℕ → List ℕ
first_line zero text = []
first_line (suc n) [] = []
first_line (suc n) (c ∷ text) = if c == b'\n' then c ∷ [] else c ∷ first_line n text

-- Whether they are `n`, or end with a newline.
abbrev pub is_complete : ℕ → List ℕ → Bool
is_complete zero text = true
is_complete (suc n) [] = false
is_complete (suc n) (c ∷ text) = if c == b'\n' then true else is_complete n text

abbrev pub StoredAt : (ℕ → ℕ) → ℕ → List ℕ → Type 0
StoredAt byte at [] = Unit {0}
StoredAt byte at (c ∷ text) = (byte at ≡ c) × StoredAt byte (at + 1) text

-- From `k` to `k'`, the characters `text` of the keyboard were stored from the offset `at` of the user
-- memory on, and nothing else happened; `left` was the room for them.
pub record Stores (at left : ℕ) (k k' : Kernel) (text : List ℕ) : Type 0 where
  pub typed : characters k.keyboard ≡ text ++ characters k'.keyboard
  pub line : text ≡ first_line left (characters k.keyboard)
  pub bytes : StoredAt k'.space.memory.byte at text
  pub others :
      (i : ℕ) → (i < at) ⊎ (at + length text ≤ i) → k'.space.memory.byte i ≡ k.space.memory.byte i
  pub kept : k' ≡ record (with_memory k k'.space.memory) { keyboard = k'.keyboard }

-- The read returns when the characters are complete; else the keys have run out, and it waits on.
abbrev pub ReadFrom : ℕ → ℕ → ℕ → Kernel → Kernel × Option ℕ → Type 0
ReadFrom at index left k (k', none) =
    (text : List ℕ) × Stores at left k k' text
    × (is_complete left text ≡ false)
    × (characters k'.keyboard ≡ [])
ReadFrom at index left k (k', some count) =
    (text : List ℕ) × Stores at left k k' text
    × (is_complete left text ≡ true)
    × (count ≡ index + length text)

module _ (at left value : ℕ) (scans : List ℕ) (k : Kernel)
    (typed : characters k.keyboard ≡ value ∷ characters scans) where
  -- The state behind one character.
  abbrev after : Kernel
  after =
      record (with_memory k
        (record k.space.memory { byte = update k.space.memory.byte at value })) { keyboard = scans }

  Stores-last : (value == b'\n') ≡ true → Stores at (suc left) k after (value ∷ [])
  Stores-last newline = record {
    typed = typed;
    line = rw (typed, newline) refl;
    bytes = (ground arith, tt);
    others = λ i far. ground (arith, far);
    kept = refl;
  }

  Stores-more :
      (k' : Kernel) (text : List ℕ)
      → (value == b'\n') ≡ false
      → Stores (at + 1) left after k' text
      → Stores at (suc left) k k' (value ∷ text)
  Stores-more k' text other later = record {
    typed = typed ∙ ap (λ l. value ∷ l) later.typed;
    line = rw (typed, other) (ap (λ l. value ∷ l) later.line);
    bytes = (later.others at (inl (omega arith)) ∙ ground arith, later.bytes);
    others = λ i far. later.others i (omega (arith, far)) ∙ ground (arith, far);
    kept = later.kept;
  }

  ReadFrom-more :
      (index : ℕ) (r : Kernel × Option ℕ)
      → (value == b'\n') ≡ false
      → ReadFrom (at + 1) (index + 1) left after r
      → ReadFrom at index (suc left) k r
  ReadFrom-more index (k', none) other (text, stores, waits, used) =
      (value ∷ text, Stores-more k' text other stores, rw other waits, used)
  ReadFrom-more index (k', some count) other (text, stores, ends, e) =
      (value ∷ text, Stores-more k' text other stores, rw other ends, omega (arith, e))

  Returns-more :
      (index : ℕ) (m : Run (Kernel × Option ℕ))
      → (value == b'\n') ≡ false
      → Returns m (ReadFrom (at + 1) (index + 1) left after)
      → Returns m (ReadFrom at index (suc left) k)
  Returns-more index (done r) other out = ReadFrom-more index r other out
  Returns-more index fault other out = out

read_chars-ReadFrom :
    (left index address : ℕ) (k : Kernel)
    → 0x40_0000 ≤ address
    → address + index + left ≤ 0x60_0000
    → k.space.memory.size ≡ 0x20_0000
    → Returns
        (read_chars left index address k)
        (ReadFrom (address - 0x40_0000 + index) index left k)
unfolding read_chars
read_chars-ReadFrom zero index address k low high whole = ([], nothing, refl, omega arith)
  where
    nothing : Stores (address - 0x40_0000 + index) 0 k k []
    nothing = record { typed = refl; line = refl; bytes = tt; others = λ i far. refl; kept = refl }
read_chars-ReadFrom (suc left) index address k low high whole =
    go (keyboard_read k.keyboard) refl (keyboard_read-TakesFirst k.keyboard)
      λ k' whole'. read_chars-ReadFrom left (index + 1) address k' low (omega arith) whole'
  where
    go :
        (r : Option (ℕ × List ℕ))
        → keyboard_read k.keyboard ≡ r
        → TakesFirst k.keyboard r
        → ((k' : Kernel)
            → k'.space.memory.size ≡ 0x20_0000
            → Returns
                (read_chars left (index + 1) address k')
                (ReadFrom (address - 0x40_0000 + (index + 1)) (index + 1) left k'))
        → Returns
            (read_chars (suc left) index address k)
            (ReadFrom (address - 0x40_0000 + index) index (suc left) k)
    go none e typed later =
        rw (read_chars, e)
          (
            [],
            record {
              typed = typed;
              line = rw typed refl;
              bytes = tt;
              others = λ i far. refl;
              kept = refl;
            },
            refl,
            refl,
          )
    go (some (value, scans)) e typed later =
        let place : address + index - 0x40_0000 ≡ address - 0x40_0000 + index = omega arith in
        rw
          (
            read_chars,
            e,
            write_user_lem k.space.memory whole (address + index) value (omega arith) (omega arith),
            place,
          )
          (elim (Bool-cases (value == b'\n')) [
            | inl last ↦ rw last (
              value ∷ [],
              Stores-last (address - 0x40_0000 + index) left value scans k typed last,
              rw last refl,
              omega arith,
            )
            | inr more ↦ rw more (
                let next = after (address - 0x40_0000 + index) left value scans k typed in
                let shifted : address - 0x40_0000 + (index + 1) ≡ address - 0x40_0000 + index + 1 =
                  omega arith in
                Returns-more (address - 0x40_0000 + index) left value scans k typed index
                  (read_chars left (index + 1) address next) more
                  (subst
                    (λ at.
                      Returns (read_chars left (index + 1) address next)
                        (ReadFrom at (index + 1) left next))
                    shifted (later next whole)))
          ])

abbrev pub ReadOutcome : Kernel → ℕ → ℕ → ℕ → Kernel × Option ℕ → Type 0
ReadOutcome k fd address length r =
    ((fd ≡ 0)
      × (0 < length)
      × (user_range address length ≡ true)
      × ReadFrom (address - 0x40_0000) 0 length k r)
    ⊎ (((fd ≢ 0) ⊎ (length ≡ 0) ⊎ (user_range address length ≡ false)) × (r ≡ (k, some failed)))

-- With a user memory of 2 MiB: A read of descriptor 0 to a range of it that is not empty stores at
-- the start of the range the characters that are typed, in their order, up to the length or up to and
-- with the first newline, and takes them from the keyboard; everything else in the kernel and in the user
-- memory is as before. It returns their number once they are the length or end with a newline; it waits
-- on only if no more characters are typed before that. Any other read changes nothing and returns -1.
pub syscall_read-ReadOutcome :
    (k : Kernel) (fd address length : ℕ)
    → k.space.memory.size ≡ 0x20_0000
    → Returns (syscall_read k fd address length) (ReadOutcome k fd address length)
unfolding syscall_read
syscall_read-ReadOutcome k fd address length whole =
    elim (Bool-cases (not (fd == 0) || (length == 0) || not (user_range address length))) [
      | inl bad ↦ rw bad (inr (why bad, refl))
      | inr good ↦
          let small : length % u32_mod ≡ length = ground (arith, user_range_iff address length) in
          let from_start : address + 0 + length ≤ 0x60_0000 =
            ground (arith, user_range_iff address length) in
          rw (good, small)
            (reads (read_chars length 0 address k) (ground arith) (ground arith) (ground arith) (
              read_chars-ReadFrom length 0 address k (ground (arith, user_range_iff address length))
                from_start whole))
    ]
  where
    why :
        (not (fd == 0) || (length == 0) || not (user_range address length)) ≡ true
        → (fd ≢ 0) ⊎ (length ≡ 0) ⊎ (user_range address length ≡ false)
    why bad = ground arith

    reads :
        (m : Run (Kernel × Option ℕ))
        → fd ≡ 0
        → 0 < length
        → user_range address length ≡ true
        → Returns m (ReadFrom (address - 0x40_0000 + 0) 0 length k)
        → Returns m (ReadOutcome k fd address length)
    reads (done r) descriptor some_length range out =
        let same : address - 0x40_0000 + 0 ≡ address - 0x40_0000 = omega arith in
        inl (descriptor, some_length, range, subst (λ at. ReadFrom at 0 length k r) same out)
    reads fault descriptor some_length range out = out
