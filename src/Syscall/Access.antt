-- ===== src/Syscall/Access.antt =====
-- The kernel's reads and writes at user addresses stay inside the user memory.
use mantle_os.Base.{
  ℕ, zero, suc, ◌+◌, ◌-◌, ◌≤◌, ◌<◌, ◌≡◌, ◌⊎◌, inl, inr, true, false, not, ◌||◌, Option, none, some,
  List, [], ◌∷◌, ltb, leb, ◌==◌, arith, Bool-cases, length, add64,
}
use mantle_os.Memory.{done, Returns, Returns-bind, Anything, Region, update, read8, write8}
use mantle_os.Elf.{user_range}
use mantle_os.Syscall.{
  read_user, write_user, string_length_from, string_length_user, read_bytes, copy_path, write_bytes,
}

pub user_range_iff :
    (address size : ℕ)
    → ((user_range address size ≡ true) × (0x40_0000 ≤ address) × (address + size ≤ 0x60_0000))
      ⊎ ((user_range address size ≡ false) × (0x40_0000 ≤ address → 0x60_0000 < address + size))
unfolding user_range
user_range_iff address size = ground arith

module _ (memory : Region) (whole : memory.size ≡ 0x20_0000) where
  pub read_user_lem :
      (address : ℕ)
      → 0x40_0000 ≤ address
      → address < 0x60_0000
      → read_user memory address ≡ done (memory.byte (address - 0x40_0000))
  unfolding read_user read8
  read_user_lem address low high = ground arith

  pub write_user_lem :
      (address value : ℕ)
      → 0x40_0000 ≤ address
      → address < 0x60_0000
      → write_user memory address value
        ≡ done (record memory { byte = update memory.byte (address - 0x40_0000) value })
  unfolding write_user write8
  write_user_lem address value low high = ground arith

  string_length_from-Returns :
      (address fuel length : ℕ)
      → 0x40_0000 ≤ address
      → address ≤ 0x60_0000
      → length ≤ 128
      → 128 < length + fuel
      → Returns (string_length_from memory address fuel length) (λ n. n ≤ 128)
  unfolding string_length_from
  string_length_from-Returns address zero length low high l f = absurd (omega arith)
  string_length_from-Returns address (suc fuel) length low high l f =
      elim (Bool-cases (not (ltb length 128) || not (user_range (add64 address length) 1))) [
        | inl stop ↦ rw stop l
        | inr on ↦
            rw
              (
                on,
                read_user_lem (address + length) (omega arith)
                    (ground (arith, user_range_iff (add64 address length) 1)),
              )
              (elim (Bool-cases (memory.byte (address + length - 0x40_0000) == 0)) [
                | inl end ↦ rw end l
                | inr more ↦ rw more (
                    string_length_from-Returns address fuel (length + 1) low high (ground arith)
                      (omega arith))
              ])
      ]

  -- A string of `n` bytes and its zero lie in the user memory.
  abbrev pub InUser : ℕ → Option ℕ → Type 0
  InUser address none = Unit {0}
  InUser address (some n) = (n < 128) × (0x40_0000 ≤ address) × (address + n < 0x60_0000)

  pub string_length_user-InUser :
      (address : ℕ) → Returns (string_length_user memory address) (InUser address)
  unfolding string_length_user
  string_length_user-InUser address = elim (user_range_iff address 1) [
    | inr (e, _) ↦ rw e tt
    | inl (e, low, high) ↦ rw e (
        Returns-bind (string_length_from memory address 129 0) _ (λ n. n ≤ 128) (InUser address)
          (string_length_from-Returns address 129 0 low (omega arith) (omega arith) (omega arith))
          λ n h. elim (Bool-cases ((n == 128) || not (user_range (add64 address n) 1))) [
            | inl bad ↦ rw bad tt
            | inr good ↦ rw good (ground (arith, user_range_iff (add64 address n) 1))
          ])
  ]

  pub read_bytes-Returns :
      (left address : ℕ)
      → 0x40_0000 ≤ address
      → address + left ≤ 0x60_0000
      → Returns (read_bytes memory address left) Anything
  unfolding read_bytes
  read_bytes-Returns zero address low high = tt
  read_bytes-Returns (suc left) address low high = rw (read_user_lem address low (omega arith)) (
      Returns-bind (read_bytes memory (address + 1) left) _ Anything Anything
        (read_bytes-Returns left (address + 1) (omega arith) (omega arith)) λ rest t. tt)

  pub copy_path-Returns : (address : ℕ) → Returns (copy_path memory address) Anything
  unfolding copy_path
  copy_path-Returns address =
      Returns-bind (string_length_user memory address) _ (InUser address) Anything
        (string_length_user-InUser address)
        (elim [
          | none ↦ λ t. tt
          | some n ↦ λ h. elim (Bool-cases (leb 128 n)) [
            | inl long ↦ rw long tt
            | inr short ↦ rw short (
                Returns-bind (read_bytes memory address (n + 1)) _ Anything Anything
                  (read_bytes-Returns (n + 1) address h.1 (omega arith)) λ bytes t. tt)
          ]
        ])

pub write_bytes-Returns :
    (bytes : List ℕ) (memory : Region) (address : ℕ)
    → memory.size ≡ 0x20_0000
    → 0x40_0000 ≤ address
    → address + length bytes ≤ 0x60_0000
    → Returns (write_bytes memory address bytes) (λ m. m.size ≡ 0x20_0000)
unfolding write_bytes
write_bytes-Returns [] memory address whole low high = whole
write_bytes-Returns (b ∷ bs) memory address whole low high =
    rw (write_user_lem memory whole address b low (omega arith))
      (write_bytes-Returns bs _ (address + 1) whole (omega arith) (omega arith))
