-- ===== src/Syscall/Effects.antt =====
-- What single calls of kernel/syscall.c do to the console and to the descriptors.
use mantle_os.Base.{
  ℕ, zero, suc, ◌+◌, ◌-◌, ◌%◌, ◌≤◌, ◌<◌, ◌≡◌, refl, ap, ◌∙◌, inl, inr, true, false, not, ◌&&◌, ◌||◌,
  Option, none, some, List, [], ◌∷◌, ◌==◌, if◌then◌else◌, arith, Bool-cases, u32_mod, ◌⊎◌,
  ℕ_discrete,
}
use mantle_os.Memory.{Run, done, fault, Returns}
use mantle_os.Console.{Console, putc, console_write}
use mantle_os.Elf.{user_range}
use mantle_os.Rootfs.{RootfsFile, rootfs_open}
use mantle_os.Rootfs.Format.{bytes_at}
use mantle_os.Syscall.{Kernel, write_console, failed, copy_path}
use mantle_os.Syscall.Calls.{
  write_chars, syscall_write, set_descriptor, open_descriptor, syscall_open,
}
use mantle_os.Syscall.Access.{user_range_iff, read_user_lem}

-- The bytes that reach the console: a zero ends the string that a character is wrapped in.
abbrev pub visible : List ℕ → List ℕ
visible [] = []
visible (c ∷ cs) = if c == 0 then visible cs else c ∷ visible cs

-- The console after a text without a zero.
abbrev pub put_all : Console → List ℕ → Console
put_all c [] = c
put_all c (value ∷ text) = put_all (putc c value) text

shown_once :
    (b : ℕ) (c : Console) (rest : List ℕ)
    → put_all (console_write c (b ∷ 0 ∷ [])) (visible rest) ≡ put_all c (visible (b ∷ rest))
unfolding console_write
shown_once b c rest = elim (Bool-cases (b == 0)) [
  | inl ending ↦ rw ending refl
  | inr shown ↦ rw shown refl
]

write_chars-visible :
    (left address : ℕ) (k : Kernel)
    → k.space.memory.size ≡ 0x20_0000
    → 0x40_0000 ≤ address
    → address + left ≤ 0x60_0000
    → write_chars left address k
      ≡ done (record k {
        console =
            put_all k.console (visible (bytes_at k.space.memory.byte (address - 0x40_0000) left));
      })
unfolding write_chars write_console
write_chars-visible zero address k whole low high = refl
write_chars-visible (suc left) address k whole low high =
    let e : address + 1 - 0x40_0000 ≡ address - 0x40_0000 + 1 = omega arith in
    let b = k.space.memory.byte (address - 0x40_0000) in
    rw
      (
        read_user_lem k.space.memory whole address low (omega arith),
        write_chars-visible left (address + 1) (write_console k (b ∷ 0 ∷ [])) whole (omega arith)
            (omega arith),
        e,
      )
      (ap (λ c. done (record k { console = c }))
        (shown_once b k.console (bytes_at k.space.memory.byte (address - 0x40_0000 + 1) left)))

-- With a user memory of 2 MiB: A write to descriptor 1 or 2 of a range of the user memory sends the bytes of that range, without
-- the zeros, to the console in their order, changes nothing else of the kernel, and returns the
-- length; any other write changes nothing and returns -1.
pub syscall_write-visible :
    (k : Kernel) (fd address length : ℕ)
    → k.space.memory.size ≡ 0x20_0000
    → syscall_write k fd address length
      ≡ done (
          if ((fd == 1) || (fd == 2)) && user_range address length
          then (
            record k {
              console =
                  put_all k.console
                    (visible (bytes_at k.space.memory.byte (address - 0x40_0000) length));
            },
            length,
          )
          else (k, failed))
unfolding syscall_write
syscall_write-visible k fd address length whole = elim (user_range_iff address length) [
  | inr (e, _) ↦ ground (arith, e)
  | inl (e, low, high) ↦
      let small : length % u32_mod ≡ length = omega arith in
      elim (Bool-cases ((fd == 1) || (fd == 2))) [
        | inl either ↦
            let test : (not (fd == 1) && not (fd == 2)) ≡ false = ground arith in
            rw (e, small, either, test, write_chars-visible length address k whole low high) refl
        | inr neither ↦
            let test : (not (fd == 1) && not (fd == 2)) ≡ true = ground arith in
            rw (neither, test) refl
      ]
]

-- What the loop of syscall_open ends with, for the file that the path names.
abbrev pub OpenOutcome : Kernel → Option RootfsFile → ℕ → Kernel × ℕ → Type 0
OpenOutcome k found fd (k', result) =
    ((result ≡ failed)
      × (k' ≡ k)
      × ((found ≡ none) ⊎ ((i : ℕ) → fd ≤ i → i < 8 → (k.descriptors i).used ≡ true)))
    ⊎ ((file : RootfsFile) × (found ≡ some file)
        × (fd ≤ result)
        × (result < 8)
        × ((k.descriptors result).used ≡ false)
        × ((i : ℕ) → fd ≤ i → i < result → (k.descriptors i).used ≡ true)
        × (k' ≡ set_descriptor k result (record { used = true; file = file; offset = 0 })))

OpenOutcome-taken :
    (k : Kernel) (found : Option RootfsFile) (fd : ℕ) (r : Kernel × ℕ)
    → (k.descriptors fd).used ≡ true
    → OpenOutcome k found (fd + 1) r
    → OpenOutcome k found fd r
OpenOutcome-taken k found fd (k', result) taken (inl (e, same, inl missing)) =
    inl (e, same, inl missing)
OpenOutcome-taken k found fd (k', result) taken (inl (e, same, inr full)) = inl (
  e,
  same,
  inr λ i low high. elim (ℕ_discrete i fd) [
    | yes here ↦ ap (λ j. (k.descriptors j).used) here ∙ taken
    | no above ↦ full i (omega arith) high
  ],
)
OpenOutcome-taken k found fd (k', result) taken (inr (file, e, low, high, free, full, same)) = inr (
  file,
  e,
  omega arith,
  high,
  free,
  λ i l h. elim (ℕ_discrete i fd) [
    | yes here ↦ ap (λ j. (k.descriptors j).used) here ∙ taken
    | no above ↦ full i (omega arith) h
  ],
  same,
)

open_descriptor-none :
    (k : Kernel) (path : List ℕ) (left fd : ℕ)
    → rootfs_open k.rootfs (some path) ≡ done none
    → open_descriptor k path left fd ≡ done (k, failed)
unfolding open_descriptor
open_descriptor-none k path zero fd e = refl
open_descriptor-none k path (suc left) fd e = elim (Bool-cases ((k.descriptors fd).used)) [
  | inl taken ↦ rw (open_descriptor, taken) (open_descriptor-none k path left (fd + 1) e)
  | inr free ↦ rw (open_descriptor, free, e) (open_descriptor-none k path left (fd + 1) e)
]

open_descriptor-some :
    (k : Kernel) (path : List ℕ) (file : RootfsFile) (left fd : ℕ)
    → fd + left ≡ 8
    → rootfs_open k.rootfs (some path) ≡ done (some file)
    → Returns (open_descriptor k path left fd) (OpenOutcome k (some file) fd)
unfolding open_descriptor
open_descriptor-some k path file zero fd end e =
    inl (refl, refl, inr λ i low high. absurd (omega arith))
open_descriptor-some k path file (suc left) fd end e = elim (Bool-cases ((k.descriptors fd).used)) [
  | inl taken ↦
      rw (open_descriptor, taken)
        (go (open_descriptor k path left (fd + 1)) taken
          (open_descriptor-some k path file left (fd + 1) (omega arith) e))
  | inr free ↦
      rw (open_descriptor, free, e)
        (inr (file, refl, omega arith, omega arith, free, (λ i l h. absurd (omega arith)), refl))
]
  where
    go :
        (m : Run (Kernel × ℕ))
        → (k.descriptors fd).used ≡ true
        → Returns m (OpenOutcome k (some file) (fd + 1))
        → Returns m (OpenOutcome k (some file) fd)
    go (done r) taken out = OpenOutcome-taken k (some file) fd r taken out
    go fault taken out = out

-- An open of a path that the user memory holds takes the first free descriptor from 3 to 7 if the
-- file system has such a file: that descriptor is then in use, of that file and at offset 0, and
-- the others are as before. It changes nothing and returns -1 exactly if there is no such file or
-- no free descriptor.
pub syscall_open-OpenOutcome :
    (k : Kernel) (address : ℕ) (path : List ℕ) (found : Option RootfsFile)
    → copy_path k.space.memory address ≡ done (some path)
    → rootfs_open k.rootfs (some path) ≡ done found
    → Returns (syscall_open k address) (OpenOutcome k found 3)
unfolding syscall_open
syscall_open-OpenOutcome k address path none copied e =
    rw (copied, open_descriptor-none k path 5 3 e) (inl (refl, refl, inl refl))
syscall_open-OpenOutcome k address path (some file) copied e =
    rw copied (open_descriptor-some k path file 5 3 refl e)
