-- ===== src/Elf/Outcome.antt =====
-- `mantle_elf_load` as a whole.
use mantle_os.Base.{
  ℕ, zero, suc, ◌+◌, ◌%◌, ◌≤◌, ◌<◌, ◌≡◌, refl, ap, ◌∙◌, ◌⊎◌, inl, inr, false, ◌||◌, not, Option,
  none, some, ◌==◌, arith, lt→ltb, ltb-false, u32_mod, Bool-cases, dec_lt,
}
use mantle_os.Memory.{Run, done, fault, ◌>>=◌, Returns, Region, le16, le64}
use mantle_os.Elf.{UserSpace, UserImage, elf_header_rejected, user_range}
use mantle_os.Memory.Overlay.{overlay, with_bytes}
use mantle_os.Elf.Copy.{clear_bytes-overlay}
use mantle_os.Elf.Pages.{
  AllWx, IsWx, set_pages-overlay, page_entry-IsWx, blank-IsSafe, stack-IsSafe,
}
use mantle_os.Elf.Loader.{
  LoadStep, next, reject, prepare_space, finish_load, load_checked, elf_load, page_entry,
  blank_permissions, stack_permissions,
}
use mantle_os.Elf.Format.{
  elf_header_at, HeaderFits, EntryIn, place_all, read_elf_header_lem, header-HeaderFits,
}
use mantle_os.Elf.Place.{overlay-AllWx}
use mantle_os.Elf.Load.{Kept, LoopOutcome, load_programs-LoopOutcome}

abbrev pub zeros : ℕ → ℕ
zeros i = 0

pub record Prepared (old new : UserSpace) : Type 0 where
  pub bytes : new.memory ≡ with_bytes old.memory (overlay old.memory.byte 0 0x20_0000 zeros)
  pub pages : AllWx new.pages

pub blank-AllWx : (pages g : ℕ → ℕ) → ((k : ℕ) → IsWx (g k)) → AllWx (overlay pages 0 512 g)
blank-AllWx pages g new i h = ground (arith, new i)

pub prepare_space-Prepared :
    (base : ℕ) (space : UserSpace)
    → base % 4096 ≡ 0
    → space.memory.size ≡ 0x20_0000
    → Returns (prepare_space base space) (Prepared space)
unfolding prepare_space
prepare_space-Prepared base space aligned whole =
    let blank = overlay space.pages 0 512 (λ k. page_entry base (0 + k) blank_permissions) in
    rw
      (
        clear_bytes-overlay 0x20_0000 space.memory 0 (omega arith),
        set_pages-overlay base 512 0 blank_permissions space.pages (omega arith),
        set_pages-overlay base 16 496 stack_permissions blank (omega arith),
      )
      (record {
        bytes = refl;
        pages =
            overlay-AllWx blank (λ k. page_entry base (496 + k) stack_permissions) 496 16
              (blank-AllWx space.pages (λ k. page_entry base (0 + k) blank_permissions)
                (λ k. page_entry-IsWx base (0 + k) blank_permissions aligned blank-IsSafe))
              (λ k. page_entry-IsWx base (496 + k) stack_permissions aligned stack-IsSafe);
      })

-- What is placed at an offset depends on the memory before at that offset only.
place_all-cong :
    (f : ℕ → ℕ) (n at : ℕ) (old old' : ℕ → ℕ) (i : ℕ)
    → old i ≡ old' i
    → place_all f n at old i ≡ place_all f n at old' i
place_all-cong f zero at old old' i e = e
place_all-cong f (suc n) at old old' i e = place_all-cong f n (at + 56) _ _ i (ground arith)

-- The bytes, the pages and the entry that a successful load of `image` hands over.
pub record IsLoaded (image : Region) (space : UserSpace) (user : UserImage) : Type 0 where
  pub bytes :
      (i : ℕ)
      → i < 0x20_0000
      → space.memory.byte i
        ≡ place_all image.byte
            (elf_header_at image.byte).phnum
            (elf_header_at image.byte).phoff
            zeros
            i
  pub size : space.memory.size ≡ 0x20_0000
  pub pages : AllWx space.pages
  pub entry_at : user.entry ≡ (elf_header_at image.byte).entry
  pub entry_in :
      EntryIn image.byte
        (elf_header_at image.byte).phnum
        (elf_header_at image.byte).phoff
        user.entry
  pub stack : user.stack ≡ 0x60_0000

abbrev pub LoadOutcome : Region → ℕ → UserSpace → UserSpace × Option UserImage → Type 0
LoadOutcome image size old (new, some user) =
    HeaderFits (elf_header_at image.byte) size × IsLoaded image new user
LoadOutcome image size old (new, none) = (new ≡ old) ⊎ Kept new

finish_load-LoadOutcome :
    (image : Region) (size : ℕ) (old prepared : UserSpace) (m : Run LoadStep)
    → old.memory.size ≡ 0x20_0000
    → HeaderFits (elf_header_at image.byte) size
    → Prepared old prepared
    → Returns m (
        LoopOutcome
          (elf_header_at image.byte)
          image
          (elf_header_at image.byte).phnum
          (elf_header_at image.byte).phoff
          (record { space = prepared; load_count = 0; entry_valid = false }))
    → Returns (m >>= finish_load (elf_header_at image.byte)) (LoadOutcome image size old)
unfolding finish_load
finish_load-LoadOutcome image size old prepared (done (next s)) whole fits start loaded =
    elim (Bool-cases ((s.load_count == 0) || not s.entry_valid)) [
      | inl bad ↦
          rw bad (
            inr
              (ap (λ m. m.size) loaded.bytes ∙ ap (λ m. m.size) start.bytes ∙ whole, loaded.pages))
      | inr good ↦ rw good (
        fits,
        record {
          bytes = λ i h.
              ap (λ m. m.byte i) loaded.bytes
              ∙ place_all-cong image.byte (le16 image.byte 56) (le64 image.byte 32)
                  prepared.memory.byte zeros i (cleared i h);
          size = ap (λ m. m.size) loaded.bytes ∙ ap (λ m. m.size) start.bytes ∙ whole;
          pages = loaded.pages;
          entry_at = refl;
          entry_in = elim (loaded.entry (ground arith)) [ inl never ↦ cc | inr holds ↦ holds ];
          stack = refl;
        },
      )
    ]
  where
    cleared : (i : ℕ) → i < 0x20_0000 → prepared.memory.byte i ≡ 0
    cleared i h = ap (λ m. m.byte i) start.bytes ∙ ground arith
finish_load-LoadOutcome image size old prepared (done (reject space)) whole fits start kept =
    inr kept
finish_load-LoadOutcome image size old prepared fault whole fits start out = out

load_checked-LoadOutcome :
    (base : ℕ) (image : Region) (size : ℕ) (old : UserSpace)
    → base % 4096 ≡ 0
    → size ≤ image.size
    → size < u32_mod
    → old.memory.size ≡ 0x20_0000
    → HeaderFits (elf_header_at image.byte) size
    → (m : Run UserSpace) → Returns m (Prepared old)
    → Returns
        (m >>= load_checked base image size (elf_header_at image.byte))
        (LoadOutcome image size old)
unfolding load_checked
load_checked-LoadOutcome base image size old aligned inside small whole fits (done prepared) start =
    finish_load-LoadOutcome image size old prepared _ whole fits start (
      load_programs-LoopOutcome base aligned image size inside small (elf_header_at image.byte)
        fits.entry_size (le16 image.byte 56) 0 (le64 image.byte 32) _ (omega arith)
        fits.table_inside (ap (λ m. m.size) start.bytes ∙ whole, start.pages))
load_checked-LoadOutcome base image size old aligned inside small whole fits fault out = out

-- With an image of at least `size` bytes, a 32-bit size, and a user memory of 2 MiB that starts at a
-- page boundary: A load never reads outside the image and never writes outside the user memory and its page
-- table. If it succeeds, the header is that of an x86-64 executable, the user memory holds the
-- segments in their order over zeros, the entry point lies in an executable segment, the stack is
-- at the top, and no page is both writable and executable. If it fails, either nothing has changed
-- or still no page is both.
pub elf_load-LoadOutcome :
    (base : ℕ) (image : Region) (size : ℕ) (space : UserSpace)
    → base % 4096 ≡ 0
    → size ≤ image.size
    → size < u32_mod
    → space.memory.size ≡ 0x20_0000
    → Returns (elf_load base (some image) size space) (LoadOutcome image size space)
unfolding elf_load
elf_load-LoadOutcome base image size space aligned inside small whole = elim (dec_lt size 64) [
  | yes h ↦ rw (lt→ltb size 64 h) (inl refl)
  | no h ↦
      rw (ltb-false size 64 (omega arith), read_elf_header_lem image (omega arith))
        (elim (Bool-cases (
          elf_header_rejected (elf_header_at image.byte) size
          || not (user_range (le64 image.byte 24) 1))) [
            | inl bad ↦ rw bad (inl refl)
            | inr good ↦ rw good (
                load_checked-LoadOutcome base image size space aligned inside small whole
                  (header-HeaderFits (elf_header_at image.byte) size small (ground arith))
                  (prepare_space base space) (prepare_space-Prepared base space aligned whole))
          ])
]
