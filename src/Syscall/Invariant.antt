-- ===== src/Syscall/Invariant.antt =====
-- The invariant of the kernel's state, and the load of a program that keeps it.
use mantle_os.Base.{
  ℕ, ◌-◌, ◌%◌, ◌≤◌, ◌<◌, ◌≡◌, ap, sym, subst, ◌∙◌, ◌⊎◌, inl, inr, Option, none, some, List, arith,
  u32_mod,
}
use mantle_os.Memory.{Returns, Returns-bind, Region, le32}
use mantle_os.Rootfs.{RootfsState, RootfsFile, rootfs_open, unmounted, mounted}
use mantle_os.Rootfs.Format.{IsImage, directory, find}
use mantle_os.Rootfs.Open.{rootfs_open-find, find-FileFits, FileFits}
use mantle_os.Elf.{UserSpace, UserImage}
use mantle_os.Elf.Pages.{AllWx}
use mantle_os.Elf.Loader.{elf_load}
use mantle_os.Elf.Outcome.{LoadOutcome, elf_load-LoadOutcome}
use mantle_os.Syscall.{Kernel}
use mantle_os.Syscall.Calls.{load_path, with_memory}

-- No file system, or one that a mount accepted.
abbrev pub RootfsOk : RootfsState → Type 0
RootfsOk state =
    (state ≡ unmounted)
    ⊎ ((image : Region) × (size : ℕ) × (size ≤ image.size)
        × (size < u32_mod)
        × IsImage image.byte size
        × (state ≡ mounted image size (le32 image.byte 4)))

pub record Good (space : UserSpace) (rootfs : RootfsState) (cwd : ℕ → ℕ) : Type 0 where
  pub whole : space.memory.size ≡ 0x20_0000
  pub pages : AllWx space.pages
  pub files : RootfsOk rootfs
  pub ended : (i : ℕ) × (i < 64) × (cwd i ≡ 0)

-- The user memory has its size, no page is both writable and executable, the file system is a
-- well-formed image, and the name of the directory ends inside its array.
abbrev pub KernelOk : Kernel → Type 0
KernelOk k = Good k.space k.rootfs k.process.cwd

abbrev pub Keeps : {A : Kernel → Type 0} → ((k : Kernel) × A k) → Type 0
Keeps r = KernelOk r.0

pub with_memory-KernelOk :
    (k : Kernel)
    → KernelOk k
    → (memory : Region) → memory.size ≡ 0x20_0000
    → KernelOk (with_memory k memory)
with_memory-KernelOk k ok memory whole = record {
  whole = whole;
  pages = ok.pages;
  files = ok.files;
  ended = ok.ended;
}

abbrev pub FileOk : Option RootfsFile → Type 0
FileOk none = Unit {0}
FileOk (some f) = (f.size ≤ f.contents.size) × (f.size < u32_mod)

FileFits-FileOk :
    (image : Region) (size : ℕ) (f : Option RootfsFile)
    → size ≤ image.size
    → size < u32_mod
    → FileFits image size f
    → FileOk f
FileFits-FileOk image size none inside small fits = tt
FileFits-FileOk image size (some f) inside small (offset, fits, contents) =
    let room : f.contents.size ≡ image.size - offset = ap (λ r. r.size) contents in
    (omega arith, omega arith)

pub rootfs_open-FileOk :
    (state : RootfsState) (path : List ℕ)
    → RootfsOk state
    → Returns (rootfs_open state (some path)) FileOk
unfolding rootfs_open
rootfs_open-FileOk state path (inl e) = rw e tt
rootfs_open-FileOk state path (inr (image, size, inside, small, good, e)) =
    rw (e, rootfs_open-find image size inside small path good)
      (FileFits-FileOk image size (find path (directory image)) inside small
        (find-FileFits image size (le32 image.byte 4) 8 path good.fits))

load_path-done :
    (k : Kernel) (image : Region) (size : ℕ) (new : UserSpace) (user : Option UserImage)
    → KernelOk k
    → LoadOutcome image size k.space (new, user)
    → KernelOk (record k { space = new })
load_path-done k image size new none ok (inl same) = record {
  whole = ap (λ s. s.memory.size) same ∙ ok.whole;
  pages = subst (λ s. AllWx s.pages) (sym same) ok.pages;
  files = ok.files;
  ended = ok.ended;
}
load_path-done k image size new none ok (inr kept) = record {
  whole = kept.0;
  pages = kept.1;
  files = ok.files;
  ended = ok.ended;
}
load_path-done k image size new (some user) ok (fits, loaded) = record {
  whole = loaded.size;
  pages = loaded.pages;
  files = ok.files;
  ended = ok.ended;
}

pub load_path-KernelOk :
    (base : ℕ) (k : Kernel) (path : List ℕ)
    → base % 4096 ≡ 0
    → KernelOk k
    → Returns (load_path base k path) (λ r. KernelOk r.0)
unfolding load_path
load_path-KernelOk base k path aligned ok =
    Returns-bind (rootfs_open k.rootfs (some path)) _ FileOk (λ r. KernelOk r.0)
      (rootfs_open-FileOk k.rootfs path ok.files)
      (elim [
        | none ↦ λ t. ok
        | some f ↦ λ (inside, small).
            Returns-bind (elf_load base (some f.contents) f.size k.space) _
              (LoadOutcome f.contents f.size k.space) (λ r. KernelOk r.0)
              (elf_load-LoadOutcome base f.contents f.size k.space aligned inside small ok.whole)
              λ r out. load_path-done k f.contents f.size r.0 r.1 ok out
      ])
