-- ===== src/Syscall/Exec.antt =====
-- What syscall_exec of kernel/syscall.c hands to the program that it starts.
use mantle_os.Base.{ℕ, ◌%◌, ◌≡◌, refl, ◌⊎◌, inl, inr, Option, none, some, List}
use mantle_os.Memory.{done, Returns, Returns-bind, Returns-known, Anything}
use mantle_os.Rootfs.{RootfsFile, rootfs_open}
use mantle_os.Elf.{UserImage, UserSpace}
use mantle_os.Elf.Loader.{elf_load}
use mantle_os.Elf.Outcome.{IsLoaded, LoadOutcome, elf_load-LoadOutcome}
use mantle_os.Syscall.{SyscallFrame, Kernel, failed, copy_path}
use mantle_os.Syscall.Access.{copy_path-Returns}
use mantle_os.Syscall.Calls.{load_path, enter_image, exec_result, syscall_exec}
use mantle_os.Syscall.Invariant.{KernelOk, FileOk, rootfs_open-FileOk}

-- The file of that path was loaded over the user memory.
pub record Started (k : Kernel) (path : List ℕ) (space : UserSpace) (user : UserImage)
    : Type 0 where
  pub file : RootfsFile
  pub found : rootfs_open k.rootfs (some path) ≡ done (some file)
  pub loaded : IsLoaded file.contents space user

abbrev pub LoadPathOutcome : Kernel → List ℕ → Kernel × Option UserImage → Type 0
LoadPathOutcome k path (k', none) = k' ≡ record k { space = k'.space }
LoadPathOutcome k path (k', some user) =
    (k' ≡ record k { space = k'.space }) × Started k path k'.space user

pub load_path-LoadPathOutcome :
    (base : ℕ) (k : Kernel) (path : List ℕ)
    → base % 4096 ≡ 0
    → KernelOk k
    → Returns (load_path base k path) (LoadPathOutcome k path)
unfolding load_path
load_path-LoadPathOutcome base k path aligned ok =
    Returns-bind (rootfs_open k.rootfs (some path)) _
      (λ f. FileOk f × (rootfs_open k.rootfs (some path) ≡ done f)) (LoadPathOutcome k path)
      (Returns-known _ FileOk (rootfs_open-FileOk k.rootfs path ok.files))
      (elim [
        | none ↦ λ t. refl
        | some f ↦ λ ((inside, small), found).
            Returns-bind (elf_load base (some f.contents) f.size k.space) _
              (LoadOutcome f.contents f.size k.space) (LoadPathOutcome k path)
              (elf_load-LoadOutcome base f.contents f.size k.space aligned inside small ok.whole)
              λ r out. finish f found r.0 r.1 out
      ])
  where
    finish :
        (f : RootfsFile)
        → rootfs_open k.rootfs (some path) ≡ done (some f)
        → (space : UserSpace) (user : Option UserImage)
        → LoadOutcome f.contents f.size k.space (space, user)
        → LoadPathOutcome k path (record k { space = space }, user)
    finish f found space none out = refl
    finish f found space (some user) (fits, loaded) =
        (refl, record { file = f; found = found; loaded = loaded })

-- How an exec may end.
abbrev pub ExecOutcome : Kernel → SyscallFrame → ℕ → Kernel × SyscallFrame × ℕ → Type 0
ExecOutcome k frame address (k', frame', result) =
    ((result ≡ failed) × (frame' ≡ frame) × (k' ≡ record k { space = k'.space }))
    ⊎ ((path : List ℕ) × (user : UserImage) × (result ≡ 0)
        × (frame' ≡ enter_image frame user)
        × (k' ≡ record k { space = k'.space })
        × (copy_path k.space.memory address ≡ done (some path))
        × Started k path k'.space user)

exec_result-ExecOutcome :
    (k : Kernel) (frame : SyscallFrame) (address : ℕ) (path : List ℕ)
    → copy_path k.space.memory address ≡ done (some path)
    → (r : Kernel × Option UserImage) → LoadPathOutcome k path r
    → ExecOutcome k frame address (exec_result frame r)
exec_result-ExecOutcome k frame address path copied (k', none) same = inl (refl, refl, same)
exec_result-ExecOutcome k frame address path copied (k', some user) (same, started) =
    inr (path, user, refl, refl, same, copied, started)

-- With a kernel that satisfies the invariant and a user memory that starts at a page boundary: An exec
-- changes nothing of the kernel but the user memory and its pages. It returns 0 only if the
-- path names a file of the file system that was loaded as a whole, and then the frame continues at
-- the entry point of that program, with its stack and the caller's other registers; else it returns
-- -1 and leaves the frame as it was.
pub syscall_exec-ExecOutcome :
    (base : ℕ) (k : Kernel) (frame : SyscallFrame) (address : ℕ)
    → base % 4096 ≡ 0
    → KernelOk k
    → Returns (syscall_exec base k frame address) (ExecOutcome k frame address)
unfolding syscall_exec
syscall_exec-ExecOutcome base k frame address aligned ok =
    Returns-bind (copy_path k.space.memory address) _
      (λ p. Anything p × (copy_path k.space.memory address ≡ done p)) (ExecOutcome k frame address)
      (Returns-known _ Anything (copy_path-Returns k.space.memory ok.whole address))
      (elim [
        | none ↦ λ t. inl (refl, refl, refl)
        | some path ↦ λ (t, copied).
            Returns-bind (load_path base k path) _ (LoadPathOutcome k path)
              (ExecOutcome k frame address) (load_path-LoadPathOutcome base k path aligned ok)
              (exec_result-ExecOutcome k frame address path copied)
      ])
