-- ===== src/Lib.antt =====
-- MantleOS: the kernel of a small x86-64 operating system and the programs around it. The boot loader
-- hands the kernel a module that holds the root file system; the kernel mounts it, loads /bin/hello
-- from it into the user memory and enters user mode, and from then on runs for system calls only. It
-- has one process, which exec replaces.
--
-- The files and the code that they model:
--   Base, Memory    the shared names, the wrap-around of C's unsigned types (include/mantle/types.h),
--                   and the memory that the C code reads and writes through pointers
--   Multiboot2      kernel/boot/multiboot2.c: mantle_mb2_parse_module (parse_module)
--   Rootfs          kernel/fs/rootfs.c: mantle_rootfs_mount, _open, _list, _ready
--   Elf             kernel/process/elf.c: mantle_elf_load (elf_load, in Elf/Loader)
--   Process         kernel/process/process.c: mantle_process_init
--   Keyboard        keyboard_read of kernel/syscall.c
--   Console         mantle_console_write and the numerals of kernel/arch/x86_64/kernel.c
--   Boot            the rest of that file up to user mode: find_rootfs in Boot, ring3_diagnostics and
--                   mantle_kernel_main (kernel_main) in Boot/Start
--   Syscall         kernel/syscall.c: the system calls (Syscall/Calls) and mantle_syscall_dispatch
--                   (Syscall/Dispatch)
--   Running         the kernel from its start through any sequence of user computations and system calls
--   Efi             boot/efi/loader.c: open_root, read_file, load_kernel, build_info, efi_main
--   Framebuffer     kernel/graphics/framebuffer.c: pixels and rectangles, lines (Framebuffer/Line), the
--                   splash screen (Framebuffer/Splash), mantle_framebuffer_init (Framebuffer/Init)
--   Strings         userspace/libc/mantle-string.c: mantle_strlen, mantle_streq
--   UserShell       userspace/mantle-shell.c; init.c, hello.c and mantle.c in UserShell/Programs
--   ShellState      ui/shell/mantle-shell-state.c, without its JSON text
--   CommandLine     shell/mantle-shell.c: the tokens of a line and the expansion of variables, and in
--                   CommandLine/Commands what run_line reads before it executes
--   Packages        services/mantle.c: the checks of paths and manifest lines, and the rollback
--   Tests           runs on small inputs
-- The children of a module either define a further part of that code (Rootfs/Listing, Elf/Loader,
-- Syscall/Calls, Syscall/Dispatch, Boot/Start, Boot/Texts, Efi/Info, Efi/Files, Efi/Main and those named
-- above) or are about it. Base/Int has the signed numbers. Rootfs/Format says what a
-- well-formed image is and what it lists, Elf/Format what an executable places where; both read the
-- bytes directly and do not use the code's loops.
--
-- A pointer with the memory behind it is a `Region`: a function from offsets to bytes and a size. An
-- access outside is `fault`, so a theorem that a run ends in `done` says that the code stays within
-- bounds. A null pointer is `none`. A static variable is a field of the state that an operation takes
-- and returns. Arithmetic on C's unsigned types wraps by `%`; an addition or a subtraction that is
-- written without it cannot wrap where it stands.
--
-- The user memory (mantle_user_memory, 0x200000 bytes) and its page table (user_page_table) are a
-- `UserSpace`. The address of mantle_user_memory, which the linker chooses, is the argument `base`. The
-- kernel runs on the page table of the user, so a system call reaches the user memory at the addresses
-- from 0x400000 to 0x600000; the model faults elsewhere. A page that the user may not write is no fault
-- for the kernel, which does not set CR0.WP. The test user_range stands in elf.c and in syscall.c with
-- the same text and is one definition.
--
-- At the start, the memory is the region `ram` from the address 0 on, of at least the four gigabytes
-- that the assembly maps. The boot loader is assumed to put the module outside the user memory; the
-- region of the mounted image is then apart from it. The memory of the frame buffer's device is a
-- region of its own, apart from what the kernel reads of `ram`. What the assembly sets up (the
-- descriptor table, the task register, the page directory) is a record of values, which only chooses
-- texts or ends the start.
--
-- The calls of the firmware in the EFI loader are parameters: the status codes and what the calls
-- yield, and the predicate u.is_error of a status. The loader's loops over bytes have the same text
-- as those of elf.c and are the same definitions. In Framebuffer, int32_t is a signed number, and an
-- addition or a multiplication that leaves its range is a fault, as is a shift by 32 or more. The
-- user programs reach the kernel through an interface of system calls (System), the package manager
-- reaches files through one of access, cp -a and unlink (Files); its strings are lists of bytes. In
-- CommandLine, an access behind the end of a buffer is a fault, and the environment is a function.
--
-- Loops recur on the number of rounds that is left where the code computes it first: the entries of
-- an image, the program headers, the bytes to copy. The other loops have fuel, and run out of it in
-- a `fault`: component_length and word_end of Rootfs/Listing, string_length_from of Syscall and
-- cwd_length of Syscall/Calls, scan_tags of Boot, the loops of Strings, and those of Framebuffer's
-- rectangle and lines, and read_word, expand and read_words of CommandLine, whose fuel is the length
-- of the text. The results that exclude a fault show that the fuel is enough. The search of
-- mantle_framebuffer_init has no bound in the code; its fuel is the number of tags that it looks at.
-- The shell of the console runs for ever; shell_main has at most a given number of rounds. The wait
-- for a key is recursion on the scan codes to come, and a wait without end is a result of its own,
-- as are the endless loops of exit and reboot.
--
-- What is not modelled: the assembly (kernel/arch/x86_64/boot.S), the registers and tables of the
-- processor and the report of an exception (kernel/arch/x86_64/kernel.c), the JSON text of
-- ui/shell/mantle-shell-state.c, and the tools for Linux (init, services, system, scripting, shell,
-- boot/splash) but for the named parts of services/mantle.c and shell/mantle-shell.c, since they
-- consist of calls of libc and Linux. The set-up of the serial line and the waits for it are left
-- out; the reset of the machine is a result only.
pub mod Base
pub mod Memory
pub mod Rootfs
pub mod Efi
pub mod Elf
pub mod Multiboot2
pub mod Process
pub mod Keyboard
pub mod Console
pub mod Framebuffer
pub mod Syscall
pub mod Boot
pub mod ShellState
pub mod Strings
pub mod UserShell
pub mod Running
pub mod Packages
pub mod CommandLine
mod Tests
