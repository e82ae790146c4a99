-- ===== src/Tests.antt =====
-- Runs on small inputs, and each theorem at an input that meets its hypotheses.
mod Bytes
mod Rootfs
mod Efi
mod Elf
mod Multiboot2
mod Syscall
mod Console
mod Boot
mod Framebuffer
mod ShellState
mod Strings
mod UserShell
mod Running
mod Packages
mod CommandLine
