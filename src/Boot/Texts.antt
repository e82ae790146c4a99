-- ===== src/Boot/Texts.antt =====
-- The texts that kernel/arch/x86_64/kernel.c writes.
use mantle_os.Base.{ℕ, List, [], ◌∷◌}

abbrev pub text_mantle_os : List ℕ
text_mantle_os = b'M' ∷ b'a' ∷ b'n' ∷ b't' ∷ b'l' ∷ b'e' ∷ b'O' ∷ b'S' ∷ b'\n' ∷ []

abbrev pub text_started : List ℕ
text_started =
    b'M' ∷ b'a' ∷ b'n' ∷ b't' ∷ b'l' ∷ b'e' ∷ b'O' ∷ b'S' ∷ b' ' ∷ b'k' ∷ b'e' ∷ b'r' ∷ b'n' ∷ b'e'
    ∷ b'l' ∷ b' ' ∷ b'd' ∷ b'e' ∷ b'm' ∷ b'a' ∷ b'r' ∷ b'r' ∷ b'e' ∷ b'\n' ∷ []

abbrev pub text_kernel_ok : List ℕ
text_kernel_ok =
    b'M' ∷ b'A' ∷ b'N' ∷ b'T' ∷ b'L' ∷ b'E' ∷ b'_' ∷ b'K' ∷ b'E' ∷ b'R' ∷ b'N' ∷ b'E' ∷ b'L' ∷ b'_'
    ∷ b'O' ∷ b'K' ∷ b'\n' ∷ []

abbrev pub text_magic_ok : List ℕ
text_magic_ok =
    b'M' ∷ b'A' ∷ b'N' ∷ b'T' ∷ b'L' ∷ b'E' ∷ b'_' ∷ b'M' ∷ b'B' ∷ b'2' ∷ b'_' ∷ b'M' ∷ b'A' ∷ b'G'
    ∷ b'I' ∷ b'C' ∷ b'_' ∷ b'O' ∷ b'K' ∷ b'\n' ∷ []

abbrev pub text_magic_error : List ℕ
text_magic_error =
    b'M' ∷ b'A' ∷ b'N' ∷ b'T' ∷ b'L' ∷ b'E' ∷ b'_' ∷ b'M' ∷ b'B' ∷ b'2' ∷ b'_' ∷ b'M' ∷ b'A' ∷ b'G'
    ∷ b'I' ∷ b'C' ∷ b'_' ∷ b'E' ∷ b'R' ∷ b'R' ∷ b'O' ∷ b'R' ∷ b'\n' ∷ []

abbrev pub text_graphics_ok : List ℕ
text_graphics_ok =
    b'M' ∷ b'A' ∷ b'N' ∷ b'T' ∷ b'L' ∷ b'E' ∷ b'_' ∷ b'G' ∷ b'R' ∷ b'A' ∷ b'P' ∷ b'H' ∷ b'I' ∷ b'C'
    ∷ b'S' ∷ b'_' ∷ b'O' ∷ b'K' ∷ b'\n' ∷ []

abbrev pub text_graphics_unavailable : List ℕ
text_graphics_unavailable =
    b'M' ∷ b'A' ∷ b'N' ∷ b'T' ∷ b'L' ∷ b'E' ∷ b'_' ∷ b'G' ∷ b'R' ∷ b'A' ∷ b'P' ∷ b'H' ∷ b'I' ∷ b'C'
    ∷ b'S' ∷ b'_' ∷ b'U' ∷ b'N' ∷ b'A' ∷ b'V' ∷ b'A' ∷ b'I' ∷ b'L' ∷ b'A' ∷ b'B' ∷ b'L' ∷ b'E'
    ∷ b'\n' ∷ []

abbrev pub text_rootfs_not_found : List ℕ
text_rootfs_not_found =
    b'M' ∷ b'A' ∷ b'N' ∷ b'T' ∷ b'L' ∷ b'E' ∷ b'_' ∷ b'R' ∷ b'O' ∷ b'O' ∷ b'T' ∷ b'F' ∷ b'S' ∷ b'_'
    ∷ b'N' ∷ b'O' ∷ b'T' ∷ b'_' ∷ b'F' ∷ b'O' ∷ b'U' ∷ b'N' ∷ b'D' ∷ b'\n' ∷ []

abbrev pub text_rootfs_invalid : List ℕ
text_rootfs_invalid =
    b'M' ∷ b'A' ∷ b'N' ∷ b'T' ∷ b'L' ∷ b'E' ∷ b'_' ∷ b'R' ∷ b'O' ∷ b'O' ∷ b'T' ∷ b'F' ∷ b'S' ∷ b'_'
    ∷ b'I' ∷ b'N' ∷ b'V' ∷ b'A' ∷ b'L' ∷ b'I' ∷ b'D' ∷ b'\n' ∷ []

abbrev pub text_mapping_error : List ℕ
text_mapping_error =
    b'M' ∷ b'A' ∷ b'N' ∷ b'T' ∷ b'L' ∷ b'E' ∷ b'_' ∷ b'R' ∷ b'O' ∷ b'O' ∷ b'T' ∷ b'F' ∷ b'S' ∷ b'_'
    ∷ b'M' ∷ b'A' ∷ b'P' ∷ b'P' ∷ b'I' ∷ b'N' ∷ b'G' ∷ b'_' ∷ b'E' ∷ b'R' ∷ b'R' ∷ b'O' ∷ b'R'
    ∷ b'\n' ∷ []

abbrev pub text_rootfs_ok : List ℕ
text_rootfs_ok =
    b'M' ∷ b'A' ∷ b'N' ∷ b'T' ∷ b'L' ∷ b'E' ∷ b'_' ∷ b'R' ∷ b'O' ∷ b'O' ∷ b'T' ∷ b'F' ∷ b'S' ∷ b'_'
    ∷ b'O' ∷ b'K' ∷ b'\n' ∷ []

abbrev pub text_elf_error : List ℕ
text_elf_error =
    b'M' ∷ b'A' ∷ b'N' ∷ b'T' ∷ b'L' ∷ b'E' ∷ b'_' ∷ b'E' ∷ b'L' ∷ b'F' ∷ b'_' ∷ b'E' ∷ b'R' ∷ b'R'
    ∷ b'O' ∷ b'R' ∷ b'\n' ∷ []

abbrev pub text_elf_ok : List ℕ
text_elf_ok =
    b'M' ∷ b'A' ∷ b'N' ∷ b'T' ∷ b'L' ∷ b'E' ∷ b'_' ∷ b'E' ∷ b'L' ∷ b'F' ∷ b'_' ∷ b'O' ∷ b'K' ∷ b'\n'
    ∷ []

abbrev pub text_rootfs_error : List ℕ
text_rootfs_error =
    b'M' ∷ b'A' ∷ b'N' ∷ b'T' ∷ b'L' ∷ b'E' ∷ b'_' ∷ b'R' ∷ b'O' ∷ b'O' ∷ b'T' ∷ b'F' ∷ b'S' ∷ b'_'
    ∷ b'E' ∷ b'R' ∷ b'R' ∷ b'O' ∷ b'R' ∷ b'\n' ∷ []

abbrev pub text_tag_type : List ℕ
text_tag_type =
    b'[' ∷ b'm' ∷ b'b' ∷ b'2' ∷ b']' ∷ b' ' ∷ b't' ∷ b'a' ∷ b'g' ∷ b' ' ∷ b't' ∷ b'y' ∷ b'p' ∷ b'e'
    ∷ b'=' ∷ []

abbrev pub text_size : List ℕ
text_size = b' ' ∷ b's' ∷ b'i' ∷ b'z' ∷ b'e' ∷ b'=' ∷ []

abbrev pub text_line : List ℕ
text_line = b'\n' ∷ []

abbrev pub text_module_start : List ℕ
text_module_start =
    b'[' ∷ b'm' ∷ b'b' ∷ b'2' ∷ b']' ∷ b' ' ∷ b'm' ∷ b'o' ∷ b'd' ∷ b'u' ∷ b'l' ∷ b'e' ∷ b' ' ∷ b's'
    ∷ b't' ∷ b'a' ∷ b'r' ∷ b't' ∷ b'=' ∷ []

abbrev pub text_end : List ℕ
text_end = b' ' ∷ b'e' ∷ b'n' ∷ b'd' ∷ b'=' ∷ []

abbrev pub text_cmdline : List ℕ
text_cmdline = b' ' ∷ b'c' ∷ b'm' ∷ b'd' ∷ b'l' ∷ b'i' ∷ b'n' ∷ b'e' ∷ b'=' ∷ []

abbrev pub text_cmdline_hex : List ℕ
text_cmdline_hex =
    b'[' ∷ b'm' ∷ b'b' ∷ b'2' ∷ b']' ∷ b' ' ∷ b'c' ∷ b'm' ∷ b'd' ∷ b'l' ∷ b'i' ∷ b'n' ∷ b'e' ∷ b' '
    ∷ b'h' ∷ b'e' ∷ b'x' ∷ b'=' ∷ []

abbrev pub text_module_found : List ℕ
text_module_found =
    b'M' ∷ b'A' ∷ b'N' ∷ b'T' ∷ b'L' ∷ b'E' ∷ b'_' ∷ b'M' ∷ b'B' ∷ b'2' ∷ b'_' ∷ b'M' ∷ b'O' ∷ b'D'
    ∷ b'U' ∷ b'L' ∷ b'E' ∷ b'_' ∷ b'F' ∷ b'O' ∷ b'U' ∷ b'N' ∷ b'D' ∷ b'\n' ∷ []

abbrev pub text_rootfs_start : List ℕ
text_rootfs_start =
    b'R' ∷ b'O' ∷ b'O' ∷ b'T' ∷ b'F' ∷ b'S' ∷ b'_' ∷ b'S' ∷ b'T' ∷ b'A' ∷ b'R' ∷ b'T' ∷ b'=' ∷ []

abbrev pub text_rootfs_end : List ℕ
text_rootfs_end =
    b'\n' ∷ b'R' ∷ b'O' ∷ b'O' ∷ b'T' ∷ b'F' ∷ b'S' ∷ b'_' ∷ b'E' ∷ b'N' ∷ b'D' ∷ b'=' ∷ []

abbrev pub text_rootfs_size : List ℕ
text_rootfs_size =
    b'\n' ∷ b'R' ∷ b'O' ∷ b'O' ∷ b'T' ∷ b'F' ∷ b'S' ∷ b'_' ∷ b'S' ∷ b'I' ∷ b'Z' ∷ b'E' ∷ b'=' ∷ []

abbrev pub text_prepare : List ℕ
text_prepare =
    b'M' ∷ b'A' ∷ b'N' ∷ b'T' ∷ b'L' ∷ b'E' ∷ b'_' ∷ b'R' ∷ b'I' ∷ b'N' ∷ b'G' ∷ b'3' ∷ b'_' ∷ b'P'
    ∷ b'R' ∷ b'E' ∷ b'P' ∷ b'A' ∷ b'R' ∷ b'E' ∷ b'\n' ∷ []

abbrev pub text_gdt_error : List ℕ
text_gdt_error =
    b'M' ∷ b'A' ∷ b'N' ∷ b'T' ∷ b'L' ∷ b'E' ∷ b'_' ∷ b'R' ∷ b'I' ∷ b'N' ∷ b'G' ∷ b'3' ∷ b'_' ∷ b'G'
    ∷ b'D' ∷ b'T' ∷ b'_' ∷ b'E' ∷ b'R' ∷ b'R' ∷ b'O' ∷ b'R' ∷ b'\n' ∷ []

abbrev pub text_gdt_ok : List ℕ
text_gdt_ok =
    b'M' ∷ b'A' ∷ b'N' ∷ b'T' ∷ b'L' ∷ b'E' ∷ b'_' ∷ b'R' ∷ b'I' ∷ b'N' ∷ b'G' ∷ b'3' ∷ b'_' ∷ b'G'
    ∷ b'D' ∷ b'T' ∷ b'_' ∷ b'O' ∷ b'K' ∷ b'\n' ∷ []

abbrev pub text_tss_error : List ℕ
text_tss_error =
    b'M' ∷ b'A' ∷ b'N' ∷ b'T' ∷ b'L' ∷ b'E' ∷ b'_' ∷ b'R' ∷ b'I' ∷ b'N' ∷ b'G' ∷ b'3' ∷ b'_' ∷ b'T'
    ∷ b'S' ∷ b'S' ∷ b'_' ∷ b'E' ∷ b'R' ∷ b'R' ∷ b'O' ∷ b'R' ∷ b'\n' ∷ []

abbrev pub text_tss_loaded : List ℕ
text_tss_loaded =
    b'M' ∷ b'A' ∷ b'N' ∷ b'T' ∷ b'L' ∷ b'E' ∷ b'_' ∷ b'T' ∷ b'S' ∷ b'S' ∷ b'_' ∷ b'L' ∷ b'O' ∷ b'A'
    ∷ b'D' ∷ b'E' ∷ b'D' ∷ b'\n' ∷ []

abbrev pub text_tss_ok : List ℕ
text_tss_ok =
    b'M' ∷ b'A' ∷ b'N' ∷ b'T' ∷ b'L' ∷ b'E' ∷ b'_' ∷ b'R' ∷ b'I' ∷ b'N' ∷ b'G' ∷ b'3' ∷ b'_' ∷ b'T'
    ∷ b'S' ∷ b'S' ∷ b'_' ∷ b'O' ∷ b'K' ∷ b'\n' ∷ []

abbrev pub text_stack_error : List ℕ
text_stack_error =
    b'M' ∷ b'A' ∷ b'N' ∷ b'T' ∷ b'L' ∷ b'E' ∷ b'_' ∷ b'R' ∷ b'I' ∷ b'N' ∷ b'G' ∷ b'3' ∷ b'_' ∷ b'S'
    ∷ b'T' ∷ b'A' ∷ b'C' ∷ b'K' ∷ b'_' ∷ b'E' ∷ b'R' ∷ b'R' ∷ b'O' ∷ b'R' ∷ b'\n' ∷ []

abbrev pub text_user_stack_ok : List ℕ
text_user_stack_ok =
    b'M' ∷ b'A' ∷ b'N' ∷ b'T' ∷ b'L' ∷ b'E' ∷ b'_' ∷ b'U' ∷ b'S' ∷ b'E' ∷ b'R' ∷ b'_' ∷ b'S' ∷ b'T'
    ∷ b'A' ∷ b'C' ∷ b'K' ∷ b'_' ∷ b'O' ∷ b'K' ∷ b'\n' ∷ []

abbrev pub text_stack_ok : List ℕ
text_stack_ok =
    b'M' ∷ b'A' ∷ b'N' ∷ b'T' ∷ b'L' ∷ b'E' ∷ b'_' ∷ b'R' ∷ b'I' ∷ b'N' ∷ b'G' ∷ b'3' ∷ b'_' ∷ b'S'
    ∷ b'T' ∷ b'A' ∷ b'C' ∷ b'K' ∷ b'_' ∷ b'O' ∷ b'K' ∷ b'\n' ∷ []

abbrev pub text_paging_error : List ℕ
text_paging_error =
    b'M' ∷ b'A' ∷ b'N' ∷ b'T' ∷ b'L' ∷ b'E' ∷ b'_' ∷ b'R' ∷ b'I' ∷ b'N' ∷ b'G' ∷ b'3' ∷ b'_' ∷ b'P'
    ∷ b'A' ∷ b'G' ∷ b'I' ∷ b'N' ∷ b'G' ∷ b'_' ∷ b'E' ∷ b'R' ∷ b'R' ∷ b'O' ∷ b'R' ∷ b'\n' ∷ []

abbrev pub text_entry_pte : List ℕ
text_entry_pte = b'E' ∷ b'N' ∷ b'T' ∷ b'R' ∷ b'Y' ∷ b'_' ∷ b'P' ∷ b'T' ∷ b'E' ∷ b'=' ∷ []

abbrev pub text_stack_pte : List ℕ
text_stack_pte = b'\n' ∷ b'S' ∷ b'T' ∷ b'A' ∷ b'C' ∷ b'K' ∷ b'_' ∷ b'P' ∷ b'T' ∷ b'E' ∷ b'=' ∷ []

abbrev pub text_kernel_pde : List ℕ
text_kernel_pde =
    b'\n' ∷ b'K' ∷ b'E' ∷ b'R' ∷ b'N' ∷ b'E' ∷ b'L' ∷ b'_' ∷ b'P' ∷ b'D' ∷ b'E' ∷ b'=' ∷ []

abbrev pub text_paging_ok : List ℕ
text_paging_ok =
    b'M' ∷ b'A' ∷ b'N' ∷ b'T' ∷ b'L' ∷ b'E' ∷ b'_' ∷ b'R' ∷ b'I' ∷ b'N' ∷ b'G' ∷ b'3' ∷ b'_' ∷ b'P'
    ∷ b'A' ∷ b'G' ∷ b'I' ∷ b'N' ∷ b'G' ∷ b'_' ∷ b'O' ∷ b'K' ∷ b'\n' ∷ []

abbrev pub text_user_entry : List ℕ
text_user_entry = b'U' ∷ b'S' ∷ b'E' ∷ b'R' ∷ b'_' ∷ b'E' ∷ b'N' ∷ b'T' ∷ b'R' ∷ b'Y' ∷ b'=' ∷ []

abbrev pub text_stack_top : List ℕ
text_stack_top =
    b'\n' ∷ b'U' ∷ b'S' ∷ b'E' ∷ b'R' ∷ b'_' ∷ b'S' ∷ b'T' ∷ b'A' ∷ b'C' ∷ b'K' ∷ b'_' ∷ b'T' ∷ b'O'
    ∷ b'P' ∷ b'=' ∷ []

abbrev pub text_selectors : List ℕ
text_selectors =
    b'\n' ∷ b'U' ∷ b'S' ∷ b'E' ∷ b'R' ∷ b'_' ∷ b'C' ∷ b'S' ∷ b'=' ∷ b'0' ∷ b'x' ∷ b'2' ∷ b'3'
    ∷ b'\n' ∷ b'U' ∷ b'S' ∷ b'E' ∷ b'R' ∷ b'_' ∷ b'S' ∷ b'S' ∷ b'=' ∷ b'0' ∷ b'x' ∷ b'1' ∷ b'b'
    ∷ b'\n' ∷ b'U' ∷ b'S' ∷ b'E' ∷ b'R' ∷ b'_' ∷ b'R' ∷ b'F' ∷ b'L' ∷ b'A' ∷ b'G' ∷ b'S' ∷ b'='
    ∷ b'0' ∷ b'x' ∷ b'2' ∷ b'\n' ∷ b'C' ∷ b'R' ∷ b'3' ∷ b'=' ∷ []

abbrev pub text_iret : List ℕ
text_iret =
    b'\n' ∷ b'M' ∷ b'A' ∷ b'N' ∷ b'T' ∷ b'L' ∷ b'E' ∷ b'_' ∷ b'R' ∷ b'I' ∷ b'N' ∷ b'G' ∷ b'3' ∷ b'_'
    ∷ b'E' ∷ b'N' ∷ b'T' ∷ b'R' ∷ b'Y' ∷ b'_' ∷ b'O' ∷ b'K' ∷ b'\n' ∷ b'M' ∷ b'A' ∷ b'N' ∷ b'T'
    ∷ b'L' ∷ b'E' ∷ b'_' ∷ b'R' ∷ b'I' ∷ b'N' ∷ b'G' ∷ b'3' ∷ b'_' ∷ b'I' ∷ b'R' ∷ b'E' ∷ b'T'
    ∷ b'\n' ∷ []

abbrev pub hello_path : List ℕ
hello_path = b'/' ∷ b'b' ∷ b'i' ∷ b'n' ∷ b'/' ∷ b'h' ∷ b'e' ∷ b'l' ∷ b'l' ∷ b'o' ∷ []
