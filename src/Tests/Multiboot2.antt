-- ===== src/Tests/Multiboot2.antt =====
-- kernel/boot/multiboot2.c on the tag of a root file system.
use mantle_os.Base.{◌≡◌, refl, some, none, [], ◌∷◌, arith}
use mantle_os.Memory.{done, Returns, Region, read8, read32}
use mantle_os.Tests.Bytes.{region}
use mantle_os.Multiboot2.{parse_module, read_tag, tag_rejected, cmdline_equal, check_cmdline}
use mantle_os.Multiboot2.Accept.{ParseOutcome, parse_module-ParseOutcome}

-- A module from 0x1000 to 0x1100.
abbrev tag : Region
tag = region (
    3 ∷ 0 ∷ 0 ∷ 0 ∷ 30 ∷ 0 ∷ 0 ∷ 0 ∷ 0 ∷ 0x10 ∷ 0 ∷ 0 ∷ 0 ∷ 0x11 ∷ 0 ∷ 0 ∷ b'm' ∷ b'a' ∷ b'n' ∷ b't'
    ∷ b'l' ∷ b'e' ∷ b'-' ∷ b'r' ∷ b'o' ∷ b'o' ∷ b't' ∷ b'f' ∷ b's' ∷ 0 ∷ [])

parses :
    parse_module (some tag) 30 ≡ done (some (record { start = 0x1000; end = 0x1100; size = 0x100 }))
unfolding parse_module read_tag tag_rejected cmdline_equal check_cmdline read8 read32
parses = refl

cut_short : parse_module (some tag) 29 ≡ done none
unfolding parse_module read_tag tag_rejected cmdline_equal check_cmdline read8 read32
cut_short = refl

parse_module-ParseOutcome_example : Returns (parse_module (some tag) 30) (ParseOutcome tag 30)
parse_module-ParseOutcome_example = parse_module-ParseOutcome tag 30 (omega arith)
