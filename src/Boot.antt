-- ===== src/Boot.antt =====
-- kernel/arch/x86_64/kernel.c: the search for the root file system in the boot information. `ram` is
-- the memory as the kernel sees it, from the address 0 on.
pub mod Texts
pub mod Reads
pub mod Find
pub mod Start
pub mod Diagnostics
pub mod Ready
use mantle_os.Base.{
  ℕ, zero, suc, ◌+◌, ◌-◌, ◌*◌, ◌/◌, Bool, true, false, not, ◌&&◌, ◌||◌, Option, none, some, List,
  [], ◌∷◌, ltb, leb, ◌==◌, if◌then◌else◌, add32, add64, sub32,
}
use mantle_os.Memory.{Run, done, fault, ◌>>=◌, Region, advance, read8, read32}
use mantle_os.Console.{Console, serial_putc, console_write, serial_hex, serial_decimal, serial_byte}
use mantle_os.Multiboot2.{BootModule, parse_module}
use mantle_os.Boot.Texts.{
  text_tag_type, text_size, text_line, text_module_start, text_end, text_cmdline, text_cmdline_hex,
  text_module_found, text_rootfs_start, text_rootfs_end, text_rootfs_size,
}

unfoldable pub serial_tag : Console → ℕ → ℕ → Console
serial_tag c type size =
    let typed = serial_decimal (console_write c text_tag_type) type in
    console_write (serial_decimal (console_write typed text_size) size) text_line

-- The loop over the command line, up to its zero.
unfoldable pub show_cmdline : ℕ → Region → ℕ → Console → Run Console
show_cmdline zero ram at c = done c
show_cmdline (suc left) ram at c = do
  b ← read8 ram at
  let rest = show_cmdline left ram (at + 1) (serial_putc c b)
  if b == 0 then done c else rest

-- The loop over the bytes of the command line.
unfoldable pub show_bytes : ℕ → Region → ℕ → Console → Run Console
show_bytes zero ram at c = done c
show_bytes (suc left) ram at c = do
  b ← read8 ram at
  show_bytes left ram (at + 1) (serial_putc (serial_byte c b) (if left == 0 then b'\n' else b' '))

-- What is written before the tag is parsed.
unfoldable pub show_module : Region → ℕ → ℕ → Console → Run Console
show_module ram cursor size c = do
  mod_start ← read32 ram (cursor + 8)
  mod_end ← read32 ram (cursor + 12)
  let started = serial_hex (console_write c text_module_start) mod_start
  let ended = serial_hex (console_write started text_end) mod_end
  let sized =
      serial_decimal (console_write ended text_size)
        (if ltb mod_start mod_end then sub32 mod_end mod_start else 0)
  shown ← show_cmdline (size - 16) ram (cursor + 16) (console_write sized text_cmdline)
  show_bytes (size - 16) ram (cursor + 16)
      (console_write (console_write shown text_line) text_cmdline_hex)

-- What is written when the root file system was found.
unfoldable pub show_found : Console → BootModule → Console
show_found c m =
    let started =
      serial_hex (console_write (console_write c text_module_found) text_rootfs_start) m.start in
    let ended = serial_hex (console_write started text_rootfs_end) m.end in
    console_write (serial_decimal (console_write ended text_rootfs_size) m.size) text_line

-- The results 0, -1 and -2.
pub data Lookup : Type 0 where
  found : BootModule → Lookup
  missing malformed : Lookup

-- (size + 7) & ~7
abbrev pub padded : ℕ → ℕ
padded size = add32 size 7 / 8 * 8

-- A module tag, and what comes after it if it is not that of the root file system.
abbrev pub found_or : Console → Option BootModule → Run (Console × Lookup) → Run (Console × Lookup)
found_or c none rest = rest
found_or c (some m) rest = done (show_found c m, found m)

-- The loop over the tags from `cursor` to `end`; `fuel` is above the rounds that it can make.
unfoldable pub scan_tags : ℕ → Region → ℕ → ℕ → Console → Run (Console × Lookup)
scan_tags zero ram end cursor c = fault
scan_tags (suc fuel) ram end cursor c =
    if not (leb (add64 cursor 8) end) then done (c, missing) else do
      type ← read32 ram cursor
      size ← read32 ram (cursor + 4)
      let shown = serial_tag c type size
      let rest = scan_tags fuel ram end (add64 cursor (padded size))
      if ltb size 8 || ltb end (add64 cursor size) || ltb (add64 cursor (padded size)) cursor
          then done (shown, malformed)
          else if type == 0
          then done (shown, missing)
          else if (type == 3) && leb 16 size
          then (show_module ram cursor size shown >>= λ c'.
              (parse_module (some (advance ram cursor)) size >>= λ m. found_or c' m (rest c')))
          else rest shown

unfoldable pub find_rootfs : Region → ℕ → Console → Run (Console × Lookup)
find_rootfs ram info c = if info == 0 then done (c, missing) else do
  total_size ← read32 ram info
  if ltb total_size 8 || ltb 0x10_0000 total_size
      then done (c, malformed)
      else scan_tags total_size ram (add64 info total_size) (add64 info 8) c
