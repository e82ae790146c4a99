-- ===== src/Console.antt =====
-- The output of kernel/arch/x86_64/kernel.c: the serial line and the text screen.
pub mod Screen
pub mod Numerals
use Prim.Native.Nat.{bit_and, bit_or}
use mantle_os.Base.{
  ℕ, zero, suc, ◌+◌, ◌-◌, ◌*◌, ◌/◌, ◌%◌, ◌^◌, Bool, true, false, List, [], ◌∷◌, ◌++◌, ltb, leb,
  ◌==◌, if◌then◌else◌, u16_mod,
}

-- `serial` is what was sent to COM1, `screen` the memory at 0xb8000 by cells, and `cursor` is
-- vga_cursor.
pub record Console : Type 0 where
  pub serial : List ℕ
  pub screen : ℕ → ℕ
  pub cursor : ℕ

-- The wait for the transmitter is left out.
abbrev pub serial_putc : Console → ℕ → Console
serial_putc c value = record c { serial = c.serial ++ value ∷ [] }

unfoldable pub vga_putc : Console → ℕ → Console
vga_putc c value =
    if value == b'\n'
    then (record c { cursor = (c.cursor / 80 + 1) * 80 % u16_mod })
    else let at = if leb (80 * 25) c.cursor then 0 else c.cursor in
      record c {
        screen = λ cell. if cell == at then bit_or 0x0700 value else c.screen cell;
        cursor = (at + 1) % u16_mod;
      }

abbrev pub putc : Console → ℕ → Console
putc c value = vga_putc (serial_putc c value) value

-- mantle_console_write, of the bytes of a buffer that ends with a zero.
unfoldable pub console_write : Console → List ℕ → Console
console_write c [] = c
console_write c (value ∷ text) =
    let rest = console_write (putc c value) text in if value == 0 then c else rest

abbrev pub digit_of : ℕ → ℕ
digit_of d = if ltb d 10 then b'0' + d else b'a' + (d - 10)

-- The loop of serial_hex, with `left` digits to come.
unfoldable pub hex_digits : ℕ → Console → ℕ → Console
hex_digits zero c value = c
hex_digits (suc left) c value =
    hex_digits left (serial_putc c (digit_of (value / 16 ^ left % 16))) value

unfoldable pub serial_hex : Console → ℕ → Console
serial_hex c value = hex_digits 16 (serial_putc (serial_putc c b'0') b'x') value

-- The digits of a number that is not 0, at most `left` of them, the last one first.
unfoldable pub digits_of : ℕ → ℕ → List ℕ
digits_of zero value = []
digits_of (suc left) value =
    let rest = digits_of left (value / 10) in if value == 0 then [] else (b'0' + value % 10) ∷ rest

-- The loop that sends the digits, the last one first.
unfoldable pub send_digits : Console → List ℕ → Console
send_digits c [] = c
send_digits c (digit ∷ digits) = serial_putc (send_digits c digits) digit

unfoldable pub serial_decimal : Console → ℕ → Console
serial_decimal c value =
    if value == 0 then serial_putc c b'0' else send_digits c (digits_of 10 value)

unfoldable pub serial_byte : Console → ℕ → Console
serial_byte c value =
    serial_putc (serial_putc c (digit_of (value / 16 % 16))) (digit_of (value % 16))
