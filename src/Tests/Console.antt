-- ===== src/Tests/Console.antt =====
-- The console of kernel/arch/x86_64/kernel.c on small texts and numbers.
use mantle_os.Base.{◌≡◌, refl, [], ◌∷◌}
use mantle_os.Memory.{c_string}
use mantle_os.Console.{
  Console, vga_putc, console_write, hex_digits, serial_hex, digits_of, send_digits, serial_decimal,
}
use mantle_os.Console.Screen.{Written, console_write-Written}

-- At the end of the screen.
abbrev full : Console
full = record { serial = []; screen = λ cell. 0; cursor = 1999 }

runs : Unit {0}
unfolding vga_putc console_write hex_digits serial_hex digits_of send_digits serial_decimal
runs = tt

wraps : (console_write full (b'a' ∷ b'b' ∷ 0 ∷ [])).cursor ≡ 1
unfolding runs
wraps = refl

counts : (serial_decimal full 4096).serial ≡ b'4' ∷ b'0' ∷ b'9' ∷ b'6' ∷ []
unfolding runs
counts = refl

console_write-Written_example :
    Written full (c_string (b'a' ∷ b'b' ∷ 0 ∷ [])) (console_write full (b'a' ∷ b'b' ∷ 0 ∷ []))
console_write-Written_example = console_write-Written full (b'a' ∷ b'b' ∷ 0 ∷ [])
