-- ===== src/Console/Screen.antt =====
-- What the console of kernel/arch/x86_64/kernel.c writes to the screen and to the serial line.
use mantle_os.Base.{
  append-one, append-nothing, ℕ, ◌≤◌, ◌≡◌, refl, ap, ◌∙◌, inl, inr, Bool-cases, List, [], ◌∷◌, ◌++◌,
  ◌==◌, arith, sym,
}
use mantle_os.Memory.{c_string}
use mantle_os.Console.{Console, vga_putc, putc, console_write}

-- The memory behind the 2000 cells of the screen is as before, and the serial line got the text.
pub record Written (old : Console) (text : List ℕ) (new : Console) : Type 0 where
  pub outside : (cell : ℕ) → 2000 ≤ cell → new.screen cell ≡ old.screen cell
  pub sent : new.serial ≡ old.serial ++ text

putc-outside :
    (c : Console) (value cell : ℕ) → 2000 ≤ cell → (putc c value).screen cell ≡ c.screen cell
unfolding vga_putc
putc-outside c value cell far = ground arith

putc-serial : (c : Console) (value : ℕ) → (putc c value).serial ≡ c.serial ++ value ∷ []
unfolding vga_putc
putc-serial c value = elim (Bool-cases (value == b'\n')) [
  | inl line ↦ rw line refl
  | inr other ↦ rw other refl
]

-- Whatever the cursor is, the text is sent to the serial line up to its first zero, and no cell
-- outside the 25 lines of 80 columns is written.
pub console_write-Written :
    (c : Console) (text : List ℕ) → Written c (c_string text) (console_write c text)
unfolding console_write
console_write-Written c [] = record {
  outside = λ cell far. refl;
  sent = sym (append-nothing c.serial);
}
console_write-Written c (value ∷ text) = elim (Bool-cases (value == 0)) [
  | inl end ↦ rw end (record { outside = λ cell far. refl; sent = sym (append-nothing c.serial) })
  | inr more ↦
      let rest = console_write-Written (putc c value) text in
      rw more (record {
        outside = λ cell far. rest.outside cell far ∙ putc-outside c value cell far;
        sent =
            rest.sent
            ∙ ap (λ sent. sent ++ c_string text) (putc-serial c value)
            ∙ append-one c.serial value (c_string text);
      })
]
