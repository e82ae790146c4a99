-- ===== src/Strings.antt =====
-- userspace/libc/mantle-string.c: strings of the programs in user mode, as memory that a zero ends.
pub mod Compare
use mantle_os.Base.{ℕ, zero, suc, ◌+◌, Bool, true, false, not, ◌||◌, ◌==◌, if◌then◌else◌}
use mantle_os.Memory.{Run, done, fault, ◌>>=◌, Region, read8}

-- The loop of mantle_strlen; `fuel` is above the rounds that it can make.
unfoldable pub strlen_from : ℕ → Region → ℕ → Run ℕ
strlen_from zero text length = fault
strlen_from (suc fuel) text length = do
  b ← read8 text length
  let rest = strlen_from fuel text (length + 1)
  if b == 0 then done length else rest

unfoldable pub strlen : Region → Run ℕ
strlen text = strlen_from text.size text 0

-- The loop of mantle_streq, and the comparison behind it.
unfoldable pub streq_from : ℕ → Region → Region → ℕ → Run Bool
streq_from zero left right index = fault
streq_from (suc fuel) left right index = do
  a ← read8 left index
  b ← read8 right index
  let rest = streq_from fuel left right (index + 1)
  if (a == 0) || not (a == b) then done (a == b) else rest

unfoldable pub streq : Region → Region → Run Bool
streq left right = streq_from left.size left right 0
