-- ===== src/Memory/Overlay.antt =====
-- Writes of consecutive bytes in closed form.
use mathlib.Core.Path.{fun_ext}
use mantle_os.Base.{ℕ, suc, ◌+◌, ◌-◌, ◌≡◌, ◌&&◌, ltb, leb, if◌then◌else◌, arith}
use mantle_os.Memory.{Region, update}

-- `f` with the `n` bytes from `start` on replaced by the first `n` of `g`.
abbrev pub overlay : (ℕ → ℕ) → ℕ → ℕ → (ℕ → ℕ) → ℕ → ℕ
overlay f start n g i = if leb start i && ltb i (start + n) then g (i - start) else f i

abbrev pub with_bytes : Region → (ℕ → ℕ) → Region
with_bytes r f = record r { byte = f }

pub overlay_none : (f g : ℕ → ℕ) (start : ℕ) → overlay f start 0 g ≡ f
overlay_none f g start = fun_ext λ i. ground arith

pub overlay_first :
    (f g g' : ℕ → ℕ) (v start n : ℕ)
    → v ≡ g 0
    → ((k : ℕ) → g' k ≡ g (k + 1))
    → overlay (update f start v) (start + 1) n g' ≡ overlay f start (suc n) g
overlay_first f g g' v start n e h = fun_ext λ i. ground (arith, h (i - (start + 1)))
