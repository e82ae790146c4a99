-- ===== src/Base/Bits.antt =====
-- Single bits of `bit_or` and `bit_and`, for the flag tests of the C code.
use Prim.Native.Nat.{
  ℕ, zero, suc, ◌+◌, ◌-◌, ◌*◌, ◌/◌, ◌%◌, ◌^◌, ◌≤◌, ◌<◌, min, max, bit_and, bit_or, digits,
  bit_and-bitwise, bit_or-bitwise,
}
use mathlib.Core.Path.{◌≡◌, refl, sym, ap, ◌∙◌}
use native.Mathlib.Nat.{
  pow-suc, one-le-pow, div-add-mod', mod-lt, mod-eq_of_lt, mod_self, mul-add-mod_self_right,
}
use native.Mathlib.Omega.{arith}

-- The operations are recursions on binary digits with fuel; enough fuel is as good as more.
module _ (rest : ℕ → ℕ) (op : ℕ → ℕ → ℕ) where
  enough :
      (fuel spare x y : ℕ)
      → x ≤ spare
      → x ≤ fuel
      → digits rest op fuel x y ≡ digits rest op spare x y
  enough fuel zero (suc x) y few many = absurd (omega arith)
  enough zero spare (suc x) y few many = absurd (omega arith)
  enough (suc fuel) (suc spare) (suc x) y few many =
      ap (λ higher. higher * 2 + op (suc x % 2) (y % 2))
        (enough fuel spare (suc x / 2) (y / 2) (omega arith) (omega arith))
  enough zero zero zero y few many = refl
  enough zero (suc spare) zero y few many = refl
  enough (suc fuel) zero zero y few many = refl
  enough (suc fuel) (suc spare) zero y few many = refl

-- The lowest digit.
pub bit_and_lowest : (x y : ℕ) → bit_and x y ≡ min (x % 2) (y % 2) + 2 * bit_and (x / 2) (y / 2)
bit_and_lowest zero y = rw (bit_and-bitwise 0 y, bit_and-bitwise 0 (y / 2)) (omega arith)
bit_and_lowest (suc x) y =
    let same = enough (λ d. 0) min x (suc x / 2) (suc x / 2) (y / 2) (omega arith) (omega arith) in
    rw (bit_and-bitwise (suc x) y, bit_and-bitwise (suc x / 2) (y / 2)) (omega (arith, same))

pub bit_or_lowest : (x y : ℕ) → bit_or x y ≡ max (x % 2) (y % 2) + 2 * bit_or (x / 2) (y / 2)
bit_or_lowest zero y = rw (bit_or-bitwise 0 y, bit_or-bitwise 0 (y / 2)) (omega arith)
bit_or_lowest (suc x) y =
    let same = enough (λ d. d) max x (suc x / 2) (suc x / 2) (y / 2) (omega arith) (omega arith) in
    rw (bit_or-bitwise (suc x) y, bit_or-bitwise (suc x / 2) (y / 2)) (omega (arith, same))

unfoldable pub bit : ℕ → ℕ → ℕ
bit zero a = a % 2
bit (suc k) a = bit k (a / 2)

pub bit-lt : (k a : ℕ) → bit k a < 2
unfolding bit
bit-lt zero a = omega arith
bit-lt (suc k) a = bit-lt k (a / 2)

pub bit-or : (k a b : ℕ) → bit k (bit_or a b) ≡ max (bit k a) (bit k b)
unfolding bit
bit-or zero a b = omega (arith, bit_or_lowest a b)
bit-or (suc k) a b =
    let half : bit_or a b / 2 ≡ bit_or (a / 2) (b / 2) = omega (arith, bit_or_lowest a b) in
    rw half (bit-or k (a / 2) (b / 2))

bit_and_at_most : (limit x y : ℕ) → x ≤ limit → bit_and x y ≤ y
bit_and_at_most zero x y small =
    let none_left : x ≡ 0 = omega arith in rw (none_left, bit_and-bitwise 0 y) (omega arith)
bit_and_at_most (suc limit) x y small =
    omega (arith, bit_and_lowest x y, bit_and_at_most limit (x / 2) (y / 2) (omega arith))

pub bit_and-zero : (x : ℕ) → bit_and x 0 ≡ 0
bit_and-zero x = omega (arith, bit_and_at_most x x 0 (omega arith))

-- A test with a mask of one bit.
pub bit_and-pow : (k a : ℕ) → bit_and a (2 ^ k) ≡ bit k a * 2 ^ k
unfolding bit
bit_and-pow zero a = omega (arith, bit_and_lowest a 1, bit_and-zero (a / 2))
bit_and-pow (suc k) a =
    let half : 2 ^ suc k / 2 ≡ 2 ^ k = omega (arith, pow-suc 2 k) in
    let step : bit_and a (2 ^ suc k) ≡ min (a % 2) (2 ^ suc k % 2) + 2 * bit_and (a / 2) (2 ^ k) =
      rw half at (bit_and_lowest a (2 ^ suc k)) in
    omega (
      arith,
      step,
      bit_and-pow k (a / 2),
      pow-suc 2 k,
      ap (λ (t : ℕ). bit k (a / 2) * t) (pow-suc 2 k),
    )

mod-double : (a m : ℕ) → 0 < m → (a / 2 % m) * 2 + a % 2 ≡ a % (2 * m)
mod-double a m h =
    let r = a / 2 % m in
    let q = a / 2 / m in
    let parts : q * (2 * m) + (r * 2 + a % 2) ≡ a = omega (arith, div-add-mod' (a / 2) m) in
    let low : r * 2 + a % 2 < 2 * m = omega (arith, mod-lt (a / 2) h) in
    sym (
      ap (λ t. t % (2 * m)) (sym parts)
      ∙ mul-add-mod_self_right q (2 * m) (r * 2 + a % 2)
      ∙ mod-eq_of_lt low)

-- A mask of the `k` low bits.
pub bit_and-mask : (k a : ℕ) → bit_and a (2 ^ k - 1) ≡ a % 2 ^ k
bit_and-mask zero a = omega (arith, bit_and-zero a)
bit_and-mask (suc k) a =
    let double : 2 ^ suc k ≡ 2 * 2 ^ k = omega (arith, pow-suc 2 k) in
    let positive : 0 < 2 ^ k = one-le-pow k 2 (omega arith) in
    let half : (2 ^ suc k - 1) / 2 ≡ 2 ^ k - 1 = omega arith in
    let step : bit_and a (2 ^ suc k - 1)
        ≡ min (a % 2) ((2 ^ suc k - 1) % 2) + 2 * bit_and (a / 2) (2 ^ k - 1) =
      rw half at (bit_and_lowest a (2 ^ suc k - 1)) in
    let sum : bit_and a (2 ^ suc k - 1) ≡ a % (2 * 2 ^ k) =
      omega (arith, step, bit_and-mask k (a / 2), mod-double a (2 ^ k) positive) in
    sum ∙ ap (λ t. a % t) (sym double)

-- A power of two and the mask below it have no bit in common.
pub bit_and-pow_mask : (k : ℕ) → bit_and (2 ^ k) (2 ^ k - 1) ≡ 0
bit_and-pow_mask k = bit_and-mask k (2 ^ k) ∙ mod_self (2 ^ k)
