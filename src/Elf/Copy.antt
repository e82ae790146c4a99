-- ===== src/Elf/Copy.antt =====
-- The byte loops of kernel/process/elf.c in closed form.
use mantle_os.Base.{ℕ, zero, suc, ◌+◌, ◌≤◌, ◌≡◌, refl, ap, arith, sym, lt→ltb}
use mantle_os.Memory.{done, Region, update, read8, write8}
use mantle_os.Memory.Overlay.{overlay, with_bytes, overlay_none, overlay_first}
use mantle_os.Elf.{copy_bytes, clear_bytes}

pub clear_bytes-overlay :
    (n : ℕ) (r : Region) (start : ℕ)
    → start + n ≤ r.size
    → clear_bytes n r start ≡ done (with_bytes r (overlay r.byte start n (λ k. 0)))
unfolding clear_bytes write8
clear_bytes-overlay zero r start h =
    ap (λ f. done (with_bytes r f)) (sym (overlay_none r.byte (λ k. 0) start))
clear_bytes-overlay (suc n) r start h =
    rw
      (
        lt→ltb start r.size (omega arith),
        clear_bytes-overlay n (with_bytes r (update r.byte start 0)) (start + 1) (omega arith),
      )
      (ap (λ f. done (with_bytes r f))
        (overlay_first r.byte (λ k. 0) (λ k. 0) 0 start n refl (λ k. refl)))

pub copy_bytes-overlay :
    (n : ℕ) (r : Region) (start : ℕ) (image : Region) (source : ℕ)
    → start + n ≤ r.size
    → source + n ≤ image.size
    → copy_bytes n r start image source
      ≡ done (with_bytes r (overlay r.byte start n (λ k. image.byte (source + k))))
unfolding copy_bytes write8 read8
copy_bytes-overlay zero r start image source h k =
    ap (λ f. done (with_bytes r f)) (sym (overlay_none r.byte (λ k. image.byte (source + k)) start))
copy_bytes-overlay (suc n) r start image source h k =
    rw
      (
        lt→ltb start r.size (omega arith),
        lt→ltb source image.size (omega arith),
        copy_bytes-overlay n (with_bytes r (update r.byte start (image.byte source))) (start + 1)
            image (source + 1) (omega arith) (omega arith),
      )
      (ap (λ f. done (with_bytes r f))
        (overlay_first r.byte (λ k. image.byte (source + k)) (λ k. image.byte (source + 1 + k))
          (image.byte source) start n (ap image.byte (omega arith))
          (λ k. ap image.byte (omega arith))))
