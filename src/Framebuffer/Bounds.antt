-- ===== src/Framebuffer/Bounds.antt =====
-- The writes of kernel/graphics/framebuffer.c to the frame buffer.
use mantle_os.Base.{
  ℕ, zero, suc, ◌+◌, ◌*◌, ◌/◌, ◌%◌, ◌^◌, ◌≤◌, ◌<◌, ◌≡◌, ◌≢◌, refl, inl, inr, ◌&&◌, ◌||◌, ltb, leb,
  add32, arith, Bool-cases, ◌∙◌,
}
use native.Mathlib.Nat.{mul-le-mul_right}
use mantle_os.Memory.{Run, done, fault, ◌>>=◌, Returns, Returns-bind, Region, update, write8_lem}
use mantle_os.Framebuffer.{
  FramebufferState, write_pixel, pixel, rectangle_row, rectangle_rows, rectangle,
}

-- Only bytes of the pixels in the set `In` have changed.
pub record Framed (state : FramebufferState) (In : ℕ → ℕ → Type 0) (old new : Region) : Type 0 where
  pub size : new.size ≡ old.size
  pub outside :
      (i : ℕ)
      → ((x y b : ℕ)
          → In x y
          → b < state.bytes_per_pixel
          → i ≢ y * state.pitch + x * state.bytes_per_pixel + b)
      → new.byte i ≡ old.byte i

module _ (state : FramebufferState) (In : ℕ → ℕ → Type 0)
    (row : state.width * state.bytes_per_pixel ≤ state.pitch) where
  pub Framed-then :
      (a b c : Region) → Framed state In a b → Framed state In b c → Framed state In a c
  Framed-then a b c first second = record {
    size = second.size ∙ first.size;
    outside = λ i far. second.outside i far ∙ first.outside i far;
  }

  pub Framed-bind :
      (old : Region) (m : Run Region) (k : Region → Run Region)
      → Returns m (Framed state In old)
      → ((v : Region) → v.size ≡ old.size → Returns (k v) (Framed state In v))
      → Returns (m >>= k) (Framed state In old)
  Framed-bind old m k first next =
      Returns-bind m k (Framed state In old) (Framed state In old) first
        λ v framed. go v (k v) framed (next v framed.size)
    where
      go :
          (v : Region) (m' : Run Region)
          → Framed state In old v
          → Returns m' (Framed state In v)
          → Returns m' (Framed state In old)
      go v (done w) framed out = Framed-then old v w framed out
      go v fault framed out = out

  write_pixel-Framed :
      (left byte x y value : ℕ) (video : Region)
      → In x y
      → byte + left ≡ state.bytes_per_pixel
      → y * state.pitch + x * state.bytes_per_pixel + state.bytes_per_pixel ≤ video.size
      → Returns
          (write_pixel left byte (y * state.pitch + x * state.bytes_per_pixel) value video)
          (Framed state In video)
  unfolding write_pixel
  write_pixel-Framed zero byte x y value video inside sum room = record {
    size = refl;
    outside = λ i far. refl;
  }
  write_pixel-Framed (suc left) byte x y value video inside sum room =
      let at = y * state.pitch + x * state.bytes_per_pixel in
      let v = value / 2 ^ (byte * 8) % 256 in
      let video' : Region = record video { byte = update video.byte (at + byte) v } in
      let first : Framed state In video video' = record {
        size = refl;
        outside = λ i far. ground (arith, far x y byte inside (omega arith));
      } in
      rw (write8_lem video (at + byte) v (omega arith)) (
        Framed-bind video (done video') (write_pixel left (byte + 1) at value) first λ w size.
          write_pixel-Framed left (byte + 1) x y value w inside (omega arith) (omega (arith, size)))

  pixel_end :
      (x y : ℕ)
      → x < state.width
      → y < state.height
      → y * state.pitch + x * state.bytes_per_pixel + state.bytes_per_pixel
        ≤ state.height * state.pitch
  pixel_end x y inside below =
      let columns : suc x * state.bytes_per_pixel ≤ state.width * state.bytes_per_pixel =
        mul-le-mul_right state.bytes_per_pixel (omega arith) in
      let lines : suc y * state.pitch ≤ state.height * state.pitch =
        mul-le-mul_right state.pitch (omega arith) in
      omega (arith, columns, lines)

  pub pixel-Framed :
      (x y value : ℕ) (video : Region)
      → (x < state.width → y < state.height → In x y)
      → state.height * state.pitch ≤ video.size
      → Returns (pixel state x y value video) (Framed state In video)
  unfolding pixel
  pixel-Framed x y value video inside room =
      elim (Bool-cases (leb state.width x || leb state.height y)) [
        | inl far ↦ rw far (record { size = refl; outside = λ i far. refl })
        | inr near ↦
            let columns : x < state.width = ground arith in
            let lines : y < state.height = ground arith in
            rw near (
              write_pixel-Framed state.bytes_per_pixel 0 x y value video (inside columns lines)
                (omega arith) (omega (arith, pixel_end x y columns lines)))
      ]

  rectangle_row-Framed :
      (fuel x y end value : ℕ) (video : Region)
      → 0 < fuel
      → state.width < x + fuel
      → ((x' : ℕ) → x ≤ x' → x' < end → x' < state.width → y < state.height → In x' y)
      → state.height * state.pitch ≤ video.size
      → Returns (rectangle_row fuel state x y end value video) (Framed state In video)
  unfolding rectangle_row
  rectangle_row-Framed zero x y end value video some_fuel enough inside room = absurd (omega arith)
  rectangle_row-Framed (suc fuel) x y end value video some_fuel enough inside room =
      elim (Bool-cases (ltb x end && ltb x state.width)) [
        | inr over ↦ rw over (record { size = refl; outside = λ i far. refl })
        | inl more ↦
            let before : x < end = ground arith in
            let near : x < state.width = ground arith in
            rw more (
              Framed-bind video (pixel state x y value video)
                (λ v. rectangle_row fuel state (x + 1) y end value v)
                (pixel-Framed x y value video
                  (λ columns lines. inside x (omega arith) before near lines) room)
                λ v size.
                  rectangle_row-Framed fuel (x + 1) y end value v (omega arith) (omega arith)
                    (λ x' low. inside x' (omega arith)) (omega (arith, size)))
      ]

  rectangle_rows-Framed :
      (fuel left y right bottom value : ℕ) (video : Region)
      → 0 < fuel
      → state.height < y + fuel
      → ((x' y' : ℕ)
          → left ≤ x'
          → x' < right
          → x' < state.width
          → y ≤ y'
          → y' < bottom
          → y' < state.height
          → In x' y')
      → state.height * state.pitch ≤ video.size
      → Returns (rectangle_rows fuel state left y right bottom value video) (Framed state In video)
  unfolding rectangle_rows
  rectangle_rows-Framed zero left y right bottom value video some_fuel enough inside room =
      absurd (omega arith)
  rectangle_rows-Framed (suc fuel) left y right bottom value video some_fuel enough inside room =
      elim (Bool-cases (ltb y bottom && ltb y state.height)) [
        | inr over ↦ rw over (record { size = refl; outside = λ i far. refl })
        | inl more ↦
            let before : y < bottom = ground arith in
            let near : y < state.height = ground arith in
            rw more (
              Framed-bind video (rectangle_row (suc state.width) state left y right value video)
                (λ v. rectangle_rows fuel state left (y + 1) right bottom value v)
                (rectangle_row-Framed (suc state.width) left y right value video (omega arith)
                  (omega arith)
                  (λ x' low high columns lines.
                    inside x' y low high columns (omega arith) before lines)
                  room)
                λ v size.
                  rectangle_rows-Framed fuel left (y + 1) right bottom value v (omega arith)
                    (omega arith)
                    (λ x' y' low high columns top. inside x' y' low high columns (omega arith))
                    (omega (arith, size)))
      ]

-- A pixel of the screen inside a rectangle.
pub record InRectangle (state : FramebufferState) (left top right bottom x y : ℕ) : Type 0 where
  pub columns : (left ≤ x) × (x < right) × (x < state.width)
  pub lines : (top ≤ y) × (y < bottom) × (y < state.height)

-- If the rows hold the pixels of the screen and the memory of the device holds the rows, the drawing
-- of a rectangle ends and stays inside that memory, wherever the rectangle lies, and writes only
-- bytes of pixels of the screen that are inside the rectangle.
pub rectangle-Framed :
    (state : FramebufferState) (left top width height value : ℕ) (video : Region)
    → state.width * state.bytes_per_pixel ≤ state.pitch
    → state.height * state.pitch ≤ video.size
    → Returns
        (rectangle state left top width height value video)
        (Framed state (InRectangle state left top (add32 left width) (add32 top height)) video)
unfolding rectangle
rectangle-Framed state left top width height value video row room =
    rectangle_rows-Framed state (InRectangle state left top (add32 left width) (add32 top height))
      row (suc state.height) left top (add32 left width) (add32 top height) value video
      (omega arith) (omega arith)
      (λ x y low high columns first last lines. record {
        columns = (low, high, columns);
        lines = (first, last, lines);
      })
      room
