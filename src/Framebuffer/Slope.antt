-- ===== src/Framebuffer/Slope.antt =====
-- The lines of kernel/graphics/framebuffer.c: no signed overflow on a screen of usual size, and no
-- pixel outside the rectangle that the ends of a line span.
use mantle_os.Base.Int.{ℤ, pos, negsuc, ◌-ℤ◌, ◌*ℤ◌, ◌/ℤ◌, leb_ℤ, int32, fits_int32, sub_ℕ}
use mantle_os.Base.{
  ℕ, zero, suc, ◌+◌, ◌-◌, ◌*◌, ◌/◌, ◌≤◌, ◌<◌, ◌≡◌, refl, ◌⊎◌, inl, inr, Bool, true, false, not, leb,
  ltb, ◌==◌, if◌then◌else◌, add32, sub32, arith, sym, ◌∙◌, Bool-cases, dec_lt,
}
use mantle_os.Memory.{done, Region, Returns}
use mantle_os.Framebuffer.{FramebufferState, pixel}
use mantle_os.Framebuffer.Bounds.{Framed, Framed-bind, pixel-Framed}
use mantle_os.Framebuffer.Line.{vertical, line_y, sloped, distance, line}

-- `d * k / w` is at most `d` for `k` at most `w`.
share-le : (d k w : ℕ) → 0 < w → k ≤ w → d * k / w ≤ d
share-le d k w some_width small = grind arith

product-lt : (d k : ℕ) → d < 0x8000 → k < 0x8000 → d * k < 0x4000_0000
product-lt d k a b = grind arith

int32-small : (x : ℕ) → x < 0x8000 → int32 x ≡ pos x
int32-small x h = ground arith

-- The difference of two small numbers as int32_t.
difference : (a b : ℕ) → b ≤ a → pos a -ℤ pos b ≡ pos (a - b)
difference a b h = ground arith

fall : (d k : ℕ) → 0 < d → negsuc (d - 1) *ℤ pos k ≡ sub_ℕ 0 (d * k)
fall d k h = let e : suc (d - 1) ≡ d = omega arith in rw e (ground arith)

fall-share : (n w : ℕ) → sub_ℕ 0 n /ℤ pos w ≡ sub_ℕ 0 (n / w)
fall-share zero w = ground arith
fall-share (suc n) w = ground arith

line_y-rising :
    (x0 y0 w d x : ℕ)
    → x0 ≤ x
    → x ≤ x0 + w
    → 0 < w
    → x0 + w < 0x8000
    → y0 + d < 0x8000
    → line_y x0 y0 (pos w) (pos d) x ≡ done (y0 + d * (x - x0) / w)
unfolding line_y
line_y-rising x0 y0 w d x low high some columns lines =
    let share = share-le d (x - x0) w some (omega arith) in
    let product = product-lt d (x - x0) (omega arith) (omega arith) in
    rw
      (
        int32-small x (omega arith),
        int32-small x0 (omega arith),
        int32-small y0 (omega arith),
        difference x x0 low,
      )
      (ground (arith, share, product))

line_y-falling :
    (x0 y0 w d x : ℕ)
    → x0 ≤ x
    → x ≤ x0 + w
    → 0 < w
    → x0 + w < 0x8000
    → 0 < d
    → d ≤ y0
    → y0 < 0x8000
    → line_y x0 y0 (pos w) (negsuc (d - 1)) x ≡ done (y0 - d * (x - x0) / w)
unfolding line_y
line_y-falling x0 y0 w d x low high some columns drop below lines =
    let share = share-le d (x - x0) w some (omega arith) in
    let product = product-lt d (x - x0) (omega arith) (omega arith) in
    let run_fits : fits_int32 (pos (x - x0)) ≡ true = ground arith in
    let product_fits : fits_int32 (sub_ℕ 0 (d * (x - x0))) ≡ true = ground (arith, product) in
    rw
      (
        int32-small x (omega arith),
        int32-small x0 (omega arith),
        int32-small y0 (omega arith),
        difference x x0 low,
        run_fits,
        fall d (x - x0) drop,
        product_fits,
        fall-share (d * (x - x0)) w,
      )
      (ground (arith, share, product))

-- From one end to the other.
abbrev pub Between : ℕ → ℕ → ℕ → Type 0
Between a b n = ((a ≤ n) × (n ≤ b)) ⊎ ((b ≤ n) × (n ≤ a))

-- A pixel of the screen in the rectangle that the ends of a line span.
pub record Spanned (state : FramebufferState) (x0 y0 x1 y1 x y : ℕ) : Type 0 where
  pub screen : (x < state.width) × (y < state.height)
  pub columns : Between x0 x1 x
  pub lines : Between y0 y1 y

-- The height of the line at `x`.
line_y-Between :
    (x0 y0 x1 y1 x : ℕ)
    → x0 < x1
    → x0 ≤ x
    → x ≤ x1
    → x1 < 0x8000
    → y0 < 0x8000
    → y1 < 0x8000
    → (delta_y : ℤ) → int32 y1 -ℤ int32 y0 ≡ delta_y
    → (y : ℕ) × (line_y x0 y0 (pos (x1 - x0)) delta_y x ≡ done y) × Between y0 y1 y
line_y-Between x0 y0 x1 y1 x right low high columns line0 line1 delta_y e = elim (dec_lt y1 y0) [
  | no rises ↦
      let d : delta_y ≡ pos (y1 - y0) =
        sym e ∙ rw (int32-small y1 line1, int32-small y0 line0) (difference y1 y0 (omega arith)) in
      let share = share-le (y1 - y0) (x - x0) (x1 - x0) (omega arith) (omega arith) in
      (
        y0 + (y1 - y0) * (x - x0) / (x1 - x0),
        rw d (
            line_y-rising x0 y0 (x1 - x0) (y1 - y0) x low (omega arith) (omega arith) (omega arith)
              (omega arith)),
        inl (omega arith, omega (arith, share)),
      )
  | yes falls ↦
      let d : delta_y ≡ negsuc (y0 - y1 - 1) =
        sym e ∙ rw (int32-small y1 line1, int32-small y0 line0) (ground arith) in
      let share = share-le (y0 - y1) (x - x0) (x1 - x0) (omega arith) (omega arith) in
      (
        y0 - (y0 - y1) * (x - x0) / (x1 - x0),
        rw d (
            line_y-falling x0 y0 (x1 - x0) (y0 - y1) x low (omega arith) (omega arith) (omega arith)
              (omega arith) (omega arith) line0),
        inr (omega (arith, share), omega arith),
      )
]

module _ (state : FramebufferState) (row : state.width * state.bytes_per_pixel ≤ state.pitch)
    (x0 y0 x1 y1 value : ℕ) (columns0 : x0 < 0x8000) (columns1 : x1 < 0x8000) (line0 : y0 < 0x8000)
    (line1 : y1 < 0x8000) where
  abbrev In : ℕ → ℕ → Type 0
  In = Spanned state x0 y0 x1 y1

  vertical-Framed :
      (fuel y : ℕ) (down : Bool) (video : Region)
      → x0 ≡ x1
      → (if down
          then (y0 ≤ y) × (y ≤ y1) × (y1 < y + fuel)
          else (y1 ≤ y) × (y ≤ y0) × (y < y1 + fuel))
      → state.height * state.pitch ≤ video.size
      → Returns (vertical fuel state x0 y y1 down value video) (Framed state In video)
  unfolding vertical
  vertical-Framed zero y true video same between room = absurd (omega arith)
  vertical-Framed zero y false video same between room = absurd (omega arith)
  vertical-Framed (suc fuel) y true video same between room =
      Framed-bind state In row video (pixel state x0 y value video) _
        (pixel-Framed state In row x0 y value video
          (λ c l. record {
            screen = (c, l);
            columns = inl (omega arith, omega arith);
            lines = inl (between.0, between.1);
          })
          room)
        λ v size. elim (Bool-cases (y == y1)) [
          | inl last ↦ rw last (record { size = refl; outside = λ i far. refl })
          | inr more ↦
              let next : add32 y 1 ≡ y + 1 = omega arith in
              rw (more, next)
                (vertical-Framed fuel (y + 1) true v same (omega arith, ground arith, ground arith)
                  (omega (arith, size)))
        ]
  vertical-Framed (suc fuel) y false video same between room =
      Framed-bind state In row video (pixel state x0 y value video) _
        (pixel-Framed state In row x0 y value video
          (λ c l. record {
            screen = (c, l);
            columns = inl (omega arith, omega arith);
            lines = inr (between.0, between.1);
          })
          room)
        λ v size. elim (Bool-cases (y == y1)) [
          | inl last ↦ rw last (record { size = refl; outside = λ i far. refl })
          | inr more ↦
              let next : sub32 y 1 ≡ y - 1 = ground arith in
              rw (more, next)
                (vertical-Framed fuel (y - 1) false v same (ground arith, omega arith, ground arith)
                  (omega (arith, size)))
        ]

  sloped-Framed :
      (fuel x : ℕ) (delta_y : ℤ) (video : Region)
      → x0 < x1
      → int32 y1 -ℤ int32 y0 ≡ delta_y
      → x0 ≤ x
      → x1 + 1 < x + fuel
      → x ≤ x1 + 1
      → state.height * state.pitch ≤ video.size
      → Returns
          (sloped fuel state x0 y0 x1 (pos (x1 - x0)) delta_y x value video)
          (Framed state In video)
  unfolding sloped
  sloped-Framed zero x delta_y video right e low enough high room = absurd (omega arith)
  sloped-Framed (suc fuel) x delta_y video right e low enough high room =
      elim (Bool-cases (not (leb x x1))) [
        | inl over ↦ rw over (record { size = refl; outside = λ i far. refl })
        | inr more ↦
            let before : x ≤ x1 = ground arith in
            let (y, at, between) =
              line_y-Between x0 y0 x1 y1 x right low before columns1 line0 line1 delta_y e in
            let next : add32 x 1 ≡ x + 1 = omega arith in
            rw (more, at)
              (Framed-bind state In row video (pixel state x y value video)
                (λ v. sloped fuel state x0 y0 x1 (pos (x1 - x0)) delta_y (add32 x 1) value v)
                (pixel-Framed state In row x y value video
                  (λ c l. record { screen = (c, l); columns = inl (low, before); lines = between })
                  room)
                λ v size. rw next (
                  sloped-Framed fuel (x + 1) delta_y v right e (omega arith) (omega arith)
                    (omega arith) (omega (arith, size))))
      ]

  difference-fits : (a b : ℕ) → a < 0x8000 → b < 0x8000 → fits_int32 (int32 a -ℤ int32 b) ≡ true
  difference-fits a b small small' = rw (int32-small a small, int32-small b small') (ground arith)

  vertical_line :
      (video : Region)
      → x0 ≡ x1
      → state.height * state.pitch ≤ video.size
      → Returns
          (vertical
            (suc (distance (leb_ℤ (int32 y0) (int32 y1)) y0 y1))
            state
            x0
            y0
            y1
            (leb_ℤ (int32 y0) (int32 y1))
            value
            video)
          (Framed state In video)
  vertical_line video same room =
      rw (int32-small y0 line0, int32-small y1 line1)
        (elim (Bool-cases (leb y0 y1)) [
          | inl down ↦
              let downs : leb_ℤ (pos y0) (pos y1) ≡ true = ground arith in
              rw downs (
                vertical-Framed (suc (sub32 y1 y0)) y0 true video same
                  (omega arith, ground arith, ground arith) room)
          | inr up ↦
              let ups : leb_ℤ (pos y0) (pos y1) ≡ false = ground arith in
              rw ups (
                vertical-Framed (suc (sub32 y0 y1)) y0 false video same
                  (ground arith, omega arith, ground arith) room)
        ])

  -- On a screen whose rows hold its pixels and whose memory holds its rows, with coordinates below
  -- 32768: The drawing of a line ends, no signed addition or multiplication overflows, and only
  -- bytes of pixels are written that lie on the screen and in the rectangle spanned by the ends.
  pub line-Framed :
      (video : Region)
      → state.height * state.pitch ≤ video.size
      → Returns
          (line state x0 y0 x1 y1 value video)
          (Framed state (Spanned state x0 y0 x1 y1) video)
  unfolding line
  line-Framed video room = elim (Bool-cases (x0 == x1)) [
    | inl same ↦ rw same (vertical_line video (ground arith) room)
    | inr apart ↦ rw apart (elim (Bool-cases (ltb x1 x0)) [
      | inl back ↦ rw back (record { size = refl; outside = λ i far. refl })
      | inr right ↦
          let ahead : x0 < x1 = ground arith in
          let run : int32 x1 -ℤ int32 x0 ≡ pos (x1 - x0) =
            rw (int32-small x1 columns1, int32-small x0 columns0)
              (difference x1 x0 (omega arith)) in
          rw
            (right, difference-fits x1 x0 columns1 columns0, difference-fits y1 y0 line1 line0, run)
            (sloped-Framed (x1 - x0 + 2) x0 (int32 y1 -ℤ int32 y0) video ahead refl (omega arith)
              (omega arith) (omega arith) room)
    ])
  ]
