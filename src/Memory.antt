-- ===== src/Memory.antt =====
-- Byte-addressed regions of memory, as the kernel's C code reads and writes them through pointers.
-- An access outside a region is a fault, so that a proof that code ends in `done` is a proof that
-- it stays within bounds. Multi-byte loads are little-endian, as on x86-64.
pub mod Overlay
use mantle_os.Base.{
  ℕ, ◌+◌, ◌-◌, ◌*◌, ◌/◌, ◌%◌, ◌<◌, ◌≡◌, refl, arith, Bool, true, false, ltb, leb, lt→ltb, ◌==◌,
  if◌then◌else◌, List, [], ◌∷◌,
}

pub data Run {ℓ} (A : Type ℓ) : Type ℓ where
  done : A → Run A
  fault : Run A

infixl 5 ◌>>=◌
abbrev pub ◌>>=◌ {ℓ κ} : {A : Type ℓ} {B : Type κ} → Run A → (A → Run B) → Run B
done a >>= f = f a
fault >>= f = fault

-- The run ends without a fault, with a result that satisfies `P`.
abbrev pub Returns {ℓ} : {A : Type ℓ} → Run A → (A → Type 0) → Type 0
Returns (done a) P = P a
Returns fault P = ⊥

-- The C string that starts a list of bytes.
abbrev pub c_string : List ℕ → List ℕ
c_string [] = []
c_string (c ∷ cs) = if c == 0 then [] else c ∷ c_string cs

pub record Region : Type 0 where
  pub byte : ℕ → ℕ
  pub size : ℕ

-- The bytes from `at` on are those of the list.
abbrev pub Spells : (ℕ → ℕ) → ℕ → List ℕ → Type 0
Spells f at [] = Unit {0}
Spells f at (c ∷ cs) = (f at ≡ c) × Spells f (at + 1) cs

-- Pointer arithmetic: the part of a region from the byte `n` on.
abbrev pub advance : Region → ℕ → Region
advance r n = record { byte = λ i. r.byte (n + i); size = r.size - n }

abbrev pub le16 : (ℕ → ℕ) → ℕ → ℕ
le16 f a = f a + 0x100 * f (a + 1)

abbrev pub le32 : (ℕ → ℕ) → ℕ → ℕ
le32 f a = le16 f a + 0x1_0000 * le16 f (a + 2)

abbrev pub le64 : (ℕ → ℕ) → ℕ → ℕ
le64 f a = le32 f a + 0x1_0000_0000 * le32 f (a + 4)

unfoldable pub read8 : Region → ℕ → Run ℕ
read8 r a = if ltb a r.size then done (r.byte a) else fault

unfoldable pub read16 : Region → ℕ → Run ℕ
read16 r a = if leb (a + 2) r.size then done (le16 r.byte a) else fault

unfoldable pub read32 : Region → ℕ → Run ℕ
read32 r a = if leb (a + 4) r.size then done (le32 r.byte a) else fault

unfoldable pub read64 : Region → ℕ → Run ℕ
read64 r a = if leb (a + 8) r.size then done (le64 r.byte a) else fault

abbrev pub update : (ℕ → ℕ) → ℕ → ℕ → ℕ → ℕ
update f a v i = if i == a then v else f i

unfoldable pub write8 : Region → ℕ → ℕ → Run Region
write8 r a v = if ltb a r.size then done (record r { byte = update r.byte a v }) else fault

-- The four bytes of a number, from `a` on.
abbrev pub put32 : (ℕ → ℕ) → ℕ → ℕ → ℕ → ℕ
put32 f a v =
    update
      (update (update (update f a (v % 0x100)) (a + 1) (v / 0x100 % 0x100)) (a + 2)
        (v / 0x1_0000 % 0x100))
      (a + 3) (v / 0x100_0000 % 0x100)

unfoldable pub write32 : Region → ℕ → ℕ → Run Region
write32 r a v = if leb (a + 4) r.size then done (record r { byte = put32 r.byte a v }) else fault

-- The lower half first, as on x86-64.
unfoldable pub write64 : Region → ℕ → ℕ → Run Region
unfolding write32
write64 r a v = write32 r a (v % 0x1_0000_0000) >>= λ r'. write32 r' (a + 4) (v / 0x1_0000_0000)

pub if-done {ℓ} :
    {A : Type ℓ} (b : Bool) (x y : A) → (if b then done x else done y) ≡ done (if b then x else y)
if-done true x y = refl
if-done false x y = refl

pub read8_lem : (r : Region) (a : ℕ) → a < r.size → read8 r a ≡ done (r.byte a)
unfolding read8
read8_lem r a h = ground arith

pub write8_lem :
    (r : Region) (a v : ℕ)
    → a < r.size
    → write8 r a v ≡ done (record r { byte = update r.byte a v })
unfolding write8
write8_lem r a v h = rw (lt→ltb a r.size h)

-- The rule for a bind.
pub Returns-bind :
    {A B : Type 0} (m : Run A) (k : A → Run B) (P : A → Type 0) (Q : B → Type 0)
    → Returns m P
    → ((a : A) → P a → Returns (k a) Q)
    → Returns (m >>= k) Q
Returns-bind (done a) k P Q p h = h a p
Returns-bind fault k P Q p h = p

pub Returns-weaken :
    {A : Type 0} (m : Run A) (P Q : A → Type 0) → Returns m P → ((a : A) → P a → Q a) → Returns m Q
Returns-weaken (done a) P Q p h = h a p
Returns-weaken fault P Q p h = p

-- A run that returns returns its result.
pub Returns-known :
    {A : Type 0} (m : Run A) (P : A → Type 0) → Returns m P → Returns m (λ a. P a × (m ≡ done a))
Returns-known (done a) P p = (p, refl)
Returns-known fault P p = p

-- No more than that the run ends without a fault.
abbrev pub Anything : {A : Type 0} → A → Type 0
Anything a = Unit
