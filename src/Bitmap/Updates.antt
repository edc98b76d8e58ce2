-- ===== src/Bitmap/Updates.antt =====
-- Set, Reset and SetMultiple of bitmap/bitmap.go, and what `Get` reads after them.
use storrent.Prelude.{
  ◌∷◌, ℕ, zero, suc, ◌+◌, ◌-◌, ◌*◌, ◌/◌, ◌%◌, ◌≤◌, ◌<◌, ◌≡◌, refl, false, not, ◌&&◌, ◌||◌, ltb, leb,
  ◌==◌, if◌then◌else◌, length, get_or, set as set_elem, replicate, arith, All-get_or, All-set,
  All-append, All-replicate, length-append, length-set, length-replicate, get_or-beyond, get_or-set,
  get_or-replicate, get_or-append_replicate, Bool-cases, inl, inr, ◌∙◌, sym,
}
use storrent.Bitmap.{
  Bitmap, IsBitmap, new, get, extend, set, reset, fill_ones, set_range, set_multiple,
}
use storrent.Bitmap.Bits.{
  test_bit, set_bit, reset_bit, test_bit-zero, test_bit-set_bit, set_bit-lt, test_bit-reset_bit,
  reset_bit-lt, test_bit-ones,
}

-- Beyond the end a bitmap reads as zeros.
pub get-test_bit : (b : Bitmap) (i : ℕ) → get b i ≡ test_bit (get_or b (i / 8) 0) (i % 8)
unfolding get
get-test_bit b i = ground (arith, get_or-beyond b (i / 8) 0, test_bit-zero (i % 8) (omega arith))

pub get-cons_low : (v : ℕ) (b : Bitmap) (i : ℕ) → i < 8 → get (v ∷ b) i ≡ test_bit v i
get-cons_low v b i h =
    let q : i / 8 ≡ 0 = omega arith in
    let r : i % 8 ≡ i = omega arith in get-test_bit (v ∷ b) i ∙ rw (q, r)

pub get-cons_high : (v : ℕ) (b : Bitmap) (i : ℕ) → get (v ∷ b) (i + 8) ≡ get b i
get-cons_high v b i =
    let q : (i + 8) / 8 ≡ suc (i / 8) = omega arith in
    let r : (i + 8) % 8 ≡ i % 8 = omega arith in
    get-test_bit (v ∷ b) (i + 8) ∙ rw (q, r) (sym (get-test_bit b i))

pub get-beyond : (b : Bitmap) (i : ℕ) → length b * 8 ≤ i → get b i ≡ false
unfolding get
get-beyond b i h = ground arith

pub byte-lt : (b : Bitmap) (i : ℕ) → IsBitmap b → get_or b i 0 < 256
byte-lt b i h = All-get_or (λ v. v < 256) b i 0 h (omega arith)

pub get-new : (n i : ℕ) → get (new n) i ≡ false
unfolding new
get-new n i =
    get-test_bit _ i
    ∙ rw (get_or-replicate {A = ℕ} ((n + 7) / 8) (i / 8) 0) (test_bit-zero (i % 8) (omega arith))

pub extend-IsBitmap : (b : Bitmap) (i : ℕ) → IsBitmap b → IsBitmap (extend b i)
unfolding extend
extend-IsBitmap b i h =
    let zeros = All-replicate (λ v. v < 256) (i / 8 + 1 - length b) 0 (omega arith) in
    ground (arith, All-append (λ v. v < 256) b _ h zeros)

extend-get_or : (b : Bitmap) (i j : ℕ) → get_or (extend b i) j 0 ≡ get_or b j 0
unfolding extend
extend-get_or b i j = ground (arith, get_or-append_replicate b (i / 8 + 1 - length b) j 0)

pub get-extend : (b : Bitmap) (i j : ℕ) → get (extend b i) j ≡ get b j
get-extend b i j = get-test_bit _ j ∙ rw (extend-get_or b i (j / 8)) (sym (get-test_bit b j))

pub length-extend :
    (b : Bitmap) (i : ℕ) → (i / 8 < length (extend b i)) × (length b ≤ length (extend b i))
unfolding extend
length-extend b i =
    let k = i / 8 + 1 - length b in
    ground (arith, length-append b (replicate k 0), length-replicate {A = ℕ} k 0)

set-get_or :
    (b : Bitmap) (i k : ℕ)
    → get_or (set b i) k 0
      ≡ (if i / 8 == k then set_bit (get_or b (i / 8) 0) (i % 8) else get_or b k 0)
unfolding set
set-get_or b i k =
    get_or-set (extend b i) (i / 8) k _ 0 (length-extend b i).0
    ∙ rw (extend-get_or b i (i / 8), extend-get_or b i k)

-- Setting a bit, whether or not the bitmap has to grow, changes what is read at that bit alone.
pub get-set : (b : Bitmap) (i j : ℕ) → IsBitmap b → get (set b i) j ≡ ((i == j) || get b j)
get-set b i j h =
    get-test_bit _ j
    ∙ rw (set-get_or b i (j / 8), get-test_bit b j)
        (ground (
          arith,
          test_bit-set_bit (get_or b (i / 8) 0) (i % 8) (j % 8) (byte-lt b (i / 8) h) (omega arith)
              (omega arith),
        ))

pub set-IsBitmap : (b : Bitmap) (i : ℕ) → IsBitmap b → IsBitmap (set b i)
unfolding set
set-IsBitmap b i h =
    All-set (λ v. v < 256) _ (i / 8) _ (extend-IsBitmap b i h)
      (set_bit-lt _ (i % 8) (byte-lt (extend b i) (i / 8) (extend-IsBitmap b i h)) (omega arith))

-- Resetting a bit, also one beyond the end, changes what is read at that bit alone.
pub get-reset : (b : Bitmap) (i j : ℕ) → IsBitmap b → get (reset b i) j ≡ (not (i == j) && get b j)
unfolding reset
get-reset b i j h = elim (Bool-cases (leb (length b) (i / 8))) [
  | inl out ↦ rw out (
      ground (
        arith,
        get-test_bit b j,
        get_or-beyond b (i / 8) 0 (ground arith),
        test_bit-zero (i % 8) (omega arith),
      ))
  | inr within ↦ rw within (
      get-test_bit _ j
      ∙ rw
          (
            get_or-set b (i / 8) (j / 8) (reset_bit (get_or b (i / 8) 0) (i % 8)) 0 (ground arith),
            get-test_bit b j,
          )
          (ground (
            arith,
            test_bit-reset_bit (get_or b (i / 8) 0) (i % 8) (j % 8) (byte-lt b (i / 8) h)
                (omega arith) (omega arith),
          )))
]

pub reset-IsBitmap : (b : Bitmap) (i : ℕ) → IsBitmap b → IsBitmap (reset b i)
unfolding reset
reset-IsBitmap b i h = ground (
  arith,
  All-set (λ v. v < 256) b (i / 8) _ h (reset_bit-lt _ (i % 8) (byte-lt b (i / 8) h) (omega arith)),
)

fill_ones-length : (i n : ℕ) (b : Bitmap) → length (fill_ones i n b) ≡ length b
unfolding fill_ones
fill_ones-length i zero b = refl
fill_ones-length i (suc n) b = fill_ones-length (i + 1) n (set_elem b i 0xff) ∙ length-set b i 0xff

fill_ones-get_or :
    (i n k : ℕ) (b : Bitmap)
    → i + n ≤ length b
    → get_or (fill_ones i n b) k 0 ≡ (if leb i k && ltb k (i + n) then 0xff else get_or b k 0)
unfolding fill_ones
fill_ones-get_or i zero k b h = ground arith
fill_ones-get_or i (suc n) k b h =
    fill_ones-get_or (i + 1) n k (set_elem b i 0xff) (omega (arith, length-set b i 0xff))
    ∙ ground (arith, get_or-set b i k 0xff 0)

fill_ones-IsBitmap : (i n : ℕ) (b : Bitmap) → IsBitmap b → IsBitmap (fill_ones i n b)
unfolding fill_ones
fill_ones-IsBitmap i zero b h = h
fill_ones-IsBitmap i (suc n) b h =
    fill_ones-IsBitmap (i + 1) n _ (All-set (λ v. v < 256) b i 0xff h (omega arith))

set_range-IsBitmap : (i n : ℕ) (b : Bitmap) → IsBitmap b → IsBitmap (set_range i n b)
unfolding set_range
set_range-IsBitmap i zero b h = h
set_range-IsBitmap i (suc n) b h = set_range-IsBitmap (i + 1) n _ (set-IsBitmap b i h)

get-set_range :
    (i n j : ℕ) (b : Bitmap)
    → IsBitmap b
    → get (set_range i n b) j ≡ ((leb i j && ltb j (i + n)) || get b j)
unfolding set_range
get-set_range i zero j b h = ground arith
get-set_range i (suc n) j b h =
    get-set_range (i + 1) n j (set b i) (set-IsBitmap b i h) ∙ ground (arith, get-set b i j h)

get-fill_ones :
    (n j : ℕ) (b : Bitmap) → 0 + n ≤ length b → get (fill_ones 0 n b) j ≡ (ltb j (n * 8) || get b j)
get-fill_ones n j b h =
    get-test_bit _ j
    ∙ rw (fill_ones-get_or 0 n (j / 8) b h, get-test_bit b j)
        (ground (arith, test_bit-ones (j % 8) (omega arith)))

-- SetMultiple(n) sets the bits below `n`, and no other.
pub get-set_multiple :
    (b : Bitmap) (n j : ℕ) → IsBitmap b → get (set_multiple b n) j ≡ (ltb j n || get b j)
unfolding set_multiple
get-set_multiple b n j h =
    get-set_range (n / 8 * 8) (n % 8) j _ (fill_ones-IsBitmap 0 (n / 8) _ (extend-IsBitmap b n h))
    ∙ ground (
      arith,
      get-fill_ones (n / 8) j (extend b n) (omega (arith, length-extend b n)),
      get-extend b n j,
    )

pub set_multiple-IsBitmap : (b : Bitmap) (n : ℕ) → IsBitmap b → IsBitmap (set_multiple b n)
unfolding set_multiple
set_multiple-IsBitmap b n h =
    set_range-IsBitmap (n / 8 * 8) (n % 8) _
      (fill_ones-IsBitmap 0 (n / 8) _ (extend-IsBitmap b n h))
