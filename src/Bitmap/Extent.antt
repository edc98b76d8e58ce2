-- ===== src/Bitmap/Extent.antt =====
-- How many bits of a bitmap are set, and where the last of them is.
use storrent.Prelude.{
  ℕ, zero, suc, ◌+◌, ◌-◌, ◌*◌, ◌/◌, ◌%◌, ◌≤◌, ◌<◌, ◌≡◌, refl, ◌≢◌, true, false, [], ◌∷◌, ltb, ◌==◌,
  length, get_or, arith, ltb→lt, Bool-cases, inl, inr, ◌∙◌,
}
use storrent.Bitmap.{Bitmap, IsBitmap, get, count, len_below, len}
use storrent.Bitmap.Bits.{
  test_bit, test_bit-zero, bit, ones_below, ones_count8-ones_below, trailing_zeros8,
  trailing_zeros8_set, trailing_zeros8_above,
}
use storrent.Bitmap.Updates.{get-cons_low, get-cons_high, get-test_bit, get-beyond, byte-lt}

-- The bits below `n` that are set, counted.
abbrev pub count_below : ℕ → Bitmap → ℕ
count_below zero b = 0
count_below (suc n) b = count_below n b + bit (get b n)

count_below-cons_low : (n v : ℕ) (b : Bitmap) → n ≤ 8 → count_below n (v ∷ b) ≡ ones_below n v
count_below-cons_low zero v b h = refl
count_below-cons_low (suc n) v b h =
    rw (count_below-cons_low n v b (omega arith), get-cons_low v b n h)

count_below-cons :
    (n v : ℕ) (b : Bitmap) → count_below (8 + n) (v ∷ b) ≡ ones_below 8 v + count_below n b
count_below-cons zero v b = rw (count_below-cons_low 8 v b (omega arith)) (omega arith)
count_below-cons (suc n) v b =
    let e : 8 + suc n ≡ suc (n + 8) = omega arith in
    let e' : n + 8 ≡ 8 + n = omega arith in
    rw (e, get-cons_high v b n, e', count_below-cons n v b) (omega arith)

-- Count() is the number of bits that read as set.
pub count-count_below : (b : Bitmap) → IsBitmap b → count b ≡ count_below (length b * 8) b
unfolding count
count-count_below [] h = refl
count-count_below (v ∷ b) h =
    let e : suc (length b) * 8 ≡ 8 + length b * 8 = omega arith in
    rw (
      e,
      count_below-cons (length b * 8) v b,
      ones_count8-ones_below v h.0,
      count-count_below b h.1,
    )

-- What Len means of a number: no bit is set from there on, and the one before it is set.
abbrev IsLen : ℕ → ℕ → Bitmap → Type 0
IsLen end l b =
    ((j : ℕ) → l ≤ j → j < end → get b j ≡ false) × (l ≢ 0 → get b (l - 1) ≡ true) × (l ≤ end)

zero_byte-IsLen :
    (i l : ℕ) (b : Bitmap) → get_or b i 0 ≡ 0 → IsLen (i * 8) l b → IsLen (suc i * 8) l b
zero_byte-IsLen i l b z h = (clear, h.1, omega arith)
  where
    clear : (j : ℕ) → l ≤ j → j < suc i * 8 → get b j ≡ false
    clear j lo hi = elim (Bool-cases (ltb j (i * 8))) [
      | inl old ↦ h.0 j lo (ltb→lt _ _ old)
      | inr new ↦
          let q : j / 8 ≡ i = ground arith in
          get-test_bit b j ∙ rw (q, z) (test_bit-zero (j % 8) (omega arith))
    ]

last_byte-IsLen :
    (i : ℕ) (b : Bitmap)
    → IsBitmap b
    → get_or b i 0 ≢ 0
    → IsLen (suc i * 8) (i * 8 + 8 - trailing_zeros8 (get_or b i 0)) b
last_byte-IsLen i b h nz = (clear, λ _. top, omega arith)
  where
    v : ℕ
    v = get_or b i 0

    found : (trailing_zeros8 v < 8) × (test_bit v (7 - trailing_zeros8 v) ≡ true)
    found = trailing_zeros8_set v (byte-lt b i h) nz

    clear : (j : ℕ) → i * 8 + 8 - trailing_zeros8 v ≤ j → j < suc i * 8 → get b j ≡ false
    clear j lo hi =
        let q : j / 8 ≡ i = omega (arith, found.0) in
        get-test_bit b j
        ∙ rw q
            (trailing_zeros8_above v (j % 8) (byte-lt b i h) (omega arith) (omega (arith, found.0)))

    top : get b (i * 8 + 8 - trailing_zeros8 v - 1) ≡ true
    top =
        let q : (i * 8 + 8 - trailing_zeros8 v - 1) / 8 ≡ i = omega (arith, found.0) in
        let r : (i * 8 + 8 - trailing_zeros8 v - 1) % 8 ≡ 7 - trailing_zeros8 v =
          omega (arith, found.0) in
        get-test_bit b _ ∙ rw (q, r) found.1

len_below-IsLen : (i : ℕ) (b : Bitmap) → IsBitmap b → IsLen (i * 8) (len_below i b) b
unfolding len_below
len_below-IsLen zero b h = (λ j lo hi. absurd (omega arith), λ e. absurd (e refl), omega arith)
len_below-IsLen (suc i) b h = elim (Bool-cases (get_or b i 0 == 0)) [
  | inl z ↦ rw z (zero_byte-IsLen i _ b (ground arith) (len_below-IsLen i b h))
  | inr nz ↦ rw nz (last_byte-IsLen i b h (ground arith))
]

len-len_below : (b : Bitmap) → len b ≡ len_below (length b) b
unfolding len len_below
len-len_below [] = refl
len-len_below (v ∷ b) = ground arith

-- Len() is the number of the last set bit, plus one, and 0 where no bit is set.
pub len_lem :
    (b : Bitmap)
    → IsBitmap b
    → ((j : ℕ) → len b ≤ j → get b j ≡ false) × (len b ≢ 0 → get b (len b - 1) ≡ true)
len_lem b h = rw (len-len_below b) (clear, (len_below-IsLen (length b) b h).1)
  where
    clear : (j : ℕ) → len_below (length b) b ≤ j → get b j ≡ false
    clear j lo = elim (Bool-cases (ltb j (length b * 8))) [
      | inl within ↦ (len_below-IsLen (length b) b h).0 j lo (ltb→lt _ _ within)
      | inr beyond ↦ get-beyond b j (ground arith)
    ]
