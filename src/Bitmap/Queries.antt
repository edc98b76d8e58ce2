-- ===== src/Bitmap/Queries.antt =====
-- The queries of bitmap/bitmap.go, in terms of the bits that `Get` reads.
use storrent.Prelude.{
  ℕ, zero, suc, ◌+◌, ◌-◌, ◌*◌, ◌/◌, ◌%◌, ◌≤◌, ◌<◌, ◌≡◌, refl, ◌≢◌, ◌↔◌, true, false, [], ◌∷◌, ltb,
  ◌==◌, length, get_or, arith, eq→==, ltb→lt, lt→ltb, get_or-beyond, Bool-cases, inl, inr, ◌∙◌, sym,
  for_all, for_all_sound, for_all_complete,
}
use storrent.Bitmap.{Bitmap, IsBitmap, get, empty, all, equal_value}
use storrent.Bitmap.Bits.{
  test_bit, test_bit-zero, test_bit-ones, top_ones, top_ones-lt, test_bit-top_ones, byte_ext,
}
use storrent.Bitmap.Updates.{get-test_bit, get-beyond, byte-lt}

-- Two bytes of bitmaps are equal if the bitmaps read alike there.
bytes_eq :
    (b c : Bitmap) (k : ℕ)
    → IsBitmap b
    → IsBitmap c
    → ((i : ℕ) → i / 8 ≡ k → get b i ≡ get c i)
    → get_or b k 0 ≡ get_or c k 0
bytes_eq b c k hb hc e = byte_ext _ _ (byte-lt b k hb) (byte-lt c k hc) bits
  where
    bits : (j : ℕ) → j < 8 → test_bit (get_or b k 0) j ≡ test_bit (get_or c k 0) j
    bits j hj =
        let q : (k * 8 + j) / 8 ≡ k = omega arith in
        let r : (k * 8 + j) % 8 ≡ j = omega arith in
        rw (q, r) at
          (sym (get-test_bit b (k * 8 + j)) ∙ e (k * 8 + j) q ∙ get-test_bit c (k * 8 + j))

-- A byte whose bits are known.
byte_is :
    (b : Bitmap) (k w : ℕ)
    → IsBitmap b
    → w < 256
    → ((j : ℕ) → j < 8 → get b (k * 8 + j) ≡ test_bit w j)
    → get_or b k 0 ≡ w
byte_is b k w hb hw e = byte_ext _ _ (byte-lt b k hb) hw bits
  where
    bits : (j : ℕ) → j < 8 → test_bit (get_or b k 0) j ≡ test_bit w j
    bits j hj =
        let q : (k * 8 + j) / 8 ≡ k = omega arith in
        let r : (k * 8 + j) % 8 ≡ j = omega arith in
        (rw (q, r) at (sym (get-test_bit b (k * 8 + j)))) ∙ e j hj

all→get : (b : Bitmap) (n i : ℕ) → all b n ≡ true → i / 8 * 8 < n → get b i ≡ ltb i n
unfolding all
all→get b n i h lt = get-test_bit b i ∙ elim (Bool-cases (ltb (i / 8) (n / 8))) [
  | inl inner ↦ ground (
    arith,
    for_all_sound 0 (n / 8) (λ i. get_or b i 0 == 0xff) (i / 8),
    test_bit-ones (i % 8) (omega arith),
  )
  | inr last ↦
      let e : i / 8 ≡ n / 8 = ground arith in
      let l : get_or b (n / 8) 0 ≡ top_ones (n % 8) = ground arith in
      rw (e, l) (test_bit-top_ones (n % 8) (i % 8) (omega arith) (omega arith) ∙ ground arith)
]

get→all :
    (b : Bitmap) (n : ℕ)
    → IsBitmap b
    → ((i : ℕ) → i / 8 * 8 < n → get b i ≡ ltb i n)
    → all b n ≡ true
unfolding all
get→all b n hb e = ground (arith, long_enough, inner, last)
  where
    inner : for_all 0 (n / 8) (λ i. get_or b i 0 == 0xff) ≡ true
    inner = for_all_complete 0 (n / 8) _ λ k _ lt. eq→== _ _ (
        byte_is b k 0xff hb (omega arith)
          (λ j hj. e (k * 8 + j) (omega arith) ∙ ground (arith, test_bit-ones j hj)))

    last : n % 8 ≢ 0 → get_or b (n / 8) 0 ≡ top_ones (n % 8)
    last odd = byte_is b (n / 8) (top_ones (n % 8)) hb (top_ones-lt (n % 8)) (λ j hj.
        e (n / 8 * 8 + j) (omega arith)
        ∙ sym (test_bit-top_ones (n % 8) j (omega arith) hj ∙ ground arith))

    long_enough : n ≢ 0 → (n - 1) / 8 < length b
    long_enough pos = elim (Bool-cases (ltb ((n - 1) / 8) (length b))) [
      | inl long ↦ ltb→lt _ _ long
      | inr short ↦ absurd (
          cc (
            get-beyond b (n - 1) (ground arith),
            e (n - 1) (omega arith),
            lt→ltb (n - 1) n (omega arith),
          ))
    ]

-- All(n) holds exactly when, in each byte that begins before bit `n`, the bits below `n` are set
-- and the others are not.
pub all_iff :
    (b : Bitmap) (n : ℕ)
    → IsBitmap b
    → (all b n ≡ true) ↔ ((i : ℕ) → i / 8 * 8 < n → get b i ≡ ltb i n)
all_iff b n h = (λ e i lt. all→get b n i e lt, get→all b n h)

-- So a bitmap with every bit below `n` set fails All(n) if it has a bit set in the padding.
pub all-padding : (b : Bitmap) (n i : ℕ) → n ≤ i → i / 8 * 8 < n → get b i ≡ true → all b n ≡ false
all-padding b n i ge lt e = elim (Bool-cases (all b n)) [
  | inl yes_all ↦ absurd (ground (arith, all→get b n i yes_all lt))
  | inr no_all ↦ no_all
]

empty→zeros : (b : Bitmap) (k : ℕ) → empty b ≡ true → get_or b k 0 ≡ 0
unfolding empty
empty→zeros [] k e = refl
empty→zeros (v ∷ b) zero e = ground arith
empty→zeros (v ∷ b) (suc k) e = ground (arith, empty→zeros b k)

zeros→empty : (b : Bitmap) → ((k : ℕ) → get_or b k 0 ≡ 0) → empty b ≡ true
unfolding empty
zeros→empty [] e = refl
zeros→empty (v ∷ b) e = ground (arith, e 0, zeros→empty b (λ k. e (suc k)))

-- Empty() holds exactly when no bit reads as set.
empty_iff : (b : Bitmap) → IsBitmap b → (empty b ≡ true) ↔ ((i : ℕ) → get b i ≡ false)
empty_iff b h = (sound, λ e. zeros→empty b (λ k. complete e k))
  where
    sound : empty b ≡ true → (i : ℕ) → get b i ≡ false
    sound e i =
        get-test_bit b i ∙ rw (empty→zeros b (i / 8) e) (test_bit-zero (i % 8) (omega arith))

    complete : ((i : ℕ) → get b i ≡ false) → (k : ℕ) → get_or b k 0 ≡ 0
    complete e k = byte_is b k 0 h (omega arith) (λ j hj. e (k * 8 + j) ∙ sym (test_bit-zero j hj))

equal_value→bytes : (b c : Bitmap) (k : ℕ) → equal_value b c ≡ true → get_or b k 0 ≡ get_or c k 0
unfolding equal_value
equal_value→bytes b c k e = ground (
  arith,
  get_or-beyond b k 0,
  get_or-beyond c k 0,
  for_all_sound 0 (length b) (λ i. get_or b i 0 == get_or c i 0) k,
  for_all_sound 0 (length c) (λ i. get_or b i 0 == get_or c i 0) k,
  for_all_sound (length c) (length b - length c) (λ i. get_or b i 0 == 0) k,
  for_all_sound (length b) (length c - length b) (λ i. get_or c i 0 == 0) k,
)

bytes→equal_value :
    (b c : Bitmap) → ((k : ℕ) → get_or b k 0 ≡ get_or c k 0) → equal_value b c ≡ true
unfolding equal_value
bytes→equal_value b c e = ground (arith, common (length b), common (length c), left, right)
  where
    common : (n : ℕ) → for_all 0 n (λ i. get_or b i 0 == get_or c i 0) ≡ true
    common n = for_all_complete 0 n _ (λ k _ _. eq→== _ _ (e k))

    left : for_all (length c) (length b - length c) (λ i. get_or b i 0 == 0) ≡ true
    left = for_all_complete _ _ _ (λ k lo _. eq→== _ _ (e k ∙ get_or-beyond c k 0 lo))

    right : for_all (length b) (length c - length b) (λ i. get_or c i 0 == 0) ≡ true
    right = for_all_complete _ _ _ (λ k lo _. eq→== _ _ (sym (e k) ∙ get_or-beyond b k 0 lo))

-- EqualValue compares bitmaps by the bits that they read as, whatever their lengths.
pub equal_value_iff :
    (b c : Bitmap)
    → IsBitmap b
    → IsBitmap c
    → (equal_value b c ≡ true) ↔ ((i : ℕ) → get b i ≡ get c i)
equal_value_iff b c hb hc = (
  λ e i. get-test_bit b i ∙ rw (equal_value→bytes b c (i / 8) e) (sym (get-test_bit c i)),
  λ e. bytes→equal_value b c (λ k. bytes_eq b c k hb hc (λ i _. e i)),
)
