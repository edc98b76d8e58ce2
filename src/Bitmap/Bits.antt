-- ===== src/Bitmap/Bits.antt =====
-- One byte of a bitmap: the tests and masks of bitmap.go, and what it uses of math/bits, with
-- their laws. Each law is checked on every byte.
use storrent.Prelude.{
  ℕ, zero, suc, ◌+◌, ◌-◌, ◌*◌, ◌/◌, ◌%◌, ◌^◌, ◌≤◌, ◌<◌, ◌≡◌, refl, ◌≢◌, ◌∙◌, sym, Bool, true, false,
  not, ◌&&◌, ◌||◌, ◌==◌, ltb, leb, bit_and, bit_or, bit_xor, for_all, for_all_below, if◌then◌else◌,
  ==_iff, arith,
}

-- 1 << (7 - uint8(i & 7)), for j = i & 7
abbrev mask : ℕ → ℕ
mask j = 2 ^ (7 - j)

-- v & mask != 0
unfoldable pub test_bit : ℕ → ℕ → Bool
test_bit v j = not (bit_and v (mask j) == 0)

-- v | mask
unfoldable pub set_bit : ℕ → ℕ → ℕ
set_bit v j = bit_or v (mask j)

-- v & ^mask: the complement of a byte is its xor with 0xff
unfoldable pub reset_bit : ℕ → ℕ → ℕ
reset_bit v j = bit_and v (bit_xor (mask j) 0xff)

-- bits.OnesCount8
unfoldable pub ones_count8 : ℕ → ℕ
ones_count8 v =
    v % 2 + v / 2 % 2 + v / 4 % 2 + v / 8 % 2 + v / 16 % 2 + v / 32 % 2 + v / 64 % 2 + v / 128 % 2

zeros_below : ℕ → ℕ → ℕ
zeros_below zero v = 0
zeros_below (suc k) v = let more = zeros_below k (v / 2) in if v % 2 == 1 then 0 else suc more

-- bits.TrailingZeros8, which is 8 at 0
unfoldable pub trailing_zeros8 : ℕ → ℕ
unfolding zeros_below
trailing_zeros8 v = zeros_below 8 v

-- 0xFF << (8 - r), a byte
unfoldable pub top_ones : ℕ → ℕ
top_ones r = 0xff * 2 ^ (8 - r) % 256

abbrev same : Bool → Bool → Bool
same true b = b
same false b = not b

same→eq : (a b : Bool) → same a b ≡ true → a ≡ b
same→eq a b h = ground arith

and_left : (a b : Bool) → (a && b) ≡ true → a ≡ true
and_left a b h = ground arith

and_right : (a b : Bool) → (a && b) ≡ true → b ≡ true
and_right a b h = ground arith

-- A law of a byte and two bit numbers, from its table.
module _ (p : ℕ → ℕ → ℕ → Bool) where
  by_table3 :
      for_all 0 256 (λ v. for_all 0 8 (λ j. for_all 0 8 (λ k. p v j k))) ≡ true
      → (v j k : ℕ) → v < 256
      → j < 8
      → k < 8
      → p v j k ≡ true
  by_table3 t v j k hv hj hk =
      for_all_below 8 _ k (for_all_below 8 _ j (for_all_below 256 _ v t hv) hj) hk

module _ (p : ℕ → ℕ → Bool) where
  by_table2 :
      for_all 0 256 (λ v. for_all 0 8 (λ k. p v k)) ≡ true
      → (v k : ℕ) → v < 256
      → k < 8
      → p v k ≡ true
  by_table2 t v k hv hk = for_all_below 8 _ k (for_all_below 256 _ v t hv) hk

pub test_bit-set_bit :
    (v j k : ℕ) → v < 256 → j < 8 → k < 8 → test_bit (set_bit v j) k ≡ ((j == k) || test_bit v k)
unfolding for_all test_bit set_bit
test_bit-set_bit v j k hv hj hk = same→eq _ _ (
    by_table3 (λ v j k. same (test_bit (set_bit v j) k) ((j == k) || test_bit v k)) refl v j k hv hj
      hk)

pub set_bit-lt : (v j : ℕ) → v < 256 → j < 8 → set_bit v j < 256
unfolding for_all set_bit
set_bit-lt v j hv hj = ground (arith, by_table2 (λ v j. ltb (set_bit v j) 256) refl v j hv hj)

pub test_bit-reset_bit :
    (v j k : ℕ)
    → v < 256
    → j < 8
    → k < 8
    → test_bit (reset_bit v j) k ≡ (not (j == k) && test_bit v k)
unfolding for_all test_bit reset_bit
test_bit-reset_bit v j k hv hj hk = same→eq _ _ (
    by_table3 (λ v j k. same (test_bit (reset_bit v j) k) (not (j == k) && test_bit v k)) refl v j k
      hv hj hk)

pub reset_bit-lt : (v j : ℕ) → v < 256 → j < 8 → reset_bit v j < 256
unfolding for_all reset_bit
reset_bit-lt v j hv hj = ground (arith, by_table2 (λ v j. ltb (reset_bit v j) 256) refl v j hv hj)

pub test_bit-zero : (k : ℕ) → k < 8 → test_bit 0 k ≡ false
unfolding for_all test_bit
test_bit-zero k h = ground (arith, for_all_below 8 (λ k. not (test_bit 0 k)) k refl h)

pub test_bit-ones : (k : ℕ) → k < 8 → test_bit 0xff k ≡ true
unfolding for_all test_bit
test_bit-ones k h = for_all_below 8 (λ k. test_bit 0xff k) k refl h

pub test_bit-top_ones : (r k : ℕ) → r < 8 → k < 8 → test_bit (top_ones r) k ≡ ltb k r
unfolding for_all test_bit top_ones
test_bit-top_ones r k hr hk = same→eq _ _ (
    for_all_below 8 (λ k. same (test_bit (top_ones r) k) (ltb k r)) k
      (for_all_below 8 (λ r. for_all 0 8 (λ k. same (test_bit (top_ones r) k) (ltb k r))) r refl hr)
      hk)

pub top_ones-lt : (r : ℕ) → top_ones r < 256
unfolding top_ones
top_ones-lt r = omega arith

abbrev pub bit : Bool → ℕ
bit true = 1
bit false = 0

-- The first `n` bits of a byte, counted.
abbrev pub ones_below : ℕ → ℕ → ℕ
ones_below zero v = 0
ones_below (suc n) v = ones_below n v + bit (test_bit v n)

pub ones_count8-ones_below : (v : ℕ) → v < 256 → ones_count8 v ≡ ones_below 8 v
unfolding for_all test_bit ones_count8
ones_count8-ones_below v h =
    (==_iff _ _).0 (for_all_below 256 (λ v. ones_count8 v == ones_below 8 v) v refl h)

-- The value of the first `n` bits, top bit first.
abbrev value_below : ℕ → ℕ → ℕ
value_below zero v = 0
value_below (suc n) v = value_below n v + bit (test_bit v n) * 2 ^ (7 - n)

value_lem : (v : ℕ) → v < 256 → v ≡ value_below 8 v
unfolding for_all test_bit
value_lem v h = (==_iff _ _).0 (for_all_below 256 (λ v. v == value_below 8 v) v refl h)

value_below-ext :
    (n v w : ℕ)
    → n ≤ 8
    → ((k : ℕ) → k < 8 → test_bit v k ≡ test_bit w k)
    → value_below n v ≡ value_below n w
value_below-ext zero v w h e = refl
value_below-ext (suc n) v w h e = rw (e n (omega arith), value_below-ext n v w (omega arith) e)

-- A byte is determined by its bits.
pub byte_ext :
    (v w : ℕ) → v < 256 → w < 256 → ((k : ℕ) → k < 8 → test_bit v k ≡ test_bit w k) → v ≡ w
byte_ext v w hv hw e = value_lem v hv ∙ value_below-ext 8 v w (omega arith) e ∙ sym (value_lem w hw)

-- The lowest bit that is set stands at 7 - trailing_zeros8.
pub trailing_zeros8_set :
    (v : ℕ)
    → v < 256
    → v ≢ 0
    → (trailing_zeros8 v < 8) × (test_bit v (7 - trailing_zeros8 v) ≡ true)
unfolding for_all test_bit trailing_zeros8
trailing_zeros8_set v hv h = ground (
  arith,
  for_all_below 256
      (λ v. (v == 0) || (ltb (trailing_zeros8 v) 8 && test_bit v (7 - trailing_zeros8 v))) v refl
      hv,
)

pub trailing_zeros8_above :
    (v k : ℕ) → v < 256 → k < 8 → 7 < k + trailing_zeros8 v → test_bit v k ≡ false
unfolding for_all test_bit trailing_zeros8
trailing_zeros8_above v k hv hk h =
    ground
      (arith, by_table2 (λ v k. leb (k + trailing_zeros8 v) 7 || not (test_bit v k)) refl v k hv hk)
