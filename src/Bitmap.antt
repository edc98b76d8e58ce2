-- ===== src/Bitmap.antt =====
-- bitmap/bitmap.go: a bitmap is the list of its bytes, bit 0 being the top bit of the first byte.
-- A nil slice and an empty one are both the empty list, since no operation tells them apart but
-- `Copy`, which keeps a nil. Bit numbers are natural numbers: every caller converts them from
-- unsigned integers or counts. `i >> 3` is `i / 8` and `i & 7` is `i % 8`.
pub mod Bits
pub mod Updates
pub mod Queries
pub mod Extent
pub mod Iteration
mod Tests
use storrent.Prelude.{
  ℕ, zero, suc, ◌+◌, ◌-◌, ◌*◌, ◌/◌, ◌%◌, ◌<◌, Bool, true, false, not, ◌||◌, List, [], ◌∷◌, ◌++◌,
  ltb, leb, ◌==◌, if◌then◌else◌, length, get_or, set as set_elem, replicate, for_all, All,
}
use Bits.{test_bit, set_bit, reset_bit, ones_count8, trailing_zeros8, top_ones}

abbrev pub Bitmap : Type 0
Bitmap = List ℕ

-- Every element is a byte.
abbrev pub IsBitmap : Bitmap → Type 0
IsBitmap = All (λ v. v < 256)

unfoldable pub new : ℕ → Bitmap
new n = replicate ((n + 7) / 8) 0

unfoldable pub get : Bitmap → ℕ → Bool
get b i = if leb (length b) (i / 8) then false else test_bit (get_or b (i / 8) 0) (i % 8)

unfoldable pub extend : Bitmap → ℕ → Bitmap
extend b i = if leb (length b) (i / 8) then b ++ replicate (i / 8 + 1 - length b) 0 else b

unfoldable pub set : Bitmap → ℕ → Bitmap
unfolding extend
set b i = let b' = extend b i in set_elem b' (i / 8) (set_bit (get_or b' (i / 8) 0) (i % 8))

unfoldable pub reset : Bitmap → ℕ → Bitmap
reset b i =
    if leb (length b) (i / 8)
    then b
    else set_elem b (i / 8) (reset_bit (get_or b (i / 8) 0) (i % 8))

unfoldable pub copy : Bitmap → Bitmap
copy [] = []
copy (v ∷ b) = v ∷ copy b

-- The first loop of SetMultiple, from byte `i` for `n` rounds.
fill_ones : ℕ → ℕ → Bitmap → Bitmap
fill_ones i zero b = b
fill_ones i (suc n) b = fill_ones (i + 1) n (set_elem b i 0xff)

-- Its second loop, from bit `i` for `n` rounds.
set_range : ℕ → ℕ → Bitmap → Bitmap
set_range i zero b = b
set_range i (suc n) b = set_range (i + 1) n (set b i)

unfoldable pub set_multiple : Bitmap → ℕ → Bitmap
unfolding fill_ones set_range set
set_multiple b n = set_range (n / 8 * 8) (n % 8) (fill_ones 0 (n / 8) (extend b n))

unfoldable pub empty : Bitmap → Bool
empty [] = true
empty (v ∷ b) = if not (v == 0) then false else empty b

unfoldable pub all : Bitmap → ℕ → Bool
unfolding for_all
all b n =
    if n == 0
    then true
    else if ltb (length b) (n / 8)
    then false
    else if not (for_all 0 (n / 8) (λ i. get_or b i 0 == 0xff))
    then false
    else if n % 8 == 0
    then true
    else not (ltb (length b) (n / 8 + 1) || not (get_or b (n / 8) 0 == top_ones (n % 8)))

unfoldable pub count : Bitmap → ℕ
count [] = 0
count (v ∷ b) = ones_count8 v + count b

-- The loop of Len, over the bytes below `i`, highest first.
len_below : ℕ → Bitmap → ℕ
len_below zero b = 0
len_below (suc i) b =
    if not (get_or b i 0 == 0) then i * 8 + 8 - trailing_zeros8 (get_or b i 0) else len_below i b

unfoldable pub len : Bitmap → ℕ
unfolding len_below
len b = if length b == 0 then 0 else len_below (length b) b

unfoldable pub equal_value : Bitmap → Bitmap → Bool
unfolding for_all
equal_value b1 b2 =
    let n = if ltb (length b2) (length b1) then length b2 else length b1 in
    if not (for_all 0 n (λ i. get_or b1 i 0 == get_or b2 i 0))
    then false
    else if not (for_all n (length b1 - n) (λ i. get_or b1 i 0 == 0))
    then false
    else for_all n (length b2 - n) (λ i. get_or b2 i 0 == 0)

-- What the body of a loop over AllSet does with a bit: its new state, and whether it goes on.
module _ {S : Type 0} (yield : S → ℕ → S × Bool) where
  -- `if !c { return }`
  abbrev pub resume : S × Bool → (S → S × Bool) → S × Bool
  resume (s, true) rest = rest s
  resume (s, false) rest = (s, false)

  -- The inner loop, over the bits of byte `i` from `j` for `n` rounds.
  visit_bits : ℕ → ℕ → ℕ → ℕ → S → S × Bool
  visit_bits v i j zero s = (s, true)
  visit_bits v i j (suc n) s = elim (test_bit v j) [
    | true ↦ resume (yield s (i * 8 + j)) (visit_bits v i (j + 1) n)
    | false ↦ visit_bits v i (j + 1) n s
  ]

  visit_bytes : ℕ → Bitmap → S → S × Bool
  unfolding visit_bits
  visit_bytes i [] s = (s, true)
  visit_bytes i (v ∷ b) s =
      let skip = visit_bytes (i + 1) b s in
      if v == 0 then skip else resume (visit_bits v i 0 8 s) (visit_bytes (i + 1) b)

  unfoldable pub all_set : Bitmap → S → S × Bool
  unfolding visit_bytes
  all_set b s = visit_bytes 0 b s
