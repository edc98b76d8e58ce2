-- ===== src/Bitmap/Tests.antt =====
-- Runs of bitmap.go on small bitmaps, and its theorems at concrete inputs.
use storrent.Prelude.{
  ◌+◌, ◌-◌, ◌/◌, ◌*◌, ℕ, ◌≤◌, ◌<◌, ◌≡◌, refl, ◌≢◌, ◌↔◌, Bool, true, false, List, [], ◌∷◌, ◌||◌,
  ◌&&◌, not, ◌==◌, ltb, arith, length,
}
use storrent.Bitmap.{
  Bitmap, IsBitmap, new, get, set, reset, set_multiple, all, count, len, equal_value, all_set,
}
use storrent.Bitmap.Bits.{test_bit, set_bit, ones_count8, trailing_zeros8, top_ones}
use storrent.Bitmap.Updates.{get-set, get-reset, get-set_multiple}
use storrent.Bitmap.Queries.{all_iff, all-padding, equal_value_iff}
use storrent.Bitmap.Extent.{count_below, count-count_below, len_lem}
use storrent.Bitmap.Iteration.{visit, all_set-visit}

-- Bits 1, 4 and 11.
abbrev sparse : Bitmap
sparse = 0x48 ∷ 0x10 ∷ []

sparse-IsBitmap : IsBitmap sparse
sparse-IsBitmap = omega arith

set_beyond : set sparse 23 ≡ 0x48 ∷ 0x10 ∷ 0x01 ∷ []
unfolding set set_bit
set_beyond = refl

set_many : set_multiple [] 11 ≡ 0xff ∷ 0xe0 ∷ []
unfolding set_multiple set_bit
set_many = refl

all_eleven : all (0xff ∷ 0xe0 ∷ []) 11 ≡ true
unfolding all top_ones
all_eleven = refl

sizes : len sparse + count sparse + length (new 9) ≡ 17
unfolding len count new ones_count8 trailing_zeros8
sizes = refl

-- Collects the bits handed out until a bit number above 4 comes.
abbrev collect : List ℕ → ℕ → List ℕ × Bool
collect seen i = (i ∷ seen, ltb i 4)

collected : all_set collect sparse [] ≡ (4 ∷ 1 ∷ [], false)
unfolding all_set test_bit
collected = refl

get-set_example : get (set sparse 23) 4 ≡ ((23 == 4) || get sparse 4)
get-set_example = get-set sparse 23 4 sparse-IsBitmap

get-reset_example : get (reset sparse 4) 11 ≡ (not (4 == 11) && get sparse 11)
get-reset_example = get-reset sparse 4 11 sparse-IsBitmap

get-set_multiple_example : get (set_multiple sparse 10) 11 ≡ (ltb 11 10 || get sparse 11)
get-set_multiple_example = get-set_multiple sparse 10 11 sparse-IsBitmap

all_iff_example :
    (all (0xff ∷ 0xe0 ∷ []) 11 ≡ true)
    ↔ ((i : ℕ) → i / 8 * 8 < 11 → get (0xff ∷ 0xe0 ∷ []) i ≡ ltb i 11)
all_iff_example = all_iff (0xff ∷ 0xe0 ∷ []) 11 (omega arith)

get_padding : get (0xff ∷ 0xe1 ∷ []) 15 ≡ true
unfolding get test_bit
get_padding = refl

all-padding_example : all (0xff ∷ 0xe1 ∷ []) 11 ≡ false
all-padding_example = all-padding (0xff ∷ 0xe1 ∷ []) 11 15 (omega arith) (omega arith) get_padding

equal_value_iff_example :
    (equal_value sparse (0x48 ∷ 0x10 ∷ 0 ∷ []) ≡ true)
    ↔ ((i : ℕ) → get sparse i ≡ get (0x48 ∷ 0x10 ∷ 0 ∷ []) i)
equal_value_iff_example =
    equal_value_iff sparse (0x48 ∷ 0x10 ∷ 0 ∷ []) sparse-IsBitmap (omega arith)

count-count_below_example : count sparse ≡ count_below 16 sparse
count-count_below_example = count-count_below sparse sparse-IsBitmap

len_lem_example :
    ((j : ℕ) → len sparse ≤ j → get sparse j ≡ false)
    × (len sparse ≢ 0 → get sparse (len sparse - 1) ≡ true)
len_lem_example = len_lem sparse sparse-IsBitmap

all_set-visit_example : all_set collect sparse [] ≡ visit collect (get sparse) 0 16 []
all_set-visit_example = all_set-visit collect sparse []
