-- ===== src/Hash.antt =====
-- hash/hash.go: 20-byte hashes, as lists of bytes. `none` is the panic of Equal on a hash of another
-- length. Parsing and printing, which call encoding/hex and encoding/base32, are not modelled.
mod Tests
use storrent.Prelude.{
  ℕ, zero, suc, ◌+◌, ◌≡◌, refl, ◌↔◌, Bool, true, false, not, ◌||◌, List, [], ◌∷◌, Option, none,
  some, ◌==◌, ==_iff, for_all_below, if◌then◌else◌, length, get_or, for_all, for_all_sound,
  for_all_complete, arith, ap, eq→==, ◌<◌, ◌≤◌, Bool-cases, inl, inr,
}

-- The loop over the 20 bytes stops at the first that differs.
unfoldable pub equal : List ℕ → List ℕ → Option Bool
unfolding for_all
equal h k =
    if not (length h == 20) || not (length k == 20)
    then none
    else some (for_all 0 20 (λ i. get_or h i 0 == get_or k i 0))

lists_eq :
    (h k : List ℕ)
    → length h ≡ length k
    → ((i : ℕ) → i < length h → get_or h i 0 ≡ get_or k i 0)
    → h ≡ k
lists_eq [] [] l e = refl
lists_eq [] (y ∷ k) l e = absurd (omega arith)
lists_eq (x ∷ h) [] l e = absurd (omega arith)
lists_eq (x ∷ h) (y ∷ k) l e =
    cc (e 0 (omega arith), lists_eq h k (omega arith) (λ i lt. e (suc i) (omega arith)))

-- On hashes of the right length Equal does not panic, and tells whether they are the same.
pub equal_iff :
    (h k : List ℕ)
    → length h ≡ 20
    → length k ≡ 20
    → (b : Bool) × (equal h k ≡ some b) × ((b ≡ true) ↔ (h ≡ k))
unfolding equal
equal_iff h k lh lk = (
  for_all 0 20 (λ i. get_or h i 0 == get_or k i 0),
  rw (eq→== _ _ lh, eq→== _ _ lk),
  (
    λ e. lists_eq h k (omega arith) (λ i lt. at_each e i (omega arith)),
    λ e. for_all_complete 0 20 _ (λ i _ _. eq→== _ _ (ap (λ l. get_or l i 0) e)),
  ),
)
  where
    at_each :
        for_all 0 20 (λ i. get_or h i 0 == get_or k i 0) ≡ true
        → (i : ℕ) → i < 20
        → get_or h i 0 ≡ get_or k i 0
    at_each e i lt = (==_iff _ _).0 (for_all_below 20 (λ i. get_or h i 0 == get_or k i 0) i e lt)

pub equal-true : (h k : List ℕ) → equal h k ≡ some true → h ≡ k
unfolding equal
equal-true h k e =
    let lh : length h ≡ 20 = ground arith in
    let lk : length k ≡ 20 = ground arith in
    let (b, run, same) = equal_iff h k lh lk in same.0 (cc (e, run))
