-- ===== src/Prelude/Slices.antt =====
-- Go's `copy` into a slice, and reading after it.
use Prim.Native.Nat.{ℕ, zero, suc, ◌+◌, ◌-◌, ◌≤◌, ◌<◌}
use mathlib.Core.Path.{◌≡◌, refl, sym, ap, ◌∙◌}
use mathlib.Core.List.{List, [], ◌∷◌}
use native.Mathlib.Omega.{arith}
use storrent.Prelude.Tests.{ltb, if◌then◌else◌}
use storrent.Prelude.Lists.{length, get_or, take, drop}

module _ {A : Type 0} where
  -- Go's `copy(dst[off:], src)` for `off` at most `len(dst)`: it stops at the end of either.
  abbrev pub copy_at : List A → ℕ → List A → List A
  copy_at [] off src = []
  copy_at (x ∷ dst) zero [] = x ∷ dst
  copy_at (x ∷ dst) zero (s ∷ src) = s ∷ copy_at dst zero src
  copy_at (x ∷ dst) (suc off) src = x ∷ copy_at dst off src

  pub length-copy_at :
      (dst : List A) (off : ℕ) (src : List A) → length (copy_at dst off src) ≡ length dst
  length-copy_at [] off src = refl
  length-copy_at (x ∷ dst) zero [] = refl
  length-copy_at (x ∷ dst) zero (s ∷ src) = ap suc (length-copy_at dst zero src)
  length-copy_at (x ∷ dst) (suc off) src = ap suc (length-copy_at dst off src)

  pub get_or-copy_at :
      (dst : List A) (off : ℕ) (src : List A) (j : ℕ) (d : A)
      → off + length src ≤ length dst
      → get_or (copy_at dst off src) j d ≡ (
          if ltb j off
          then get_or dst j d
          else (if ltb j (off + length src) then get_or src (j - off) d else get_or dst j d))
  get_or-copy_at [] off [] j d h = ground arith
  get_or-copy_at [] off (s ∷ src) j d h = absurd (omega arith)
  get_or-copy_at (x ∷ dst) zero [] j d h = ground arith
  get_or-copy_at (x ∷ dst) zero (s ∷ src) zero d h = ground arith
  get_or-copy_at (x ∷ dst) zero (s ∷ src) (suc j) d h =
      let p : j - 0 ≡ j = omega arith in
      let q : suc j - 0 ≡ suc j = omega arith in
      rw q (ground (arith, rw p at (get_or-copy_at dst zero src j d (omega arith))))
  get_or-copy_at (x ∷ dst) (suc off) src zero d h = ground arith
  get_or-copy_at (x ∷ dst) (suc off) src (suc j) d h =
      let q : suc j - suc off ≡ j - off = omega arith in
      rw q (ground (arith, get_or-copy_at dst off src j d (omega arith)))

  pub get_or-take : (n j : ℕ) (xs : List A) (d : A) → j < n → get_or (take n xs) j d ≡ get_or xs j d
  get_or-take zero j xs d h = absurd (omega arith)
  get_or-take (suc n) j [] d h = refl
  get_or-take (suc n) zero (x ∷ xs) d h = refl
  get_or-take (suc n) (suc j) (x ∷ xs) d h = get_or-take n j xs d (omega arith)

  pub get_or-drop : (n j : ℕ) (xs : List A) (d : A) → get_or (drop n xs) j d ≡ get_or xs (n + j) d
  get_or-drop zero j xs d = ap (λ k. get_or xs k d) (omega arith)
  get_or-drop (suc n) j [] d = refl
  get_or-drop (suc n) j (x ∷ xs) d =
      let e : suc n + j ≡ suc (n + j) = omega arith in rw e (get_or-drop n j xs d)

  drop-nil : (n : ℕ) → drop {A = A} n [] ≡ []
  drop-nil zero = refl
  drop-nil (suc n) = refl

  pub drop-add : (n k : ℕ) (xs : List A) → drop (n + k) xs ≡ drop k (drop n xs)
  drop-add zero k xs = ap (λ m. drop m xs) (omega arith)
  drop-add (suc n) k [] = drop-nil (suc n + k) ∙ sym (drop-nil k)
  drop-add (suc n) k (x ∷ xs) =
      let e : suc n + k ≡ suc (n + k) = omega arith in rw e (drop-add n k xs)
