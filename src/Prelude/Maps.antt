-- ===== src/Prelude/Maps.antt =====
-- Maps with numbers as keys, as association lists.
use Prim.Native.Nat.{ℕ}
use mathlib.Core.Path.{◌≡◌, refl}
use mathlib.Core.Option.{Option, none, some}
use mathlib.Core.List.{List, [], ◌∷◌}
use native.Mathlib.Omega.{arith}
use storrent.Prelude.Tests.{◌==◌, if◌then◌else◌}

module _ {A : Type 0} where
  unfoldable pub delete : ℕ → List (ℕ × A) → List (ℕ × A)
  delete key [] = []
  delete key ((i, a) ∷ entries) =
      let others = delete key entries in if i == key then others else (i, a) ∷ others

  unfoldable pub lookup : ℕ → List (ℕ × A) → Option A
  lookup key [] = none
  lookup key ((i, a) ∷ entries) =
      let later = lookup key entries in if i == key then some a else later

  unfoldable pub insert : ℕ → A → List (ℕ × A) → List (ℕ × A)
  insert key a [] = (key, a) ∷ []
  insert key a ((i, b) ∷ entries) =
      let later = insert key a entries in if i == key then (key, a) ∷ entries else (i, b) ∷ later

  pub lookup-delete :
      (key i : ℕ) (entries : List (ℕ × A))
      → lookup i (delete key entries) ≡ (if key == i then none else lookup i entries)
  unfolding lookup delete
  lookup-delete key i [] = ground arith
  lookup-delete key i ((j, b) ∷ entries) = ground (arith, lookup-delete key i entries)

  pub lookup-insert :
      (key i : ℕ) (a : A) (entries : List (ℕ × A))
      → lookup i (insert key a entries) ≡ (if key == i then some a else lookup i entries)
  unfolding lookup insert
  lookup-insert key i a [] = refl
  lookup-insert key i a ((j, b) ∷ entries) = ground (arith, lookup-insert key i a entries)
