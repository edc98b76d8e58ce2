-- ===== src/Prelude/Ranges.antt =====
-- Tests over ranges of numbers: a claim about every number below a small bound, checked by
-- evaluation, and the loop `for i := lo; i < lo+n; i++ { if !p(i) { return false } }; return true`.
use Prim.Native.Nat.{ℕ, zero, suc, ◌+◌, ◌≤◌, ◌<◌}
use mathlib.Core.Path.{◌≡◌, refl}
use mathlib.Core.Bool.{Bool, true, false}
use native.Mathlib.Omega.{arith}
use storrent.Prelude.Tests.{if◌then◌else◌}

unfoldable pub for_all : ℕ → ℕ → (ℕ → Bool) → Bool
for_all lo zero p = true
for_all lo (suc n) p = if p lo then for_all (lo + 1) n p else false

pub for_all_sound :
    (lo n : ℕ) (p : ℕ → Bool) (x : ℕ) → for_all lo n p ≡ true → lo ≤ x → x < lo + n → p x ≡ true
unfolding for_all
for_all_sound lo zero p x h ge lt = absurd (omega arith)
for_all_sound lo (suc n) p x h ge lt = ground (arith, for_all_sound (lo + 1) n p x)

pub for_all_complete :
    (lo n : ℕ) (p : ℕ → Bool) → ((x : ℕ) → lo ≤ x → x < lo + n → p x ≡ true) → for_all lo n p ≡ true
unfolding for_all
for_all_complete lo zero p h = refl
for_all_complete lo (suc n) p h =
    rw (h lo (omega arith) (omega arith))
      (for_all_complete (lo + 1) n p (λ x ge lt. h x (omega arith) (omega arith)))

-- A test that was run on every number below `n` holds of each.
pub for_all_below : (n : ℕ) (p : ℕ → Bool) (x : ℕ) → for_all 0 n p ≡ true → x < n → p x ≡ true
for_all_below n p x h lt = for_all_sound 0 n p x h (omega arith) (omega arith)
