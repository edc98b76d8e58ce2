-- ===== src/Bitmap/Iteration.antt =====
-- The order in which AllSet hands out bits, and how it stops.
use storrent.Prelude.{
  ℕ, zero, suc, ◌+◌, ◌-◌, ◌*◌, ◌≤◌, ◌<◌, ◌≡◌, refl, Bool, true, false, [], ◌∷◌, ◌==◌, length, arith,
  Bool-cases, inl, inr, ap, ◌∙◌,
}
use storrent.Bitmap.{Bitmap, get, resume, visit_bits, visit_bytes, all_set}
use storrent.Bitmap.Bits.{test_bit, test_bit-zero}
use storrent.Bitmap.Updates.{get-cons_low, get-cons_high}

-- What follows where the body has answered: the rest, unless it asks to stop.
abbrev pub go_on {ℓ} : {S : Type ℓ} → S × Bool → (S → S × Bool) → S × Bool
go_on (s, true) rest = rest s
go_on (s, false) rest = (s, false)

module _ {S : Type 0} (yield : S → ℕ → S × Bool) where
  resume-go_on : (r : S × Bool) (rest : S → S × Bool) → resume yield r rest ≡ go_on r rest
  resume-go_on (s, true) rest = refl
  resume-go_on (s, false) rest = refl

  -- The plain loop over the numbers from `lo`, `n` of them: those that pass the test are handed
  -- out in turn, until the body asks to stop.
  abbrev pub visit : (ℕ → Bool) → ℕ → ℕ → S → S × Bool
  visit p lo zero s = (s, true)
  visit p lo (suc n) s = elim (p lo) [
    | true ↦ go_on (yield s lo) (visit p (lo + 1) n)
    | false ↦ visit p (lo + 1) n s
  ]

  visit-append :
      (p : ℕ → Bool) (lo m n : ℕ) (s : S)
      → visit p lo (m + n) s ≡ go_on (visit p lo m s) (visit p (lo + m) n)
  visit-append p lo zero n s =
      let e : lo + 0 ≡ lo = omega arith in let e' : 0 + n ≡ n = omega arith in rw (e, e')
  visit-append p lo (suc m) n s =
      let e : lo + suc m ≡ lo + 1 + m = omega arith in
      let e' : suc m + n ≡ suc (m + n) = omega arith in
      rw (e, e')
        (ground (arith, visit-append p (lo + 1) m n s, visit-append p (lo + 1) m n (yield s lo).0))

  visit_bits-visit :
      (v i j n lo : ℕ) (p : ℕ → Bool) (s : S)
      → lo ≡ i * 8 + j
      → ((k : ℕ) → j ≤ k → k < j + n → p (i * 8 + k) ≡ test_bit v k)
      → visit_bits yield v i j n s ≡ visit p lo n s
  unfolding visit_bits
  visit_bits-visit v i j zero lo p s l e = refl
  visit_bits-visit v i j (suc n) lo p s l e =
      let ih = λ (t : S).
        visit_bits-visit v i (j + 1) n (lo + 1) p t (omega arith)
          (λ k a b. e k (omega arith) (omega arith)) in
      ground (arith, e j, ih s, ih (yield s (i * 8 + j)).0)

  visit-none :
      (p : ℕ → Bool) (lo n : ℕ) (s : S)
      → ((k : ℕ) → lo ≤ k → k < lo + n → p k ≡ false)
      → visit p lo n s ≡ (s, true)
  visit-none p lo zero s e = refl
  visit-none p lo (suc n) s e =
      rw (e lo (omega arith) (omega arith), visit)
        (visit-none p (lo + 1) n s (λ k a b. e k (omega arith) (omega arith)))

  visit_bytes-visit :
      (i : ℕ) (b : Bitmap) (p : ℕ → Bool) (s : S)
      → ((k : ℕ) → p (i * 8 + k) ≡ get b k)
      → visit_bytes yield i b s ≡ visit p (i * 8) (length b * 8) s
  unfolding visit_bytes
  visit_bytes-visit i [] p s e = refl
  visit_bytes-visit i (v ∷ b) p s e =
      let len_eq : suc (length b) * 8 ≡ 8 + length b * 8 = omega arith in
      let rest = λ (t : S). visit_bytes-visit (i + 1) b p t shift in
      let next : i * 8 + 8 ≡ (i + 1) * 8 = omega arith in
      rw (len_eq, visit-append p (i * 8) 8 (length b * 8) s, next)
        (elim (Bool-cases (v == 0)) [
          | inl z ↦ rw (z, visit-none p (i * 8) 8 s (clear (ground arith))) (rest s)
          | inr nz ↦
              rw (nz, visit_bits-visit v i 0 8 (i * 8) p s (omega arith) (λ k _ hk. bits k hk))
                (λ j. resume yield (visit p (i * 8) 8 s) (λ t. rest t j))
        ])
    where
      bits : (k : ℕ) → k < 8 → p (i * 8 + k) ≡ test_bit v k
      bits k hk = e k ∙ get-cons_low v b k hk

      clear : v ≡ 0 → (k : ℕ) → i * 8 ≤ k → k < i * 8 + 8 → p k ≡ false
      clear z k lo hi =
          let q : k ≡ i * 8 + (k - i * 8) = omega arith in
          rw q (bits (k - i * 8) (omega arith) ∙ rw z (test_bit-zero _ (omega arith)))

      shift : (k : ℕ) → p ((i + 1) * 8 + k) ≡ get b k
      shift k =
          let q : (i + 1) * 8 + k ≡ i * 8 + (k + 8) = omega arith in
          rw q (e (k + 8) ∙ get-cons_high v b k)

  -- AllSet hands out the numbers of the set bits in ascending order, each once, until the body
  -- asks to stop: it is the plain loop over all bit numbers of the bitmap with a test of each.
  pub all_set-visit : (b : Bitmap) (s : S) → all_set yield b s ≡ visit (get b) 0 (length b * 8) s
  unfolding all_set
  all_set-visit b s = visit_bytes-visit 0 b (get b) s (λ k. ap (get b) (omega arith))
