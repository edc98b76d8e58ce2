-- ===== src/FilePath/Order.antt =====
-- Compare of path/path.go and the order of lists by their first difference.
use storrent.Prelude.{
  ℕ, ◌<◌, ◌≡◌, refl, ◌↔◌, true, false, ltb, List, [], ◌∷◌, arith, ap, sym, ◌∙◌, subst, Bool-cases,
  inl, inr,
}
use storrent.FilePath.{string_lt, Comparison, less, same, more, compare}

string_lt_irrefl : (a : List ℕ) → string_lt a a ≡ false
unfolding string_lt
string_lt_irrefl [] = refl
string_lt_irrefl (x ∷ a) = ground (arith, string_lt_irrefl a)

string_lt_asymm : (a b : List ℕ) → string_lt a b ≡ true → string_lt b a ≡ false
unfolding string_lt
string_lt_asymm a [] h = cc
string_lt_asymm [] (y ∷ b) h = refl
string_lt_asymm (x ∷ a) (y ∷ b) h = ground (arith, string_lt_asymm a b)

string_lt_total : (a b : List ℕ) → string_lt a b ≡ false → string_lt b a ≡ false → a ≡ b
unfolding string_lt
string_lt_total [] [] h k = refl
string_lt_total [] (y ∷ b) h k = cc
string_lt_total (x ∷ a) [] h k = cc
string_lt_total (x ∷ a) (y ∷ b) h k = ground (arith, string_lt_total a b)

abbrev opposite : Comparison → Comparison
opposite less = more
opposite same = same
opposite more = less

compare-opposite : (a b : List (List ℕ)) → compare b a ≡ opposite (compare a b)
unfolding compare
compare-opposite [] [] = refl
compare-opposite [] (d ∷ b) = refl
compare-opposite (c ∷ a) [] = refl
compare-opposite (c ∷ a) (d ∷ b) =
    ground (arith, compare-opposite a b, string_lt_asymm c d, string_lt_asymm d c)

compare_refl : (a : List (List ℕ)) → compare a a ≡ same
unfolding compare
compare_refl [] = refl
compare_refl (c ∷ a) = rw (string_lt_irrefl c) (compare_refl a)

compare-same : (a b : List (List ℕ)) → compare a b ≡ same → a ≡ b
unfolding compare
compare-same [] [] e = refl
compare-same [] (d ∷ b) e = cc
compare-same (c ∷ a) [] e = cc
compare-same (c ∷ a) (d ∷ b) e = ground (arith, compare-same a b, string_lt_total c d)

-- The order of lists by their first difference: what ends comes before what goes on, and an element
-- before one that it is related to.
pub data Lex {A : Type 0} (R : A → A → Type 0) : List A → List A → Type 0 where
  ends : (y : A) (b : List A) → Lex R [] (y ∷ b)
  differs : (x y : A) (a b : List A) → R x y → Lex R (x ∷ a) (y ∷ b)
  goes : (x : A) (a b : List A) → Lex R a b → Lex R (x ∷ a) (x ∷ b)

abbrev pub Before : List ℕ → List ℕ → Type 0
Before = Lex (λ x y. x < y)

string_lt-Before : (a b : List ℕ) → string_lt a b ≡ true → Before a b
unfolding string_lt
string_lt-Before a [] h = cc
string_lt-Before [] (y ∷ b) h = ends y b
string_lt-Before (x ∷ a) (y ∷ b) h = elim (Bool-cases (ltb x y)) [
  | inl lt ↦ differs x y a b (ground arith)
  | inr ge ↦ elim (Bool-cases (ltb y x)) [
    | inl gt ↦ absurd (ground (arith, rw (string_lt, ge, gt) at h))
    | inr le ↦
        let eq : x ≡ y = ground arith in
        subst (λ z. Before (x ∷ a) (z ∷ b)) eq
          (goes x a b (string_lt-Before a b (ground (arith, rw (string_lt, ge, le) at h))))
  ]
]

Before-string_lt : {a b : List ℕ} → Before a b → string_lt a b ≡ true
unfolding string_lt
Before-string_lt (ends y b) = refl
Before-string_lt (differs x y a b lt) = ground arith
Before-string_lt (goes x a b l) = ground (arith, Before-string_lt l)

compare-less : (a b : List (List ℕ)) → compare a b ≡ less → Lex Before a b
unfolding compare
compare-less [] [] h = cc
compare-less [] (d ∷ b) h = ends d b
compare-less (c ∷ a) [] h = cc
compare-less (c ∷ a) (d ∷ b) h = elim (Bool-cases (string_lt c d)) [
  | inl lt ↦ differs c d a b (string_lt-Before c d lt)
  | inr ge ↦ elim (Bool-cases (string_lt d c)) [
    | inl gt ↦ absurd (ground (arith, rw (compare, ge, gt) at h))
    | inr le ↦
        subst (λ z. Lex Before (c ∷ a) (z ∷ b)) (string_lt_total c d ge le)
          (goes c a b (compare-less a b (ground (arith, rw (compare, ge, le) at h))))
  ]
]

less_of_Lex : {a b : List (List ℕ)} → Lex Before a b → compare a b ≡ less
unfolding compare
less_of_Lex (ends d b) = refl
less_of_Lex (differs c d a b lt) = rw (Before-string_lt lt) refl
less_of_Lex (goes c a b l) = rw (string_lt_irrefl c) (less_of_Lex l)

compare-more : (a b : List (List ℕ)) → (compare a b ≡ more) ↔ Lex Before b a
compare-more a b = (
  λ e. compare-less b a (compare-opposite a b ∙ ap opposite e),
  λ l. compare-opposite b a ∙ ap opposite (less_of_Lex l),
)

-- Compare gives -1 exactly if the first path comes before the second one, +1 exactly if the second
-- one comes before the first, and 0 exactly if they are equal, in the order of paths by the first
-- component in which they differ, where the components are ordered by their first different byte,
-- and what ends comes before what goes on.
pub compare_lem :
    (a b : List (List ℕ))
    → ((compare a b ≡ less) ↔ Lex Before a b)
      × ((compare a b ≡ more) ↔ Lex Before b a)
      × ((compare a b ≡ same) ↔ (a ≡ b))
compare_lem a b = (
  (compare-less a b, less_of_Lex),
  compare-more a b,
  (compare-same a b, λ e. ap (compare a) (sym e) ∙ compare_refl a),
)
