-- ===== src/Requests/Occurrences.antt =====
-- How often an index occurs in a list of requests, and what the list operations of requests.go do
-- to that number.
use storrent.Prelude.{
  ℕ, zero, suc, ◌+◌, ◌-◌, ◌≤◌, ◌≡◌, refl, List, [], ◌∷◌, ◌++◌, none, some, ◌==◌, if◌then◌else◌,
  length, get_elem?, set, take, arith, inl, inr, Bool-cases, length-take, length-set,
}
use storrent.Requests.{Request, find, swap_remove, indices}

abbrev pub hit : ℕ → Request → ℕ
hit i r = if i == r.index then 1 else 0

abbrev pub occurs : ℕ → List Request → ℕ
occurs i [] = 0
occurs i (r ∷ l) = hit i r + occurs i l

pub occurs-append : (i : ℕ) (l m : List Request) → occurs i (l ++ m) ≡ occurs i l + occurs i m
occurs-append i [] m = omega arith
occurs-append i (r ∷ l) m = omega (arith, occurs-append i l m)

pub occurs-set :
    (i k : ℕ) (l : List Request) (r s : Request)
    → get_elem? l k ≡ some r
    → occurs i (set l k s) + hit i r ≡ occurs i l + hit i s
occurs-set i k [] r s e = cc
occurs-set i zero (x ∷ l) r s e = ground arith
occurs-set i (suc k) (x ∷ l) r s e = omega (arith, occurs-set i k l r s e)

occurs-take_last :
    (i : ℕ) (l : List Request) (r : Request)
    → get_elem? l (length l - 1) ≡ some r
    → occurs i (take (length l - 1) l) + hit i r ≡ occurs i l
occurs-take_last i [] r e = cc
occurs-take_last i (x ∷ []) r e = ground arith
occurs-take_last i (x ∷ y ∷ l) r e =
    let q : length (x ∷ y ∷ l) - 1 ≡ suc (length (y ∷ l) - 1) = omega arith in
    rw q (omega (arith, occurs-take_last i (y ∷ l) r (rw q at e)))

-- Where the loop stops, an element with that index stands.
pub find-get_elem? :
    (i k j : ℕ) (l : List Request) (r : Request)
    → find i k l ≡ some (j, r)
    → (k ≤ j) × (get_elem? l (j - k) ≡ some r) × (r.index ≡ i)
unfolding find
find-get_elem? i k j [] r e = cc
find-get_elem? i k j (x ∷ l) r e = elim (Bool-cases (i == x.index)) [
  | inl here ↦ ground arith
  | inr on ↦
      let (lo, at, same) = find-get_elem? i (k + 1) j l r (ground arith) in
      let q : j - k ≡ suc (j - (k + 1)) = omega arith in (omega arith, rw q at, same)
]

pub find-none : (i k : ℕ) (l : List Request) → find i k l ≡ none → occurs i l ≡ 0
unfolding find
find-none i k [] e = refl
find-none i k (x ∷ l) e = ground (arith, find-none i (k + 1) l)

-- Taking out the element at `k` by moving the last one there.
get_elem?-set_same :
    (l : List Request) (k n : ℕ) (v : Request)
    → get_elem? l n ≡ some v
    → get_elem? (set l k v) n ≡ some v
get_elem?-set_same [] k n v e = e
get_elem?-set_same (x ∷ l) zero zero v e = refl
get_elem?-set_same (x ∷ l) zero (suc n) v e = e
get_elem?-set_same (x ∷ l) (suc k) zero v e = e
get_elem?-set_same (x ∷ l) (suc k) (suc n) v e = get_elem?-set_same l k n v e

pub last-some :
    (x : Request) (l : List Request) → (r : Request) × (get_elem? (x ∷ l) (length l) ≡ some r)
last-some x [] = (x, refl)
last-some x (y ∷ l) = last-some y l

pub length-swap_remove :
    (k : ℕ) (l : List Request) (r : Request)
    → get_elem? l k ≡ some r
    → suc (length (swap_remove l k)) ≡ length l
unfolding swap_remove
length-swap_remove k [] r e = cc
length-swap_remove k (x ∷ []) r e = refl
length-swap_remove k (x ∷ y ∷ l) r e =
    let (z, at) = last-some x (y ∷ l) in
    let q : length (x ∷ y ∷ l) - 1 ≡ suc (length l) = omega arith in
    rw (q, at)
      (ground
        (arith, length-take (suc (length l)) (set (x ∷ y ∷ l) k z), length-set (x ∷ y ∷ l) k z))

pub occurs-swap_remove :
    (i k : ℕ) (l : List Request) (r : Request)
    → get_elem? l k ≡ some r
    → occurs i (swap_remove l k) + hit i r ≡ occurs i l
unfolding swap_remove
occurs-swap_remove i k [] r e = cc
occurs-swap_remove i zero (x ∷ []) r e = ground arith
occurs-swap_remove i (suc k) (x ∷ []) r e = cc
occurs-swap_remove i k (x ∷ y ∷ l) r e =
    let (z, at) = last-some x (y ∷ l) in
    let q : length (x ∷ y ∷ l) - 1 ≡ suc (length l) = omega arith in
    let n : length (set (x ∷ y ∷ l) k z) - 1 ≡ suc (length l) =
      omega (arith, length-set (x ∷ y ∷ l) k z) in
    let cut =
      occurs-take_last i (set (x ∷ y ∷ l) k z) z
        (rw n (get_elem?-set_same (x ∷ y ∷ l) k (suc (length l)) z at)) in
    rw (q, at) (ground (arith, rw n at cut, occurs-set i k (x ∷ y ∷ l) r z e))

pub find_lem :
    (i j : ℕ) (l : List Request) (r : Request)
    → find i 0 l ≡ some (j, r)
    → (get_elem? l j ≡ some r) × (r.index ≡ i)
find_lem i j l r e =
    let (lo, at, same) = find-get_elem? i 0 j l r e in
    let q : j - 0 ≡ j = omega arith in (rw q at at, same)

-- How often a number occurs in a list of callbacks' arguments.
abbrev pub times : ℕ → List ℕ → ℕ
times i [] = 0
times i (j ∷ l) = (if i == j then 1 else 0) + times i l

pub times-append : (i : ℕ) (l m : List ℕ) → times i (l ++ m) ≡ times i l + times i m
times-append i [] m = omega arith
times-append i (j ∷ l) m = omega (arith, times-append i l m)

pub times-indices : (i : ℕ) (l : List Request) → times i (indices l) ≡ occurs i l
times-indices i [] = refl
times-indices i (r ∷ l) = omega (arith, times-indices i l)

pub occurs_pos :
    (k : ℕ) (l : List Request) (r : Request) → get_elem? l k ≡ some r → 1 ≤ occurs r.index l
occurs_pos k [] r e = cc
occurs_pos zero (x ∷ l) r e = ground arith
occurs_pos (suc k) (x ∷ l) r e = omega (arith, occurs_pos k l r e)
