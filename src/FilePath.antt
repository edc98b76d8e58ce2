-- ===== src/FilePath.antt =====
-- path/path.go: file paths as lists of components, a component being the list of its bytes.
pub mod Parsing
pub mod Order
mod Tests
use storrent.Prelude.{
  ℕ, zero, suc, ◌+◌, Bool, true, false, not, ◌&&◌, ◌||◌, List, [], ◌∷◌, ◌++◌, Option, none, some,
  ltb, leb, ◌==◌, if◌then◌else◌, length,
}

abbrev pub slash : ℕ
slash = 47

-- strings.Join with a slash.
unfoldable pub join : List (List ℕ) → List ℕ
join [] = []
join (c ∷ []) = c
join (c ∷ d ∷ p) = c ++ (slash ∷ join (d ∷ p))

abbrev onto_first : ℕ → List (List ℕ) → List (List ℕ)
onto_first x [] = (x ∷ []) ∷ []
onto_first x (c ∷ p) = (x ∷ c) ∷ p

-- strings.Split at the slashes.
unfoldable pub split : List ℕ → List (List ℕ)
split [] = [] ∷ []
split (x ∷ f) = let rest = split f in if x == slash then [] ∷ rest else onto_first x rest

abbrev pub is_empty : List ℕ → Bool
is_empty [] = true
is_empty (x ∷ c) = false

-- The first loop of Parse.
unfoldable pub trim_first : List (List ℕ) → List (List ℕ)
trim_first [] = []
trim_first (c ∷ p) = let rest = trim_first p in if is_empty c then rest else c ∷ p

-- The second: an empty component goes if nothing is left behind it.
abbrev keep : List ℕ → List (List ℕ) → List (List ℕ)
keep c [] = if is_empty c then [] else c ∷ []
keep c (d ∷ p) = c ∷ d ∷ p

unfoldable pub trim_last : List (List ℕ) → List (List ℕ)
trim_last [] = []
trim_last (c ∷ p) = keep c (trim_last p)

unfoldable pub parse : List ℕ → List (List ℕ)
unfolding split trim_first trim_last
parse f = trim_last (trim_first (split f))

-- The order of strings, by their bytes: `a < b`.
unfoldable pub string_lt : List ℕ → List ℕ → Bool
string_lt a [] = false
string_lt [] (y ∷ b) = true
string_lt (x ∷ a) (y ∷ b) =
    let rest = string_lt a b in if ltb x y then true else if ltb y x then false else rest

unfoldable pub string_eq : List ℕ → List ℕ → Bool
string_eq [] [] = true
string_eq [] (y ∷ b) = false
string_eq (x ∷ a) [] = false
string_eq (x ∷ a) (y ∷ b) = (x == y) && string_eq a b

-- `p[i] == q[i]` for every index of q.
unfoldable pub starts_with : List (List ℕ) → List (List ℕ) → Bool
starts_with p [] = true
starts_with [] (d ∷ q) = false
starts_with (c ∷ p) (d ∷ q) =
    let rest = starts_with p q in if not (string_eq c d) then false else rest

unfoldable pub equal : List (List ℕ) → List (List ℕ) → Bool
unfolding starts_with string_eq
equal p q = if not (length p == length q) then false else starts_with p q

unfoldable pub within : List (List ℕ) → List (List ℕ) → Bool
unfolding starts_with string_eq
within p d = if leb (length p) (length d) then false else starts_with p d

-- The results -1, 0 and +1.
pub data Comparison : Type 0 where
  less same more : Comparison

unfoldable pub compare : List (List ℕ) → List (List ℕ) → Comparison
unfolding string_lt
compare [] [] = same
compare [] (d ∷ b) = less
compare (c ∷ a) [] = more
compare (c ∷ a) (d ∷ b) =
    let rest = compare a b in if string_lt c d then less else if string_lt d c then more else rest
