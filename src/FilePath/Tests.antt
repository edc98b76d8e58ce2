-- ===== src/FilePath/Tests.antt =====
-- The path /a//b/ and its neighbours.
use storrent.Prelude.{ℕ, ◌≡◌, refl, ◌↔◌, true, List, [], ◌∷◌, ◌++◌, arith}
use storrent.FilePath.{join, parse, equal, within, less, same, more, compare}
use storrent.FilePath.Parsing.{IsPath, parse-join-IsPath, within_iff}
use storrent.FilePath.Order.{Lex, Before, compare_lem}

abbrev text : List ℕ
text = 47 ∷ 97 ∷ 47 ∷ 47 ∷ 98 ∷ 47 ∷ []

abbrev a_b : List (List ℕ)
a_b = (97 ∷ []) ∷ (98 ∷ []) ∷ []

parsed : parse text ≡ (97 ∷ []) ∷ [] ∷ (98 ∷ []) ∷ []
unfolding parse
parsed = refl

equals_itself : equal a_b a_b ≡ true
unfolding equal
equals_itself = refl

a_b-IsPath : IsPath a_b
a_b-IsPath = (((λ e. omega arith, tt), ((λ e. omega arith, tt), tt)), λ e. cc e, λ e. cc e)

parse-join-IsPath_example : (parse (join a_b) ≡ a_b) × IsPath (parse text)
parse-join-IsPath_example = parse-join-IsPath text a_b a_b-IsPath

within_iff_example :
    (within a_b ((97 ∷ []) ∷ []) ≡ true)
    ↔ ((c : List ℕ) × (e : List (List ℕ)) × (a_b ≡ ((97 ∷ []) ∷ []) ++ (c ∷ e)))
within_iff_example = within_iff a_b ((97 ∷ []) ∷ [])

first : compare ((97 ∷ []) ∷ []) a_b ≡ less
unfolding compare
first = refl

compare_lem_example :
    ((compare ((97 ∷ []) ∷ []) a_b ≡ less) ↔ Lex Before ((97 ∷ []) ∷ []) a_b)
    × ((compare ((97 ∷ []) ∷ []) a_b ≡ more) ↔ Lex Before a_b ((97 ∷ []) ∷ []))
    × ((compare ((97 ∷ []) ∷ []) a_b ≡ same) ↔ ((97 ∷ []) ∷ [] ≡ a_b))
compare_lem_example = compare_lem ((97 ∷ []) ∷ []) a_b
