-- ===== src/Hash/Tests.antt =====
-- Two hashes that differ in their last byte.
use storrent.Prelude.{ℕ, ◌∷◌, [], ◌++◌, ◌≡◌, refl, ◌↔◌, Bool, true, some, List, replicate}
use storrent.Hash.{equal, equal_iff}

abbrev zeros : List ℕ
zeros = replicate 20 0

abbrev last_one : List ℕ
last_one = replicate 19 0 ++ (1 ∷ [])

equal_iff_example : (b : Bool) × (equal zeros last_one ≡ some b) × ((b ≡ true) ↔ (zeros ≡ last_one))
equal_iff_example = equal_iff zeros last_one refl refl
