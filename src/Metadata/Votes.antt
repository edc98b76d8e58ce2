-- ===== src/Metadata/Votes.antt =====
-- metadataGuess of tor/metadata.go: the size that the votes are for.
use storrent.Prelude.{
  ℕ, ◌≤◌, ◌≡◌, refl, false, List, [], ◌∷◌, none, some, ltb, ltb→lt, arith, All, Bool-cases, inl,
  inr, ◌⊎◌, sym, subst,
}
use storrent.Metadata.{Torrent, guess_loop, metadata_guess}

-- An entry of the votes.
abbrev pub IsEntry : ℕ → ℕ → List (ℕ × ℕ) → Type 0
IsEntry s c [] = ⊥
IsEntry s c ((s', c') ∷ votes) = ((s ≡ s') × (c ≡ c')) ⊎ IsEntry s c votes

weaken :
    (best size s k : ℕ) (votes : List (ℕ × ℕ)) (c : ℕ) {g : ℕ}
    → ((g ≡ size) × (c ≡ best)) ⊎ IsEntry g c votes
    → ((g ≡ size) × (c ≡ best)) ⊎ IsEntry g c ((s, k) ∷ votes)
weaken best size s k votes c (inl kept) = inl kept
weaken best size s k votes c (inr entry) = inr (inr entry)

-- What the loop ends with: what it began with, or an entry, with a count that none exceeds.
abbrev Most : ℕ → ℕ → List (ℕ × ℕ) → ℕ → Type 0
Most best size votes g =
    (c : ℕ) × (((g ≡ size) × (c ≡ best)) ⊎ IsEntry g c votes)
    × (best ≤ c)
    × All (λ v. v.1 ≤ c) votes

guess_loop-Most :
    (best size : ℕ) (votes : List (ℕ × ℕ))
    → Most best size votes (guess_loop (some best) size votes)
unfolding guess_loop
guess_loop-Most best size [] = (best, inl (refl, refl), omega arith, tt)
guess_loop-Most best size ((s, k) ∷ votes) = elim (Bool-cases (ltb best k)) [
  | inl more ↦
      let (c, from, le, all) = guess_loop-Most k s votes in
      let there : guess_loop (some best) size ((s, k) ∷ votes) ≡ guess_loop (some k) s votes =
        rw more refl in
      let above : best ≤ c = omega (arith, le, ltb→lt best k more) in
      subst (Most best size ((s, k) ∷ votes)) (sym there) (c, inr from, above, (le, all))
  | inr fewer ↦
      let (c, from, le, all) = guess_loop-Most best size votes in
      let there : guess_loop (some best) size ((s, k) ∷ votes) ≡ guess_loop (some best) size votes =
        rw fewer refl in
      let below : k ≤ c = ground (arith, le) in
      subst (Most best size ((s, k) ∷ votes)) (sym there)
        (c, weaken best size s k votes c from, le, (below, all))
]

-- While the metadata is not there, and whatever the order in which the votes are visited, the guess
-- is 0 if there is no vote, and else the size of an entry whose count no other one exceeds.
pub metadata_guess_lem :
    (t : Torrent)
    → t.info_complete ≡ false
    → (size : ℕ) × (metadata_guess t ≡ some size)
      × (((t.info_size_votes ≡ []) × (size ≡ 0))
          ⊎ ((c : ℕ) × IsEntry size c t.info_size_votes × All (λ v. v.1 ≤ c) t.info_size_votes))
unfolding metadata_guess guess_loop
metadata_guess_lem t open_still =
    (guess_loop none 0 t.info_size_votes, rw open_still refl, by_votes t.info_size_votes)
  where
    by_votes :
        (votes : List (ℕ × ℕ))
        → ((votes ≡ []) × (guess_loop none 0 votes ≡ 0))
          ⊎ ((c : ℕ) × IsEntry (guess_loop none 0 votes) c votes × All (λ v. v.1 ≤ c) votes)
    by_votes [] = inl (refl, refl)
    by_votes ((s, k) ∷ votes) =
        let (c, from, le, all) = guess_loop-Most k s votes in inr (c, from, (le, all))
