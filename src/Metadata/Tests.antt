-- ===== src/Metadata/Tests.antt =====
-- Metadata of five bytes, in one chunk.
use storrent.Prelude.{
  ℕ, ◌≤◌, ◌≡◌, ◌⊎◌, refl, false, List, [], ◌∷◌, none, some, replicate, length-replicate, arith, All,
}
use storrent.Bitmap
use storrent.Metadata.{Torrent, got_metadata, metadata_guess, info_chunk}
use storrent.Metadata.Chunks.{IsSized, Ends, got_metadata-Ends, got_metadata-panics}
use storrent.Metadata.Votes.{IsEntry, metadata_guess_lem}

abbrev five : Torrent
five = record {
  hash = replicate 20 0;
  info_complete = false;
  info = replicate 5 0;
  info_bitmap = [];
  info_requested = 1 ∷ [];
  info_size_votes = (5, 2) ∷ (6, 1) ∷ [];
}

-- A stand-in for SHA-1 with results of 20 bytes.
abbrev toy_hash : List ℕ → List ℕ
toy_hash l = replicate 20 0

five-IsSized : IsSized five
five-IsSized = record { small = omega arith; chunks = refl; hash_length = refl }

got_metadata-Ends_example :
    Ends toy_hash (λ l. refl) five (got_metadata toy_hash five 0 5 (1 ∷ 2 ∷ 3 ∷ 4 ∷ 5 ∷ []))
got_metadata-Ends_example =
    got_metadata-Ends toy_hash (λ l. refl) five 0 5 (1 ∷ 2 ∷ 3 ∷ 4 ∷ 5 ∷ []) five-IsSized
      (omega arith)

got_metadata-panics_example : got_metadata toy_hash five 1 5 (replicate info_chunk 7) ≡ none
got_metadata-panics_example =
    got_metadata-panics toy_hash (λ l. refl) five (replicate info_chunk 7) five-IsSized refl
      (λ e. omega arith) (length-replicate {A = ℕ} info_chunk 7) (unfold Bitmap.get in refl)

metadata_guess_lem_example :
    (size : ℕ) × (metadata_guess five ≡ some size)
    × (((five.info_size_votes ≡ []) × (size ≡ 0))
        ⊎ ((c : ℕ) × IsEntry size c five.info_size_votes × All (λ v. v.1 ≤ c) five.info_size_votes))
metadata_guess_lem_example = metadata_guess_lem five refl
