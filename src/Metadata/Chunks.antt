-- ===== src/Metadata/Chunks.antt =====
-- gotMetadata of tor/metadata.go, a chunk of metadata at a time.
use storrent.Prelude.{
  ℕ, ◌+◌, ◌-◌, ◌*◌, ◌/◌, ◌%◌, ◌^◌, ◌<◌, ◌≤◌, ◌≡◌, ◌≢◌, refl, Bool, true, false, not, ◌&&◌, List, [],
  Option, none, some, ltb, ◌==◌, if◌then◌else◌, length, copy_at, length-copy_at, for_all, arith,
  eq→==, lt→ltb, le→ltb, Bool-cases, inl, inr,
}
use storrent.Bitmap
use storrent.Hash.{equal_iff}
use storrent.Metadata.{
  Torrent, Refusal, hash_mismatch, max_size, info_chunk, Outcome, refused, incomplete, verified,
  finish_chunk, store_chunk, got_metadata,
}

-- There is a counter for each chunk of the metadata, and the hash has its length.
pub record IsSized (t : Torrent) : Type 0 where
  pub small : length t.info ≤ max_size
  pub chunks : length t.info_requested ≡ (length t.info + info_chunk - 1) / info_chunk
  pub hash_length : length t.hash ≡ 20

module _ (sha1 : List ℕ → List ℕ) (sha1_length : (l : List ℕ) → length (sha1 l) ≡ 20) where
  -- A result, with the sizes kept, and the right hash if the metadata is let through.
  abbrev pub Ends : Torrent → Option (Torrent × Outcome) → Type 0
  Ends t r =
      (t' : Torrent) × (o : Outcome) × (r ≡ some (t', o))
      × IsSized t'
      × (o ≡ verified → sha1 t'.info ≡ t.hash)

  finish_chunk-Ends : (t : Torrent) → IsSized t → Ends t (finish_chunk sha1 t)
  unfolding finish_chunk
  finish_chunk-Ends t sized =
      elim (Bool-cases
        (not (for_all 0 (length t.info_requested) (λ i. Bitmap.get t.info_bitmap i)))) [
          | inl missing ↦ (t, incomplete, rw missing refl, sized, λ e. cc)
          | inr all ↦
              let (b, run, is_same) =
                equal_iff (sha1 t.info) t.hash (sha1_length t.info) sized.hash_length in
              elim (Bool-cases b) [
                | inl same_hash ↦
                    (t, verified, rw (all, run, same_hash) refl, sized, λ e. is_same.0 same_hash)
                | inr other_hash ↦ (
                  record t { info = []; info_bitmap = []; info_requested = [] },
                  refused hash_mismatch,
                  rw (all, run, other_hash) refl,
                  record {
                    small = omega arith;
                    chunks = omega arith;
                    hash_length = sized.hash_length;
                  },
                  λ e. cc,
                )
              ]
        ]

  refused-Ends : (t : Torrent) (r : Refusal) → IsSized t → Ends t (some (t, refused r))
  refused-Ends t r sized = (t, refused r, refl, sized, λ e. cc)

  if_Ends :
      (t : Torrent) (c : Bool) (x y : Option (Torrent × Outcome))
      → (c ≡ true → Ends t x)
      → (c ≡ false → Ends t y)
      → Ends t (if c then x else y)
  if_Ends t true x y f g = f refl
  if_Ends t false x y f g = g refl

  -- If each chunk has a counter, the lengths are in range and the chunk is one of those, gotMetadata
  -- does not panic and keeps these sizes, and it goes on to MetadataComplete only with metadata
  -- whose hash is that of the torrent.
  pub got_metadata-Ends :
      (t : Torrent) (index size : ℕ) (bs : List ℕ)
      → IsSized t
      → index < length t.info_requested
      → Ends t (got_metadata sha1 t index size bs)
  unfolding got_metadata store_chunk
  got_metadata-Ends t index size bs sized inside =
      if_Ends t t.info_complete _ _ (λ c. refused-Ends t _ sized)
        (λ c.
          if_Ends t (not (size == length t.info % 2 ^ 32)) _ _ (λ c. refused-Ends t _ sized)
            (λ c.
              if_Ends t (ltb (length t.info_requested) index) _ _ (λ c. refused-Ends t _ sized)
                (λ c.
                  if_Ends t
                    (not (length bs == info_chunk)
                      && not (index * info_chunk + length bs == length t.info))
                    _ _ (λ c. refused-Ends t _ sized)
                    (λ c.
                      if_Ends t (Bitmap.get t.info_bitmap index) _ _
                        (λ c. (t, incomplete, refl, sized, λ e. cc))
                        (λ c.
                          if_Ends t (ltb (length t.info) (index * info_chunk % 2 ^ 32)) _ _
                            (λ beyond. absurd (ground (arith, sized.chunks, sized.small)))
                            (λ c. stored (index * info_chunk % 2 ^ 32)))))))
    where
      stored :
          (start : ℕ)
          → Ends t (
              finish_chunk sha1 (record t {
                info = copy_at t.info start bs;
                info_bitmap = Bitmap.set t.info_bitmap index;
              }))
      stored start =
          let len = length-copy_at t.info start bs in
          finish_chunk-Ends
            (record t {
              info = copy_at t.info start bs;
              info_bitmap = Bitmap.set t.info_bitmap index;
            })
            (record {
              small = omega (arith, len, sized.small);
              chunks = omega (arith, len, sized.chunks);
              hash_length = sized.hash_length;
            })

  -- The chunk just after the last: if the metadata does not end with a whole chunk, and this one is
  -- whole, is not marked as there and comes with the size of the metadata, gotMetadata panics.
  pub got_metadata-panics :
      (t : Torrent) (bs : List ℕ)
      → IsSized t
      → t.info_complete ≡ false
      → length t.info % info_chunk ≢ 0
      → length bs ≡ info_chunk
      → Bitmap.get t.info_bitmap (length t.info_requested) ≡ false
      → got_metadata sha1 t (length t.info_requested) (length t.info) bs ≡ none
  unfolding got_metadata store_chunk
  got_metadata-panics t bs sized open_still odd whole fresh =
      let n = sized.chunks in
      let same : length t.info ≡ length t.info % 2 ^ 32 = omega (arith, sized.small) in
      let last : ltb (length t.info_requested) (length t.info_requested) ≡ false =
        le→ltb _ _ (omega arith) in
      let past : length t.info < length t.info_requested * info_chunk % 2 ^ 32 =
        omega (arith, n, sized.small, odd) in
      rw (open_still, eq→== _ _ same, last, eq→== _ _ whole, fresh, lt→ltb _ _ past) refl
