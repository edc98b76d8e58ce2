-- ===== src/Metadata.antt =====
-- tor/metadata.go: how the metadata of a torrent is put together from chunks of 16 KiB that peers
-- send. SHA-1 is the parameter `sha1`; what MetadataComplete does with metadata whose hash is right
-- is not part of it. Sizes and indices are natural numbers below 2 ^ 32.
pub mod Votes
pub mod Chunks
mod Tests
use storrent.Prelude.{
  ℕ, zero, suc, ◌+◌, ◌-◌, ◌*◌, ◌/◌, ◌%◌, ◌^◌, Bool, true, false, not, ◌&&◌, ◌||◌, List, [], ◌∷◌,
  ◌++◌, Option, none, some, ltb, leb, ◌==◌, if◌then◌else◌, ◌>>=◌, length, take, replicate, copy_at,
  for_all,
}
use storrent.Bitmap
use storrent.Bitmap.{Bitmap}
use storrent.Hash

-- A nil map of votes is an empty one: both guess 0, and a vote makes the map.
pub record Torrent : Type 0 where
  pub hash : List ℕ
  pub info_complete : Bool
  pub info : List ℕ
  pub info_bitmap : Bitmap
  pub info_requested : List ℕ
  pub info_size_votes : List (ℕ × ℕ)

pub data Refusal : Type 0 where
  metadata_complete bad_size inconsistent_size beyond_end inconsistent_length hash_mismatch :
      Refusal

abbrev pub max_size : ℕ
max_size = 128 * 1024 * 1024

abbrev pub info_chunk : ℕ
info_chunk = 16 * 1024

-- `t.infoSizeVotes[size]++`
unfoldable pub add_vote : ℕ → List (ℕ × ℕ) → List (ℕ × ℕ)
add_vote size [] = (size, 1) ∷ []
add_vote size ((s, c) ∷ votes) =
    let rest = add_vote size votes in if s == size then (s, c + 1) ∷ votes else (s, c) ∷ rest

unfoldable pub metadata_vote : Torrent → ℕ → Torrent × Option Refusal
metadata_vote t size =
    if t.info_complete
    then (t, some metadata_complete)
    else if (size == 0) || ltb max_size size
    then (t, some bad_size)
    else (record t { info_size_votes = add_vote size t.info_size_votes }, none)

-- The loop of metadataGuess, over the entries in the order in which the map is ranged over. `best` is
-- the count so far; the -1 that it begins with is `none`.
unfoldable pub guess_loop : Option ℕ → ℕ → List (ℕ × ℕ) → ℕ
guess_loop best size [] = size
guess_loop none size ((s, c) ∷ votes) = guess_loop (some c) s votes
guess_loop (some count) size ((s, c) ∷ votes) =
    let better = guess_loop (some c) s votes in
    let same = guess_loop (some count) size votes in if ltb count c then better else same

unfoldable pub metadata_guess : Torrent → Option ℕ
unfolding guess_loop
metadata_guess t = if t.info_complete then none else some (guess_loop none 0 t.info_size_votes)

unfoldable pub resize_metadata : Torrent → ℕ → Torrent × Option Refusal
resize_metadata t size =
    if t.info_complete
    then (t, some metadata_complete)
    else if (size == 0) || ltb max_size size
    then (t, some bad_size)
    else if not (length t.info == size)
    then (
      record t {
        info = replicate size 0;
        info_bitmap = [];
        info_requested = replicate ((size + info_chunk - 1) / info_chunk) 0;
      },
      none,
    )
    else (t, none)

-- The ends of gotMetadata: an error, `false` and no error, or the call of MetadataComplete.
pub data Outcome : Type 0 where
  refused : Refusal → Outcome
  incomplete : Outcome
  verified : Outcome

module _ (sha1 : List ℕ → List ℕ) where
  -- After the copy: the loop over the chunks, and the hash. The panic of Equal is `none`.
  unfoldable pub finish_chunk : Torrent → Option (Torrent × Outcome)
  unfolding for_all
  finish_chunk t =
      if not (for_all 0 (length t.info_requested) (λ i. Bitmap.get t.info_bitmap i))
      then some (t, incomplete)
      else do
        same ← Hash.equal (sha1 t.info) t.hash
        if not same
            then some (
              record t { info = []; info_bitmap = []; info_requested = [] },
              refused hash_mismatch,
            )
            else some (t, verified)

  -- The copy; slicing from beyond the end is a panic.
  unfoldable pub store_chunk : Torrent → ℕ → List ℕ → Option (Torrent × Outcome)
  unfolding finish_chunk
  store_chunk t index bs =
      let start = index * info_chunk % 2 ^ 32 in
      if ltb (length t.info) start
      then none
      else finish_chunk (record t {
        info = copy_at t.info start bs;
        info_bitmap = Bitmap.set t.info_bitmap index;
      })

  unfoldable pub got_metadata : Torrent → ℕ → ℕ → List ℕ → Option (Torrent × Outcome)
  unfolding store_chunk
  got_metadata t index size bs =
      if t.info_complete
      then some (t, refused metadata_complete)
      else if not (size == length t.info % 2 ^ 32)
      then some (t, refused inconsistent_size)
      else if ltb (length t.info_requested) index
      then some (t, refused beyond_end)
      else if not (length bs == info_chunk) && not (index * info_chunk + length bs == length t.info)
      then some (t, refused inconsistent_length)
      else if Bitmap.get t.info_bitmap index
      then some (t, incomplete)
      else store_chunk t index bs
