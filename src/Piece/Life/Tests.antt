-- ===== src/Piece/Life/Tests.antt =====
-- A piece of piece.go that is filled, hashed and read.
use storrent.Prelude.{
  ℕ, ◌/◌, ◌%◌, ◌≡◌, refl, true, false, List, [], ◌∷◌, ◌++◌, Option, none, some, take, drop,
  replicate, get_elem?,
}
use storrent.Piece.{Piece, Pieces, fresh, metadata_complete, Read, bytes, read_at}
use storrent.Piece.Store.{Added, add_data}
use storrent.Piece.Life.{bytes_of, hashes, finalise_begin, finalise_end}
use storrent.Piece.Life.Steps.{
  System, update, Sound, Reach-Sound, Reach, adds, begins, ends, here, next,
}
use storrent.Piece.Life.Reading.{start, start-Sound, read_at-validated}

abbrev empty : Pieces
empty = record { deleted = false; pieces = []; count = 0; piece_size = 0; total = 0 }

abbrev store_with : Option (List ℕ) → List ℕ → ℕ → List ℕ → ℕ → Pieces
store_with buf bits st who n = record {
  deleted = false;
  pieces = record { buffer = buf; bitmap = bits; state = st; time = 0; peers = who } ∷ [];
  count = n;
  piece_size = 16384;
  total = 2;
}

-- A stand-in for SHA-1 with results of 20 bytes.
abbrev toy_hash : List ℕ → List ℕ
toy_hash d = take 20 (d ++ replicate 20 0)

abbrev two : List ℕ
two = 7 ∷ 8 ∷ []

abbrev expected : ℕ → List ℕ
expected i = toy_hash two

fills :
    add_data (store_with none [] 0 [] 0) 0 0 two 5 true
    ≡ some (
      store_with (some two) (128 ∷ []) 0 (5 ∷ []) 1,
      record { count = 2; is_complete = true; error = none },
    )
unfolding add_data storrent.Piece.Store.add_guarded storrent.Piece.busy_or_complete
    storrent.Piece.piece_length storrent.Piece.Store.add_checked storrent.Piece.Store.add_chunks
    storrent.Piece.Store.fill_loop storrent.Bitmap.get storrent.Bitmap.all
    storrent.Piece.Store.add_peer storrent.Piece.piece_chunks storrent.Bitmap.set
    storrent.Bitmap.Bits.set_bit storrent.Bitmap.Bits.top_ones
fills = refl

takes :
    finalise_begin (store_with (some two) (128 ∷ []) 0 (5 ∷ []) 1) 0
    ≡ some (store_with (some two) (128 ∷ []) 2 (5 ∷ []) 1, hashes two)
unfolding finalise_begin storrent.Piece.busy_or_complete storrent.Bitmap.count
    storrent.Bitmap.Bits.ones_count8 storrent.Piece.piece_chunks storrent.Piece.set_state
takes = refl

finishes :
    finalise_end (store_with (some two) (128 ∷ []) 2 (5 ∷ []) 1) 0 (toy_hash two) (expected 0)
    ≡ some (
      store_with (some two) (128 ∷ []) 1 [] 1,
      record { is_done = true; senders = 5 ∷ []; error = none },
    )
unfolding finalise_end storrent.Hash.equal storrent.Piece.set_state
finishes = refl

made : metadata_complete empty 16384 2 ≡ some (store_with none [] 0 [] 0)
unfolding metadata_complete
made = refl

reads : read_at (store_with (some two) (128 ∷ []) 1 [] 1) 1 1 ≡ some (bytes (8 ∷ []))
unfolding read_at
reads = refl

abbrev s1 : System
s1 = record (start (store_with none [] 0 [] 0)) {
  store = store_with (some two) (128 ∷ []) 0 (5 ∷ []) 1;
}

abbrev s2 : System
s2 = record s1 {
  store = store_with (some two) (128 ∷ []) 2 (5 ∷ []) 1;
  taken = update s1.taken 0 (some two);
}

abbrev s3 : System
s3 = record s2 { store = store_with (some two) (128 ∷ []) 1 [] 1; taken = update s2.taken 0 none }

filled_hashed : Reach toy_hash expected (start (store_with none [] 0 [] 0)) s3
filled_hashed =
    next
      (next
        (next here (
          adds (start (store_with none [] 0 [] 0)) 0 0 two 5 true s1.store
            (record { count = 2; is_complete = true; error = none }) fills))
        (begins s1 0 s2.store two takes))
      (ends s2 0 two s3.store (record { is_done = true; senders = 5 ∷ []; error = none }) refl
        finishes)

read_at-validated_example :
    (p : Piece) × (get_elem? s3.store.pieces (1 / s3.store.piece_size) ≡ some p)
    × (toy_hash (bytes_of p.buffer) ≡ expected (1 / s3.store.piece_size))
    × (8 ∷ [] ≡ take 1 (drop (1 % s3.store.piece_size) (bytes_of p.buffer)))
read_at-validated_example =
    read_at-validated toy_hash expected empty 16384 2 (store_with none [] 0 [] 0) s3 1 1 8 [] made
      filled_hashed reads

Reach-Sound_example : Sound toy_hash expected s3
Reach-Sound_example =
    Reach-Sound toy_hash expected
      (start-Sound toy_hash expected empty 16384 2 (store_with none [] 0 [] 0) made) filled_hashed
