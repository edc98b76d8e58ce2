-- ===== src/Piece/Tests.antt =====
-- Runs of piece.go on a small torrent, and its theorems at concrete inputs.
use storrent.Prelude.{
  ℕ, ◌+◌, ◌/◌, ◌%◌, ◌<◌, ◌≡◌, refl, ◌↔◌, true, false, [], ◌∷◌, none, some, if◌then◌else◌, length,
  set, arith,
}
use storrent.Bitmap
use storrent.Bitmap.Updates.{get-beyond}
use storrent.Piece.{
  Pieces, Piece, fresh, metadata_complete, piece_length, piece_chunks, busy_or_complete,
}
use storrent.Piece.Layout.{IsSized, offset_in_piece}
use storrent.Piece.Store.{Added, add_data}
use storrent.Piece.Store.Effect.{Fits, Stores, is_none, add_data-Stores}

-- A torrent of 40000 bytes in two pieces.
abbrev small : Pieces
small = record {
  deleted = false;
  pieces = fresh ∷ fresh ∷ [];
  count = 0;
  piece_size = 32768;
  total = 40000;
}

small_run :
    metadata_complete (record small { pieces = []; piece_size = 0; total = 0 }) 32768 40000
    ≡ some small
unfolding metadata_complete
small_run = refl

small-IsSized : IsSized small
small-IsSized = omega arith

lengths : piece_length small 1 + piece_chunks small 0 ≡ 7234
unfolding piece_length piece_chunks
lengths = refl

fresh-Fits : (index : ℕ) → Fits small index fresh
fresh-Fits index = record {
  bits_ok = tt;
  bits_in = λ c e. ground (arith, get-beyond [] c (omega arith));
  sized = λ d e. cc;
  no_data = λ e c. get-beyond [] c (omega arith);
}

add_data-Stores_example :
    (p' : Piece) × (used : ℕ) × (r : Added) × (add_data small 1 0 (7 ∷ 8 ∷ []) 5 true
      ≡ some (record small { count = used; pieces = set small.pieces 1 p' }, r))
    × (r.error ≡ none)
    × ((r.is_complete ≡ true)
        ↔ ((c : ℕ) → c < piece_chunks small 1 → Bitmap.get p'.bitmap c ≡ true))
    × Stores small 1 0 (7 ∷ 8 ∷ []) fresh p' r.count
    × (used ≡ 0 + (if is_none fresh.buffer then 1 else 0))
add_data-Stores_example =
    add_data-Stores small 1 0 (7 ∷ 8 ∷ []) 5 fresh small-IsSized refl (fresh-Fits 1)
      (unfold busy_or_complete in refl) refl (omega arith) (omega arith)
      (unfold piece_length in omega arith)

offset_in_piece_example :
    (33000 / 32768 < length small.pieces) × (33000 % 32768 < piece_length small (33000 / 32768))
offset_in_piece_example = offset_in_piece small small-IsSized 33000 (omega arith)
