-- ===== src/InFlight/Tests.antt =====
-- A torrent of four chunks, of which the second is in flight twice.
use storrent.Prelude.{ℕ, ◌≡◌, refl, ◌-◌, List, [], ◌∷◌, some, set, arith, ◌==◌, if◌then◌else◌}
use storrent.Piece.{chunk_size}
use storrent.Peer.Chunks.{from_chunk, IsAligned}
use storrent.InFlight.{on_drop, on_data}
use storrent.InFlight.Released.{released_lem}

abbrev counts : List ℕ
counts = 0 ∷ 2 ∷ 0 ∷ 1 ∷ []

abbrev two_chunks : IsAligned 32768
two_chunks = record { cpp = 2; rest = 131072; positive = omega arith; whole = refl; divides = refl }

released_lem_example :
    (on_drop 32768 counts (from_chunk 32768 1).0 (from_chunk 32768 1).1 chunk_size
      ≡ some (if 2 == 0 then counts else set counts 1 (2 - 1)))
    × (on_data 32768 counts (from_chunk 32768 1).0 (from_chunk 32768 1).1 100 ≡ some (counts, []))
released_lem_example = released_lem 32768 1 2 100 counts two_chunks (omega arith) refl (omega arith)
