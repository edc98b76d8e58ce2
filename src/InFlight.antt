-- ===== src/InFlight.antt =====
-- The counts of requests in flight of tor/tor.go: for each chunk, how many peers and web seeds have
-- been asked for it. A count is a uint8. `none` is a panic. What the handlers do to a piece that is
-- complete, and to the peer that is active, is not kept.
mod Released
mod Tests
use storrent.Prelude.{
  ℕ, zero, suc, ◌+◌, ◌-◌, ◌*◌, ◌/◌, ◌%◌, ◌^◌, Bool, true, false, not, List, [], ◌∷◌, Option, none,
  some, ltb, leb, ◌==◌, if◌then◌else◌, ◌>>=◌, get_elem?, set,
}
use storrent.Piece.{chunk_size}

unfoldable pub note_in_flight : List ℕ → ℕ → Bool → Option (List ℕ)
note_in_flight l index true = do
  n ← get_elem? l index
  some (if leb 255 n then l else set l index (n + 1))
note_in_flight l index false = do
  n ← get_elem? l index
  some (if n == 0 then l else set l index (n - 1))

-- The loop of request, once the peer has been told.
unfoldable pub note_all : List ℕ → List ℕ → Option (List ℕ)
unfolding note_in_flight
note_all l [] = some l
note_all l (c ∷ cs) = do l' ← note_in_flight l c true; note_all l' cs

-- The loop of TorDrop, over `n` chunks from the number `chunk` on.
unfoldable pub release : ℕ → List ℕ → ℕ → Option (List ℕ)
unfolding note_in_flight
release zero l chunk = some l
release (suc n) l chunk = do l' ← note_in_flight l (chunk % 2 ^ 32) false; release n l' (chunk + 1)

abbrev first_chunk : ℕ → ℕ → ℕ → ℕ
first_chunk piece_size index begin = index * (piece_size / chunk_size) + begin / chunk_size

unfoldable pub on_drop : ℕ → List ℕ → ℕ → ℕ → ℕ → Option (List ℕ)
unfolding release
on_drop piece_size l index begin len =
    if not (begin % chunk_size == 0)
    then some l
    else if ltb piece_size ((begin + len) % 2 ^ 32)
    then some l
    else release (len / chunk_size) l (first_chunk piece_size index begin)

-- The loop of TorData, and the chunks for which the other peers are told to cancel their requests.
unfoldable pub receive : ℕ → List ℕ → ℕ → List ℕ → Option (List ℕ × List ℕ)
unfolding note_in_flight
receive zero l chunk cancels = some (l, cancels)
receive (suc n) l chunk cancels = do
  l' ← note_in_flight l (chunk % 2 ^ 32) false
  k ← get_elem? l' (chunk % 2 ^ 32)
  receive n l' (chunk + 1) (if ltb 0 k then chunk % 2 ^ 32 ∷ cancels else cancels)

unfoldable pub on_data : ℕ → List ℕ → ℕ → ℕ → ℕ → Option (List ℕ × List ℕ)
unfolding receive
on_data piece_size l index begin len =
    if not (begin % chunk_size == 0)
    then some (l, [])
    else if ltb piece_size ((begin + len) % 2 ^ 32)
    then some (l, [])
    else receive (len / chunk_size) l (first_chunk piece_size index begin) []
