-- ===== src/InFlight/Released.antt =====
-- What a chunk that a peer gives back does to the counts of tor/tor.go.
use storrent.Prelude.{
  ℕ, ◌+◌, ◌-◌, ◌*◌, ◌/◌, ◌%◌, ◌^◌, ◌<◌, ◌≡◌, refl, List, [], some, ◌==◌, if◌then◌else◌, get_elem?,
  set, arith, ◌≤◌, le→ltb,
}
use native.Mathlib.Nat.{div-add-mod', mod-lt}
use storrent.Piece.{chunk_size}
use storrent.Peer.Chunks.{from_chunk, IsAligned, begin_lem}
use storrent.InFlight.{note_in_flight, release, on_drop, receive, on_data}

-- A TorDrop as a peer sends it, of a chunk that has a count, in a torrent whose piece size is made of
-- whole chunks and divides 2 ^ 32: the count of that chunk goes down by one, unless it is zero, and no
-- other changes. TorData of less than a chunk changes no count.
pub released_lem :
    (piece_size chunk n len : ℕ) (l : List ℕ)
    → IsAligned piece_size
    → chunk < 2 ^ 32
    → get_elem? l chunk ≡ some n
    → len < chunk_size
    → (on_drop piece_size l
          (from_chunk piece_size chunk).0
          (from_chunk piece_size chunk).1
          chunk_size
        ≡ some (if n == 0 then l else set l chunk (n - 1)))
      × (on_data piece_size l (from_chunk piece_size chunk).0 (from_chunk piece_size chunk).1 len
          ≡ some (l, []))
unfolding on_drop on_data from_chunk release receive note_in_flight
released_lem piece_size chunk n len l al small at short =
    let r : ℕ = chunk % al.cpp in
    let begin = begin_lem piece_size chunk al in
    let cpp_lem : piece_size / chunk_size ≡ al.cpp = omega (arith, al.whole) in
    let odd : (r * chunk_size) % chunk_size ≡ 0 = omega arith in
    let offset : r * chunk_size / chunk_size ≡ r = omega arith in
    let whole : (chunk / al.cpp * al.cpp + r) % 2 ^ 32 ≡ chunk =
      omega (arith, div-add-mod' chunk al.cpp, small) in
    let few : len / chunk_size ≡ 0 = omega (arith, short) in
    let r_lt : r < al.cpp = mod-lt chunk al.positive in
    let room = λ (k : ℕ) (le : k ≤ chunk_size).
      le→ltb piece_size ((r * chunk_size + k) % 2 ^ 32) (omega (arith, al.whole, r_lt, le)) in
    rw
      (
        begin,
        cpp_lem,
        odd,
        offset,
        room chunk_size (omega arith),
        room len (omega (arith, short)),
        whole,
        few,
        at,
      )
      (refl, refl)
