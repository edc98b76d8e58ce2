-- ===== src/Peer/Chunks.antt =====
-- Chunk numbers of peer/peer.go: a chunk is 16 KiB of the torrent, and has an index and an offset in
-- its piece. The arithmetic is that of uint32.
use native.Mathlib.Nat.{
  mod-mod_of_dvd, dvd-mul_right, add-mul-mod_self_right, mod-eq_of_lt, div-add-mod', mod-lt,
  le-div_iff_mul-le,
}
use storrent.Prelude.{
  ℕ, ◌+◌, ◌-◌, ◌*◌, ◌/◌, ◌%◌, ◌^◌, ◌<◌, ◌≤◌, ◌≡◌, if◌then◌else◌, ltb, arith, ap, sym, ◌∙◌, le→ltb,
}
use storrent.Piece.{Pieces, chunk_size, max_uint32}

-- A zero piece size is a panic in the source; the metadata is refused then before.
unfoldable pub to_chunk : ℕ → ℕ → ℕ → ℕ
to_chunk piece_size index begin =
    let cpp = piece_size / chunk_size in
    if ltb (max_uint32 / cpp) index then 0 else (index * cpp + begin / chunk_size) % 2 ^ 32

unfoldable pub from_chunk : ℕ → ℕ → ℕ × ℕ
from_chunk piece_size chunk =
    (chunk / (piece_size / chunk_size), chunk * chunk_size % 2 ^ 32 % piece_size)

unfoldable pub chunk_length : Pieces → ℕ → ℕ
chunk_length ps chunk =
    if ltb chunk (ps.total / chunk_size % 2 ^ 32)
    then chunk_size
    else ps.total % chunk_size % 2 ^ 32

-- The source panics on a piece size of 0, where it divides by it; here the number is then 0.
unfoldable pub num_pieces : Pieces → ℕ
num_pieces ps = (ps.total + ps.piece_size - 1) / ps.piece_size

-- A piece size of `cpp` chunks that divides 2 ^ 32.
pub record IsAligned (piece_size : ℕ) : Type 0 where
  pub cpp : ℕ
  pub rest : ℕ
  pub positive : 0 < cpp
  pub whole : piece_size ≡ cpp * chunk_size
  pub divides : cpp * chunk_size * rest ≡ 2 ^ 32

-- The offset in its piece of a chunk, without wrap-around.
pub begin_lem :
    (piece_size chunk : ℕ)
    → (al : IsAligned piece_size)
    → chunk * chunk_size % 2 ^ 32 % piece_size ≡ chunk % al.cpp * chunk_size
begin_lem piece_size chunk al =
    let d : ℕ = al.cpp * chunk_size in
    let q : ℕ = chunk / al.cpp in
    let r : ℕ = chunk % al.cpp in
    let r_lt : r < al.cpp = mod-lt chunk al.positive in
    let parts : chunk * chunk_size ≡ r * chunk_size + q * d =
      omega (arith, ap (λ (t : ℕ). t * chunk_size) (div-add-mod' chunk al.cpp)) in
    let wrap : chunk * chunk_size % (d * al.rest) % d ≡ chunk * chunk_size % d =
      mod-mod_of_dvd d (chunk * chunk_size) (dvd-mul_right d al.rest) in
    let below : r * chunk_size < d = omega (arith, r_lt) in
    rw (al.whole, sym al.divides) wrap
    ∙ ap (λ t. t % d) parts
    ∙ add-mul-mod_self_right (r * chunk_size) q d
    ∙ mod-eq_of_lt below

-- Where the piece size is made of whole chunks and divides 2 ^ 32, a chunk number below 2 ^ 32 is got
-- back from the piece and the offset that fromChunk makes of it.
pub to_chunk-from_chunk :
    (piece_size chunk : ℕ)
    → IsAligned piece_size
    → chunk < 2 ^ 32
    → to_chunk piece_size (from_chunk piece_size chunk).0 (from_chunk piece_size chunk).1 ≡ chunk
unfolding to_chunk from_chunk
to_chunk-from_chunk piece_size chunk al small =
    let cpp_lem : piece_size / chunk_size ≡ al.cpp = omega (arith, al.whole) in
    let q : ℕ = chunk / al.cpp in
    let split = div-add-mod' chunk al.cpp in
    let within : q ≤ max_uint32 / al.cpp =
      (le-div_iff_mul-le {k = al.cpp} {x = q} al.positive).1 (omega (arith, split)) in
    let last : chunk % al.cpp * chunk_size / chunk_size ≡ chunk % al.cpp = omega arith in
    rw (cpp_lem, le→ltb (max_uint32 / al.cpp) q within, begin_lem piece_size chunk al, last)
      (omega (arith, split))
