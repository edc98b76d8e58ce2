-- ===== src/Peer/Announcing.antt =====
-- The bitfield that Run of peer/peer.go sends.
use storrent.Prelude.{
  ℕ, ◌+◌, ◌-◌, ◌/◌, ◌%◌, ◌≤◌, ◌≡◌, refl, false, ◌&&◌, [], ◌∷◌, ltb, ◌==◌, if◌then◌else◌, length,
  replicate, length-replicate, length-append, arith, ap,
}
use storrent.Bitmap
use storrent.Bitmap.{Bitmap, IsBitmap}
use storrent.Bitmap.Updates.{get-extend}
use storrent.Protocol
use storrent.Peer.{Peer}
use storrent.Peer.Chunks.{num_pieces}
use storrent.Peer.Writing.{write}
use storrent.Peer.Looping.{am_seed, announce}

copy-same : (b : Bitmap) → Bitmap.copy b ≡ b
unfolding Bitmap.copy
copy-same [] = refl
copy-same (v ∷ b) = ap (λ c. v ∷ c) (copy-same b)

extended : (b : Bitmap) (n : ℕ) → length b ≤ n / 8 + 1 → length (Bitmap.extend b n) ≡ n / 8 + 1
unfolding Bitmap.extend
extended b n le =
    let k = n / 8 + 1 - length b in
    ground (arith, le, length-append b (replicate k 0), length-replicate {A = ℕ} k 0)

-- Where Run sends a bitfield, that is to say where we have some pieces, not all of them if the peer
-- is to be told so by HaveAll, and at least one in 72, and our bitmap has no bytes beyond that of the
-- number of pieces: the bitfield has the bits of our bitmap, and one byte more than the pieces take if
-- their number is a multiple of 8.
pub announce_lem :
    (p : Peer)
    → IsBitmap p.my_bitmap
    → Bitmap.empty p.my_bitmap ≡ false
    → (p.can_fast && am_seed p) ≡ false
    → num_pieces p.pieces / 72 ≤ Bitmap.count p.my_bitmap
    → length p.my_bitmap ≤ num_pieces p.pieces / 8 + 1
    → (b : Bitmap) × (announce p ≡ write p (Protocol.bitfield b))
      × ((i : ℕ) → Bitmap.get b i ≡ Bitmap.get p.my_bitmap i)
      × (length b ≡ (num_pieces p.pieces + 7) / 8 + (if num_pieces p.pieces % 8 == 0 then 1 else 0))
unfolding announce
announce_lem p v some_set not_seed enough short =
    let n = num_pieces p.pieces in
    let many : ltb (Bitmap.count p.my_bitmap) (n / 72) ≡ false = ground (arith, enough) in
    (
      Bitmap.extend (Bitmap.copy p.my_bitmap) n,
      rw (some_set, not_seed, many) refl,
      λ i. rw (copy-same p.my_bitmap) (get-extend p.my_bitmap n i),
      rw (copy-same p.my_bitmap) (ground (arith, extended p.my_bitmap n short)),
    )
