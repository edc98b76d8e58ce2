-- ===== src/Peer/Tests.antt =====
-- A peer of a torrent of two pieces of two chunks each, and a run of its loop.
use storrent.Prelude.{
  ℕ, ◌+◌, ◌≡◌, ◌/◌, ◌%◌, ◌==◌, ◌&&◌, if◌then◌else◌, refl, true, false, List, [], ◌∷◌, some,
  replicate, arith, length, ap, sym,
}
use storrent.Net.{no_addr}
use storrent.Bitmap.Bits.{bit}
use storrent.Bitmap.Updates.{get-beyond}
use storrent.Piece.{Pieces, fresh, num}
use storrent.Protocol
use storrent.Protocol.Reader.{Read, got}
use storrent.Peer.{Peer}
use storrent.Peer.Chunks.{to_chunk, from_chunk, IsAligned, to_chunk-from_chunk}
use storrent.Peer.Handling.{maybe_request}
use storrent.Peer.Events
use storrent.Peer.Looping.{Input, received, told, ticked}
use storrent.Peer.Writing.{write}
use storrent.Peer.Looping.{am_seed, announce}
use storrent.Peer.Announcing.{announce_lem}
use storrent.Peer.Chunks.{num_pieces}
use storrent.Bitmap
use storrent.Bitmap.{Bitmap}
use storrent.Peer.Accounting.{IsSound, Ends}
use storrent.Peer.Accounting.Requesting.{maybe_request-Moves}

abbrev two_pieces : Pieces
two_pieces = record {
  deleted = false;
  pieces = fresh ∷ fresh ∷ [];
  count = 0;
  piece_size = 32768;
  total = 65536;
}

abbrev peer : Peer
peer = record {
  counter = 1;
  id = replicate 20 7;
  ip = no_addr;
  port = 6881;
  info = some (1 ∷ []);
  pieces = two_pieces;
  my_bitmap = [];
  bitmap = some (128 ∷ []);
  is_seed = false;
  unchoked = true;
  interested = false;
  am_unchoking = false;
  should_interested = true;
  am_interested = false;
  got_extended = false;
  can_fast = true;
  pex_ext = 1;
  metadata_ext = 2;
  dont_have_ext = 0;
  upload_only_ext = 0;
  prefers_encryption = false;
  upload_only = false;
  req_q = 128;
  requests = record { queue = []; requested = []; bitmap = [] };
  requested = [];
  pex = [];
  fast = [];
  pex_state = record { pending = []; pending_del = []; sent = [] };
  incoming = false;
  events = [];
  replies = [];
  sent = [];
  fates = [];
  choices = [];
}

-- Chunks 0 and 1 are of the piece that the peer has, chunk 2 is not.
abbrev inputs : List (Input × ℕ)
inputs =
    (told (Events.request (0 ∷ 1 ∷ 2 ∷ [])), 1000000000)
    ∷ (received (got (Protocol.reject_request 0 16384 16384) []), 2000000000)
    ∷ (ticked 1000000000, 3000000000)
    ∷ (received (got Protocol.choke []), 4000000000)
    ∷ []

abbrev aligned : IsAligned 32768
aligned = record { cpp = 2; rest = 131072; positive = omega arith; whole = refl; divides = refl }

peer-IsSound : IsSound peer
peer-IsSound = record {
  aligned = aligned;
  sized = record {
    positive = omega arith;
    in_chunks = refl;
    size_fits = omega arith;
    few = omega arith;
    number = refl;
  };
  inv = record { bytes = tt; member = λ i. ap bit (sym (get-beyond [] i (omega arith))) };
  small = λ c le. refl;
}

abbrev rejected : Read
rejected = got (Protocol.reject_request 0 16384 16384) []

maybe_request-Moves_example : Ends peer (maybe_request peer 1000000000)
maybe_request-Moves_example = maybe_request-Moves peer 1000000000 peer-IsSound

to_chunk-from_chunk_example : to_chunk 32768 (from_chunk 32768 5).0 (from_chunk 32768 5).1 ≡ 5
to_chunk-from_chunk_example = to_chunk-from_chunk 32768 5 aligned (omega arith)

-- A torrent of eight pieces of which we have the first.
abbrev eight_pieces : Peer
eight_pieces = record peer {
  my_bitmap = 128 ∷ [];
  pieces = record two_pieces { pieces = replicate 8 fresh; total = 262144 };
}

eight_pieces-fits :
    (Bitmap.empty eight_pieces.my_bitmap ≡ false)
    × ((eight_pieces.can_fast && am_seed eight_pieces) ≡ false)
    × (num_pieces eight_pieces.pieces ≡ 8)
unfolding Bitmap.empty am_seed num_pieces Bitmap.all num
eight_pieces-fits = (refl, refl, refl)

announce_lem_example :
    (b : Bitmap) × (announce eight_pieces ≡ write eight_pieces (Protocol.bitfield b))
    × ((i : ℕ) → Bitmap.get b i ≡ Bitmap.get eight_pieces.my_bitmap i)
    × (length b
        ≡ (num_pieces eight_pieces.pieces + 7) / 8
          + (if num_pieces eight_pieces.pieces % 8 == 0 then 1 else 0))
announce_lem_example =
    announce_lem eight_pieces (omega arith, tt) eight_pieces-fits.0 eight_pieces-fits.1
      (omega (arith, eight_pieces-fits.2)) (omega (arith, eight_pieces-fits.2))
