-- ===== src/Peer/Events.antt =====
-- handleEvent of peer/peer.go, and scheduleUpload. An answer to a query goes to `replies`.
use storrent.Prelude.{
  ℕ, zero, suc, ◌+◌, ◌*◌, ◌/◌, ◌%◌, ◌^◌, Bool, true, false, not, ◌&&◌, List, [], ◌∷◌, ◌++◌, Option,
  none, some, ltb, ◌==◌, if◌then◌else◌, ◌>>=◌, length,
}
use storrent.Bitmap
use storrent.Bitmap.{Bitmap}
use storrent.Pex
use storrent.PexState
use storrent.Requests
use storrent.Requests.{Requests}
use storrent.Piece.{Read, bytes, chunk_size, num, read_at}
use storrent.Protocol
use storrent.Peer.{
  Peer, Requested, Failure, eof, err_congested, metadata_incomplete, duplicate_metadata,
  inconsistent_bitmap, overlong_bitfield, Reply, status, stats, pex_peer, fast_pieces, bitmap_is,
  have_is, tor_peer_bitmap,
}
use storrent.Peer.Chunks.{from_chunk, num_pieces}
use storrent.Peer.Writing.{
  write, write_event, choose, drop, reject, cancel, note_active, bits, is_some, set_choking,
}
use storrent.Peer.Handling.{done, fails, ask_interest, then_request}

pub data PeerEvent : Type 0 where
  metadata_complete : List ℕ → PeerEvent
  request : List ℕ → PeerEvent
  have : ℕ → Bool → PeerEvent
  cancel_chunk : ℕ → PeerEvent
  cancel_piece : ℕ → PeerEvent
  be_interested : Bool → PeerEvent
  get_metadata : ℕ → PeerEvent
  pex : Bool → List Pex.Peer → PeerEvent
  get_status get_stats get_pex get_fast get_bitmap : PeerEvent
  get_have : ℕ → PeerEvent
  unchoke : Bool → PeerEvent
  stop : PeerEvent

-- isSeed, with what it notes.
unfoldable pub note_seed : Peer → Peer × Bool
note_seed p =
    if not (is_some p.info)
    then (p, false)
    else if p.is_seed
    then (p, true)
    else if Bitmap.all (bits p.bitmap) (num p.pieces)
    then (record p { is_seed = true }, true)
    else (p, false)

abbrev pub reply : Peer → Reply → Option (Peer × Option Failure)
reply p r = done (record p { replies = p.replies ++ (r ∷ []) })

unfoldable pub handle_metadata_complete : Peer → List ℕ → Option (Peer × Option Failure)
handle_metadata_complete p info =
    if is_some p.info
    then fails p duplicate_metadata
    else (let p' = record p { info = some info } in
        let b = Bitmap.set_multiple [] (num_pieces p'.pieces) in
        if p'.is_seed
        then if is_some p'.bitmap
          then fails p' inconsistent_bitmap
          else ask_interest
              (write_event (record p' { bitmap = some b }) (tor_peer_bitmap (Bitmap.copy b) true))
        else if ltb (num_pieces p'.pieces) (Bitmap.len (bits p'.bitmap))
        then fails p' overlong_bitfield
        else ask_interest p')

-- The loop of PeerRequest.
unfoldable pub request_chunk : Peer → ℕ → ℕ → Peer
request_chunk p chunk now =
    let (rs, queued) = Requests.enqueue p.requests chunk now in
    if Bitmap.get (bits p.bitmap) (from_chunk p.pieces.piece_size chunk).0
    then if queued then record p { requests = rs } else drop (record p { requests = rs }) chunk
    else drop p chunk

unfoldable pub request_chunks : Peer → List ℕ → ℕ → Peer
unfolding request_chunk
request_chunks p [] now = p
request_chunks p (c ∷ cs) now = request_chunks (request_chunk p c now) cs now

-- After the write of PeerHave.
unfoldable pub have_told : Peer × Option Failure → Option (Peer × Option Failure)
have_told (p, none) = ask_interest p
have_told (p, some e) = fails p e

unfoldable pub handle_peer_have : Peer → ℕ → Bool → Option (Peer × Option Failure)
unfolding have_told
handle_peer_have p index true =
    have_told (write (record p { my_bitmap = Bitmap.set p.my_bitmap index }) (Protocol.have index))
handle_peer_have p index false =
    let p' = record p { my_bitmap = Bitmap.reset p.my_bitmap index } in
    if ltb 0 p'.dont_have_ext
    then have_told (write p' (Protocol.extended_dont_have (p'.dont_have_ext % 256) index))
    else ask_interest p'

-- The loop of PeerCancelPiece; the error of cancel is ignored.
unfoldable pub cancel_chunks : ℕ → Peer → ℕ → ℕ → Option Peer
cancel_chunks zero p chunk now = some p
cancel_chunks (suc n) p chunk now = do
  r ← cancel p (chunk % 2 ^ 32) now
  cancel_chunks n r.0 (chunk + 1) now

-- The error of cancel is ignored.
unfoldable pub handle_cancel_chunk : Peer → ℕ → ℕ → Option (Peer × Option Failure)
handle_cancel_chunk p chunk now = do r ← cancel p chunk now; done r.0

unfoldable pub handle_cancel_piece : Peer → ℕ → ℕ → Option (Peer × Option Failure)
unfolding cancel_chunks
handle_cancel_piece p index now = if not (is_some p.info) then fails p metadata_incomplete else do
  let cpp = p.pieces.piece_size / chunk_size
  p' ← cancel_chunks cpp p (index * cpp) now
  done p'

unfoldable pub handle_get_metadata : Peer → ℕ → Option (Peer × Option Failure)
handle_get_metadata p index =
    let (p', full) = choose p in
    if p.metadata_ext == 0
    then done p
    else if full
    then done p'
    else done (write p' (Protocol.extended_metadata (p.metadata_ext % 256) 0 index 0 [])).0

unfoldable pub pex_all : Bool → PexState.PexState → List Pex.Peer → PexState.PexState
pex_all adding s [] = s
pex_all adding s (p ∷ l) = pex_all adding (if adding then PexState.add s p else PexState.del s p) l

unfoldable pub handle_get_status : Peer → Option (Peer × Option Failure)
handle_get_status p =
    let (p', seed) = note_seed p in
    reply p' (
      status p.unchoked p.interested p.am_unchoking p.am_interested seed p.upload_only
        (Requests.requested_length p.requests + Requests.queue_length p.requests))

unfoldable pub handle_get_stats : Peer → Option (Peer × Option Failure)
handle_get_stats p =
    let (p', seed) = note_seed p in
    reply p' (
      stats p.unchoked p.interested p.am_unchoking p.am_interested seed p.upload_only
        (Requests.requested_length p.requests)
        (Requests.requested_length p.requests + Requests.queue_length p.requests)
        (length p.requested) (Bitmap.count (bits p.bitmap)) (length p.pex))

-- The flags Encrypt, UploadOnly and Outgoing of pex/pex.go are 1, 2 and 16.
unfoldable pub handle_get_pex : Peer → Option (Peer × Option Failure)
handle_get_pex p =
    let (p', seed) = if p.upload_only then (p, true) else note_seed p in
    let flags =
      (if p.prefers_encryption then 1 else 0)
      + (if seed then 2 else 0)
      + (if p.incoming then 0 else 16) in
    if ltb 0 p.port
    then reply p' (pex_peer (some (record { addr = p.ip; port = p.port % 2 ^ 16; flags = flags })))
    else reply p (pex_peer none)

-- The end of scheduleUpload, after the write of the piece.
unfoldable pub uploaded : Requested → Peer × Option Failure → Peer × Option Failure
uploaded r (p, none) = (note_active p, none)
uploaded r (p, some err_congested) = (record p { requested = r ∷ p.requested }, none)
uploaded r (p, some e) = (p, some e)

-- The bytes that ReadAt gave; its error is ignored.
abbrev pub read_bytes : Read → List ℕ
read_bytes Read.eof = []
read_bytes (bytes got) = got

-- After ReadAt.
unfoldable pub upload_read : Requested → Peer → Read → Peer × Option Failure
unfolding uploaded
upload_read r p read =
    let got = read_bytes read in
    if not (length got == r.length)
    then reject p r.index r.begin r.length
    else uploaded r (write p (Protocol.piece r.index r.begin got))

unfoldable pub upload_next : Peer → List Requested → Option (Peer × Option Failure)
unfolding upload_read
upload_next p [] = done p
upload_next p (r ∷ l) =
    let (p', full) = choose p in
    let (p'', allowed) = choose p' in
    if full then done p' else if not allowed then done p'' else do
      got ← read_at p''.pieces r.length (r.index * p''.pieces.piece_size + r.begin)
      some (upload_read r (record p'' { requested = l }) got)

-- scheduleUpload; without `immediate` it only looks after the ticker. The choices are whether the
-- writer is congested and whether the rates allow the upload.
unfoldable pub schedule_upload : Peer → Bool → Option (Peer × Option Failure)
unfolding upload_next
schedule_upload p immediate =
    if immediate && p.am_unchoking then upload_next p p.requested else done p

unfoldable pub handle_event : Peer → PeerEvent → ℕ → Option (Peer × Option Failure)
unfolding handle_metadata_complete request_chunks handle_peer_have handle_cancel_chunk
    handle_cancel_piece handle_get_metadata pex_all handle_get_status handle_get_stats
    handle_get_pex
handle_event p (metadata_complete info) now = handle_metadata_complete p info
handle_event p (request chunks) now =
    if not (is_some p.info)
    then fails p metadata_incomplete
    else then_request (request_chunks p chunks now) now
handle_event p (have i b) now = handle_peer_have p i b
handle_event p (cancel_chunk c) now =
    if not (is_some p.info) then fails p metadata_incomplete else handle_cancel_chunk p c now
handle_event p (cancel_piece i) now = handle_cancel_piece p i now
handle_event p (be_interested b) now = ask_interest (record p { should_interested = b })
handle_event p (get_metadata i) now = handle_get_metadata p i
handle_event p (pex adding l) now =
    if p.pex_ext == 0 then done p else done (record p { pex_state = pex_all adding p.pex_state l })
handle_event p get_status now = handle_get_status p
handle_event p get_stats now = handle_get_stats p
handle_event p get_pex now = handle_get_pex p
handle_event p get_fast now = reply p (fast_pieces p.fast)
handle_event p get_bitmap now = reply p (bitmap_is (Bitmap.copy (bits p.bitmap)))
handle_event p (get_have i) now = reply p (have_is (Bitmap.get (bits p.bitmap) i))
handle_event p (unchoke b) now = some (set_choking p b)
handle_event p stop now = fails p eof
