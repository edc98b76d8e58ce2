-- ===== src/Peer/Handling.antt =====
-- handleMessage of peer/peer.go, with what it calls: maybeRequest, and the part of scheduleUpload that
-- it reaches, which only looks after the upload ticker.
pub mod Messages
pub mod Extended
use storrent.Prelude.{
  ℕ, zero, suc, ◌+◌, ◌-◌, ◌*◌, ◌/◌, ◌%◌, ◌^◌, Bool, true, false, not, ◌&&◌, ◌||◌, List, [], ◌∷◌,
  ◌++◌, Option, none, some, ltb, leb, ◌==◌, if◌then◌else◌, ◌>>=◌, length, set, take,
  drop as drop_list,
}
use storrent.Bitmap
use storrent.Bitmap.{Bitmap}
use storrent.Net.{Addr, no_addr, addr4, addr6}
use storrent.Pex
use storrent.Requests
use storrent.Requests.{Request, Requests}
use storrent.Piece.Store.{Added, add_data}
use storrent.Protocol
use storrent.Protocol.{Message, Handshake, extended_metadata}
use storrent.Known.{Kind, active_no_reset, seen, heard, pex}
use storrent.Peer.{
  Peer, Requested, Failure, cannot_fast, metadata_incomplete, out_of_range, overlong_bitfield,
  duplicate_extended0, unexpected_metadata, err_congested, dont_have_from_seed, TorEvent, tor_data,
  tor_peer_unchoke, tor_peer_interested, tor_peer_have, tor_peer_bitmap, tor_peer_extended,
  tor_metadata, tor_add_known,
}
use storrent.Peer.Chunks.{from_chunk, to_chunk, chunk_length, num_pieces}
use storrent.Peer.Writing.{
  write, write_event, choose, drop, drop_all, reject, note_active, bits, is_some, maybe_interested,
  set_choking, is_fast,
}

-- How many requests of the peer's are kept.
abbrev pub max_requested : ℕ
max_requested = 250

abbrev pub done : Peer → Option (Peer × Option Failure)
done p = some (p, none)

abbrev pub fails : Peer → Failure → Option (Peer × Option Failure)
fails p e = some (p, some e)

-- The end of a round of maybeRequest: the request is sent out, and the loop goes on with `rest`, or
-- the write fails and the loop ends.
unfoldable pub send_request :
    Peer → Request → ℕ → (Peer → Option Peer) → Peer × Option Failure → Option Peer
send_request p q now rest (p', some err) = some (drop p' q.index)
send_request p q now rest (p', none) = do
  rs ← Requests.enqueue_request p'.requests q now
  rest (record p' { requests = rs })

-- A round from Dequeue on.
unfoldable pub request_round : Peer → ℕ → (Peer → Option Peer) → Option Peer
unfolding send_request
request_round p now rest = do
  taken ← Requests.dequeue p.requests
  let p' = record p { requests = taken.0 }
  let q = taken.1
  let (i, b) = from_chunk p'.pieces.piece_size q.index
  if (not p'.unchoked && not (is_fast p' i)) || not (Bitmap.get (bits p'.bitmap) i)
      then rest (drop p' q.index)
      else send_request p' q now rest
          (write p' (Protocol.request i b (chunk_length p'.pieces q.index)))

-- The loop of maybeRequest, `none` where the fuel runs out. Each round but the last takes a request
-- from the queue, so one more than the length of the queue is enough fuel. The two choices are whether
-- the writer is congested and whether the requests sent out are enough for the rate.
unfoldable pub request_loop : ℕ → Peer → ℕ → Option Peer
unfolding request_round
request_loop zero p now = none
request_loop (suc fuel) p now =
    let (p1, full) = choose p in
    let nr = Requests.requested_length p.requests in
    let (p2, slow) = choose p1 in
    let round = request_round p2 now (λ p'. request_loop fuel p' now) in
    if full || (Requests.queue_length p.requests == 0)
    then some p1
    else if ltb 1 nr && (leb p.req_q nr || slow)
    then some p2
    else round

abbrev pub none_left : List ℕ → Bool
none_left [] = true
none_left (x ∷ l) = false

unfoldable pub maybe_request : Peer → ℕ → Option Peer
unfolding request_loop
maybe_request p now =
    if not p.unchoked && none_left p.fast
    then some p
    else request_loop (Requests.queue_length p.requests + 1) p now

-- maybeRequest at the end of a handler.
abbrev pub then_request : Peer → ℕ → Option (Peer × Option Failure)
then_request p now = do p' ← maybe_request p now; some (p', none)

-- The old bitmap is taken back before a new one.
unfoldable pub forget_bitmap : Peer → Option Bitmap → Peer
forget_bitmap p none = p
forget_bitmap p (some b) = record (write_event p (tor_peer_bitmap b false)) { bitmap = none }

-- The error of maybeInterested is ignored.
abbrev pub ask_interest : Peer → Option (Peer × Option Failure)
ask_interest p = done (maybe_interested p).0

-- After AddData.
unfoldable pub added : Peer → ℕ → ℕ → ℕ → ℕ → Added → Peer
added p chunk index begin len r =
    if r.count == len
    then write_event p (tor_data index begin len r.is_complete)
    else note_active (drop p chunk)

-- Whether the data goes to the piece store, and then what comes of it; `alloc_ok` says whether memory
-- can be had.
unfoldable pub got_piece : Peer → ℕ → ℕ → ℕ → List ℕ → Bool → Bool → Option Peer
unfolding added
got_piece p chunk index begin bs false alloc_ok = some p
got_piece p chunk index begin bs true alloc_ok = do
  r ← add_data p.pieces index begin bs p.counter alloc_ok
  some (added (record p { pieces = r.0 }) chunk index begin (length bs) r.1)

unfoldable pub handle_piece : Peer → ℕ → ℕ → List ℕ → ℕ → Option (Peer × Option Failure)
unfolding got_piece
handle_piece p index begin bs now =
    if not (is_some p.info)
    then fails p metadata_incomplete
    else if leb (num_pieces p.pieces % 2 ^ 32) index
    then fails p out_of_range
    else do
      let chunk = to_chunk p.pieces.piece_size index begin
      d ← Requests.del_any p.requests chunk
      let (p', alloc_ok) = choose (record p { requests = d.0 })
      p'' ← got_piece p' chunk index begin bs (d.2 || d.1) alloc_ok
      then_request p'' now

unfoldable pub handle_reject : Peer → ℕ → ℕ → ℕ → Option (Peer × Option Failure)
handle_reject p index begin now =
    if not p.can_fast
    then fails p cannot_fast
    else if not (is_some p.info)
    then fails p metadata_incomplete
    else do
      let chunk = to_chunk p.pieces.piece_size index begin
      d ← Requests.del_requested p.requests chunk
      let p' = record p { requests = d.0 }
      then_request (if d.1 then drop p' chunk else p') now

unfoldable pub handle_choke : Peer → Option (Peer × Option Failure)
handle_choke p =
    let p' = record p { unchoked = false } in
    let (rs, calls) = Requests.clear p'.requests (not p'.can_fast) in
    done (write_event (drop_all (record p' { requests = rs }) calls) (tor_peer_unchoke false))
