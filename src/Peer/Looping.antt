-- ===== src/Peer/Looping.antt =====
-- The loop of Run in peer/peer.go: what it announces at first, what its ticker does, and how it ends.
-- The connection, the timers and the goroutines of the reader and the writer are not kept, nor are
-- the messages Port and Extended0 that Run writes at first. Times are in nanoseconds.
use storrent.Prelude.{
  ℕ, ◌+◌, ◌-◌, ◌*◌, ◌/◌, ◌%◌, Bool, true, false, not, ◌&&◌, List, [], ◌∷◌, ◌++◌, Option, none, some,
  ltb, ◌==◌, if◌then◌else◌, ◌>>=◌, length,
}
use storrent.Bitmap
use storrent.Bitmap.{Bitmap}
use storrent.Known
use storrent.Pex
use storrent.PexState
use storrent.PexState.{put_back}
use storrent.Requests
use storrent.Requests.{Requests, Call}
use storrent.Piece.{num}
use storrent.Protocol
use storrent.Protocol.Reader.{Read}
use storrent.Peer.{Peer, Failure, timed_out, tor_peer_bitmap, tor_peer_goaway, tor_add_known}
use storrent.Peer.Chunks.{num_pieces}
use storrent.Peer.Writing.{write, write_event, choose, drop, drop_all, docancel, bits, is_some}
use storrent.Peer.Handling.{maybe_request}
use storrent.Peer.Handling.Messages.{handle_message}
use storrent.Peer.Events.{PeerEvent, handle_event, schedule_upload}

unfoldable pub am_seed : Peer → Bool
am_seed p = if not (is_some p.info) then false else Bitmap.all p.my_bitmap (num p.pieces)

-- The writes of a list of Have messages, up to the first error.
unfoldable pub write_haves : Peer → List ℕ → Peer × Option Failure
write_haves p [] = (p, none)
write_haves p (i ∷ l) =
    let (p', err) = write p (Protocol.have i) in
    let rest = write_haves p' l in if is_some err then (p', err) else rest

unfoldable pub after :
    (Peer → Peer × Option Failure) → Peer × Option Failure → Peer × Option Failure
after rest (p, none) = rest p
after rest (p, some e) = (p, some e)

-- The pieces that AllSet goes over.
abbrev collect : List ℕ → ℕ → List ℕ × Bool
collect l i = (l ++ (i ∷ []), true)

-- What Run tells the peer about our pieces.
unfoldable pub announce : Peer → Peer × Option Failure
unfolding write_haves after am_seed
announce p =
    let set = (Bitmap.all_set collect p.my_bitmap []).0 in
    let none_first = if p.can_fast then write p Protocol.have_none else (p, none) in
    if Bitmap.empty p.my_bitmap
    then none_first
    else if p.can_fast && am_seed p
    then write p Protocol.have_all
    else if ltb (Bitmap.count p.my_bitmap) (num_pieces p.pieces / 72)
    then after (λ p'. write_haves p' set) none_first
    else write p (Protocol.bitfield (Bitmap.extend (Bitmap.copy p.my_bitmap) (num_pieces p.pieces)))

-- The callbacks of Expire; the error of docancel is ignored.
unfoldable pub make_calls : Peer → List Call → Peer
make_calls p [] = p
make_calls p (Call.drop c ∷ l) = make_calls (drop p c) l
make_calls p (Call.cancels c ∷ l) = make_calls (docancel p c).0 l

abbrev pub second : ℕ
second = 1000000000

-- The age at which cancelled requests are dropped, for a timeout of `rto`.
unfoldable pub cancel_age : Peer → ℕ → ℕ
cancel_age p rto =
    let to = if ltb (5 * second) rto then 5 * second else rto in
    if p.can_fast then to + 2 * second else to

unfoldable pub expire_requests : Peer → ℕ → ℕ → Option (Peer × Bool)
unfolding make_calls cancel_age
expire_requests p rto now =
    if Requests.requested_length p.requests == 0 then some (p, false) else do
      r ← Requests.expire p.requests (now - 30 * second) (now - cancel_age p rto) now
      some (make_calls (record p { requests = r.0 }) r.2, r.1)

-- After computePex: the message, and what it was.
unfoldable pub pex_sent : Peer → List Pex.Peer → List Pex.Peer → Peer
pex_sent p to_send to_del =
    let (p', err) = write p (Protocol.extended_pex (p.pex_ext % 256) to_send to_del) in
    if (length to_send == 0) && (length to_del == 0)
    then p
    else if is_some err
    then record p' { pex_state = put_back p'.pex_state to_send to_del }
    else p'

unfoldable pub send_pex : Peer → Peer
unfolding pex_sent
send_pex p =
    let (p', full) = choose p in
    let (s, to_send, to_del) = PexState.compute_pex p.pex_state in
    if p.pex_ext == 0
    then p
    else if full
    then p'
    else pex_sent (record p' { pex_state = s }) to_send to_del

unfoldable pub tell_known : Peer → List Pex.Peer → Peer
tell_known p [] = p
tell_known p (a ∷ l) = tell_known (write_event p (tor_add_known a.addr a.port none [] Known.pex)) l

-- The end of the case of the ticker. The choices are whether it is time for peer exchange, for
-- telling the torrent of the peers exchanged, for a message that keeps the connection alive, and for
-- giving the peer up.
unfoldable pub tick_rest : Peer → Peer × Option Failure
unfolding send_pex tell_known
tick_rest p =
    let (p1, pex_due) = choose p in
    let p2 = if pex_due then send_pex p1 else p1 in
    let (p3, tell_due) = choose p2 in
    let p4 = if tell_due then tell_known p3 p3.pex else p3 in
    let (p5, idle) = choose p4 in
    let p6 = if idle then (write p5 Protocol.keep_alive).0 else p5 in
    let (p7, late) = choose p6 in (p7, if late then some timed_out else none)

unfoldable pub tick : Peer → ℕ → ℕ → Option (Peer × Option Failure)
unfolding expire_requests tick_rest
tick p rto now = do
  r ← expire_requests p rto now
  p' ← if r.1 then maybe_request r.0 now else some r.0
  some (tick_rest p')

-- The deferred functions of Run that concern the torrent. The count of the unchoked peers, which all
-- peers share, and its panic below 0 are not kept.
unfoldable pub close : Peer → Peer
close p =
    let (rs, calls) = Requests.clear p.requests true in
    let p' = drop_all (record p { requests = rs }) calls in
    write_event (write_event p' (tor_peer_bitmap (Bitmap.copy (bits p'.bitmap)) false))
      tor_peer_goaway

-- What a round of the loop takes from its channels.
pub data Input : Type 0 where
  received : Read → Input
  told : PeerEvent → Input
  upload_due : Input
  ticked : ℕ → Input
  ended : Input

unfoldable pub round : Peer → Input → ℕ → Option (Peer × Option Failure)
unfolding tick
round p (received m) now = handle_message p m now
round p (told e) now = handle_event p e now
round p upload_due now = schedule_upload p true
round p (ticked rto) now = tick p rto now
round p ended now = some (p, some Failure.eof)

-- From a round on, with the rest of the loop: an error ends it.
unfoldable pub after_round : (Peer → Option Peer) → Peer × Option Failure → Option Peer
after_round rest (p, none) = rest p
after_round rest (p, some e) = some (close p)

-- The loop, on the inputs of its rounds and the times at which they come, up to its end, where the
-- channels are closed at the latest.
unfoldable pub run : Peer → List (Input × ℕ) → Option Peer
unfolding after_round round
run p [] = some (close p)
run p ((i, now) ∷ l) = do r ← round p i now; after_round (λ p'. run p' l) r
