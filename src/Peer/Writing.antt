-- ===== src/Peer/Writing.antt =====
-- What a peer of peer/peer.go sends, to its writer and to the torrent, and the small steps that the
-- handlers share.
use storrent.Prelude.{
  ℕ, Bool, true, false, not, ◌&&◌, ◌||◌, List, [], ◌∷◌, ◌++◌, Option, none, some, ◌==◌,
  if◌then◌else◌,
}
use storrent.Bitmap
use storrent.Bitmap.{Bitmap}
use storrent.Requests
use storrent.Requests.{Requests}
use storrent.Known.{active}
use storrent.Protocol
use storrent.Protocol.{Message, have, reject_request, choke, unchoke, interested, not_interested}
use storrent.Peer.{
  Peer, Requested, Fate, fine, congested, closed, Failure, eof, err_congested, TorEvent, tor_drop,
  tor_add_known,
}
use storrent.Peer.Chunks.{from_chunk, chunk_length}

unfoldable pub written : Peer → Message → List Fate → Peer × Option Failure
written p m [] = (record p { sent = p.sent ++ (m ∷ []) }, none)
written p m (fine ∷ fs) = (record p { sent = p.sent ++ (m ∷ []); fates = fs }, none)
written p m (congested ∷ fs) = (record p { fates = fs }, some err_congested)
written p m (closed ∷ fs) = (record p { fates = fs }, some eof)

-- `write`: the message is taken, or the writer stays full or has ended.
unfoldable pub write : Peer → Message → Peer × Option Failure
unfolding written
write p m = written p m p.fates

abbrev pub write_event : Peer → TorEvent → Peer
write_event p e = record p { events = p.events ++ (e ∷ []) }

unfoldable pub chosen : Peer → List Bool → Peer × Bool
chosen p [] = (p, false)
chosen p (b ∷ bs) = (record p { choices = bs }, b)

-- The next test that the model does not decide.
unfoldable pub choose : Peer → Peer × Bool
unfolding chosen
choose p = chosen p p.choices

unfoldable pub drop : Peer → ℕ → Peer
drop p chunk = let (i, b) = from_chunk p.pieces.piece_size chunk in write_event p (tor_drop i b)

-- The callbacks of Clear and Expire.
unfoldable pub drop_all : Peer → List ℕ → Peer
drop_all p [] = p
drop_all p (c ∷ cs) = drop_all (drop p c) cs

unfoldable pub reject : Peer → ℕ → ℕ → ℕ → Peer × Option Failure
reject p index begin len =
    if p.can_fast then write p (reject_request index begin len) else (p, none)

unfoldable pub docancel : Peer → ℕ → Peer × Option Failure
docancel p chunk =
    let (i, b) = from_chunk p.pieces.piece_size chunk in
    write p (Protocol.cancel i b (chunk_length p.pieces chunk))

-- The end of `cancel`, where the request was found queued or sent out, or not at all.
unfoldable pub cancel_found : Peer → ℕ → Bool → Bool → Peer × Option Failure
cancel_found p chunk q r =
    if not (q || r)
    then (p, none)
    else if r
    then (let (p', err) = docancel p chunk in (drop p' chunk, err))
    else (drop p chunk, none)

unfoldable pub cancel_rest :
    Peer → ℕ → Option (Requests × Bool × Bool × ℕ) → Option (Peer × Option Failure)
unfolding cancel_found
cancel_rest p chunk none = none
cancel_rest p chunk (some (rs, q, r, t)) =
    some (cancel_found (record p { requests = rs }) chunk q r)

unfoldable pub cancel : Peer → ℕ → ℕ → Option (Peer × Option Failure)
unfolding cancel_rest
cancel p chunk now =
    let (rs, c, first) = Requests.cancel p.requests chunk now in
    let p' = record p { requests = rs } in
    if c
    then some (if first then docancel p' chunk else (p', none))
    else cancel_rest p' chunk (Requests.del_any rs chunk)

-- A port is known, and it is time.
unfoldable pub note_active : Peer → Peer
note_active p =
    let (p', late) = choose p in
    if late && not (p.port == 0)
    then write_event p' (tor_add_known p.ip p.port none [] active)
    else p'

abbrev pub bits : Option Bitmap → Bitmap
bits none = []
bits (some b) = b

abbrev pub is_some {ℓ} : {A : Type ℓ} → Option A → Bool
is_some none = false
is_some (some x) = true

-- The loop of maybeInterested: it stops at the first piece that the peer has and we have not.
abbrev pub missing : Bitmap → Bool → ℕ → Bool × Bool
missing mine found i = if not (Bitmap.get mine i) then (true, false) else (found, true)

unfoldable pub wants : Peer → Bool
wants p =
    if p.should_interested && is_some p.info && is_some p.bitmap
    then (Bitmap.all_set (missing p.my_bitmap) (bits p.bitmap) false).0
    else false

unfoldable pub maybe_interested : Peer → Peer × Option Failure
unfolding wants
maybe_interested p =
    let now_interested = wants p in
    let (p', err) = write p (if now_interested then interested else not_interested) in
    if (if now_interested then p.am_interested else not p.am_interested)
    then (p, none)
    else if is_some err
    then (p', err)
    else (record p' { am_interested = now_interested }, none)

-- The loop over the requests of a peer that is choked: it ends with the first error.
unfoldable pub reject_all : Peer → List Requested → Peer × Option Failure
reject_all p [] = (p, none)
reject_all p (r ∷ l) =
    let (p', err) = reject p r.index r.begin r.length in
    let rest = reject_all p' l in if is_some err then (p', err) else rest

-- `peer.requested = nil`, unless an error came before.
unfoldable pub no_requests : Peer × Option Failure → Peer × Option Failure
no_requests (p, some err) = (p, some err)
no_requests (p, none) = (record p { requested = [] }, none)

-- After the write of Choke.
unfoldable pub choked : Peer × Option Failure → Peer × Option Failure
unfolding no_requests reject_all
choked (p, some err) = (p, some err)
choked (p, none) = no_requests (reject_all (record p { am_unchoking = false }) p.requested)

-- unchoke(peer, unchoke). The count of the peers that are unchoked, a global, is not kept.
unfoldable pub set_choking : Peer → Bool → Peer × Option Failure
unfolding choked
set_choking p wanted =
    let unchokes = wanted && p.interested in
    if (if unchokes then p.am_unchoking else not p.am_unchoking)
    then (p, none)
    else if unchokes
    then (let (p', err) = write p unchoke in
        if is_some err then (p', none) else (record p' { am_unchoking = true }, none))
    else choked (write p choke)

abbrev member : ℕ → List ℕ → Bool
member x [] = false
member x (y ∷ l) = if y == x then true else member x l

unfoldable pub is_fast : Peer → ℕ → Bool
is_fast p index = member index p.fast
