-- ===== src/Peer/Handling/Messages.antt =====
-- The cases of handleMessage of peer/peer.go.
use storrent.Prelude.{
  ℕ, ◌%◌, ◌^◌, true, false, not, ◌&&◌, ◌||◌, List, [], ◌∷◌, ◌++◌, Option, none, some, ltb, leb,
  ◌==◌, if◌then◌else◌, length,
}
use storrent.Bitmap
use storrent.Bitmap.{Bitmap}
use storrent.Protocol
use storrent.Protocol.{Message, Handshake}
use storrent.Protocol.Reader.{Read, got, failed, silent}
use storrent.Peer.{
  Peer, Requested, Failure, cannot_fast, metadata_incomplete, out_of_range, overlong_bitfield,
  unknown_extended, unknown_message, read_error, tor_peer_unchoke, tor_peer_interested,
  tor_peer_have, tor_peer_bitmap,
}
use storrent.Peer.Chunks.{num_pieces}
use storrent.Peer.Writing.{write_event, reject, bits, is_some, set_choking, is_fast}
use storrent.Peer.Handling.{
  max_requested, done, fails, forget_bitmap, ask_interest, handle_piece, handle_reject,
  handle_choke,
}
use storrent.Peer.Handling.Extended.{
  handle_extended0, pex_added, pex_dropped, handle_metadata, handle_dont_have,
}

unfoldable pub handle_have : Peer → ℕ → Option (Peer × Option Failure)
handle_have p index =
    if is_some p.info && leb (num_pieces p.pieces % 2 ^ 32) index
    then fails p out_of_range
    else if not (Bitmap.get (bits p.bitmap) index)
    then ask_interest (
        write_event (record p { bitmap = some (Bitmap.set (bits p.bitmap) index) })
          (tor_peer_have index true))
    else done p

unfoldable pub handle_bitfield : Peer → Bitmap → Option (Peer × Option Failure)
handle_bitfield p bf =
    let b = Bitmap.copy bf in
    if is_some p.info && ltb (num_pieces p.pieces) (Bitmap.len b)
    then fails p overlong_bitfield
    else ask_interest (
        write_event (record (forget_bitmap p p.bitmap) { bitmap = some b })
          (tor_peer_bitmap (Bitmap.copy b) true))

-- The head drop of a long list, unless the reject cannot be written.
unfoldable pub make_room : Peer → List Requested → Peer
make_room p [] = p
make_room p (r ∷ l) =
    let (p', err) = reject p r.index r.begin r.length in
    if is_some err then p' else record p' { requested = l }

unfoldable pub handle_request : Peer → ℕ → ℕ → ℕ → Peer × Option Failure
unfolding make_room
handle_request p index begin len =
    if not (is_some p.info) || not p.am_unchoking
    then reject p index begin len
    else (let p' = if leb max_requested (length p.requested) then make_room p p.requested else p in
        (
          record p' {
            requested =
                p'.requested ++ (record { index = index; begin = begin; length = len } ∷ []);
          },
          none,
        ))

-- The loop of the Cancel case: the list without the first such request, if there is one.
unfoldable pub without : ℕ → ℕ → ℕ → List Requested → Option (List Requested)
without index begin len [] = none
without index begin len (r ∷ l) =
    let rest = without index begin len l in
    if (r.index == index) && (r.begin == begin) && (r.length == len)
    then some l
    else elim rest [ none ↦ none | some l' ↦ some (r ∷ l') ]

unfoldable pub handle_cancel : Peer → ℕ → ℕ → ℕ → Peer × Option Failure
unfolding without
handle_cancel p index begin len =
    if not (is_some p.info)
    then (p, some metadata_incomplete)
    else elim (without index begin len p.requested) [
      | none ↦ (p, none)
      | some l ↦ reject (record p { requested = l }) index begin len
    ]

unfoldable pub handle_allowed_fast : Peer → ℕ → Option (Peer × Option Failure)
handle_allowed_fast p index =
    if not p.can_fast
    then fails p cannot_fast
    else done (if is_fast p index then p else record p { fast = p.fast ++ (index ∷ []) })

-- `peer.bitmap` is nil before SetMultiple.
abbrev pub all_pieces : Peer → Peer
all_pieces p =
    let b = Bitmap.set_multiple (bits p.bitmap) (num_pieces p.pieces) in
    write_event (record p { bitmap = some b }) (tor_peer_bitmap (Bitmap.copy b) true)

unfoldable pub handle_have_all : Peer → Option (Peer × Option Failure)
handle_have_all p =
    if not p.can_fast
    then fails p cannot_fast
    else (let p' = record (forget_bitmap p p.bitmap) { is_seed = true } in
        ask_interest (if is_some p'.info then all_pieces p' else p'))

unfoldable pub handle_have_none : Peer → Option (Peer × Option Failure)
handle_have_none p =
    if not p.can_fast
    then fails p cannot_fast
    else done (record (forget_bitmap p p.bitmap) { bitmap = none; is_seed = false })

-- The cases of handleMessage for the messages that Read makes.
unfoldable pub handle_got : Peer → Message → ℕ → Option (Peer × Option Failure)
unfolding handle_have handle_bitfield handle_request handle_cancel handle_allowed_fast
    handle_have_all handle_have_none handle_extended0 handle_metadata handle_dont_have handle_piece
    handle_reject handle_choke
handle_got p Protocol.keep_alive now = done p
handle_got p Protocol.choke now = handle_choke p
handle_got p Protocol.unchoke now =
    done (write_event (record p { unchoked = true }) (tor_peer_unchoke true))
handle_got p Protocol.interested now =
    done (write_event (record p { interested = true }) (tor_peer_interested true))
handle_got p Protocol.not_interested now = done (
    write_event (set_choking (record p { interested = false }) false).0 (tor_peer_interested false))
handle_got p (Protocol.have i) now = handle_have p i
handle_got p (Protocol.bitfield b) now = handle_bitfield p b
handle_got p (Protocol.request i b l) now = some (handle_request p i b l)
handle_got p (Protocol.piece i b d) now = handle_piece p i b d now
handle_got p (Protocol.cancel i b l) now = some (handle_cancel p i b l)
handle_got p (Protocol.port q) now = done p
handle_got p (Protocol.suggest_piece i) now = if not p.can_fast then fails p cannot_fast else done p
handle_got p (Protocol.reject_request i b l) now = handle_reject p i b now
handle_got p (Protocol.allowed_fast i) now = handle_allowed_fast p i
handle_got p Protocol.have_all now = handle_have_all p
handle_got p Protocol.have_none now = handle_have_none p
handle_got p (Protocol.extended0 h) now = handle_extended0 p h
handle_got p (Protocol.extended_pex s a d) now = done (pex_dropped (pex_added p a) d)
handle_got p (Protocol.extended_metadata s t i total d) now = some (handle_metadata p t i total d)
handle_got p (Protocol.extended_dont_have s i) now = handle_dont_have p i
handle_got p (Protocol.extended_upload_only s v) now = done (record p { upload_only = v })
handle_got p (Protocol.extended_unknown s) now = fails p unknown_extended
handle_got p (Protocol.unknown t) now = fails p unknown_message

-- Reader passes on what Read gives: a message, an Error that it makes of what failed, and nil where
-- Read gives neither a message nor an error, on which the last case panics.
unfoldable pub handle_message : Peer → Read → ℕ → Option (Peer × Option Failure)
unfolding handle_got
handle_message p (got m r) now = handle_got p m now
handle_message p (failed e) now = fails p read_error
handle_message p (silent r) now = none
