-- ===== src/Peer/Accounting/Messages.antt =====
-- handleMessage of peer/peer.go and the chunks that the peer is asked for.
use storrent.Prelude.{
  ℕ, ◌≡◌, ◌⊎◌, inl, inr, Bool, refl, true, false, not, List, [], ◌∷◌, Option, none, some, leb,
  length, ◌∙◌,
}
use storrent.Bitmap
use storrent.Bitmap.{Bitmap}
use storrent.Protocol
use storrent.Protocol.{Message, Handshake}
use storrent.Protocol.Reader.{Read, got, failed, silent}
use storrent.Peer.{
  Peer, Requested, Failure, cannot_fast, out_of_range, overlong_bitfield, unknown_extended,
  unknown_message, read_error, tor_peer_unchoke, tor_peer_interested, tor_peer_have,
  tor_peer_bitmap,
}
use storrent.Peer.Chunks.{num_pieces}
use storrent.Peer.Writing.{reject, bits, is_some, set_choking, is_fast}
use storrent.Peer.Handling.{forget_bitmap, max_requested}
use storrent.Peer.Handling.Messages.{
  handle_have, handle_bitfield, make_room, handle_request, without, handle_cancel,
  handle_allowed_fast, handle_have_all, handle_have_none, handle_got, handle_message,
}
use storrent.Peer.Handling.Extended.{pex_added}
use storrent.Peer.Accounting.Extended.{
  extended0-Handled, view-pex_added, view-pex_dropped, view-metadata, dont_have-Handled,
}
use storrent.Peer.Accounting.PieceData.{handle_piece-Handled}
use storrent.Peer.Accounting.{view, IsSound}
use storrent.Peer.Accounting.Frames.{
  view-note, view-either, view-branch, view-reject, view-set_choking,
}
use storrent.Peer.Accounting.Handlers.{
  Handled, stays, asks, either-Handled, quiet-Handled, handle_reject-Handled, handle_choke-Handled,
}

view-forget : (p : Peer) (b : Option Bitmap) → view (forget_bitmap p b) ≡ view p
unfolding forget_bitmap
view-forget p none = refl
view-forget p (some b) = view-note p (tor_peer_bitmap b false) refl

have-Handled : (p : Peer) (i : ℕ) → IsSound p → Handled p (handle_have p i)
unfolding handle_have
have-Handled p i s =
    let p' : Peer = record p { bitmap = some (Bitmap.set (bits p.bitmap) i) } in
    either-Handled _ p _ _ (stays p (some out_of_range) s) (
      either-Handled (not (Bitmap.get (bits p.bitmap) i)) p _ _
        (asks p _ s (view-note p' (tor_peer_have i true) refl)) (stays p none s))

bitfield-Handled : (p : Peer) (b : Bitmap) → IsSound p → Handled p (handle_bitfield p b)
unfolding handle_bitfield
bitfield-Handled p b s =
    let q = forget_bitmap p p.bitmap in
    let p' : Peer = record q { bitmap = some (Bitmap.copy b) } in
    either-Handled _ p _ _ (stays p (some overlong_bitfield) s) (
      asks p _ s (
        view-note p' (tor_peer_bitmap (Bitmap.copy (Bitmap.copy b)) true) refl
        ∙ view-forget p p.bitmap))

view-make_room : (p : Peer) (l : List Requested) → view (make_room p l) ≡ view p
unfolding make_room
view-make_room p [] = refl
view-make_room p (r ∷ l) =
    let w = view-reject p r.index r.begin r.length in
    view-either (is_some (reject p r.index r.begin r.length).1) _ _ _ w w

view-request : (p : Peer) (i b n : ℕ) → view (handle_request p i b n).0 ≡ view p
unfolding handle_request
view-request p i b n =
    view-branch _ _ _ _ (view-reject p i b n) (
      view-either (leb max_requested (length p.requested)) _ _ _ (view-make_room p p.requested)
        refl)

view-cancel : (p : Peer) (i b n : ℕ) → view (handle_cancel p i b n).0 ≡ view p
unfolding handle_cancel
view-cancel p i b n =
    view-branch (not (is_some p.info)) _ _ _ refl (found (without i b n p.requested))
  where
    found :
        (o : Option (List Requested))
        → view
            (elim o as (λ o. Peer × Option Failure) [
              | none ↦ (p, none)
              | some l ↦ reject (record p { requested = l }) i b n
            ]).0
          ≡ view p
    found none = refl
    found (some l) = view-reject (record p { requested = l }) i b n

allowed_fast-Handled : (p : Peer) (i : ℕ) → IsSound p → Handled p (handle_allowed_fast p i)
unfolding handle_allowed_fast
allowed_fast-Handled p i s =
    either-Handled _ p _ _ (stays p (some cannot_fast) s)
      (quiet-Handled p _ s (view-either (is_fast p i) _ _ _ refl refl))

have_all-Handled : (p : Peer) → IsSound p → Handled p (handle_have_all p)
unfolding handle_have_all
have_all-Handled p s =
    let q : Peer = record (forget_bitmap p p.bitmap) { is_seed = true } in
    let e = view-forget p p.bitmap in
    let b = Bitmap.set_multiple (bits q.bitmap) (num_pieces q.pieces) in
    either-Handled _ p _ _ (stays p (some cannot_fast) s) (
      asks p _ s (
        view-either (is_some q.info) _ _ _
          (view-note (record q { bitmap = some b }) (tor_peer_bitmap (Bitmap.copy b) true) refl ∙ e)
          e))

have_none-Handled : (p : Peer) → IsSound p → Handled p (handle_have_none p)
unfolding handle_have_none
have_none-Handled p s = either-Handled _ p _ _ (stays p (some cannot_fast) s) (
    quiet-Handled p (record (forget_bitmap p p.bitmap) { bitmap = none; is_seed = false }, none) s
      (view-forget p p.bitmap))

handle_got-Handled : (p : Peer) (m : Message) (now : ℕ) → IsSound p → Handled p (handle_got p m now)
unfolding handle_got
handle_got-Handled p Protocol.keep_alive now s = stays p none s
handle_got-Handled p Protocol.choke now s = handle_choke-Handled p s
handle_got-Handled p Protocol.unchoke now s =
    quiet-Handled p (_, none) s
      (view-note (record p { unchoked = true }) (tor_peer_unchoke true) refl)
handle_got-Handled p Protocol.interested now s =
    quiet-Handled p (_, none) s
      (view-note (record p { interested = true }) (tor_peer_interested true) refl)
handle_got-Handled p Protocol.not_interested now s =
    let p' : Peer = record p { interested = false } in
    quiet-Handled p (_, none) s
      (view-note (set_choking p' false).0 (tor_peer_interested false) refl
        ∙ view-set_choking p' false)
handle_got-Handled p (Protocol.have i) now s = have-Handled p i s
handle_got-Handled p (Protocol.bitfield b) now s = bitfield-Handled p b s
handle_got-Handled p (Protocol.request i b l) now s = quiet-Handled p _ s (view-request p i b l)
handle_got-Handled p (Protocol.piece i b d) now s = handle_piece-Handled p i b d now s
handle_got-Handled p (Protocol.cancel i b l) now s = quiet-Handled p _ s (view-cancel p i b l)
handle_got-Handled p (Protocol.port q) now s = stays p none s
handle_got-Handled p (Protocol.suggest_piece i) now s =
    either-Handled _ p _ _ (stays p (some cannot_fast) s) (stays p none s)
handle_got-Handled p (Protocol.reject_request i b l) now s = handle_reject-Handled p i b now s
handle_got-Handled p (Protocol.allowed_fast i) now s = allowed_fast-Handled p i s
handle_got-Handled p Protocol.have_all now s = have_all-Handled p s
handle_got-Handled p Protocol.have_none now s = have_none-Handled p s
handle_got-Handled p (Protocol.extended0 h) now s = extended0-Handled p h s
handle_got-Handled p (Protocol.extended_pex n a d) now s =
    quiet-Handled p (_, none) s (view-pex_dropped (pex_added p a) d ∙ view-pex_added p a)
handle_got-Handled p (Protocol.extended_metadata n t i total d) now s =
    quiet-Handled p _ s (view-metadata p t i total d)
handle_got-Handled p (Protocol.extended_dont_have n i) now s = dont_have-Handled p i s
handle_got-Handled p (Protocol.extended_upload_only n v) now s =
    quiet-Handled p (record p { upload_only = v }, none) s refl
handle_got-Handled p (Protocol.extended_unknown n) now s = stays p (some unknown_extended) s
handle_got-Handled p (Protocol.unknown t) now s = stays p (some unknown_message) s

abbrev pub is_nil : Read → Bool
is_nil (got m r) = false
is_nil (failed e) = false
is_nil (silent r) = true

pub handle_message-Handled :
    (p : Peer) (r : Read) (now : ℕ)
    → IsSound p
    → ((is_nil r ≡ false) × Handled p (handle_message p r now))
      ⊎ ((is_nil r ≡ true) × (handle_message p r now ≡ none))
unfolding handle_message
handle_message-Handled p (got m r) now s = inl (refl, handle_got-Handled p m now s)
handle_message-Handled p (failed e) now s = inl (refl, stays p (some read_error) s)
handle_message-Handled p (silent r) now s = inr (refl, refl)
