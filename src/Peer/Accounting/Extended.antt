-- ===== src/Peer/Accounting/Extended.antt =====
-- The extended messages of peer/peer.go and the chunks that the peer is asked for.
use storrent.Prelude.{
  ℕ, ◌*◌, ◌%◌, ◌^◌, ◌≡◌, refl, true, false, not, ◌&&◌, ◌||◌, List, [], ◌∷◌, ◌++◌, Option, none,
  some, ltb, leb, ◌==◌, if◌then◌else◌, length, ◌∙◌,
}
use storrent.Bitmap
use storrent.Bitmap.{Bitmap}
use storrent.Net.{Addr}
use storrent.Pex
use storrent.Protocol.{Handshake}
use storrent.Known.{Kind, active_no_reset, seen, heard, pex}
use storrent.Peer.{
  Peer, Failure, err_congested, out_of_range, duplicate_extended0, dont_have_from_seed,
  tor_peer_have, tor_peer_extended, tor_metadata, tor_add_known,
}
use storrent.Peer.Writing.{choose, bits}
use storrent.Peer.Handling.Extended.{
  is_valid, add_known, learn_port, learn_extensions, learn_rest, is_empty_map, handle_extended0,
  learn_peer, forget_peer, pex_added, pex_dropped, after_metadata, info_bytes, send_metadata,
  handle_metadata, handle_dont_have,
}
use storrent.Peer.Accounting.{view, IsSound}
use storrent.Peer.Accounting.Frames.{view-write, view-choose, view-note, view-either, view-branch}
use storrent.Peer.Accounting.Handlers.{Handled, stays, either-Handled, quiet-Handled}

known :
    (p q : Peer) (a : Addr) (h : Handshake) (k : Kind)
    → view q ≡ view p
    → view (add_known q a h k) ≡ view p
known p q a h k e = view-note q _ refl ∙ e

view-learn_port : (p : Peer) (h : Handshake) → view (learn_port p h) ≡ view p
unfolding learn_port
view-learn_port p h =
    let p1 : Peer =
      if not (p.port == 0) && not (h.port == p.port % 2 ^ 16)
      then p
      else record p { port = h.port } in
    let p2 : Peer = add_known (add_known p1 p1.ip h active_no_reset) p1.ip h seen in
    let p3 : Peer = if is_valid h.ipv4 then add_known p2 h.ipv4 h heard else p2 in
    let e1 : view p1 ≡ view p = view-either _ _ _ _ refl refl in
    let e2 : view p2 ≡ view p =
      known p (add_known p1 p1.ip h active_no_reset) p1.ip h seen
        (known p p1 p1.ip h active_no_reset e1) in
    let e3 : view p3 ≡ view p =
      view-either (is_valid h.ipv4) _ _ _ (known p p2 h.ipv4 h heard e2) e2 in
    view-either (is_valid h.ipv6) _ _ _ (known p p3 h.ipv6 h heard e3) e3

view-extensions : (p : Peer) (h : Handshake) → view (learn_extensions p h) ≡ view p
unfolding learn_extensions
view-extensions p h = view-either (is_empty_map h.messages) _ _ _ refl refl

view-learn_rest : (p : Peer) (h : Handshake) → view (learn_rest p h) ≡ view p
unfolding learn_rest
view-learn_rest p h =
    let q : Peer = if ltb 0 h.req_q then record p { req_q = h.req_q } else p in
    let e : view q ≡ view p =
      view-either (ltb 0 h.req_q) (record p { req_q = h.req_q }) p (view p) refl refl in
    view-note
      (record (learn_extensions q h) {
        prefers_encryption = h.encrypt;
        upload_only = h.upload_only;
      })
      (tor_peer_extended h.metadata_size) refl
    ∙ view-extensions q h
    ∙ e

pub extended0-Handled : (p : Peer) (h : Handshake) → IsSound p → Handled p (handle_extended0 p h)
unfolding handle_extended0
extended0-Handled p h s =
    let p' : Peer = record p { got_extended = true } in
    let q : Peer = if h.port == 0 then p' else learn_port p' h in
    let e : view q ≡ view p =
      view-either (h.port == 0) p' (learn_port p' h) (view p) refl (view-learn_port p' h) in
    either-Handled p.got_extended p _ _ (stays p (some duplicate_extended0) s)
      (quiet-Handled p (learn_rest q h, none) s (view-learn_rest q h ∙ e))

view-learn_peer : (p : Peer) (a : Pex.Peer) (o : Option ℕ) → view (learn_peer p a o) ≡ view p
unfolding learn_peer
view-learn_peer p a none =
    view-note (record p { pex = p.pex ++ (a ∷ []) }) (tor_add_known a.addr a.port none [] pex) refl
view-learn_peer p a (some i) = refl

view-forget_peer : (p : Peer) (o : Option ℕ) → view (forget_peer p o) ≡ view p
unfolding forget_peer
view-forget_peer p none = refl
view-forget_peer p (some i) = refl

pub view-pex_added : (p : Peer) (l : List Pex.Peer) → view (pex_added p l) ≡ view p
unfolding pex_added
view-pex_added p [] = refl
view-pex_added p (a ∷ l) =
    let p' = learn_peer p a (Pex.find a p.pex) in
    view-pex_added p' l ∙ view-learn_peer p a (Pex.find a p.pex)

pub view-pex_dropped : (p : Peer) (l : List Pex.Peer) → view (pex_dropped p l) ≡ view p
unfolding pex_dropped
view-pex_dropped p [] = refl
view-pex_dropped p (d ∷ l) =
    let p' = forget_peer p (Pex.find d p.pex) in
    view-pex_dropped p' l ∙ view-forget_peer p (Pex.find d p.pex)

view-after : (index : ℕ) (r : Peer × Option Failure) → view (after_metadata index r).0 ≡ view r.0
unfolding after_metadata
view-after index (p, none) = refl
view-after index (p, some err_congested) = view-write p _
view-after index (p, some e) = refl

view-send_metadata :
    (p : Peer) (index : ℕ) (info : List ℕ) → view (send_metadata p index info).0 ≡ view p
unfolding send_metadata
view-send_metadata p index info =
    view-branch (leb (length info) (index * 16384)) _ _ _ (view-write p _)
      (view-after index _ ∙ view-write p _)

pub view-metadata :
    (p : Peer) (t i n : ℕ) (bs : List ℕ) → view (handle_metadata p t i n bs).0 ≡ view p
unfolding handle_metadata
view-metadata p t i n bs =
    let q = view-choose p in
    view-branch (t == 0) _ _ _
      (view-branch ((p.metadata_ext == 0) || (choose p).1) _ _ _ q
        (view-send_metadata (choose p).0 i (info_bytes p.info) ∙ q))
      (view-branch (t == 1) _ _ _ (view-note p (tor_metadata n i bs) refl)
        (view-branch (t == 2) _ _ _ refl refl))

pub dont_have-Handled : (p : Peer) (i : ℕ) → IsSound p → Handled p (handle_dont_have p i)
unfolding handle_dont_have
dont_have-Handled p i s =
    let p' : Peer = record p { is_seed = false } in
    let b = Bitmap.reset (bits p'.bitmap) i in
    either-Handled _ p _ _ (stays p (some dont_have_from_seed) s) (
      either-Handled _ p _ _ (quiet-Handled p (p', some out_of_range) s refl) (
        either-Handled (Bitmap.get (bits p'.bitmap) i) p _ _
          (quiet-Handled p (_, none) s
            (view-note (record p' { bitmap = some b }) (tor_peer_have i false) refl))
          (quiet-Handled p (p', none) s refl)))
