-- ===== src/Peer/Accounting/Quiet.antt =====
-- The events and the timers of peer/peer.go that touch no request.
use storrent.Prelude.{
  ℕ, ◌+◌, ◌-◌, ◌*◌, ◌/◌, ◌%◌, ◌≤◌, ◌≡◌, refl, Bool, true, false, not, ◌&&◌, List, [], ◌∷◌, ◌++◌,
  Option, none, some, ltb, leb, ◌==◌, if◌then◌else◌, length, get_elem?, get_elem?-beyond, ◌∙◌,
  arith, inl, inr, Bool-cases, Option-cases,
}
use native.Mathlib.Nat.{le-div_iff_mul-le, div-add-mod'}
use storrent.Bitmap
use storrent.Known
use storrent.Pex
use storrent.PexState.{compute_pex}
use storrent.Protocol
use storrent.Piece.{Pieces, Read, num, read_at, read_piece}
use storrent.Piece.Layout.{IsSized}
use storrent.Peer.{
  Peer, Requested, Failure, err_congested, duplicate_metadata, inconsistent_bitmap,
  overlong_bitfield, Reply, pex_peer, tor_peer_bitmap, tor_add_known,
}
use storrent.Peer.Chunks.{num_pieces}
use storrent.Peer.Writing.{write, write_event, choose, bits, is_some}
use storrent.Peer.Events.{
  note_seed, reply, handle_metadata_complete, have_told, handle_peer_have, handle_get_metadata,
  handle_get_status, handle_get_stats, handle_get_pex, uploaded, read_bytes, upload_read,
  upload_next, schedule_upload,
}
use storrent.Peer.Looping.{pex_sent, send_pex, tell_known, tick_rest}
use storrent.Peer.Accounting.{view, IsSound, quiet-Moves}
use storrent.Peer.Accounting.Frames.{
  view-write, view-choose, view-note, view-either, view-branch, view-reject, view-note_active,
}
use storrent.Peer.Accounting.Handlers.{Handled, stays, asks, either-Handled, quiet-Handled}

pub metadata_complete-Handled :
    (p : Peer) (info : List ℕ) → IsSound p → Handled p (handle_metadata_complete p info)
unfolding handle_metadata_complete
metadata_complete-Handled p info s =
    let p' : Peer = record p { info = some info } in
    let b = Bitmap.set_multiple [] (num_pieces p'.pieces) in
    either-Handled _ p _ _ (stays p (some duplicate_metadata) s) (
      either-Handled p'.is_seed p _ _
        (either-Handled (is_some p'.bitmap) p _ _
          (quiet-Handled p (p', some inconsistent_bitmap) s refl)
          (asks p _ s (
            view-note (record p' { bitmap = some b }) (tor_peer_bitmap (Bitmap.copy b) true) refl)))
        (either-Handled (ltb (num_pieces p'.pieces) (Bitmap.len (bits p'.bitmap))) p _ _
          (quiet-Handled p (p', some overlong_bitfield) s refl) (asks p p' s refl)))

have_told-Handled :
    (p : Peer) (r : Peer × Option Failure) → IsSound p → view r.0 ≡ view p → Handled p (have_told r)
unfolding have_told
have_told-Handled p (q, none) s e = asks p q s e
have_told-Handled p (q, some err) s e = quiet-Handled p (q, some err) s e

pub peer_have-Handled :
    (p : Peer) (i : ℕ) (b : Bool) → IsSound p → Handled p (handle_peer_have p i b)
unfolding handle_peer_have
peer_have-Handled p i true s =
    have_told-Handled p _ s
      (view-write (record p { my_bitmap = Bitmap.set p.my_bitmap i }) (Protocol.have i))
peer_have-Handled p i false s =
    let p' : Peer = record p { my_bitmap = Bitmap.reset p.my_bitmap i } in
    either-Handled (ltb 0 p'.dont_have_ext) p _ _
      (have_told-Handled p _ s
        (view-write p' (Protocol.extended_dont_have (p'.dont_have_ext % 256) i)))
      (asks p p' s refl)

pub get_metadata-Handled : (p : Peer) (i : ℕ) → IsSound p → Handled p (handle_get_metadata p i)
unfolding handle_get_metadata
get_metadata-Handled p i s =
    let q = (choose p).0 in
    let m = Protocol.extended_metadata (p.metadata_ext % 256) 0 i 0 [] in
    either-Handled (p.metadata_ext == 0) p _ _ (stays p none s) (
      either-Handled (choose p).1 p _ _ (quiet-Handled p (q, none) s (view-choose p))
        (quiet-Handled p ((write q m).0, none) s (view-write q m ∙ view-choose p)))

view-note_seed : (p : Peer) → view (note_seed p).0 ≡ view p
unfolding note_seed
view-note_seed p =
    view-branch (not (is_some p.info)) (p, false) _ _ refl
      (view-branch p.is_seed (p, true) _ _ refl
        (view-branch (Bitmap.all (bits p.bitmap) (num p.pieces)) (record p { is_seed = true }, true)
          (p, false) _ refl refl))

pub reply-Handled : (p q : Peer) (r : Reply) → IsSound p → view q ≡ view p → Handled p (reply q r)
reply-Handled p q r s e = quiet-Handled p (record q { replies = q.replies ++ (r ∷ []) }, none) s e

pub get_status-Handled : (p : Peer) → IsSound p → Handled p (handle_get_status p)
unfolding handle_get_status
get_status-Handled p s = reply-Handled p (note_seed p).0 _ s (view-note_seed p)

pub get_stats-Handled : (p : Peer) → IsSound p → Handled p (handle_get_stats p)
unfolding handle_get_stats
get_stats-Handled p s = reply-Handled p (note_seed p).0 _ s (view-note_seed p)

pub get_pex-Handled : (p : Peer) → IsSound p → Handled p (handle_get_pex p)
unfolding handle_get_pex
get_pex-Handled p s =
    either-Handled (ltb 0 p.port) p _ _
      (reply-Handled p (if p.upload_only then (p, true) else note_seed p).0 _ s
        (view-branch p.upload_only (p, true) (note_seed p) (view p) refl (view-note_seed p)))
      (reply-Handled p p (pex_peer none) s refl)

-- ReadAt finds the piece that an offset within the torrent is in.
read_at-total : (ps : Pieces) (n off : ℕ) → IsSized ps → (r : Read) × (read_at ps n off ≡ some r)
unfolding read_at
read_at-total ps n off s = elim (Bool-cases (leb ps.total off)) [
  | inl beyond ↦ rw beyond (Read.eof, refl)
  | inr within ↦ elim (Option-cases (get_elem? ps.pieces (off / ps.piece_size))) [
    | inr (p, at) ↦ rw (within, at) (read_piece p n (off % ps.piece_size), refl)
    | inl missing ↦
        let room : (off / ps.piece_size + 1) * ps.piece_size ≤ ps.total + (ps.piece_size - 1) =
          grind (arith, s.positive, within, div-add-mod' off ps.piece_size) in
        let fits =
          (le-div_iff_mul-le {k = ps.piece_size} {x = off / ps.piece_size + 1} s.positive).1 room in
        absurd
          (omega (arith, get_elem?-beyond ps.pieces (off / ps.piece_size) missing, s.number, fits))
  ]
]

view-uploaded : (q : Requested) (r : Peer × Option Failure) → view (uploaded q r).0 ≡ view r.0
unfolding uploaded
view-uploaded q (p, none) = view-note_active p
view-uploaded q (p, some err_congested) = refl
view-uploaded q (p, some e) = refl

view-upload_read : (q : Requested) (p : Peer) (r : Read) → view (upload_read q p r).0 ≡ view p
unfolding upload_read
view-upload_read q p r =
    let got = read_bytes r in
    view-branch (not (length got == q.length)) _ _ _ (view-reject p q.index q.begin q.length) (
      view-uploaded q (write p (Protocol.piece q.index q.begin got))
      ∙ view-write p (Protocol.piece q.index q.begin got))

upload_next-Handled : (p : Peer) (l : List Requested) → IsSound p → Handled p (upload_next p l)
unfolding upload_next
upload_next-Handled p [] s = stays p none s
upload_next-Handled p (q ∷ l) s =
    let p' = (choose p).0 in
    let p'' = (choose p').0 in
    let e = view-choose p' ∙ view-choose p in
    let sized = (quiet-Moves p p'' s e).sound.sized in
    let (r, got) =
      read_at-total p''.pieces q.length (q.index * p''.pieces.piece_size + q.begin) sized in
    either-Handled (choose p).1 p _ _ (quiet-Handled p (p', none) s (view-choose p)) (
      either-Handled (not (choose p').1) p _ _ (quiet-Handled p (p'', none) s e)
        (rw got (quiet-Handled p _ s (view-upload_read q (record p'' { requested = l }) r ∙ e))))

pub schedule_upload-Handled : (p : Peer) (b : Bool) → IsSound p → Handled p (schedule_upload p b)
unfolding schedule_upload
schedule_upload-Handled p b s =
    either-Handled (b && p.am_unchoking) p _ _ (upload_next-Handled p p.requested s)
      (stays p none s)

view-pex_sent : (p : Peer) (l m : List Pex.Peer) → view (pex_sent p l m) ≡ view p
unfolding pex_sent
view-pex_sent p l m =
    let w = view-write p (Protocol.extended_pex (p.pex_ext % 256) l m) in
    view-either ((length l == 0) && (length m == 0)) _ _ _ refl
      (view-either (is_some (write p (Protocol.extended_pex (p.pex_ext % 256) l m)).1) _ _ _ w w)

view-send_pex : (p : Peer) → view (send_pex p) ≡ view p
unfolding send_pex
view-send_pex p =
    let (st, l, m) = compute_pex p.pex_state in
    let q : Peer = record (choose p).0 { pex_state = st } in
    view-either (p.pex_ext == 0) p _ (view p) refl (
      view-either (choose p).1 (choose p).0 (pex_sent q l m) (view p) (view-choose p)
        (view-pex_sent q l m ∙ view-choose p))

view-tell_known : (p : Peer) (l : List Pex.Peer) → view (tell_known p l) ≡ view p
unfolding tell_known
view-tell_known p [] = refl
view-tell_known p (a ∷ l) =
    let e = tor_add_known a.addr a.port none [] Known.pex in
    view-tell_known (write_event p e) l ∙ view-note p e refl

pub view-tick_rest : (p : Peer) → view (tick_rest p).0 ≡ view p
unfolding tick_rest
view-tick_rest p =
    let p1 = (choose p).0 in
    let p2 = if (choose p).1 then send_pex p1 else p1 in
    let p3 = (choose p2).0 in
    let p4 = if (choose p2).1 then tell_known p3 p3.pex else p3 in
    let p5 = (choose p4).0 in
    let p6 = if (choose p4).1 then (write p5 Protocol.keep_alive).0 else p5 in
    view-choose p6
    ∙ view-either (choose p4).1 (write p5 Protocol.keep_alive).0 p5 (view p5)
        (view-write p5 Protocol.keep_alive) refl
    ∙ view-choose p4
    ∙ view-either (choose p2).1 (tell_known p3 p3.pex) p3 (view p3) (view-tell_known p3 p3.pex) refl
    ∙ view-choose p2
    ∙ view-either (choose p).1 (send_pex p1) p1 (view p1) (view-send_pex p1) refl
    ∙ view-choose p
