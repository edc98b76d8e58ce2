-- ===== src/Peer/Accounting/PieceData.antt =====
-- The Piece message of peer/peer.go and the chunks that the peer is asked for.
use storrent.Prelude.{
  ℕ, ◌+◌, ◌-◌, ◌/◌, ◌^◌, ◌%◌, ◌<◌, ◌≡◌, refl, Bool, true, false, not, ◌||◌, List, some, leb, ◌==◌,
  length, ap, sym, ◌∙◌, subst, arith, inl, inr, Bool-cases,
}
use storrent.Requests
use storrent.Requests.{Requests}
use storrent.Piece.{Pieces}
use storrent.Piece.Store.{Added}
use storrent.Piece.Store.Total.{add_data-total, SameLayout, SameLayout-IsSized}
use storrent.Peer.{Peer, metadata_incomplete, out_of_range, tor_data}
use storrent.Peer.Chunks.{IsAligned, to_chunk, num_pieces}
use storrent.Peer.Writing.{choose, drop, is_some}
use storrent.Peer.Handling.{added, got_piece, handle_piece}
use storrent.Peer.Accounting.{View, IsSound, Moves, Ends, quiet-Moves, Moves-trans, load-give}
use storrent.Peer.Accounting.Frames.{view-choose, view-note_active}
use storrent.Peer.Accounting.Handlers.{
  Handled, Takes, del-Takes, quiet-Takes, give-Moves, keep-Moves, either-Handled,
  then_request-Handled,
}

-- The store has changed, its layout has not.
stored-Takes :
    (p p' : Peer) (k : ℕ) (gone : Bool) (ps : Pieces)
    → Takes p p' k gone
    → SameLayout p'.pieces ps
    → Takes p (record p' { pieces = ps }) k gone
stored-Takes p p' k gone ps t e = record {
  sound = record {
    aligned = subst IsAligned (sym e.size) t.sound.aligned;
    sized = SameLayout-IsSized p'.pieces ps e t.sound.sized;
    inv = t.sound.inv;
    small = t.sound.small;
  };
  taken = λ c. rw e.size (t.taken c);
  small = t.small;
}

added-Moves :
    (p p' : Peer) (k index begin len : ℕ) (r : Added)
    → Takes p p' k true
    → k ≡ to_chunk p'.pieces.piece_size index begin
    → Moves p (added p' k index begin len r)
unfolding added
added-Moves p p' k index begin len r t same = elim (Bool-cases (r.count == len)) [
  | inl all ↦ rw all (record {
    sound = record {
      aligned = t.sound.aligned;
      sized = t.sound.sized;
      inv = t.sound.inv;
      small = t.sound.small;
    };
    kept = λ c.
        ground
          (arith, load-give p' (tor_data index begin len r.is_complete) c refl, t.taken c, same);
  })
  | inr short ↦ rw short (
      let m = give-Moves p p' k t in
      Moves-trans p (drop p' k) _ m
        (quiet-Moves (drop p' k) _ m.sound (view-note_active (drop p' k))))
]

got_piece-Ends :
    (p p' : Peer) (k index begin : ℕ) (bs : List ℕ) (gone ok : Bool)
    → Takes p p' k gone
    → k ≡ to_chunk p'.pieces.piece_size index begin
    → index < length p'.pieces.pieces
    → Ends p (got_piece p' k index begin bs gone ok)
unfolding got_piece
got_piece-Ends p p' k index begin bs false ok t same lt = (p', refl, keep-Moves p p' k t)
got_piece-Ends p p' k index begin bs true ok t same lt =
    let (ps, r, e, lay) = add_data-total p'.pieces index begin bs p'.counter ok lt in
    let p1 : Peer = record p' { pieces = ps } in
    rw e (
      _,
      refl,
      added-Moves p p1 k index begin (length bs) r (stored-Takes p p' k true ps t lay)
          (rw (lay.size) same),
    )

in_range :
    (p : Peer) (index : ℕ)
    → IsSound p
    → leb (num_pieces p.pieces % 2 ^ 32) index ≡ false
    → index < length p.pieces.pieces
unfolding num_pieces
in_range p index s within =
    let ps = p.pieces in
    let n : ps.total + ps.piece_size - 1 ≡ ps.total + (ps.piece_size - 1) =
      omega (arith, s.sized.positive) in
    let number = s.sized.number ∙ ap (λ k. k / ps.piece_size) (sym n) in
    ground (arith, number, within)

pub handle_piece-Handled :
    (p : Peer) (index begin : ℕ) (bs : List ℕ) (now : ℕ)
    → IsSound p
    → Handled p (handle_piece p index begin bs now)
unfolding handle_piece Requests.del_any
handle_piece-Handled p index begin bs now s =
    let k : ℕ = to_chunk p.pieces.piece_size index begin in
    let (rs, q, r, t, e, either, tk) = del-Takes p k false s in
    let p0 : Peer = record p { requests = rs } in
    let p1 : Peer = (choose p0).0 in
    let ok : Bool = (choose p0).1 in
    let seen = view-choose p0 in
    let at = λ (lt : index < length p.pieces.pieces).
      got_piece-Ends p p1 k index begin bs (r || q) ok (quiet-Takes p p0 p1 k (r || q) tk seen)
        (ap (λ (v : View). to_chunk v.1.piece_size index begin) (sym seen))
        (subst (λ (v : View). index < length v.1.pieces) (sym seen) lt) in
    either-Handled (not (is_some p.info)) p _ _
      (p, some metadata_incomplete, refl, quiet-Moves p p s refl)
      (elim (Bool-cases (leb (num_pieces p.pieces % 2 ^ 32) index)) [
        | inl out ↦ rw out (p, some out_of_range, refl, quiet-Moves p p s refl)
        | inr within ↦
            let (p2, run, m) = at (in_range p index s within) in
            rw (within, Requests.del_any, e, run) (then_request-Handled p p2 now m)
      ])
