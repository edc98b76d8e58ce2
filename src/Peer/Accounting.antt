-- ===== src/Peer/Accounting.antt =====
-- The chunks that a peer of peer/peer.go is asked for: how often each is in its queue, sent out, or
-- given back to the torrent by a TorDrop or a TorData.
mod Frames
pub mod Requesting
pub mod Handlers
mod PieceData
mod Asking
mod Quiet
pub mod Loop
pub mod Runs
pub mod Messages
mod Extended
use storrent.Prelude.{
  ℕ, zero, suc, ◌+◌, ◌^◌, ◌≤◌, ◌<◌, ◌≡◌, refl, Bool, true, false, List, [], ◌∷◌, ◌++◌, Option, none,
  some, ◌==◌, if◌then◌else◌, ap, sym, ◌∙◌, subst, arith,
}
use storrent.Requests.{Requests}
use storrent.Requests.Occurrences.{occurs}
use storrent.Requests.Membership.{Inv}
use storrent.Piece.{Pieces}
use storrent.Piece.Layout.{IsSized}
use storrent.Peer.{
  Peer, TorEvent, tor_data, tor_drop, tor_peer_unchoke, tor_peer_interested, tor_peer_have,
  tor_peer_bitmap, tor_peer_extended, tor_metadata, tor_add_known, tor_peer_goaway,
}
use storrent.Peer.Chunks.{to_chunk, from_chunk, IsAligned, to_chunk-from_chunk}
use storrent.Peer.Writing.{write_event, drop}

-- The events that give a chunk back.
abbrev pub given_back : List TorEvent → List TorEvent
given_back [] = []
given_back (tor_data i b l f ∷ es) = tor_data i b l f ∷ given_back es
given_back (tor_drop i b ∷ es) = tor_drop i b ∷ given_back es
given_back (tor_peer_unchoke b ∷ es) = given_back es
given_back (tor_peer_interested b ∷ es) = given_back es
given_back (tor_peer_have i b ∷ es) = given_back es
given_back (tor_peer_bitmap m b ∷ es) = given_back es
given_back (tor_peer_extended n ∷ es) = given_back es
given_back (tor_metadata n i d ∷ es) = given_back es
given_back (tor_add_known a n i v k ∷ es) = given_back es
given_back (tor_peer_goaway ∷ es) = given_back es

pub given_back-append : (l m : List TorEvent) → given_back (l ++ m) ≡ given_back l ++ given_back m
given_back-append [] m = refl
given_back-append (tor_data i b n f ∷ es) m =
    ap (λ l. tor_data i b n f ∷ l) (given_back-append es m)
given_back-append (tor_drop i b ∷ es) m = ap (λ l. tor_drop i b ∷ l) (given_back-append es m)
given_back-append (tor_peer_unchoke b ∷ es) m = given_back-append es m
given_back-append (tor_peer_interested b ∷ es) m = given_back-append es m
given_back-append (tor_peer_have i b ∷ es) m = given_back-append es m
given_back-append (tor_peer_bitmap n b ∷ es) m = given_back-append es m
given_back-append (tor_peer_extended n ∷ es) m = given_back-append es m
given_back-append (tor_metadata n i d ∷ es) m = given_back-append es m
given_back-append (tor_add_known a n i v k ∷ es) m = given_back-append es m
given_back-append (tor_peer_goaway ∷ es) m = given_back-append es m

abbrev hits : ℕ → ℕ → TorEvent → ℕ
hits size c (tor_data i b l f) = if c == to_chunk size i b then 1 else 0
hits size c (tor_drop i b) = if c == to_chunk size i b then 1 else 0
hits size c (tor_peer_unchoke b) = 0
hits size c (tor_peer_interested b) = 0
hits size c (tor_peer_have i b) = 0
hits size c (tor_peer_bitmap m b) = 0
hits size c (tor_peer_extended n) = 0
hits size c (tor_metadata n i d) = 0
hits size c (tor_add_known a n i v k) = 0
hits size c tor_peer_goaway = 0

-- How often a chunk is given back.
abbrev pub releases : ℕ → ℕ → List TorEvent → ℕ
releases size c [] = 0
releases size c (e ∷ es) = hits size c e + releases size c es

releases-append :
    (size c : ℕ) (l m : List TorEvent)
    → releases size c (l ++ m) ≡ releases size c l + releases size c m
releases-append size c [] m = omega arith
releases-append size c (e ∷ l) m = omega (arith, releases-append size c l m)

pub releases-given_back :
    (size c : ℕ) (es : List TorEvent) → releases size c (given_back es) ≡ releases size c es
releases-given_back size c [] = refl
releases-given_back size c (tor_data i b l f ∷ es) = omega (arith, releases-given_back size c es)
releases-given_back size c (tor_drop i b ∷ es) = omega (arith, releases-given_back size c es)
releases-given_back size c (tor_peer_unchoke b ∷ es) = omega (arith, releases-given_back size c es)
releases-given_back size c (tor_peer_interested b ∷ es) =
    omega (arith, releases-given_back size c es)
releases-given_back size c (tor_peer_have i b ∷ es) = omega (arith, releases-given_back size c es)
releases-given_back size c (tor_peer_bitmap n b ∷ es) = omega (arith, releases-given_back size c es)
releases-given_back size c (tor_peer_extended n ∷ es) = omega (arith, releases-given_back size c es)
releases-given_back size c (tor_metadata n i d ∷ es) = omega (arith, releases-given_back size c es)
releases-given_back size c (tor_add_known a n i v k ∷ es) =
    omega (arith, releases-given_back size c es)
releases-given_back size c (tor_peer_goaway ∷ es) = omega (arith, releases-given_back size c es)

-- The part of a peer that the accounting is about.
abbrev pub View : Type 0
View = Requests × Pieces × List TorEvent

abbrev pub view : Peer → View
view p = (p.requests, p.pieces, given_back p.events)

abbrev pub load_of : View → ℕ → ℕ
load_of (rs, ps, es) c = occurs c rs.queue + occurs c rs.requested + releases ps.piece_size c es

-- How often a chunk is queued, sent out or given back.
abbrev pub load : Peer → ℕ → ℕ
load p c = load_of (view p) c

-- The torrent is laid out, the queue is sound, and its indices are those of chunks.
pub record IsSound (p : Peer) : Type 0 where
  pub aligned : IsAligned p.pieces.piece_size
  pub sized : IsSized p.pieces
  pub inv : Inv p.requests
  pub small : (c : ℕ) → 2 ^ 32 ≤ c → occurs c p.requests.queue + occurs c p.requests.requested ≡ 0

-- No chunk is lost or given back twice on the way from `p` to `p'`.
pub record Moves (p p' : Peer) : Type 0 where
  pub sound : IsSound p'
  pub kept : (c : ℕ) → load p' c ≡ load p c

-- There is no panic, and no chunk is lost.
abbrev pub Ends : Peer → Option Peer → Type 0
Ends p x = (p' : Peer) × (x ≡ some p') × Moves p p'

pub quiet-Moves : (p p' : Peer) → IsSound p → view p' ≡ view p → Moves p p'
quiet-Moves p p' s e = record {
  sound = record {
    aligned = subst IsAligned (sym (ap (λ (v : View). v.1.piece_size) e)) s.aligned;
    sized = subst IsSized (sym (ap (λ (v : View). v.1) e)) s.sized;
    inv = subst Inv (sym (ap (λ (v : View). v.0) e)) s.inv;
    small = λ c le. ap (λ (v : View). occurs c v.0.queue + occurs c v.0.requested) e ∙ s.small c le;
  };
  kept = λ c. ap (λ v. load_of v c) e;
}

pub Moves-trans : (p q r : Peer) → Moves p q → Moves q r → Moves p r
Moves-trans p q r m n = record { sound = n.sound; kept = λ c. n.kept c ∙ m.kept c }

pub load-give :
    (p : Peer) (e : TorEvent) (c : ℕ)
    → given_back (e ∷ []) ≡ e ∷ []
    → load (write_event p e) c ≡ load p c + hits p.pieces.piece_size c e
load-give p e c g =
    rw (given_back-append p.events (e ∷ []), g)
      (omega (arith, releases-append p.pieces.piece_size c (given_back p.events) (e ∷ [])))

pub load-drop :
    (p : Peer) (k c : ℕ)
    → IsAligned p.pieces.piece_size
    → k < 2 ^ 32
    → load (drop p k) c ≡ load p c + (if c == k then 1 else 0)
unfolding drop
load-drop p k c al small =
    let (i, b) = from_chunk p.pieces.piece_size k in
    rw (to_chunk-from_chunk p.pieces.piece_size k al small) at (
      load-give p
        (tor_drop (from_chunk p.pieces.piece_size k).0 (from_chunk p.pieces.piece_size k).1) c refl)
