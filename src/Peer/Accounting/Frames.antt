-- ===== src/Peer/Accounting/Frames.antt =====
-- The steps of peer/peer.go that touch no request: writes, choices, and the events that give nothing
-- back.
use storrent.Prelude.{
  ℕ, ◌≡◌, refl, Bool, true, false, List, [], ◌∷◌, Option, none, some, ap, ◌∙◌, ◌&&◌, if◌then◌else◌,
  append-nil,
}
use storrent.Protocol.{Message, choke, unchoke, interested, not_interested}
use storrent.Peer.{Peer, Requested, Failure, Fate, fine, congested, closed, TorEvent}
use storrent.Peer.Writing.{
  written, write, write_event, chosen, choose, reject, note_active, maybe_interested, reject_all,
  no_requests, choked, set_choking, is_some, wants,
}
use storrent.Peer.Accounting.{given_back, given_back-append, View, view}

view-written : (p : Peer) (m : Message) (fs : List Fate) → view (written p m fs).0 ≡ view p
unfolding written
view-written p m [] = refl
view-written p m (fine ∷ fs) = refl
view-written p m (congested ∷ fs) = refl
view-written p m (closed ∷ fs) = refl

pub view-write : (p : Peer) (m : Message) → view (write p m).0 ≡ view p
unfolding write
view-write p m = view-written p m p.fates

view-chosen : (p : Peer) (bs : List Bool) → view (chosen p bs).0 ≡ view p
unfolding chosen
view-chosen p [] = refl
view-chosen p (b ∷ bs) = refl

pub view-choose : (p : Peer) → view (choose p).0 ≡ view p
unfolding choose
view-choose p = view-chosen p p.choices

pub view-note :
    (p : Peer) (e : TorEvent) → given_back (e ∷ []) ≡ [] → view (write_event p e) ≡ view p
view-note p e g =
    ap (λ es. (p.requests, p.pieces, es))
      (rw (given_back-append p.events (e ∷ []), g) (append-nil (given_back p.events)))

-- Both branches of a test.
pub view-either :
    (b : Bool) (x y : Peer) (v : View) → view x ≡ v → view y ≡ v → view (if b then x else y) ≡ v
view-either true x y v e f = e
view-either false x y v e f = f

pub view-branch :
    {F : Type 0}
    → (b : Bool) (x y : Peer × F) (v : View) → view x.0 ≡ v
    → view y.0 ≡ v
    → view (if b then x else y).0 ≡ v
view-branch true x y v e f = e
view-branch false x y v e f = f

pub view-reject : (p : Peer) (i b l : ℕ) → view (reject p i b l).0 ≡ view p
unfolding reject
view-reject p i b l = view-branch p.can_fast _ _ _ (view-write p _) refl

pub view-note_active : (p : Peer) → view (note_active p) ≡ view p
unfolding note_active
view-note_active p =
    view-either _ _ _ _ (view-note (choose p).0 _ refl ∙ view-choose p) (view-choose p)

pub view-maybe_interested : (p : Peer) → view (maybe_interested p).0 ≡ view p
unfolding maybe_interested
view-maybe_interested p =
    let sent = view-write p (if wants p then interested else not_interested) in
    view-branch _ _ _ _ refl (
      view-branch (is_some (write p (if wants p then interested else not_interested)).1) _ _ _ sent
        sent)

view-reject_all : (p : Peer) (l : List Requested) → view (reject_all p l).0 ≡ view p
unfolding reject_all
view-reject_all p [] = refl
view-reject_all p (r ∷ l) =
    let first = view-reject p r.index r.begin r.length in
    view-branch _ _ _ _ first (view-reject_all (reject p r.index r.begin r.length).0 l ∙ first)

view-no_requests : (r : Peer × Option Failure) → view (no_requests r).0 ≡ view r.0
unfolding no_requests
view-no_requests (p, none) = refl
view-no_requests (p, some e) = refl

view-choked : (r : Peer × Option Failure) → view (choked r).0 ≡ view r.0
unfolding choked
view-choked (p, some e) = refl
view-choked (p, none) =
    view-no_requests (reject_all (record p { am_unchoking = false }) p.requested)
    ∙ view-reject_all (record p { am_unchoking = false }) p.requested

pub view-set_choking : (p : Peer) (b : Bool) → view (set_choking p b).0 ≡ view p
unfolding set_choking
view-set_choking p b =
    let sent = view-write p unchoke in
    view-branch _ _ _ _ refl (
      view-branch (b && p.interested) _ _ _
        (view-branch (is_some (write p unchoke).1) _ _ _ sent sent)
        (view-choked (write p choke) ∙ view-write p choke))
