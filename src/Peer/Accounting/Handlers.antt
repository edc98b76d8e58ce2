-- ===== src/Peer/Accounting/Handlers.antt =====
-- The handlers of peer/peer.go that delete requests: Choke and RejectRequest, and what the others
-- share with them.
use storrent.Prelude.{
  ℕ, ◌+◌, ◌^◌, ◌≤◌, ◌<◌, ◌≡◌, refl, Bool, true, false, not, ◌&&◌, ◌||◌, List, [], ◌∷◌, Option, none,
  some, ◌==◌, if◌then◌else◌, ap, ◌∙◌, subst, arith,
}
use storrent.Requests
use storrent.Requests.{Requests}
use storrent.Requests.Occurrences.{occurs, times}
use storrent.Requests.Membership.{del-Deletes}
use storrent.Requests.Queueing.{clear_lem}
use storrent.Peer.{Peer, Failure, cannot_fast, metadata_incomplete, tor_peer_unchoke}
use storrent.Peer.Chunks.{IsAligned, to_chunk}
use storrent.Peer.Writing.{write_event, drop, drop_all, is_some, maybe_interested}
use storrent.Peer.Handling.{ask_interest, handle_reject, handle_choke, then_request}
use storrent.Peer.Accounting.{view, load, IsSound, Moves, quiet-Moves, Moves-trans, load-drop}
use storrent.Peer.Accounting.Frames.{view-note, view-maybe_interested}
use storrent.Peer.Accounting.Requesting.{maybe_request-Moves, drop-IsSound}

-- The handler returns, and no chunk is lost.
abbrev pub Handled : Peer → Option (Peer × Option Failure) → Type 0
Handled p x = (p' : Peer) × (err : Option Failure) × (x ≡ some (p', err)) × Moves p p'

pub either-Handled :
    (b : Bool) (p : Peer) (x y : Option (Peer × Option Failure))
    → Handled p x
    → Handled p y
    → Handled p (if b then x else y)
either-Handled true p x y e f = e
either-Handled false p x y e f = f

pub quiet-Handled :
    (p : Peer) (r : Peer × Option Failure) → IsSound p → view r.0 ≡ view p → Handled p (some r)
quiet-Handled p r s e = (r.0, r.1, refl, quiet-Moves p r.0 s e)

pub stays : (p : Peer) (e : Option Failure) → IsSound p → Handled p (some (p, e))
stays p e s = quiet-Handled p (p, e) s refl

pub asks : (p p' : Peer) → IsSound p → view p' ≡ view p → Handled p (ask_interest p')
asks p p' s e = quiet-Handled p ((maybe_interested p').0, none) s (view-maybe_interested p' ∙ e)

pub then_request-Handled : (p p' : Peer) (now : ℕ) → Moves p p' → Handled p (then_request p' now)
then_request-Handled p p' now m =
    let (q, e, m') = maybe_request-Moves p' now m.sound in
    rw e (q, none, refl, Moves-trans p p' q m m')

-- The chunk `k` was taken out of the queue of `p` if `gone`, and `p'` does not have it.
pub record Takes (p p' : Peer) (k : ℕ) (gone : Bool) : Type 0 where
  pub sound : IsSound p'
  pub taken : (c : ℕ) → load p' c + (if gone && (c == k) then 1 else 0) ≡ load p c
  pub small : gone ≡ true → k < 2 ^ 32

pub del-Takes :
    (p : Peer) (k : ℕ) (reqonly : Bool)
    → IsSound p
    → (rs : Requests) × (q : Bool) × (r : Bool) × (t : ℕ) × (Requests.del p.requests k reqonly
        ≡ some (rs, q, r, t))
      × (q ≡ true → reqonly ≡ false)
      × Takes p (record p { requests = rs }) k (r || q)
del-Takes p k reqonly s =
    let (rs, q, r, t, e, d) = del-Deletes p.requests k reqonly s.inv in
    let one = λ (c : ℕ). s.inv.member c in
    (
      rs,
      q,
      r,
      t,
      e,
      λ h. ground (arith, h, d.was_queued),
      record {
        sound = record {
          aligned = s.aligned;
          sized = s.sized;
          inv = d.kept;
          small = λ c le. ground (arith, d.sent_left c, d.queued_left c, s.small c le);
        };
        taken = λ c.
            ground (arith, d.sent_left c, d.queued_left c, d.was_sent, d.was_queued, one c, one k);
        small = λ h. ground (arith, h, d.was_sent, d.was_queued, s.small k);
      },
    )

-- Giving back what was taken.
pub give-Moves : (p p' : Peer) (k : ℕ) → Takes p p' k true → Moves p (drop p' k)
give-Moves p p' k t = record {
  sound = drop-IsSound p' k t.sound;
  kept = λ c. ground (arith, load-drop p' k c t.sound.aligned (t.small refl), t.taken c);
}

pub keep-Moves : (p p' : Peer) (k : ℕ) → Takes p p' k false → Moves p p'
keep-Moves p p' k t = record { sound = t.sound; kept = λ c. ground (arith, t.taken c) }

give_if-Moves :
    (p p' : Peer) (k : ℕ) (gone : Bool)
    → Takes p p' k gone
    → Moves p (if gone then drop p' k else p')
give_if-Moves p p' k true t = give-Moves p p' k t
give_if-Moves p p' k false t = keep-Moves p p' k t

pub handle_reject-Handled :
    (p : Peer) (index begin now : ℕ) → IsSound p → Handled p (handle_reject p index begin now)
unfolding handle_reject Requests.del_requested
handle_reject-Handled p index begin now s =
    let k : ℕ = to_chunk p.pieces.piece_size index begin in
    let (rs, q, r, t, e, sent, tk) = del-Takes p k true s in
    let p' : Peer = record p { requests = rs } in
    let only : (r || q) ≡ r = ground (arith, sent) in
    let m = give_if-Moves p p' k r (subst (Takes p p' k) only tk) in
    either-Handled (not p.can_fast) p _ _ (p, some cannot_fast, refl, quiet-Moves p p s refl)
      (either-Handled (not (is_some p.info)) p _ _
        (p, some metadata_incomplete, refl, quiet-Moves p p s refl)
        (rw (Requests.del_requested, e)
          (then_request-Handled p (if r then drop p' k else p') now m)))

drop_all-load :
    (p : Peer) (l : List ℕ) (c : ℕ)
    → IsAligned p.pieces.piece_size
    → ((k : ℕ) → 2 ^ 32 ≤ k → times k l ≡ 0)
    → load (drop_all p l) c ≡ load p c + times c l
unfolding drop_all drop
drop_all-load p [] c al small = omega arith
drop_all-load p (k ∷ l) c al small =
    let rest = drop_all-load (drop p k) l c al (λ j le. ground (arith, small j le)) in
    ground (arith, rest, load-drop p k c al (ground (arith, small k)))

drop_all-IsSound : (p : Peer) (l : List ℕ) → IsSound p → IsSound (drop_all p l)
unfolding drop_all
drop_all-IsSound p [] s = s
drop_all-IsSound p (k ∷ l) s = drop_all-IsSound (drop p k) l (drop-IsSound p k s)

-- Clear gives back what it takes out of the queue.
pub cleared-Moves :
    (p : Peer) (both : Bool)
    → IsSound p
    → Moves p (
        drop_all
          (record p { requests = (Requests.clear p.requests both).0 })
          (Requests.clear p.requests both).1)
cleared-Moves p both s =
    let (v, empty, left, counts) = clear_lem p.requests both s.inv in
    let p1 : Peer = record p { requests = (Requests.clear p.requests both).0 } in
    let calls : List ℕ = (Requests.clear p.requests both).1 in
    let emptied = λ (c : ℕ). ap (occurs c) empty in
    let s1 : IsSound p1 = record {
      aligned = s.aligned;
      sized = s.sized;
      inv = v;
      small = λ c le. omega (arith, counts c, s.small c le, emptied c);
    } in
    record {
      sound = drop_all-IsSound p1 calls s1;
      kept = λ c. omega (
        arith,
        drop_all-load p1 calls c s.aligned (λ k le. omega (arith, counts k, s.small k le)),
        counts c,
        emptied c,
      );
    }

pub drop_all-requests : (p : Peer) (l : List ℕ) → (drop_all p l).requests ≡ p.requests
unfolding drop_all drop
drop_all-requests p [] = refl
drop_all-requests p (k ∷ l) = drop_all-requests (drop p k) l

pub handle_choke-Handled : (p : Peer) → IsSound p → Handled p (handle_choke p)
unfolding handle_choke
handle_choke-Handled p s =
    let p' : Peer = record p { unchoked = false } in
    let m' = quiet-Moves p p' s refl in
    let m = cleared-Moves p' (not p'.can_fast) m'.sound in
    let q : Peer =
      drop_all (record p' { requests = (Requests.clear p'.requests (not p'.can_fast)).0 })
        (Requests.clear p'.requests (not p'.can_fast)).1 in
    let quiet =
      quiet-Moves q (write_event q (tor_peer_unchoke false)) m.sound
        (view-note q (tor_peer_unchoke false) refl) in
    (_, none, refl, Moves-trans p q _ (Moves-trans p p' q m' m) quiet)

pub quiet-Takes :
    (p p' p'' : Peer) (k : ℕ) (gone : Bool)
    → Takes p p' k gone
    → view p'' ≡ view p'
    → Takes p p'' k gone
quiet-Takes p p' p'' k gone t e =
    let m = quiet-Moves p' p'' t.sound e in
    record { sound = m.sound; taken = λ c. omega (arith, m.kept c, t.taken c); small = t.small }
