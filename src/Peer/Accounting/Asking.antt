-- ===== src/Peer/Accounting/Asking.antt =====
-- What handleEvent of peer/peer.go does with the chunks that it is told to request or to cancel.
use storrent.Prelude.{
  ℕ, zero, suc, ◌+◌, ◌-◌, ◌*◌, ◌/◌, ◌^◌, ◌%◌, ◌≤◌, ◌<◌, ◌≡◌, refl, Bool, true, false, not, ◌||◌,
  List, [], ◌∷◌, none, some, ◌==◌, if◌then◌else◌, ap, ◌∙◌, arith, inl, inr, Bool-cases,
}
use storrent.Bitmap
use storrent.Requests
use storrent.Requests.{Requests, Call}
use storrent.Requests.Occurrences.{occurs, occurs-append, times}
use storrent.Requests.Queueing.{enqueue_lem, cancel-Inv, cancel-occurs}
use storrent.Requests.Expiry.{drops, expire-Runs}
use storrent.Piece.{chunk_size}
use storrent.Peer.{Peer, metadata_incomplete}
use storrent.Peer.Chunks.{from_chunk}
use storrent.Peer.Writing.{drop, docancel, cancel_found, cancel_rest, cancel, bits, is_some}
use storrent.Peer.Events.{
  request_chunk, request_chunks, cancel_chunks, handle_cancel_chunk, handle_cancel_piece,
}
use storrent.Peer.Looping.{make_calls, expire_requests, cancel_age, second}
use storrent.Peer.Accounting.{view, load, IsSound, Moves, Ends, quiet-Moves, Moves-trans, load-drop}
use storrent.Peer.Accounting.Frames.{view-write, view-branch}
use storrent.Peer.Accounting.Requesting.{drop-IsSound}
use storrent.Peer.Accounting.Handlers.{
  Handled, Takes, del-Takes, quiet-Takes, keep-Moves, give-Moves, either-Handled, stays,
}

-- On the way from `p` to `p'` each chunk `c` was asked for `f c` times, and none was lost.
pub record Gains (p p' : Peer) (f : ℕ → ℕ) : Type 0 where
  pub sound : IsSound p'
  pub kept : (c : ℕ) → load p' c ≡ load p c + f c

pub Moves-Gains : (p p' : Peer) → Moves p p' → Gains p p' (λ c. 0)
Moves-Gains p p' m = record { sound = m.sound; kept = λ c. omega (arith, m.kept c) }

drop-Gains :
    (p : Peer) (k : ℕ) → IsSound p → k < 2 ^ 32 → Gains p (drop p k) (λ c. if c == k then 1 else 0)
drop-Gains p k s lt = record {
  sound = drop-IsSound p k s;
  kept = λ c. load-drop p k c s.aligned lt;
}

request_chunk-Gains :
    (p : Peer) (k now : ℕ)
    → IsSound p
    → k < 2 ^ 32
    → Gains p (request_chunk p k now) (λ c. if c == k then 1 else 0)
unfolding request_chunk
request_chunk-Gains p k now s lt =
    elim (Bool-cases (Bitmap.get (bits p.bitmap) (from_chunk p.pieces.piece_size k).0)) [
      | inr missing ↦ rw missing (drop-Gains p k s lt)
      | inl there ↦
          let (v, flag, eq, er) = enqueue_lem p.requests k now s.inv in
          let p' : Peer = record p { requests = (Requests.enqueue p.requests k now).0 } in
          let sent = λ (c : ℕ). ap (occurs c) er in
          elim (Bool-cases (Requests.enqueue p.requests k now).1) [
            | inl new ↦
                let queued = λ (c : ℕ).
                  ap (occurs c) (rw new at eq)
                  ∙ occurs-append c p.requests.queue
                      (record { index = k; qtime = now; rtime = 0; ctime = 0 } ∷ []) in
                rw (there, new)
                  (record {
                    sound = record {
                      aligned = s.aligned;
                      sized = s.sized;
                      inv = v;
                      small = λ c le. ground (arith, queued c, sent c, s.small c le);
                    };
                    kept = λ c. ground (arith, queued c, sent c);
                  })
            | inr old ↦
                let queued = λ (c : ℕ). ap (occurs c) (rw old at eq) in
                let same : Moves p p' = record {
                  sound = record {
                    aligned = s.aligned;
                    sized = s.sized;
                    inv = v;
                    small = λ c le. omega (arith, queued c, sent c, s.small c le);
                  };
                  kept = λ c. omega (arith, queued c, sent c);
                } in
                let g = drop-Gains p' k same.sound lt in
                rw (there, old)
                  (record { sound = g.sound; kept = λ c. omega (arith, g.kept c, same.kept c) })
          ]
    ]

pub request_chunks-Gains :
    (p : Peer) (l : List ℕ) (now : ℕ)
    → IsSound p
    → ((c : ℕ) → 2 ^ 32 ≤ c → times c l ≡ 0)
    → Gains p (request_chunks p l now) (λ c. times c l)
unfolding request_chunks
request_chunks-Gains p [] now s small = Moves-Gains p p (quiet-Moves p p s refl)
request_chunks-Gains p (k ∷ l) now s small =
    let g = request_chunk-Gains p k now s (ground (arith, small k)) in
    let h =
      request_chunks-Gains (request_chunk p k now) l now g.sound
        (λ c le. ground (arith, small c le)) in
    record { sound = h.sound; kept = λ c. ground (arith, g.kept c, h.kept c) }

view-docancel : (p : Peer) (k : ℕ) → view (docancel p k).0 ≡ view p
unfolding docancel
view-docancel p k = view-write p _

marked-Moves :
    (p : Peer) (k now : ℕ)
    → IsSound p
    → Moves p (record p { requests = (Requests.cancel p.requests k now).0 })
marked-Moves p k now s =
    let same = λ (c : ℕ). cancel-occurs p.requests k now c in
    record {
      sound = record {
        aligned = s.aligned;
        sized = s.sized;
        inv = cancel-Inv p.requests k now s.inv;
        small = λ c le. omega (arith, ap (occurs c) (same c).0, (same c).1, s.small c le);
      };
      kept = λ c. omega (arith, ap (occurs c) (same c).0, (same c).1);
    }

cancel_found-Moves :
    (p p' : Peer) (k : ℕ) (q r : Bool) → Takes p p' k (r || q) → Moves p (cancel_found p' k q r).0
unfolding cancel_found
cancel_found-Moves p p' k false false t = keep-Moves p p' k t
cancel_found-Moves p p' k true false t = give-Moves p p' k t
cancel_found-Moves p p' k false true t =
    give-Moves p _ k (quiet-Takes p p' _ k true t (view-docancel p' k))
cancel_found-Moves p p' k true true t =
    give-Moves p _ k (quiet-Takes p p' _ k true t (view-docancel p' k))

pub cancel-Handled : (p : Peer) (k now : ℕ) → IsSound p → Handled p (cancel p k now)
unfolding cancel Requests.del_any cancel_rest
cancel-Handled p k now s =
    let m = marked-Moves p k now s in
    let p' : Peer = record p { requests = (Requests.cancel p.requests k now).0 } in
    let first : Bool = (Requests.cancel p.requests k now).2 in
    let told =
      quiet-Moves p' (if first then docancel p' k else (p', none)).0 m.sound
        (view-branch first (docancel p' k) (p', none) (view p') (view-docancel p' k) refl) in
    let (rs, q, r, t, e, sent, tk) = del-Takes p' k false m.sound in
    let p'' : Peer = record p' { requests = rs } in
    let found = cancel_found-Moves p' p'' k q r tk in
    either-Handled (Requests.cancel p.requests k now).1 p _ _
      (_, _, refl, Moves-trans p p' _ m told)
      (rw (Requests.del_any, e, cancel_rest) (_, _, refl, Moves-trans p p' _ m found))

pub handle_cancel_chunk-Handled :
    (p : Peer) (k now : ℕ) → IsSound p → Handled p (handle_cancel_chunk p k now)
unfolding handle_cancel_chunk
handle_cancel_chunk-Handled p k now s =
    let (p', err, e, m) = cancel-Handled p k now s in rw e (p', none, refl, m)

cancel_chunks-Ends : (n : ℕ) (p : Peer) (k now : ℕ) → IsSound p → Ends p (cancel_chunks n p k now)
unfolding cancel_chunks
cancel_chunks-Ends zero p k now s = (p, refl, quiet-Moves p p s refl)
cancel_chunks-Ends (suc n) p k now s =
    let (p', err, e, m) = cancel-Handled p (k % 2 ^ 32) now s in
    let (p'', e', m') = cancel_chunks-Ends n p' (k + 1) now m.sound in
    rw (e, e') (p'', refl, Moves-trans p p' p'' m m')

pub handle_cancel_piece-Handled :
    (p : Peer) (index now : ℕ) → IsSound p → Handled p (handle_cancel_piece p index now)
unfolding handle_cancel_piece
handle_cancel_piece-Handled p index now s =
    let n : ℕ = p.pieces.piece_size / chunk_size in
    let (p', e, m) = cancel_chunks-Ends n p (index * n) now s in
    either-Handled (not (is_some p.info)) p _ _ (stays p (some metadata_incomplete) s)
      (rw e (p', none, refl, m))

make_calls-IsSound : (p : Peer) (l : List Call) → IsSound p → IsSound (make_calls p l)
unfolding make_calls
make_calls-IsSound p [] s = s
make_calls-IsSound p (Call.drop k ∷ l) s = make_calls-IsSound (drop p k) l (drop-IsSound p k s)
make_calls-IsSound p (Call.cancels k ∷ l) s =
    make_calls-IsSound (docancel p k).0 l
      (quiet-Moves p (docancel p k).0 s (view-docancel p k)).sound

make_calls-load :
    (p : Peer) (l : List Call) (c : ℕ)
    → IsSound p
    → ((k : ℕ) → 2 ^ 32 ≤ k → times k (drops l) ≡ 0)
    → load (make_calls p l) c ≡ load p c + times c (drops l)
unfolding make_calls
make_calls-load p [] c s small = omega arith
make_calls-load p (Call.drop k ∷ l) c s small =
    let rest =
      make_calls-load (drop p k) l c (drop-IsSound p k s) (λ j le. ground (arith, small j le)) in
    ground (arith, rest, load-drop p k c s.aligned (ground (arith, small k)))
make_calls-load p (Call.cancels k ∷ l) c s small =
    let m = quiet-Moves p (docancel p k).0 s (view-docancel p k) in
    let rest = make_calls-load (docancel p k).0 l c m.sound small in omega (arith, rest, m.kept c)

-- expireRequests returns, and no chunk is lost.
pub expire_requests-Moves :
    (p : Peer) (rto now : ℕ)
    → 0 < now
    → IsSound p
    → (p' : Peer) × (dropped : Bool) × (expire_requests p rto now ≡ some (p', dropped)) × Moves p p'
unfolding expire_requests
expire_requests-Moves p rto now pos s =
    elim (Bool-cases (Requests.requested_length p.requests == 0)) [
      | inl idle ↦ rw idle (p, false, refl, quiet-Moves p p s refl)
      | inr busy ↦
          let (rs, dropped, calls, e, r) =
            expire-Runs p.requests (now - 30 * second) (now - cancel_age p rto) now pos
              (omega arith) s.inv in
          let p1 : Peer = record p { requests = rs } in
          let queued = λ (c : ℕ). ap (occurs c) r.queue_same in
          let s1 : IsSound p1 = record {
            aligned = s.aligned;
            sized = s.sized;
            inv = r.kept;
            small = λ c le. omega (arith, queued c, r.accounted c, s.small c le);
          } in
          rw (busy, e)
            (
              make_calls p1 calls,
              dropped,
              refl,
              record {
                sound = make_calls-IsSound p1 calls s1;
                kept = λ c. omega (
                  arith,
                  make_calls-load p1 calls c s1
                      (λ k le. omega (arith, r.accounted k, s.small k le)),
                  queued c,
                  r.accounted c,
                );
              },
            )
    ]
