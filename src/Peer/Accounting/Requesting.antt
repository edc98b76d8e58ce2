-- ===== src/Peer/Accounting/Requesting.antt =====
-- maybeRequest of peer/peer.go and the chunks that the peer is asked for.
use storrent.Prelude.{
  ℕ, zero, suc, ◌+◌, ◌^◌, ◌<◌, ◌≡◌, refl, Bool, true, false, List, [], ◌∷◌, Option, none, some,
  ◌==◌, if◌then◌else◌, length, ap, ◌∙◌, arith, inl, inr, List-cases,
}
use storrent.Bitmap
use storrent.Protocol
use storrent.Requests
use storrent.Requests.{Request}
use storrent.Requests.Occurrences.{occurs, occurs-append}
use storrent.Requests.Queueing.{dequeue_lem, enqueue_request_lem}
use storrent.Peer.{Peer, Failure}
use storrent.Peer.Writing.{write, choose, drop}
use storrent.Peer.Handling.{send_request, request_round, request_loop, maybe_request}
use storrent.Peer.Accounting.{
  View, view, load, IsSound, Moves, Ends, quiet-Moves, Moves-trans, load-drop,
}
use storrent.Peer.Accounting.Frames.{view-write, view-choose}

-- The chunk `k` was taken out of the queue of `p`, and `p'` has it nowhere.
record Lacks (p p' : Peer) (k : ℕ) : Type 0 where
  pub sound : IsSound p'
  pub lacks : (c : ℕ) → load p' c + (if c == k then 1 else 0) ≡ load p c
  pub small : k < 2 ^ 32
  pub absent : Bitmap.get p'.requests.bitmap k ≡ false

quiet-Lacks : (p p' p'' : Peer) (k : ℕ) → Lacks p p' k → view p'' ≡ view p' → Lacks p p'' k
quiet-Lacks p p' p'' k l e =
    let m = quiet-Moves p' p'' l.sound e in
    record {
      sound = m.sound;
      lacks = λ c. omega (arith, m.kept c, l.lacks c);
      small = l.small;
      absent = ap (λ (v : View). Bitmap.get v.0.bitmap k) e ∙ l.absent;
    }

pub drop-IsSound : (p : Peer) (k : ℕ) → IsSound p → IsSound (drop p k)
unfolding drop
drop-IsSound p k s = record { aligned = s.aligned; sized = s.sized; inv = s.inv; small = s.small }

drop-Moves : (p p' : Peer) (k : ℕ) → Lacks p p' k → Moves p (drop p' k)
drop-Moves p p' k l = record {
  sound = drop-IsSound p' k l.sound;
  kept = λ c. omega (arith, load-drop p' k c l.sound.aligned l.small, l.lacks c);
}

-- What the rest of the loop does, on a queue of the length `n`.
Goes : (Peer → Option Peer) → ℕ → Type 0
Goes rest n = (p : Peer) → IsSound p → length p.requests.queue ≡ n → Ends p (rest p)

either-Ends :
    (b : Bool) (p : Peer) (x y : Option Peer) → Ends p x → Ends p y → Ends p (if b then x else y)
either-Ends true p x y e f = e
either-Ends false p x y e f = f

follow :
    (rest : Peer → Option Peer) (n : ℕ) (p p' : Peer)
    → Goes rest n
    → Moves p p'
    → length p'.requests.queue ≡ n
    → Ends p (rest p')
unfolding Goes
follow rest n p p' goes m e =
    let (r, done, m') = goes p' m.sound e in (r, done, Moves-trans p p' r m m')

sent-Moves :
    (p p' : Peer) (r : Request) (now : ℕ)
    → Lacks p p' r.index
    → (rs : Requests.Requests) × (Requests.enqueue_request p'.requests r now ≡ some rs)
      × (rs.queue ≡ p'.requests.queue)
      × Moves p (record p' { requests = rs })
sent-Moves p p' r now l =
    let (rs, d, v, eq, er) = enqueue_request_lem p'.requests r now l.sound.inv l.absent in
    let counts = λ (c : ℕ).
      ap (occurs c) er
      ∙ occurs-append c p'.requests.requested (record r { ctime = 0; rtime = now } ∷ []) in
    let queued = λ (c : ℕ). ap (occurs c) eq in
    (
      rs,
      d,
      eq,
      record {
        sound = record {
          aligned = l.sound.aligned;
          sized = l.sound.sized;
          inv = v;
          small = λ c le. ground (arith, counts c, queued c, l.sound.small c le, l.small);
        };
        kept = λ c. ground (arith, counts c, queued c, l.lacks c);
      },
    )

send_request-Moves :
    (p p' : Peer) (r : Request) (now n : ℕ) (rest : Peer → Option Peer) (w : Peer × Option Failure)
    → Lacks p p' r.index
    → length p'.requests.queue ≡ n
    → view w.0 ≡ view p'
    → Goes rest n
    → Ends p (send_request p' r now rest w)
unfolding send_request
send_request-Moves p p' r now n rest (q, some err) l len e goes =
    (drop q r.index, refl, drop-Moves p q r.index (quiet-Lacks p p' q r.index l e))
send_request-Moves p p' r now n rest (q, none) l len e goes =
    let (rs, d, eq, m) = sent-Moves p q r now (quiet-Lacks p p' q r.index l e) in
    let len' = ap length eq ∙ ap (λ (v : View). length v.0.queue) e ∙ len in
    rw d (follow rest n p (record q { requests = rs }) goes m len')

dequeued :
    (p : Peer) (r : Request) (q : List Request)
    → IsSound p
    → p.requests.queue ≡ r ∷ q
    → (rs : Requests.Requests) × (Requests.dequeue p.requests ≡ some (rs, r))
      × (rs.queue ≡ q)
      × Lacks p (record p { requests = rs }) r.index
dequeued p r q s e =
    let (rs, d, v, eq, er, absent) = dequeue_lem p.requests r q s.inv e in
    let before = λ (c : ℕ). ap (occurs c) e in
    let queued = λ (c : ℕ). ap (occurs c) eq in
    let sent = λ (c : ℕ). ap (occurs c) er in
    (
      rs,
      d,
      eq,
      record {
        sound = record {
          aligned = s.aligned;
          sized = s.sized;
          inv = v;
          small = λ c le. ground (arith, before c, queued c, sent c, s.small c le);
        };
        lacks = λ c. ground (arith, before c, queued c, sent c);
        small = ground (arith, before r.index, s.small r.index);
        absent = absent;
      },
    )

request_round-Moves :
    (p : Peer) (r : Request) (q : List Request) (now : ℕ) (rest : Peer → Option Peer)
    → IsSound p
    → p.requests.queue ≡ r ∷ q
    → Goes rest (length q)
    → Ends p (request_round p now rest)
unfolding request_round drop dequeued
request_round-Moves p r q now rest s e goes =
    let (rs, d, eq, l) = dequeued p r q s e in
    let p1 : Peer = record p { requests = rs } in
    let given =
      follow rest (length q) p (drop p1 r.index) goes (drop-Moves p p1 r.index l) (ap length eq) in
    let sent = λ (i b n : ℕ).
      send_request-Moves p p1 r now (length q) rest (write p1 (Protocol.request i b n)) l
        (ap length eq) (view-write p1 (Protocol.request i b n)) goes in
    rw d (either-Ends _ p _ _ given (sent _ _ _))

request_loop-Moves :
    (fuel : ℕ) (p : Peer) (now : ℕ)
    → IsSound p
    → length p.requests.queue < fuel
    → Ends p (request_loop fuel p now)
unfolding request_loop Requests.queue_length Goes
request_loop-Moves zero p now s le = absurd (omega (arith, le))
request_loop-Moves (suc fuel) p now s le =
    let p1 = (choose p).0 in
    let p2 = (choose p1).0 in
    let e1 = view-choose p in
    let e2 = view-choose p1 ∙ e1 in
    let m1 = quiet-Moves p p1 s e1 in
    let m2 = quiet-Moves p p2 s e2 in
    elim (List-cases p.requests.queue) [
      | inl empty ↦ (p1, ground (arith, ap length empty), m1)
      | inr (r, q, more) ↦
          let same = ap (λ (v : View). v.0.queue) e2 in
          let goes : Goes (λ p'. request_loop fuel p' now) (length q) = (λ p' s' len.
            request_loop-Moves fuel p' now s' (omega (arith, len, le, ap length more))) in
          let round =
            request_round-Moves p2 r q now (λ p'. request_loop fuel p' now) m2.sound (same ∙ more)
              goes in
          either-Ends _ _ _ _ (p1, refl, m1)
            (either-Ends _ _ _ _ (p2, refl, m2)
              (round.0, round.1, Moves-trans p p2 round.0 m2 round.2))
    ]

-- maybeRequest, where the torrent is laid out in pieces that divide 2 ^ 32, the queue is sound and its
-- indices are below 2 ^ 32: its loop ends, without a panic, each chunk is as often in the queue, sent
-- out or given back as before, and the state is again such a state.
pub maybe_request-Moves : (p : Peer) (now : ℕ) → IsSound p → Ends p (maybe_request p now)
unfolding maybe_request Requests.queue_length
maybe_request-Moves p now s =
    either-Ends _ _ _ _ (p, refl, quiet-Moves p p s refl)
      (request_loop-Moves _ p now s (omega arith))
