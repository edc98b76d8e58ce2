-- ===== src/Requests/Queueing.antt =====
-- Operations of peer/requests/requests.go other than deletion, and the two lists of the queue.
use storrent.Prelude.{
  ℕ, suc, ◌+◌, ◌-◌, ◌≤◌, ◌<◌, ◌≡◌, refl, Bool, true, false, not, ◌||◌, List, [], ◌∷◌, ◌++◌, some,
  ◌==◌, if◌then◌else◌, set, arith, inl, inr, Bool-cases, Option-cases, ap, sym, ◌∙◌, eq→==,
}
use storrent.Bitmap
use storrent.Bitmap.{Bitmap, IsBitmap}
use storrent.Bitmap.Bits.{bit}
use storrent.Bitmap.Updates.{get-set, get-reset, set-IsBitmap, reset-IsBitmap, get-beyond}
use storrent.Requests.{
  Request, Requests, find, cancel, enqueue, dequeue, dequeue_from, enqueue_request, clear, set_all,
  cancel_request, cancelled, indices,
}
use storrent.Requests.Occurrences.{
  times, times-append, times-indices, hit, occurs, occurs-append, occurs-set, find-get_elem?,
  find_lem, find-none,
}
use storrent.Requests.Membership.{Inv, has, reset-member}

set-member :
    (rs : Requests) (index i : ℕ)
    → Inv rs
    → bit (Bitmap.get (Bitmap.set rs.bitmap index) i)
      ≡ (if index == i then 1 else occurs i rs.queue + occurs i rs.requested)
set-member rs index i v = ground (arith, get-set rs.bitmap index i v.bytes, v.member i)

-- Enqueue refuses an index that is queued or sent out, and otherwise puts it last in the queue.
pub enqueue_lem :
    (rs : Requests) (index now : ℕ)
    → Inv rs
    → Inv (enqueue rs index now).0
      × ((enqueue rs index now).1 ≡ not (has index rs.queue || has index rs.requested))
      × ((enqueue rs index now).0.queue ≡ (
          if (enqueue rs index now).1
          then rs.queue ++ (record { index = index; qtime = now; rtime = 0; ctime = 0 } ∷ [])
          else rs.queue))
      × ((enqueue rs index now).0.requested ≡ rs.requested)
unfolding enqueue
enqueue_lem rs index now v = elim (Bool-cases (Bitmap.get rs.bitmap index)) [
  | inl there ↦ rw there (v, ground (arith, v.member index), refl, refl)
  | inr absent ↦
      let new : Request = record { index = index; qtime = now; rtime = 0; ctime = 0 } in
      let added = λ (i : ℕ). occurs-append i rs.queue (new ∷ []) in
      rw absent (
        record {
          bytes = set-IsBitmap rs.bitmap index v.bytes;
          member = λ i. ground (arith, added i, set-member rs index i v, v.member index);
        },
        ground (arith, v.member index),
        refl,
        refl,
      )
]

-- Dequeue takes the oldest request of the queue; it panics only if the queue is empty.
pub dequeue_lem :
    (rs : Requests) (r : Request) (q : List Request)
    → Inv rs
    → rs.queue ≡ r ∷ q
    → (rs' : Requests) × (dequeue rs ≡ some (rs', r))
      × Inv rs'
      × (rs'.queue ≡ q)
      × (rs'.requested ≡ rs.requested)
      × (Bitmap.get rs'.bitmap r.index ≡ false)
unfolding dequeue dequeue_from
dequeue_lem rs r q v e = (
  record rs { queue = q; bitmap = Bitmap.reset rs.bitmap r.index },
  rw e,
  record {
    bytes = reset-IsBitmap rs.bitmap r.index v.bytes;
    member =
        λ i. ground (arith, reset-member rs r.index i v, split i, split r.index, v.member r.index);
  },
  refl,
  refl,
  ground (arith, get-reset rs.bitmap r.index r.index v.bytes),
)
  where
    split : (i : ℕ) → occurs i rs.queue ≡ hit i r + occurs i q
    split i = ap (occurs i) e

-- EnqueueRequest records a request as sent out now and not cancelled. It does not panic if the
-- index is neither queued nor sent out, as after Dequeue.
pub enqueue_request_lem :
    (rs : Requests) (r : Request) (now : ℕ)
    → Inv rs
    → Bitmap.get rs.bitmap r.index ≡ false
    → (rs' : Requests) × (enqueue_request rs r now ≡ some rs')
      × Inv rs'
      × (rs'.queue ≡ rs.queue)
      × (rs'.requested ≡ rs.requested ++ (record r { ctime = 0; rtime = now } ∷ []))
unfolding enqueue_request
enqueue_request_lem rs r now v absent =
    let sent : Request = record r { ctime = 0; rtime = now } in
    let rs' : Requests = record rs {
      bitmap = Bitmap.set rs.bitmap r.index;
      requested = rs.requested ++ (sent ∷ []);
    } in
    (
      rs',
      rw absent,
      record {
        bytes = set-IsBitmap rs.bitmap r.index v.bytes;
        member = λ i. ground (
          arith,
          occurs-append i rs.requested (sent ∷ []),
          set-member rs r.index i v,
          v.member r.index,
        );
      },
      refl,
      refl,
    )

-- Dequeue and then EnqueueRequest, as the peer sends a request: it moves the oldest request of
-- the queue to the end of those sent out, without a panic.
pub send_lem :
    (rs : Requests) (r : Request) (q : List Request) (now : ℕ)
    → Inv rs
    → rs.queue ≡ r ∷ q
    → (rs' : Requests) × (rs'' : Requests) × (dequeue rs ≡ some (rs', r))
      × (enqueue_request rs' r now ≡ some rs'')
      × Inv rs''
      × (rs''.queue ≡ q)
      × (rs''.requested ≡ rs.requested ++ (record r { ctime = 0; rtime = now } ∷ []))
send_lem rs r q now v e =
    let (rs', d, v', eq, er, absent) = dequeue_lem rs r q v e in
    let (rs'', d', v'', eq', er') = enqueue_request_lem rs' r now v' absent in
    (
      rs',
      rs'',
      d,
      d',
      v'',
      eq' ∙ eq,
      er' ∙ ap (λ l. l ++ (record r { ctime = 0; rtime = now } ∷ [])) er,
    )

-- Cancel marks a request that was sent out, and asks for a message only the first time.
pub cancel-Inv : (rs : Requests) (index now : ℕ) → Inv rs → Inv (cancel rs index now).0
unfolding cancel cancel_request
cancel-Inv rs index now v = elim (Bool-cases (Bitmap.get rs.bitmap index)) [
  | inr absent ↦ rw absent v
  | inl there ↦ elim (Option-cases (find index 0 rs.requested)) [
    | inl missing ↦ rw (there, missing) v
    | inr ((k, r), found) ↦ elim (Bool-cases (cancelled r)) [
      | inl old ↦ rw (there, found, old) v
      | inr new ↦
          rw (there, found, new)
            (record {
              bytes = v.bytes;
              member = λ i. ground (
                arith,
                v.member i,
                occurs-set i k rs.requested r (record r { ctime = now })
                    (find_lem index k rs.requested r found).0,
              );
            })
    ]
  ]
]

find-set :
    (i k j : ℕ) (l : List Request) (r s : Request)
    → find i k l ≡ some (j, r)
    → s.index ≡ i
    → find i k (set l (j - k) s) ≡ some (j, s)
unfolding find
find-set i k j [] r s e same = cc
find-set i k j (x ∷ l) r s e same = elim (Bool-cases (i == x.index)) [
  | inl here ↦ let q : j - k ≡ 0 = ground arith in rw (q, eq→== _ _ (sym same)) (ground arith)
  | inr on ↦
      let past = find-get_elem? i (k + 1) j l r (ground arith) in
      let q : j - k ≡ suc (j - (k + 1)) = omega (arith, past.0) in
      rw (q, on) (find-set i (k + 1) j l r s (ground arith) same)
]

-- Cancel finds every request that was sent out, and a second Cancel of the same index finds it
-- again, asks for no message and changes nothing.
pub cancel_twice :
    (rs : Requests) (index now later : ℕ)
    → Inv rs
    → 0 < now
    → has index rs.requested ≡ true
    → (rs' : Requests) × (first : Bool) × (cancel rs index now ≡ (rs', true, first))
      × (cancel rs' index later ≡ (rs', true, false))
unfolding cancel
cancel_twice rs index now later v pos sent = elim (Option-cases (find index 0 rs.requested)) [
  | inl missing ↦ absurd (ground (arith, find-none index 0 rs.requested missing))
  | inr ((k, r), found) ↦
      let there : Bitmap.get rs.bitmap index ≡ true = ground (arith, v.member index) in
      let q : k - 0 ≡ k = omega arith in
      let r' : Request = record r { ctime = now } in
      let same = (find_lem index k rs.requested r found).1 in
      let again = rw q at (find-set index 0 k rs.requested r r' found same) in
      let set_now : (now == 0) ≡ false = ground arith in
      elim (Bool-cases (r.ctime == 0)) [
        | inl new ↦ (
          record rs { requested = set rs.requested k r' },
          true,
          rw (there, found, new),
          rw (there, again, set_now),
        )
        | inr old ↦ (rs, false, rw (there, found, old), rw (there, found, old))
      ]
]

set_all-IsBitmap : (b : Bitmap) (l : List Request) → IsBitmap b → IsBitmap (set_all b l)
unfolding set_all
set_all-IsBitmap b [] h = h
set_all-IsBitmap b (r ∷ l) h = set_all-IsBitmap (Bitmap.set b r.index) l (set-IsBitmap b r.index h)

get-set_all :
    (b : Bitmap) (l : List Request) (i : ℕ)
    → IsBitmap b
    → Bitmap.get (set_all b l) i ≡ (has i l || Bitmap.get b i)
unfolding set_all
get-set_all b [] i h = refl
get-set_all b (r ∷ l) i h =
    get-set_all (Bitmap.set b r.index) l i (set-IsBitmap b r.index h)
    ∙ ground (arith, get-set b r.index i h)

-- Clear empties the queue, and with `both` also the requests sent out; it calls back once for
-- each index that it drops, and for no other, and keeps the invariant.
pub clear_lem :
    (rs : Requests) (both : Bool)
    → Inv rs
    → let (rs', calls) = clear rs both in
      Inv rs'
      × (rs'.queue ≡ [])
      × (rs'.requested ≡ (if both then [] else rs.requested))
      × ((i : ℕ)
          → times i calls + occurs i rs'.requested ≡ occurs i rs.queue + occurs i rs.requested)
unfolding clear
clear_lem rs true v = (
  record { bytes = tt; member = λ i. ground (arith, get-beyond [] i (omega arith)) },
  refl,
  refl,
  λ i. omega (
    arith,
    times-append i (indices rs.requested) (indices rs.queue),
    times-indices i rs.requested,
    times-indices i rs.queue,
  ),
)
clear_lem rs false v = (
  record {
    bytes = set_all-IsBitmap [] rs.requested tt;
    member = λ i. ground (
      arith,
      get-set_all [] rs.requested i tt,
      get-beyond [] i (omega arith),
      v.member i,
      at_most_one i,
    );
  },
  refl,
  refl,
  λ i. omega (arith, times-indices i rs.queue),
)
  where
    at_most_one : (i : ℕ) → occurs i rs.requested ≤ 1
    at_most_one i = ground (arith, v.member i)

-- Cancel moves no request.
pub cancel-occurs :
    (rs : Requests) (index now i : ℕ)
    → ((cancel rs index now).0.queue ≡ rs.queue)
      × (occurs i (cancel rs index now).0.requested ≡ occurs i rs.requested)
unfolding cancel cancel_request
cancel-occurs rs index now i = elim (Bool-cases (Bitmap.get rs.bitmap index)) [
  | inr absent ↦ rw absent (refl, refl)
  | inl there ↦ elim (Option-cases (find index 0 rs.requested)) [
    | inl missing ↦ rw (there, missing) (refl, refl)
    | inr ((k, r), found) ↦ elim (Bool-cases (cancelled r)) [
      | inl old ↦ rw (there, found, old) (refl, refl)
      | inr new ↦
          let moved =
            occurs-set i k rs.requested r (record r { ctime = now })
              (find_lem index k rs.requested r found).0 in
          rw (there, found, new) (refl, ground (arith, moved))
    ]
  ]
]
