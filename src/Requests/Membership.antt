-- ===== src/Requests/Membership.antt =====
-- The invariant of the request queue: the bitmap is the set of the indices that are queued or sent
-- out, and no index is there twice; and `del` of peer/requests/requests.go.
use storrent.Prelude.{
  ℕ, get_elem?, ◌+◌, ◌≡◌, refl, Bool, true, false, not, ◌&&◌, List, some, ◌==◌, if◌then◌else◌,
  arith, inl, inr, Bool-cases, Option-cases,
}
use storrent.Bitmap
use storrent.Bitmap.{Bitmap, IsBitmap}
use storrent.Bitmap.Bits.{bit}
use storrent.Bitmap.Updates.{get-reset, reset-IsBitmap}
use storrent.Requests.{Request, Requests, find, swap_remove, del, del_queued}
use storrent.Requests.Occurrences.{occurs_pos, occurs, find_lem, find-none, occurs-swap_remove}

pub record Inv (rs : Requests) : Type 0 where
  pub bytes : IsBitmap rs.bitmap
  pub member : (i : ℕ) → occurs i rs.queue + occurs i rs.requested ≡ bit (Bitmap.get rs.bitmap i)

abbrev pub has : ℕ → List Request → Bool
has i l = not (occurs i l == 0)

abbrev without : Bool → ℕ → ℕ → List Request → ℕ
without gone index i l = if gone && (i == index) then 0 else occurs i l

-- What a deletion does: it answers where the request was, and takes it, and it alone, out of there.
pub record Deletes (rs : Requests) (index : ℕ) (reqonly : Bool) (rs' : Requests) (q r : Bool)
    : Type 0 where
  pub kept : Inv rs'
  pub was_sent : r ≡ has index rs.requested
  pub was_queued : q ≡ (not reqonly && has index rs.queue)
  pub sent_left : (i : ℕ) → occurs i rs'.requested ≡ without r index i rs.requested
  pub queued_left : (i : ℕ) → occurs i rs'.queue ≡ without q index i rs.queue

pub reset-member :
    (rs : Requests) (index i : ℕ)
    → Inv rs
    → bit (Bitmap.get (Bitmap.reset rs.bitmap index) i)
      ≡ (if i == index then 0 else occurs i rs.queue + occurs i rs.requested)
reset-member rs index i v = ground (arith, get-reset rs.bitmap index i v.bytes, v.member i)

del_queued-Deletes :
    (rs : Requests) (index : ℕ) (reqonly : Bool)
    → Inv rs
    → Bitmap.get rs.bitmap index ≡ true
    → occurs index rs.requested ≡ 0
    → (rs' : Requests) × (q : Bool) × (del_queued rs index reqonly ≡ some (rs', q, false, 0))
      × Deletes rs index reqonly rs' q false
unfolding del_queued
del_queued-Deletes rs index true v there e = (
  rs,
  false,
  refl,
  record {
    kept = v;
    was_sent = ground arith;
    was_queued = refl;
    sent_left = λ i. refl;
    queued_left = λ i. refl;
  },
)
del_queued-Deletes rs index false v there e = elim (Option-cases (find index 0 rs.queue)) [
  | inl missing ↦ absurd (ground (arith, v.member index, find-none index 0 rs.queue missing))
  | inr ((k, r), found) ↦
      let (at, same) = find_lem index k rs.queue r found in
      let gone = λ (i : ℕ). occurs-swap_remove i k rs.queue r at in
      let rs' : Requests = record rs {
        queue = swap_remove rs.queue k;
        bitmap = Bitmap.reset rs.bitmap index;
      } in
      (
        rs',
        true,
        rw (found, del_queued),
        record {
          kept = record {
            bytes = reset-IsBitmap rs.bitmap index v.bytes;
            member = λ i. ground (arith, gone i, reset-member rs index i v, v.member index);
          };
          was_sent = ground arith;
          was_queued = ground (arith, gone index);
          sent_left = λ i. refl;
          queued_left = λ i. ground (arith, gone i, v.member index);
        },
      )
]

-- Taking a request that was sent out, and its bit, keeps the invariant.
pub remove_sent-Inv :
    (rs : Requests) (k : ℕ) (r : Request)
    → Inv rs
    → get_elem? rs.requested k ≡ some r
    → Inv (record rs {
      requested = swap_remove rs.requested k;
      bitmap = Bitmap.reset rs.bitmap r.index;
    })
remove_sent-Inv rs k r v at = record {
  bytes = reset-IsBitmap rs.bitmap r.index v.bytes;
  member = λ i. ground (
    arith,
    occurs-swap_remove i k rs.requested r at,
    reset-member rs r.index i v,
    v.member r.index,
    occurs_pos k rs.requested r at,
  );
}

-- Under the invariant a deletion never panics, and does what `Deletes` says.
pub del-Deletes :
    (rs : Requests) (index : ℕ) (reqonly : Bool)
    → Inv rs
    → (rs' : Requests) × (q : Bool) × (r : Bool) × (t : ℕ) × (del rs index reqonly
        ≡ some (rs', q, r, t))
      × Deletes rs index reqonly rs' q r
unfolding del
del-Deletes rs index reqonly v = elim (Bool-cases (Bitmap.get rs.bitmap index)) [
  | inr absent ↦ (
    rs,
    false,
    false,
    0,
    rw absent,
    record {
      kept = v;
      was_sent = ground (arith, v.member index);
      was_queued = ground (arith, v.member index);
      sent_left = λ i. refl;
      queued_left = λ i. refl;
    },
  )
  | inl there ↦ elim (Option-cases (find index 0 rs.requested)) [
    | inl missing ↦
        let (rs', q, e, d) =
          del_queued-Deletes rs index reqonly v there (find-none index 0 rs.requested missing) in
        (rs', q, false, 0, rw (there, missing) e, d)
    | inr ((k, r), found) ↦
        let (at, same) = find_lem index k rs.requested r found in
        let gone = λ (i : ℕ). occurs-swap_remove i k rs.requested r at in
        let rs' : Requests = record rs {
          requested = swap_remove rs.requested k;
          bitmap = Bitmap.reset rs.bitmap index;
        } in
        (
          rs',
          false,
          true,
          r.rtime,
          rw (there, found),
          record {
            kept = record {
              bytes = reset-IsBitmap rs.bitmap index v.bytes;
              member = λ i. ground (arith, gone i, reset-member rs index i v, v.member index);
            };
            was_sent = ground (arith, gone index);
            was_queued = ground (arith, gone index, v.member index);
            sent_left = λ i. ground (arith, gone i, v.member index);
            queued_left = λ i. refl;
          },
        )
  ]
]
