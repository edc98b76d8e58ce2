-- ===== src/Requests/Expiry.antt =====
-- Expire of peer/requests/requests.go: its loop, what it leaves, and which callbacks it makes.
use storrent.Prelude.{
  ℕ, zero, suc, ◌+◌, ◌-◌, ◌≤◌, ◌<◌, ◌≡◌, refl, ◌≢◌, Bool, true, false, not, ◌&&◌, List, [], ◌∷◌,
  ◌++◌, some, ltb, ◌==◌, length, get_elem?, set, arith, inl, inr, Bool-cases, Option-cases, ap, sym,
  append-nil, ◌∙◌, length-set, length-append, get_elem?-take, get_elem?-set_ne, get_elem?-set_self,
  get_elem?-lt, get_elem?-beyond,
}
use storrent.Bitmap
use storrent.Bitmap.{Bitmap, IsBitmap}
use storrent.Requests.{
  Request, Requests, Call, drop, cancels, find, swap_remove, del_requested, cancelled,
  cancel_request, expire_loop, expire,
}
use storrent.Requests.Occurrences.{
  occurs, occurs-set, occurs-swap_remove, length-swap_remove, times, times-append, occurs_pos,
  last-some,
}
use storrent.Requests.Membership.{Inv, remove_sent-Inv}

-- The first place where the index stands is the only one.
find-only :
    (i j k : ℕ) (l : List Request) (r : Request)
    → get_elem? l k ≡ some r
    → r.index ≡ i
    → occurs i l ≤ 1
    → find i j l ≡ some (j + k, r)
unfolding find
find-only i j k [] r e same once = cc
find-only i j zero (x ∷ l) r e same once = ground arith
find-only i j (suc k) (x ∷ l) r e same once =
    ground (arith, occurs_pos k l r e, find-only i (j + 1) k l r e)

-- Removal at `i` keeps what stands before.
swap_remove-before :
    (l : List Request) (i k : ℕ)
    → i < length l
    → k < i
    → get_elem? (swap_remove l i) k ≡ get_elem? l k
unfolding swap_remove
swap_remove-before [] i k h lt = absurd (omega arith)
swap_remove-before (x ∷ []) i k h lt = absurd (omega arith)
swap_remove-before (x ∷ y ∷ l) i k h lt =
    let (z, at) = last-some x (y ∷ l) in
    let q : length (x ∷ y ∷ l) - 1 ≡ suc (length l) = omega arith in
    let many : (length (x ∷ y ∷ l) == 1) ≡ false = ground arith in
    rw (q, at, many, q)
      (get_elem?-take (suc (length l)) k (set (x ∷ y ∷ l) i z) (omega arith)
        ∙ get_elem?-set_ne (x ∷ y ∷ l) i k z (omega arith))

-- The dropped indices among the calls, in order.
abbrev pub drops : List Call → List ℕ
drops [] = []
drops (drop i ∷ calls) = i ∷ drops calls
drops (cancels i ∷ calls) = drops calls

drops-append : (c d : List Call) → drops (c ++ d) ≡ drops c ++ drops d
drops-append [] d = refl
drops-append (drop i ∷ c) d = ap (λ l. i ∷ l) (drops-append c d)
drops-append (cancels i ∷ c) d = drops-append c d

-- A request that needs nothing: not cancelled and sent out at t0 or later, or cancelled at t1 or
-- later.
abbrev pub Kept : ℕ → ℕ → Request → Type 0
Kept t0 t1 r = (r.ctime ≡ 0 → t0 ≤ r.rtime) × (r.ctime ≢ 0 → t1 ≤ r.ctime)

abbrev KeptBelow : ℕ → ℕ → ℕ → List Request → Type 0
KeptBelow t0 t1 n l = (k : ℕ) (r : Request) → k < n → get_elem? l k ≡ some r → Kept t0 t1 r

-- What a run does from the state `rs` and the calls made before it.
pub record Runs (t0 t1 : ℕ) (rs : Requests) (calls : List Call) (rs' : Requests) (dropped : Bool)
    (calls' : List Call) : Type 0 where
  pub kept : Inv rs'
  pub queue_same : rs'.queue ≡ rs.queue
  pub all_kept : (k : ℕ) (r : Request) → get_elem? rs'.requested k ≡ some r → Kept t0 t1 r
  pub accounted :
      (i : ℕ)
      → times i (drops calls') + occurs i rs'.requested
        ≡ times i (drops calls) + occurs i rs.requested
  pub dropped_some : dropped ≡ not (length (drops calls') == 0)

-- The deletion that the loop makes takes exactly the request at `i`.
del_requested-at :
    (rs : Requests) (i : ℕ) (r : Request)
    → Inv rs
    → get_elem? rs.requested i ≡ some r
    → del_requested rs r.index
      ≡ some (
        record rs {
          requested = swap_remove rs.requested i;
          bitmap = Bitmap.reset rs.bitmap r.index;
        },
        true,
      )
unfolding del_requested
del_requested-at rs i r v at =
    let there : Bitmap.get rs.bitmap r.index ≡ true =
      ground (arith, v.member r.index, occurs_pos i rs.requested r at) in
    let once : occurs r.index rs.requested ≤ 1 = ground (arith, v.member r.index) in
    let q : 0 + i ≡ i = omega arith in
    let found = rw q at (find-only r.index 0 i rs.requested r at refl once) in
    rw (there, found, del_requested)

mark-Inv :
    (rs : Requests) (i now : ℕ) (r : Request)
    → Inv rs
    → get_elem? rs.requested i ≡ some r
    → Inv (record rs { requested = set rs.requested i (cancel_request now r) })
unfolding cancel_request
mark-Inv rs i now r v at = record {
  bytes = v.bytes;
  member =
      λ j. ground (arith, v.member j, occurs-set j i rs.requested r (record r { ctime = now }) at);
}

dropped_by_drop :
    (calls : List Call) (i : ℕ) → true ≡ not (length (drops (calls ++ (drop i ∷ []))) == 0)
dropped_by_drop calls i =
    ground
      (arith, ap length (drops-append calls (drop i ∷ [])), length-append (drops calls) (i ∷ []))

dropped_by_cancel :
    (calls : List Call) (i : ℕ) (d : Bool)
    → d ≡ not (length (drops calls) == 0)
    → d ≡ not (length (drops (calls ++ (cancels i ∷ []))) == 0)
dropped_by_cancel calls i d e = rw (drops-append calls (cancels i ∷ []), append-nil) e

needs_nothing :
    (t0 t1 : ℕ) (r : Request)
    → (cancelled r && ltb r.ctime t1) ≡ false
    → (not (cancelled r) && ltb r.rtime t0) ≡ false
    → Kept t0 t1 r
unfolding cancelled
needs_nothing t0 t1 r p q = ground arith

module _ (t0 t1 now : ℕ) (pos : 0 < now) (before : t1 ≤ now) where
  drop_step :
      (i : ℕ) (l : List Request) (r : Request)
      → get_elem? l i ≡ some r
      → KeptBelow t0 t1 i l
      → KeptBelow t0 t1 i (swap_remove l i)
  drop_step i l r at h k s lt e =
      h k s lt (sym (swap_remove-before l i k (get_elem?-lt l i r at) lt) ∙ e)

  mark_step :
      (i : ℕ) (l : List Request) (r : Request)
      → get_elem? l i ≡ some r
      → KeptBelow t0 t1 i l
      → KeptBelow t0 t1 (i + 1) (set l i (cancel_request now r))
  unfolding cancel_request
  mark_step i l r at h k s lt e = elim (Bool-cases (k == i)) [
    | inl here ↦
        let same : k ≡ i = ground arith in
        let got = get_elem?-set_self l i (record r { ctime = now }) (get_elem?-lt l i r at) in
        ground (arith, rw same at e, got)
    | inr other ↦
        h k s (ground arith)
          (sym (get_elem?-set_ne l i k (record r { ctime = now }) (ground arith)) ∙ e)
  ]

  pass_step :
      (i : ℕ) (l : List Request) (r : Request)
      → get_elem? l i ≡ some r
      → Kept t0 t1 r
      → KeptBelow t0 t1 i l
      → KeptBelow t0 t1 (i + 1) l
  pass_step i l r at good h k s lt e = elim (Bool-cases (k == i)) [
    | inl here ↦ let same : k ≡ i = ground arith in ground (arith, rw same at e)
    | inr other ↦ h k s (ground arith) e
  ]

  Outcome : ℕ → ℕ → Requests → Bool → List Call → Type 0
  Outcome fuel i rs dropped calls =
      (rs' : Requests) × (dropped' : Bool) × (calls' : List Call) × (expire_loop fuel t0 t1 now i rs
          dropped calls
        ≡ some (rs', dropped', calls'))
      × Runs t0 t1 rs calls rs' dropped' calls'

  loop_drop :
      (i : ℕ) (rs : Requests) (r : Request) (calls : List Call)
      → get_elem? rs.requested i ≡ some r
      → (rs' : Requests) (d : Bool) (calls' : List Call)
      → let gone : Requests = record rs {
        requested = swap_remove rs.requested i;
        bitmap = Bitmap.reset rs.bitmap r.index;
      } in
        Runs t0 t1 gone (calls ++ (drop r.index ∷ [])) rs' d calls'
        → Runs t0 t1 rs calls rs' d calls'
  loop_drop i rs r calls at rs' d calls' n = record {
    kept = n.kept;
    queue_same = n.queue_same;
    all_kept = n.all_kept;
    accounted = λ j. ground (
      arith,
      n.accounted j,
      ap (times j) (drops-append calls (drop r.index ∷ [])),
      times-append j (drops calls) (r.index ∷ []),
      occurs-swap_remove j i rs.requested r at,
    );
    dropped_some = n.dropped_some;
  }

  loop_mark :
      (i : ℕ) (rs : Requests) (r : Request) (calls : List Call)
      → get_elem? rs.requested i ≡ some r
      → (rs' : Requests) (d : Bool) (calls' : List Call)
      → let marked : Requests = record rs {
        requested = set rs.requested i (cancel_request now r);
      } in
        Runs t0 t1 marked (calls ++ (cancels r.index ∷ [])) rs' d calls'
        → Runs t0 t1 rs calls rs' d calls'
  unfolding cancel_request
  loop_mark i rs r calls at rs' d calls' n = record {
    kept = n.kept;
    queue_same = n.queue_same;
    all_kept = n.all_kept;
    accounted = λ j. ground (
      arith,
      n.accounted j,
      ap (times j) (drops-append calls (cancels r.index ∷ [])),
      times-append j (drops calls) [],
      occurs-set j i rs.requested r (record r { ctime = now }) at,
    );
    dropped_some = n.dropped_some;
  }

  -- From any point of the loop, with a round of fuel for each request not yet looked at.
  expire_loop-Runs :
      (fuel i : ℕ) (rs : Requests) (dropped : Bool) (calls : List Call)
      → length rs.requested ≤ i + fuel
      → i ≤ length rs.requested
      → Inv rs
      → KeptBelow t0 t1 i rs.requested
      → dropped ≡ not (length (drops calls) == 0)
      → Outcome fuel i rs dropped calls
  unfolding expire_loop Outcome
  expire_loop-Runs zero i rs dropped calls enough le v h e = (
    rs,
    dropped,
    calls,
    ground arith,
    record {
      kept = v;
      queue_same = refl;
      all_kept = λ k r at. h k r (omega (arith, get_elem?-lt rs.requested k r at)) at;
      accounted = λ j. refl;
      dropped_some = e;
    },
  )
  expire_loop-Runs (suc fuel) i rs dropped calls enough le v h e =
      elim (Option-cases (get_elem? rs.requested i)) [
        | inl beyond ↦ (
          rs,
          dropped,
          calls,
          rw (beyond, expire_loop),
          record {
            kept = v;
            queue_same = refl;
            all_kept = λ k r at.
                h k r
                  (omega (
                    arith,
                    get_elem?-lt rs.requested k r at,
                    get_elem?-beyond rs.requested i beyond,
                  ))
                  at;
            accounted = λ j. refl;
            dropped_some = e;
          },
        )
        | inr (r, at) ↦ elim (Bool-cases (cancelled r && ltb r.ctime t1)) [
          | inl old ↦
              let gone : Requests = record rs {
                requested = swap_remove rs.requested i;
                bitmap = Bitmap.reset rs.bitmap r.index;
              } in
              let (rs', d, calls', run, n) =
                expire_loop-Runs fuel i gone true (calls ++ (drop r.index ∷ []))
                  (omega (arith, length-swap_remove i rs.requested r at))
                  (omega (
                    arith,
                    length-swap_remove i rs.requested r at,
                    get_elem?-lt rs.requested i r at,
                  ))
                  (remove_sent-Inv rs i r v at) (drop_step i rs.requested r at h)
                  (dropped_by_drop calls r.index) in
              (
                rs',
                d,
                calls',
                rw (at, old, del_requested-at rs i r v at, expire_loop) run,
                loop_drop i rs r calls at rs' d calls' n,
              )
          | inr fresh ↦ elim (Bool-cases (not (cancelled r) && ltb r.rtime t0)) [
            | inl late ↦
                let marked : Requests = record rs {
                  requested = set rs.requested i (cancel_request now r);
                } in
                let (rs', d, calls', run, n) =
                  expire_loop-Runs fuel (i + 1) marked dropped (calls ++ (cancels r.index ∷ []))
                    (omega (arith, length-set rs.requested i (cancel_request now r)))
                    (omega (
                      arith,
                      length-set rs.requested i (cancel_request now r),
                      get_elem?-lt rs.requested i r at,
                    ))
                    (mark-Inv rs i now r v at) (mark_step i rs.requested r at h)
                    (dropped_by_cancel calls r.index dropped e) in
                (
                  rs',
                  d,
                  calls',
                  rw (at, fresh, late, expire_loop) run,
                  loop_mark i rs r calls at rs' d calls' n,
                )
            | inr fine ↦
                let (rs', d, calls', run, n) =
                  expire_loop-Runs fuel (i + 1) rs dropped calls (omega arith)
                    (omega (arith, get_elem?-lt rs.requested i r at)) v
                    (pass_step i rs.requested r at (needs_nothing t0 t1 r fresh fine) h) e in
                (rs', d, calls', rw (at, fresh, fine, expire_loop) run, n)
          ]
        ]
      ]

-- Expire ends without a panic, with the loop's invariant kept. Every request that is left was
-- either sent at t0 or later, or cancelled at t1 or later; the requests that are gone are those
-- that `drop` was called for, once each; and the result says whether there were any.
pub expire-Runs :
    (rs : Requests) (t0 t1 now : ℕ)
    → 0 < now
    → t1 ≤ now
    → Inv rs
    → (rs' : Requests) × (dropped : Bool) × (calls : List Call) × (expire rs t0 t1 now
        ≡ some (rs', dropped, calls))
      × Runs t0 t1 rs [] rs' dropped calls
unfolding expire Outcome
expire-Runs rs t0 t1 now pos before v =
    expire_loop-Runs t0 t1 now pos before (length rs.requested) 0 rs false [] (omega arith)
      (omega arith) v (λ k r lt. absurd (omega arith)) refl
