-- ===== src/Requests.antt =====
-- peer/requests/requests.go: the queue of requests to one peer, with a bitmap for membership.
-- A time.Time is a number, and the zero time, which marks "not set", is 0. `time.Now()` is the
-- argument `now`. `none` is a panic. The callbacks of `Clear` and `Expire` are the list of the
-- indices that they are called with, in order; the callers' callbacks do not touch the queue.
pub mod Occurrences
pub mod Membership
pub mod Queueing
pub mod Expiry
mod Tests
use storrent.Prelude.{
  ℕ, zero, suc, ◌+◌, ◌-◌, Bool, true, false, not, ◌&&◌, List, [], ◌∷◌, ◌++◌, Option, none, some,
  map, ltb, ◌==◌, if◌then◌else◌, length, get_elem?, set, take,
}
use storrent.Bitmap
use storrent.Bitmap.{Bitmap}

pub record Request : Type 0 where
  pub index : ℕ
  pub qtime : ℕ
  pub rtime : ℕ
  pub ctime : ℕ

pub record Requests : Type 0 where
  pub queue : List Request
  pub requested : List Request
  pub bitmap : Bitmap

unfoldable pub cancel_request : ℕ → Request → Request
cancel_request now r = record r { ctime = now }

unfoldable pub cancelled : Request → Bool
cancelled r = not (r.ctime == 0)

unfoldable pub queue_length : Requests → ℕ
queue_length rs = length rs.queue

unfoldable pub requested_length : Requests → ℕ
requested_length rs = length rs.requested

-- The loop `for i, r := range l { if index == r.index { … } }`: where it stops, counted from `i`.
pub find : ℕ → ℕ → List Request → Option (ℕ × Request)
find index i [] = none
find index i (r ∷ l) = if index == r.index then some (i, r) else find index (i + 1) l

unfoldable pub cancel : Requests → ℕ → ℕ → Requests × Bool × Bool
unfolding find cancelled cancel_request
cancel rs index now =
    if not (Bitmap.get rs.bitmap index)
    then (rs, false, false)
    else elim (find index 0 rs.requested) [
      | none ↦ (rs, false, false)
      | some (i, r) ↦
          if not (cancelled r)
          then (record rs { requested = set rs.requested i (cancel_request now r) }, true, true)
          else (rs, true, false)
    ]

-- `l[i] = l[len(l)-1]; l = l[:len(l)-1]`, or nil if that was the only element.
pub swap_remove : List Request → ℕ → List Request
swap_remove l i =
    if length l == 1
    then []
    else elim (get_elem? l (length l - 1)) [ none ↦ l | some r ↦ take (length l - 1) (set l i r) ]

-- The part of `del` after the loop over the requests sent out.
del_queued : Requests → ℕ → Bool → Option (Requests × Bool × Bool × ℕ)
unfolding find swap_remove
del_queued rs index true = some (rs, false, false, 0)
del_queued rs index false = elim (find index 0 rs.queue) [
  | none ↦ none
  | some (i, q) ↦ some (
    record rs { queue = swap_remove rs.queue i; bitmap = Bitmap.reset rs.bitmap index },
    true,
    false,
    0,
  )
]

-- Whether the request was queued, whether it had been sent out, and when.
unfoldable pub del : Requests → ℕ → Bool → Option (Requests × Bool × Bool × ℕ)
unfolding find swap_remove del_queued
del rs index reqonly =
    if not (Bitmap.get rs.bitmap index)
    then some (rs, false, false, 0)
    else elim (find index 0 rs.requested) [
      | none ↦ del_queued rs index reqonly
      | some (i, r) ↦ some (
        record rs { requested = swap_remove rs.requested i; bitmap = Bitmap.reset rs.bitmap index },
        false,
        true,
        r.rtime,
      )
    ]

unfoldable pub del_any : Requests → ℕ → Option (Requests × Bool × Bool × ℕ)
unfolding del
del_any rs index = del rs index false

unfoldable pub del_requested : Requests → ℕ → Option (Requests × Bool)
unfolding del
del_requested rs index = elim (del rs index true) [
  | none ↦ none
  | some (rs', q, r, t) ↦ some (rs', r)
]

unfoldable pub enqueue : Requests → ℕ → ℕ → Requests × Bool
enqueue rs index now = if Bitmap.get rs.bitmap index then (rs, false) else (
  record rs {
    queue = rs.queue ++ (record { index = index; qtime = now; rtime = 0; ctime = 0 } ∷ []);
    bitmap = Bitmap.set rs.bitmap index;
  },
  true,
)

dequeue_from : Requests → List Request → Option (Requests × Request)
dequeue_from rs [] = none
dequeue_from rs (r ∷ q) = some (record rs { queue = q; bitmap = Bitmap.reset rs.bitmap r.index }, r)

unfoldable pub dequeue : Requests → Option (Requests × Request)
unfolding dequeue_from
dequeue rs = dequeue_from rs rs.queue

unfoldable pub enqueue_request : Requests → Request → ℕ → Option Requests
enqueue_request rs r now =
    if Bitmap.get rs.bitmap r.index
    then none
    else some (record rs {
      bitmap = Bitmap.set rs.bitmap r.index;
      requested = rs.requested ++ (record r { ctime = 0; rtime = now } ∷ []);
    })

abbrev pub indices : List Request → List ℕ
indices = map λ r. r.index

-- `for _, r := range l { rs.bitmap.Set(int(r.index)) }`
set_all : Bitmap → List Request → Bitmap
set_all b [] = b
set_all b (r ∷ l) = set_all (Bitmap.set b r.index) l

unfoldable pub clear : Requests → Bool → Requests × List ℕ
unfolding set_all
clear rs both =
    if not both
    then (
      record { queue = []; requested = rs.requested; bitmap = set_all [] rs.requested },
      indices rs.queue,
    )
    else (
      record { queue = []; requested = []; bitmap = [] },
      indices rs.requested ++ indices rs.queue,
    )

-- A call of one of the two callbacks of `Expire`.
pub data Call : Type 0 where
  drop : ℕ → Call
  cancels : ℕ → Call

-- The loop of `Expire`: `dropped` and the calls made so far are passed along. Each round removes
-- a request or moves on, so `length requested - i` rounds are enough.
expire_loop : ℕ → ℕ → ℕ → ℕ → ℕ → Requests → Bool → List Call → Option (Requests × Bool × List Call)
unfolding cancelled cancel_request del_requested
expire_loop zero t0 t1 now i rs dropped calls =
    if ltb i (length rs.requested) then none else some (rs, dropped, calls)
expire_loop (suc fuel) t0 t1 now i rs dropped calls = elim (get_elem? rs.requested i) [
  | none ↦ some (rs, dropped, calls)
  | some r ↦ elim (cancelled r && ltb r.ctime t1) [
    | true ↦ elim (del_requested rs r.index) [
      | none ↦ none
      | some (rs', found) ↦ elim found [
        | true ↦ expire_loop fuel t0 t1 now i rs' true (calls ++ (drop r.index ∷ []))
        | false ↦ none
      ]
    ]
    | false ↦ elim (not (cancelled r) && ltb r.rtime t0) [
      | true ↦
          expire_loop fuel t0 t1 now (i + 1)
            (record rs { requested = set rs.requested i (cancel_request now r) }) dropped
            (calls ++ (cancels r.index ∷ []))
      | false ↦ expire_loop fuel t0 t1 now (i + 1) rs dropped calls
    ]
  ]
]

unfoldable pub expire : Requests → ℕ → ℕ → ℕ → Option (Requests × Bool × List Call)
unfolding expire_loop
expire rs t0 t1 now = expire_loop (length rs.requested) t0 t1 now 0 rs false []
