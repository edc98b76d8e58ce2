-- ===== src/Requests/Tests.antt =====
-- Runs of requests.go on a small queue, and its theorems at concrete inputs.
use storrent.Prelude.{
  ℕ, ◌+◌, ◌≡◌, refl, Bool, true, false, List, [], ◌∷◌, some, ◌||◌, not, if◌then◌else◌, arith,
}
use storrent.Bitmap
use storrent.Bitmap.Bits.{set_bit, test_bit, reset_bit}
use storrent.Bitmap.Updates.{get-beyond}
use storrent.Requests.{
  Request, Requests, Call, drop, cancels, cancel, del, enqueue, dequeue, enqueue_request, clear,
  expire,
}
use storrent.Requests.Occurrences.{occurs, times}
use storrent.Requests.Membership.{Inv, has, Deletes, del-Deletes}
use storrent.Requests.Queueing.{enqueue_lem, send_lem, cancel_twice, clear_lem}
use storrent.Requests.Expiry.{Runs, expire-Runs}

abbrev nothing : Requests
nothing = record { queue = []; requested = []; bitmap = [] }

nothing-Inv : Inv nothing
nothing-Inv = record { bytes = tt; member = λ i. ground (arith, get-beyond [] i (omega arith)) }

abbrev waiting : Request
waiting = record { index = 5; qtime = 90; rtime = 0; ctime = 0 }

-- Chunk 5 is queued.
abbrev one_queued : Requests
one_queued = record { queue = waiting ∷ []; requested = []; bitmap = 0x04 ∷ [] }

one_queued_run : (enqueue nothing 5 90).0 ≡ one_queued
unfolding enqueue Bitmap.get Bitmap.set set_bit
one_queued_run = refl

one_queued-Inv : Inv one_queued
unfolding enqueue Bitmap.get Bitmap.set set_bit
one_queued-Inv = (enqueue_lem nothing 5 90 nothing-Inv).0

abbrev sent : Request
sent = record { index = 5; qtime = 90; rtime = 100; ctime = 0 }

abbrev one_sent : Requests
one_sent = record { queue = []; requested = sent ∷ []; bitmap = 0x04 ∷ [] }

one_sent-Inv : Inv one_sent
one_sent-Inv = record {
  bytes = one_queued-Inv.bytes;
  member = λ i. omega (arith, one_queued-Inv.member i);
}

-- A request sent at 100 is cancelled by an expiry that wants 120, and dropped by the next one.
cancelled_late :
    expire one_sent 120 110 130
    ≡ some (record one_sent { requested = record sent { ctime = 130 } ∷ [] }, false, cancels 5 ∷ [])
unfolding expire
cancelled_late = refl

dropped_late :
    expire (record one_sent { requested = record sent { ctime = 130 } ∷ [] }) 120 140 150
    ≡ some (record { queue = []; requested = []; bitmap = 0 ∷ [] }, true, drop 5 ∷ [])
unfolding expire Bitmap.get Bitmap.reset test_bit reset_bit
dropped_late = refl

del-Deletes_example :
    (rs' : Requests) × (q : Bool) × (r : Bool) × (t : ℕ) × (del one_sent 5 true
      ≡ some (rs', q, r, t))
    × Deletes one_sent 5 true rs' q r
del-Deletes_example = del-Deletes one_sent 5 true one_sent-Inv

enqueue_lem_example :
    Inv (enqueue one_queued 9 95).0
    × ((enqueue one_queued 9 95).1 ≡ not (has 9 one_queued.queue || has 9 one_queued.requested))
    × ((enqueue one_queued 9 95).0.queue ≡ (
        if (enqueue one_queued 9 95).1
        then waiting ∷ record { index = 9; qtime = 95; rtime = 0; ctime = 0 } ∷ []
        else one_queued.queue))
    × ((enqueue one_queued 9 95).0.requested ≡ [])
enqueue_lem_example = enqueue_lem one_queued 9 95 one_queued-Inv

send_lem_example :
    (rs' : Requests) × (rs'' : Requests) × (dequeue one_queued ≡ some (rs', waiting))
    × (enqueue_request rs' waiting 100 ≡ some rs'')
    × Inv rs''
    × (rs''.queue ≡ [])
    × (rs''.requested ≡ sent ∷ [])
send_lem_example = send_lem one_queued waiting [] 100 one_queued-Inv refl

cancel_twice_example :
    (rs' : Requests) × (first : Bool) × (cancel one_sent 5 110 ≡ (rs', true, first))
    × (cancel rs' 5 120 ≡ (rs', true, false))
cancel_twice_example = cancel_twice one_sent 5 110 120 one_sent-Inv (omega arith) refl

clear_lem_example :
    Inv (clear one_sent true).0
    × ((clear one_sent true).0.queue ≡ [])
    × ((clear one_sent true).0.requested ≡ [])
    × ((i : ℕ)
        → times i (clear one_sent true).1 + occurs i (clear one_sent true).0.requested
          ≡ occurs i one_sent.queue + occurs i one_sent.requested)
clear_lem_example = clear_lem one_sent true one_sent-Inv

expire-Runs_example :
    (rs' : Requests) × (dropped : Bool) × (calls : List Call) × (expire one_sent 120 110 130
      ≡ some (rs', dropped, calls))
    × Runs 120 110 one_sent [] rs' dropped calls
expire-Runs_example = expire-Runs one_sent 120 110 130 (omega arith) (omega arith) one_sent-Inv
