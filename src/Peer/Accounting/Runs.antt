-- ===== src/Peer/Accounting/Runs.antt =====
-- Whole runs of the loop of Run in peer/peer.go, up to its end.
use storrent.Prelude.{ℕ, ◌+◌, ◌≤◌, ◌<◌, ◌≡◌, List, [], ◌∷◌, ◌++◌, none, some}
use storrent.Bitmap
use storrent.Requests
use storrent.Requests.{Requests}
use storrent.Peer.{Peer, Failure}
use storrent.Peer.Looping.{close, Input, round, run}
use storrent.Peer.Accounting.{load, releases}
use storrent.Peer.Accounting.Loop.{asked, Refuses, Proper}

-- All times are after the zero time.
abbrev pub AfterZero : List (Input × ℕ) → Type 0
AfterZero [] = 0 ≤ 0
AfterZero ((i, now) ∷ l) = (0 < now) × AfterZero l

abbrev pub NoNil : List (Input × ℕ) → Type 0
NoNil [] = Unit
NoNil ((i, now) ∷ l) = Proper i × NoNil l

-- Rounds on these inputs, one after the other, each without an error.
pub data Accepts : Peer → List (Input × ℕ) → Peer → Type 0 where
  ready : (p : Peer) → Accepts p [] p
  accepted :
      (p q p' : Peer) (i : Input) (now : ℕ) (l : List (Input × ℕ))
      → round p i now ≡ some (q, none)
      → Accepts q l p'
      → Accepts p ((i, now) ∷ l) p'

-- There is no input left, or the first of them is refused; then the loop is closed.
pub data Finishes : Peer → List (Input × ℕ) → Peer → Type 0 where
  used_up : (p : Peer) → Finishes p [] (close p)
  refused :
      (p q : Peer) (i : Input) (now : ℕ) (l : List (Input × ℕ)) (err : Failure)
      → round p i now ≡ some (q, some err)
      → Refuses p i
      → Finishes p ((i, now) ∷ l) (close q)

-- Nothing is queued or sent out.
pub record IsEmptied (p : Peer) : Type 0 where
  pub queue_empty : p.requests.queue ≡ []
  pub sent_empty : p.requests.requested ≡ []

-- The end of a run from `p` on `l`: the part `taken` is accepted, which leads to `mid`.
pub record IsOver (p : Peer) (l taken : List (Input × ℕ)) (mid p' : Peer) : Type 0 where
  pub part : (left : List (Input × ℕ)) × (l ≡ taken ++ left) × Finishes mid left p'
  pub goes : Accepts p taken mid
  pub empty : IsEmptied p'
  pub answered : (c : ℕ) → releases p'.pieces.piece_size c p'.events ≡ load p c + asked taken c

-- A run from `p` on `l` ends, as IsOver says.
abbrev Over : Peer → List (Input × ℕ) → Type 0
Over p l =
    (taken : List (Input × ℕ)) × (mid : Peer) × (p' : Peer) × (run p l ≡ some p')
    × IsOver p l taken mid p'
