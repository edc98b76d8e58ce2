-- ===== src/PexState.antt =====
-- The pexState of peer/peer.go: which peers are to be announced to a peer, which are to be taken back,
-- and which have been announced. The time of the last message is not kept.
pub mod Places
mod Tests
use storrent.Prelude.{
  ℕ, suc, Bool, true, false, ◌&&◌, ◌==◌, List, [], ◌∷◌, ◌++◌, Option, none, some, ltb,
  if◌then◌else◌, length, take, drop,
}
use storrent.Pex
use storrent.Pex.{find}

pub record PexState : Type 0 where
  pub pending : List Pex.Peer
  pub pending_del : List Pex.Peer
  pub sent : List Pex.Peer

-- slices.Delete(l, i, i+1)
unfoldable pub delete_at : List Pex.Peer → ℕ → List Pex.Peer
delete_at l i = take i l ++ drop (suc i) l

abbrev pub is_found : Option ℕ → Bool
is_found none = false
is_found (some i) = true

-- The end of add, for a peer that is not to be taken back.
unfoldable pub add_pending : PexState → Pex.Peer → PexState
add_pending s p =
    if is_found (find p s.sent)
    then s
    else if is_found (find p s.pending)
    then s
    else record s { pending = s.pending ++ (p ∷ []) }

unfoldable pub add : PexState → Pex.Peer → PexState
unfolding add_pending delete_at
add s p = elim (find p s.pending_del) [
  | some i ↦ record s { pending_del = delete_at s.pending_del i }
  | none ↦ add_pending s p
]

-- The end of del, for a peer that is not to be announced.
unfoldable pub del_sent : PexState → Pex.Peer → PexState
unfolding delete_at
del_sent s p = elim (find p s.sent) [
  | none ↦ s
  | some i ↦
      if is_found (find p s.pending_del)
      then record s { sent = delete_at s.sent i }
      else record s { sent = delete_at s.sent i; pending_del = s.pending_del ++ (p ∷ []) }
]

unfoldable pub del : PexState → Pex.Peer → PexState
unfolding del_sent delete_at
del s p = elim (find p s.pending) [
  | some i ↦ record s { pending = delete_at s.pending i }
  | none ↦ del_sent s p
]

-- How many peers a message has of each kind at most.
abbrev pub max_peers : ℕ
max_peers = 50

abbrev pub first_peers : List Pex.Peer → List Pex.Peer
first_peers l = if ltb max_peers (length l) then take max_peers l else l

abbrev pub other_peers : List Pex.Peer → List Pex.Peer
other_peers l = if ltb max_peers (length l) then drop max_peers l else []

-- computePex: the peers to announce and those to take back.
unfoldable pub compute_pex : PexState → PexState × List Pex.Peer × List Pex.Peer
compute_pex s = if (length s.pending == 0) && (length s.pending_del == 0) then (s, [], []) else (
  record {
    pending = other_peers s.pending;
    pending_del = other_peers s.pending_del;
    sent = s.sent ++ first_peers s.pending;
  },
  first_peers s.pending,
  first_peers s.pending_del,
)

-- What sendPex does when the message cannot be written.
unfoldable pub put_back : PexState → List Pex.Peer → List Pex.Peer → PexState
put_back s to_send to_del = record s {
  pending = to_send ++ s.pending;
  pending_del = to_del ++ s.pending_del;
}
