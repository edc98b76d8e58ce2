-- ===== src/Piece/Life.antt =====
-- Finalise and del of tor/piece/piece.go: how a piece becomes complete and how it goes away.
pub mod Frames
pub mod Steps
pub mod Reading
mod Tests
use storrent.Prelude.{
  ℕ, zero, suc, ◌+◌, ◌-◌, ◌*◌, Bool, true, false, not, ◌&&◌, List, [], ◌∷◌, ◌++◌, Option, none,
  some, ltb, leb, ◌==◌, if◌then◌else◌, ◌>>=◌, get_elem?, get_or, set,
}
use storrent.Bitmap
use storrent.Hash
use storrent.Piece.{
  Piece, Pieces, Error, hash_mismatch, was_deleted, complete, busy, busy_or_complete, set_state,
  state_complete, state_busy, with_piece, piece_chunks,
}

abbrev pub bytes_of : Option (List ℕ) → List ℕ
bytes_of none = []
bytes_of (some d) = d

-- What Finalise does in its first hold of the lock: it returns, with or without an error, or goes
-- on to hash the data that it took.
pub data Begun : Type 0 where
  stops : Option Error → Begun
  hashes : List ℕ → Begun

begin_piece : Pieces → ℕ → Piece → Option (Pieces × Begun)
begin_piece ps index p =
    if busy_or_complete p
    then some (ps, stops none)
    else if ps.deleted
    then some (ps, stops (some was_deleted))
    else if not (Bitmap.count p.bitmap == piece_chunks ps index)
    then some (ps, stops none)
    else do p' ← set_state p 0 state_busy; some (with_piece ps index p', hashes (bytes_of p.buffer))

unfoldable pub finalise_begin : Pieces → ℕ → Option (Pieces × Begun)
unfolding begin_piece
finalise_begin ps index = do p ← get_elem? ps.pieces index; begin_piece ps index p

-- A piece without its data: the part of `del` from alloc.Free to `setState`.
discard : Piece → Option Piece
discard p =
    let p' = record p { buffer = none; peers = []; bitmap = [] } in
    if complete p then set_state p' state_complete 0 else some p'

-- What `del` does: it waits while the piece is busy, if forced, or it ends with its two results. A
-- call that waits gives the lock up, and goes on with `del_waited`.
pub data Deletion : Type 0 where
  waits : Deletion
  ended : Pieces → Bool → Bool → Deletion

-- The rest of `del`, for a piece that is not busy. A count below 0 is a panic.
del_idle : Pieces → ℕ → Piece → Option Deletion
unfolding discard
del_idle ps index p = do
  p' ← discard p
  if ps.count == 0
      then none
      else some (ended (record (with_piece ps index p') { count = ps.count - 1 }) true (complete p))

del_held : Pieces → ℕ → Piece → Bool → Option (List ℕ) → Option Deletion
unfolding del_idle
del_held ps index p force none = some (ended ps false false)
del_held ps index p force (some d) =
    if busy p
    then (if not force then some (ended ps false false) else some waits)
    else del_idle ps index p

unfoldable pub del : Pieces → ℕ → Bool → Option Deletion
unfolding del_held
del ps index force = do p ← get_elem? ps.pieces index; del_held ps index p force p.buffer

-- The loop of `del` and what comes after it, for a call that has waited: it does not look again whether
-- there is data.
unfoldable pub del_waited : Pieces → ℕ → Option Deletion
unfolding del_idle
del_waited ps index = do
  p ← get_elem? ps.pieces index
  if busy p then some waits else del_idle ps index p

-- The results of Finalise after the hash is known.
pub record Finished : Type 0 where
  pub is_done : Bool
  pub senders : List ℕ
  pub error : Option Error

-- The call of `del` after a mismatch: its piece is no longer busy, so it does not wait.
drop_mismatch : Pieces → ℕ → List ℕ → Option Deletion → Option (Pieces × Finished)
drop_mismatch ps index senders none = none
drop_mismatch ps index senders (some waits) = none
drop_mismatch ps index senders (some (ended ps' d c)) =
    some (ps', record { is_done = false; senders = senders; error = some hash_mismatch })

end_piece : Pieces → ℕ → Piece → Bool → Option (Pieces × Finished)
unfolding drop_mismatch
end_piece ps index p same =
    let cleared = record p { peers = [] } in
    if not same
    then (do
      p' ← set_state cleared state_busy 0
      drop_mismatch ps index p.peers (del (with_piece ps index p') index true))
    else (do
      p' ← set_state cleared state_busy state_complete
      some (with_piece ps index p', record { is_done = true; senders = p.peers; error = none }))

-- The second hold of the lock, with the hash `sum` of the data that was taken.
unfoldable pub finalise_end : Pieces → ℕ → List ℕ → List ℕ → Option (Pieces × Finished)
unfolding end_piece
finalise_end ps index sum h = do
  p ← get_elem? ps.pieces index
  same ← Hash.equal sum h
  end_piece ps index p same
