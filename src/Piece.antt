-- ===== src/Piece.antt =====
-- tor/piece/piece.go: the contents of a torrent, piece by piece. A method that holds the mutex is
-- one step; `Finalise`, which gives it up while the hash is computed, is two, `finalise_begin` and
-- `finalise_end`. A forced `del` of a busy piece that it has to wait for is two, `del` and
-- `del_waited`. `none` is a panic. Lengths and offsets are natural numbers, with the source's
-- conversions to uint32 written out. The test that `AddData` and `Finalise` make before they take
-- the lock is repeated under it with the same answer, and is not a step of its own.
pub mod Layout
pub mod Store
pub mod Life
mod Tests
use storrent.Prelude.{
  ℕ, zero, suc, ◌+◌, ◌-◌, ◌*◌, ◌/◌, ◌%◌, ◌^◌, Bool, true, false, not, ◌&&◌, ◌||◌, List, [], ◌∷◌,
  ◌++◌, Option, none, some, ltb, leb, ◌==◌, if◌then◌else◌, ◌>>=◌, length, get_elem?, set, take,
  drop, replicate, copy_at,
}
use storrent.Bitmap
use storrent.Bitmap.{Bitmap}

-- config.ChunkSize
abbrev pub chunk_size : ℕ
chunk_size = 16 * 1024

abbrev pub max_uint32 : ℕ
max_uint32 = 2 ^ 32 - 1

abbrev pub state_complete : ℕ
state_complete = 1

abbrev pub state_busy : ℕ
state_busy = 2

pub record Piece : Type 0 where
  pub buffer : Option (List ℕ)
  pub bitmap : Bitmap
  pub state : ℕ
  pub time : ℕ
  pub peers : List ℕ

pub record Pieces : Type 0 where
  pub deleted : Bool
  pub pieces : List Piece
  pub count : ℕ
  pub piece_size : ℕ
  pub total : ℕ

pub data Error : Type 0 where
  hash_mismatch was_deleted odd_offset beyond_end no_memory : Error

unfoldable pub complete : Piece → Bool
complete p = p.state == state_complete

unfoldable pub busy : Piece → Bool
busy p = p.state == state_busy

unfoldable pub busy_or_complete : Piece → Bool
busy_or_complete p = not (p.state == 0)

-- CompareAndSwap, with a panic on failure.
unfoldable pub set_state : Piece → ℕ → ℕ → Option Piece
set_state p old new = if p.state == old then some (record p { state = new }) else none

abbrev pub with_piece : Pieces → ℕ → Piece → Pieces
with_piece ps i p = record ps { pieces = set ps.pieces i p }

unfoldable pub num : Pieces → ℕ
num ps = length ps.pieces

abbrev pub fresh : Piece
fresh = record { buffer = none; bitmap = []; state = 0; time = 0; peers = [] }

-- A zero piece size divides by zero, which is a panic.
unfoldable pub metadata_complete : Pieces → ℕ → ℕ → Option Pieces
metadata_complete ps psize total =
    if ltb 0 ps.total
    then none
    else if psize == 0
    then none
    else some (record ps {
      pieces = replicate ((total + (psize - 1)) / psize) fresh;
      piece_size = psize;
      total = total;
    })

-- UpdateTime, at the time `wh`.
unfoldable pub update_time : Pieces → ℕ → ℕ → Option (Pieces × Bool)
unfolding complete
update_time ps index wh = do
  p ← get_elem? ps.pieces index
  some (
      if ltb p.time wh
      then (with_piece ps index (record p { time = wh }), complete p)
      else (ps, complete p))

-- The loop of Bitmap, over the pieces from number `i`.
mark_complete : ℕ → List Piece → Bitmap → Bitmap
unfolding complete
mark_complete i [] b = b
mark_complete i (p ∷ l) b =
    let b' = if complete p then Bitmap.set b i else b in mark_complete (i + 1) l b'

unfoldable pub bitmap_of : Pieces → Bitmap
unfolding mark_complete num
bitmap_of ps = mark_complete 0 ps.pieces (Bitmap.new (num ps))

all_complete : List Piece → Bool
unfolding complete
all_complete [] = true
all_complete (p ∷ l) = if not (complete p) then false else all_complete l

unfoldable pub all : Pieces → Bool
unfolding all_complete
all ps = all_complete ps.pieces

unfoldable pub piece_empty : Pieces → ℕ → Option Bool
piece_empty ps n = do p ← get_elem? ps.pieces n; some (Bitmap.empty p.bitmap)

unfoldable pub piece_length : Pieces → ℕ → ℕ
piece_length ps index =
    let last = ps.total / ps.piece_size % 2 ^ 32 in
    if ltb index last
    then ps.piece_size
    else if index == last
    then ps.total % ps.piece_size % 2 ^ 32
    else 0

unfoldable pub piece_chunks : Pieces → ℕ → ℕ
unfolding piece_length
piece_chunks ps index = (piece_length ps index + chunk_size - 1) % 2 ^ 32 / chunk_size

unfoldable pub piece_bitmap : Pieces → ℕ → Option (ℕ × Bitmap)
unfolding piece_chunks
piece_bitmap ps n = do p ← get_elem? ps.pieces n; some (piece_chunks ps n, Bitmap.copy p.bitmap)

-- The bytes read into a buffer of `size` bytes from offset `off`; io.EOF is `some (inl tt)` there.
pub data Read : Type 0 where
  eof : Read
  bytes : List ℕ → Read

pub read_piece : Piece → ℕ → ℕ → Read
unfolding complete
read_piece p size begin = elim p.buffer [
  | none ↦ bytes []
  | some d ↦
      if not (complete p) || leb (length d) begin
      then bytes []
      else bytes (take size (drop begin d))
]

unfoldable pub read_at : Pieces → ℕ → ℕ → Option Read
unfolding read_piece
read_at ps size off = if leb ps.total off then some eof else do
  p ← get_elem? ps.pieces (off / ps.piece_size)
  some (read_piece p size (off % ps.piece_size))
