-- ===== src/Piece/Store.antt =====
-- AddData of tor/piece/piece.go, and addPeer.
pub mod Loop
pub mod Effect
pub mod Total
use storrent.Prelude.{
  ℕ, zero, suc, ◌+◌, ◌-◌, ◌*◌, ◌/◌, ◌%◌, ◌^◌, Bool, true, false, not, ◌&&◌, ◌||◌, List, [], ◌∷◌,
  ◌++◌, Option, none, some, ltb, leb, ◌==◌, if◌then◌else◌, ◌>>=◌, length, get_elem?, take, drop,
  replicate, copy_at,
}
use storrent.Bitmap
use storrent.Bitmap.{Bitmap}
use storrent.Piece.{
  Piece, Pieces, Error, was_deleted, odd_offset, beyond_end, no_memory, chunk_size, max_uint32,
  busy_or_complete, with_piece, piece_length, piece_chunks,
}

contains : ℕ → List ℕ → Bool
contains x [] = false
contains x (y ∷ l) = if y == x then true else contains x l

unfoldable pub add_peer : Piece → ℕ → Piece
unfolding contains
add_peer p peer =
    if peer == 0
    then p
    else if contains peer p.peers
    then p
    else record p { peers = p.peers ++ (peer ∷ []) }

-- The variables of the loop of AddData.
pub record Filling : Type 0 where
  pub buf : List ℕ
  pub bits : Bitmap
  pub offset : ℕ
  pub done : ℕ
  pub added : Bool

-- The body of the loop, once `l` is the length of the chunk at `offset`.
unfoldable pub store_chunk : Filling → List ℕ → ℕ → Filling
store_chunk f input l =
    let next = record f { offset = f.offset + l; done = f.done + l } in
    if not (Bitmap.get f.bits (f.offset / chunk_size))
    then record next {
      buf = copy_at f.buf f.offset (take l (drop f.done input));
      bits = Bitmap.set f.bits (f.offset / chunk_size);
      added = true;
    }
    else next

-- `l := pl - offset; if l > cs { l = cs }`
unfoldable pub chunk_length : ℕ → ℕ → ℕ
chunk_length pl offset =
    let l = (pl + 2 ^ 32 - offset) % 2 ^ 32 in if ltb chunk_size l then chunk_size else l

-- `none` where the fuel runs out; each round takes at least one byte of the input.
unfoldable pub fill_loop : ℕ → ℕ → List ℕ → Filling → Option Filling
unfolding store_chunk chunk_length
fill_loop zero pl input f = if ltb f.done (length input % 2 ^ 32) then none else some f
fill_loop (suc fuel) pl input f =
    let l = chunk_length pl f.offset in
    let f' = store_chunk f input l in
    let rest = fill_loop fuel pl input f' in
    if not (ltb f.done (length input % 2 ^ 32))
    then some f
    else if (l == 0) || ltb (length input % 2 ^ 32) (f.done + l)
    then some f
    else if not (l % chunk_size == 0)
    then some f'
    else rest

-- The results of AddData: how many bytes were taken, whether all chunks are there, and an error.
pub record Added : Type 0 where
  pub count : ℕ
  pub is_complete : Bool
  pub error : Option Error

abbrev pub failed : Error → Added
failed e = record { count = 0; is_complete = false; error = some e }

-- From the loop on, with the piece `p` that has the buffer `buf`.
unfoldable pub add_chunks : Pieces → ℕ → Piece → List ℕ → ℕ → List ℕ → ℕ → Option (Pieces × Added)
add_chunks ps index p buf begin input peer = do
  f ←
      fill_loop (length input) (piece_length ps index) input
        (record { buf = buf; bits = p.bitmap; offset = begin; done = 0; added = false })
  let p' = record p { buffer = some f.buf; bitmap = f.bits }
  let p'' = if f.added && not (peer == max_uint32) then add_peer p' peer else p'
  some (
    with_piece ps index p'',
    record {
      count = f.done;
      is_complete = Bitmap.all f.bits (piece_chunks ps index);
      error = none;
    },
  )

-- From the allocation on, with the piece's buffer; `alloc_ok` says whether alloc.Alloc succeeds.
unfoldable pub add_checked :
    Pieces → ℕ → Piece → Option (List ℕ) → ℕ → List ℕ → ℕ → Bool → Option (Pieces × Added)
add_checked ps index p (some d) begin input peer alloc_ok = add_chunks ps index p d begin input peer
add_checked ps index p none begin input peer alloc_ok =
    if not alloc_ok
    then some (ps, failed no_memory)
    else add_chunks (record ps { count = ps.count + 1 }) index p
        (replicate (piece_length ps index) 0) begin input peer

-- From the second test under the lock on.
unfoldable pub add_guarded : Pieces → ℕ → Piece → ℕ → List ℕ → ℕ → Bool → Option (Pieces × Added)
add_guarded ps index p begin input peer alloc_ok =
    if busy_or_complete p
    then some (ps, record { count = 0; is_complete = false; error = none })
    else if ps.deleted
    then some (ps, failed was_deleted)
    else if not (begin % chunk_size == 0)
    then some (ps, failed odd_offset)
    else if leb (piece_length ps index) begin
    then some (ps, failed beyond_end)
    else add_checked ps index p p.buffer begin input peer alloc_ok

unfoldable pub add_data : Pieces → ℕ → ℕ → List ℕ → ℕ → Bool → Option (Pieces × Added)
add_data ps index begin input peer alloc_ok = do
  p ← get_elem? ps.pieces index
  add_guarded ps index p begin input peer alloc_ok
