-- ===== src/Piece/Store/Total.antt =====
-- Whether AddData returns, and what it does to the layout of the torrent.
use storrent.Prelude.{
  ℕ, zero, suc, ◌+◌, ◌/◌, ◌%◌, ◌^◌, ◌≤◌, ◌<◌, ◌≡◌, refl, Bool, true, false, not, ◌||◌, List, Option,
  none, some, ltb, leb, ◌==◌, if◌then◌else◌, length, get_elem?, length-set, get_elem?-beyond, arith,
  inl, inr, Bool-cases, Option-cases, ◌∙◌,
}
use storrent.Bitmap
use storrent.Piece.{
  Piece, Pieces, was_deleted, odd_offset, beyond_end, no_memory, chunk_size, busy_or_complete,
  piece_length,
}
use storrent.Piece.Layout.{IsSized}
use storrent.Piece.Store.{
  Filling, Added, failed, store_chunk, chunk_length, fill_loop, add_chunks, add_checked,
  add_guarded, add_data,
}

store_chunk-done :
    (f : Filling) (input : List ℕ) (l : ℕ) → (store_chunk f input l).done ≡ f.done + l
unfolding store_chunk
store_chunk-done f input l = elim (Bool-cases (Bitmap.get f.bits (f.offset / chunk_size))) [
  | inl there ↦ rw there refl
  | inr absent ↦ rw absent refl
]

Stops : Option Filling → Type 0
Stops x = (g : Filling) × (x ≡ some g)

either-Stops : (b : Bool) (x y : Option Filling) → Stops x → Stops y → Stops (if b then x else y)
either-Stops true x y e f = e
either-Stops false x y e f = f

fill_loop-total :
    (fuel pl : ℕ) (input : List ℕ) (f : Filling)
    → length input % 2 ^ 32 ≤ f.done + fuel
    → Stops (fill_loop fuel pl input f)
unfolding fill_loop Stops
fill_loop-total zero pl input f le = (f, ground (arith, le))
fill_loop-total (suc fuel) pl input f le =
    let l : ℕ = chunk_length pl f.offset in
    elim (Bool-cases (l == 0)) [
      | inl stop ↦ (f, ground (arith, stop))
      | inr on ↦
          let f' : Filling = store_chunk f input l in
          let rest =
            fill_loop-total fuel pl input f' (ground (arith, le, store_chunk-done f input l)) in
          either-Stops (not (ltb f.done (length input % 2 ^ 32))) _ _ (f, refl)
            (either-Stops ((l == 0) || ltb (length input % 2 ^ 32) (f.done + l)) _ _ (f, refl)
              (either-Stops (not (l % chunk_size == 0)) _ _ (f', refl) rest))
    ]

-- The layout of `ps'` is that of `ps`.
pub record SameLayout (ps ps' : Pieces) : Type 0 where
  pub size : ps'.piece_size ≡ ps.piece_size
  pub total : ps'.total ≡ ps.total
  pub number : length ps'.pieces ≡ length ps.pieces

pub SameLayout-IsSized : (ps ps' : Pieces) → SameLayout ps ps' → IsSized ps → IsSized ps'
SameLayout-IsSized ps ps' e s = record {
  positive = rw e.size s.positive;
  in_chunks = rw e.size s.in_chunks;
  size_fits = rw e.size s.size_fits;
  few = rw (e.size, e.total) s.few;
  number = e.number ∙ rw (e.size, e.total) s.number;
}

-- The call returns, and keeps the layout of `ps`.
Returns : Pieces → Option (Pieces × Added) → Type 0
Returns ps x = (ps' : Pieces) × (r : Added) × (x ≡ some (ps', r)) × SameLayout ps ps'

either-Returns :
    (b : Bool) (ps : Pieces) (x y : Option (Pieces × Added))
    → Returns ps x
    → Returns ps y
    → Returns ps (if b then x else y)
either-Returns true ps x y e f = e
either-Returns false ps x y e f = f

same : (ps : Pieces) (r : Added) → Returns ps (some (ps, r))
unfolding Returns
same ps r = (ps, r, refl, record { size = refl; total = refl; number = refl })

add_chunks-Returns :
    (ps ps0 : Pieces) (index : ℕ) (p : Piece) (buf : List ℕ) (begin : ℕ) (input : List ℕ) (peer : ℕ)
    → SameLayout ps0 ps
    → Returns ps0 (add_chunks ps index p buf begin input peer)
unfolding Returns add_chunks Stops
add_chunks-Returns ps ps0 index p buf begin input peer k =
    let f : Filling = record {
      buf = buf;
      bits = p.bitmap;
      offset = begin;
      done = 0;
      added = false;
    } in
    let (g, e) = fill_loop-total (length input) (piece_length ps index) input f (omega arith) in
    rw e (
      _,
      _,
      refl,
      record { size = k.size; total = k.total; number = length-set ps.pieces index _ ∙ k.number },
    )

add_checked-Returns :
    (ps : Pieces) (index : ℕ) (p : Piece) (buffer : Option (List ℕ)) (begin : ℕ) (input : List ℕ)
    (peer : ℕ) (ok : Bool)
    → Returns ps (add_checked ps index p buffer begin input peer ok)
unfolding add_checked
add_checked-Returns ps index p (some d) begin input peer ok =
    add_chunks-Returns ps ps index p d begin input peer
      (record { size = refl; total = refl; number = refl })
add_checked-Returns ps index p none begin input peer ok =
    either-Returns (not ok) ps _ _ (same ps (failed no_memory)) (
      add_chunks-Returns _ ps index p _ begin input peer
        (record { size = refl; total = refl; number = refl }))

pub add_data-total :
    (ps : Pieces) (index begin : ℕ) (input : List ℕ) (peer : ℕ) (ok : Bool)
    → index < length ps.pieces
    → (ps' : Pieces) × (r : Added) × (add_data ps index begin input peer ok ≡ some (ps', r))
      × SameLayout ps ps'
unfolding add_data add_guarded Returns
add_data-total ps index begin input peer ok lt = elim (Option-cases (get_elem? ps.pieces index)) [
  | inl missing ↦ absurd (omega (arith, lt, get_elem?-beyond ps.pieces index missing))
  | inr (p, at) ↦ rw at (
      either-Returns (busy_or_complete p) ps _ _
        (same ps (record { count = 0; is_complete = false; error = none }))
        (either-Returns ps.deleted ps _ _ (same ps (failed was_deleted)) (
          either-Returns (not (begin % chunk_size == 0)) ps _ _ (same ps (failed odd_offset)) (
            either-Returns (leb (piece_length ps index) begin) ps _ _ (same ps (failed beyond_end))
              (add_checked-Returns ps index p p.buffer begin input peer ok)))))
]
