-- ===== src/Piece/Life/Reading.antt =====
-- What ReadAt hands out, after any calls.
use storrent.Prelude.{
  ℕ, zero, suc, ◌+◌, ◌-◌, ◌/◌, ◌%◌, ◌≡◌, inl, inr, not, ◌||◌, List, ◌∷◌, none, some, leb, get_elem?,
  length, take, drop, replicate, arith, Bool-cases, Option-cases, ap, sym, ◌∙◌,
}
use storrent.Piece.{
  Piece, Pieces, bytes, fresh, complete, state_complete, metadata_complete, read_piece, read_at,
}
use storrent.Piece.Life.{bytes_of}
use storrent.Piece.Life.Steps.{System, Reach, Valid, idle, hashing, validated, Sound, Reach-Sound}

replicate-fresh : (n i : ℕ) (p : Piece) → get_elem? (replicate n fresh) i ≡ some p → p.state ≡ 0
replicate-fresh zero i p e = cc
replicate-fresh (suc n) zero p e = ground arith
replicate-fresh (suc n) (suc i) p e = replicate-fresh n i p e

-- The store that MetadataComplete sets up, before any call.
abbrev pub start : Pieces → System
start ps = record { store = ps; taken = λ i. none; waiting = λ i. 0 }

module _ (sha1 : List ℕ → List ℕ) (expected : ℕ → List ℕ) where
  pub start-Sound :
      (old : Pieces) (psize total : ℕ) (ps : Pieces)
      → metadata_complete old psize total ≡ some ps
      → Sound sha1 expected (start ps)
  unfolding metadata_complete
  start-Sound old psize total ps e i p at =
      let n : ℕ = (total + (psize - 1)) / psize in
      let all_fresh : ps.pieces ≡ replicate n fresh = ground arith in
      idle (replicate-fresh n i p (sym (ap (λ l. get_elem? l i) all_fresh) ∙ at))

  read_piece_complete :
      (p : Piece) (size begin : ℕ) (x : ℕ) (d : List ℕ)
      → read_piece p size begin ≡ bytes (x ∷ d)
      → (p.state ≡ state_complete) × (x ∷ d ≡ take size (drop begin (bytes_of p.buffer)))
  unfolding read_piece complete
  read_piece_complete p size begin x d e = elim (Option-cases p.buffer) [
    | inl empty ↦ absurd (ground (arith, rw (empty, read_piece) at e))
    | inr (buf, held) ↦ elim (Bool-cases (not (complete p) || leb (length buf) begin)) [
      | inl stop ↦ absurd (ground (arith, rw (held, read_piece) at e))
      | inr go ↦ ground (arith, rw (held, read_piece) at e)
    ]
  ]

  -- Data read at any time, after any calls in any order on the store that MetadataComplete sets up,
  -- is a part of a piece whose hash is the expected one.
  pub read_at-validated :
      (old : Pieces) (psize total : ℕ) (ps : Pieces) (t : System) (size off x : ℕ) (d : List ℕ)
      → metadata_complete old psize total ≡ some ps
      → Reach sha1 expected (start ps) t
      → read_at t.store size off ≡ some (bytes (x ∷ d))
      → (p : Piece) × (get_elem? t.store.pieces (off / t.store.piece_size) ≡ some p)
        × (sha1 (bytes_of p.buffer) ≡ expected (off / t.store.piece_size))
        × (x ∷ d ≡ take size (drop (off % t.store.piece_size) (bytes_of p.buffer)))
  unfolding read_at complete
  read_at-validated old psize total ps t size off x d made reach e =
      elim (Option-cases (get_elem? t.store.pieces (off / t.store.piece_size))) [
        | inl out ↦ absurd (ground (arith, rw out at e))
        | inr (p, at) ↦
            let one : read_piece p size (off % t.store.piece_size) ≡ bytes (x ∷ d) =
              ground (arith, rw at at e) in
            let (st, part) = read_piece_complete p size (off % t.store.piece_size) x d one in
            (
              p,
              at,
              sum p st (
                  Reach-Sound sha1 expected (start-Sound old psize total ps made) reach
                    (off / t.store.piece_size) p at),
              part,
            )
      ]
    where
      sum :
          (p : Piece)
          → p.state ≡ state_complete
          → Valid sha1 expected (t.taken (off / t.store.piece_size)) (off / t.store.piece_size) p
          → sha1 (bytes_of p.buffer) ≡ expected (off / t.store.piece_size)
      sum p st (idle z) = absurd (omega arith)
      sum p st (hashing z tk) = absurd (omega arith)
      sum p st (validated z h) = h
