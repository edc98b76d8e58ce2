-- ===== src/Piece/Layout.antt =====
-- How a torrent is cut into pieces, and a piece into chunks.
use storrent.Prelude.{
  ℕ, suc, ◌+◌, ◌-◌, ◌*◌, ◌/◌, ◌%◌, ◌^◌, ◌≤◌, ◌<◌, ◌≡◌, ◌↔◌, min, ltb, ◌==◌, if◌then◌else◌, length,
  arith, Bool-cases, inl, inr, ◌∙◌,
}
use storrent.Piece.{Pieces, chunk_size, piece_length, piece_chunks}
use native.Mathlib.Nat.{div-add-mod', mod-lt, le-div_iff_mul-le}

-- What MetadataComplete sets up from metadata with a nonzero piece size that is a multiple of the
-- chunk size, of a torrent that has fewer than 2 ^ 32 pieces.
pub record IsSized (ps : Pieces) : Type 0 where
  pub positive : 0 < ps.piece_size
  pub in_chunks : ps.piece_size % chunk_size ≡ 0
  pub size_fits : ps.piece_size < 2 ^ 32
  pub few : ps.total / ps.piece_size < 2 ^ 32
  pub number : length ps.pieces ≡ (ps.total + (ps.piece_size - 1)) / ps.piece_size

mul_mono : (a b p : ℕ) → a ≤ b → a * p ≤ b * p
mul_mono a b p h = grind arith

mul_suc : (a p : ℕ) → (a + 1) * p ≡ a * p + p
mul_suc a p = omega arith

-- The piece `i` of `q` whole pieces of size `p` and `r` bytes more.
piece_at :
    (p q r i : ℕ)
    → r < p
    → (if ltb i q then p else if i == q then r else 0) ≡ min p (q * p + r - i * p)
piece_at p q r i h = elim (Bool-cases (ltb i q)) [
  | inl inner ↦ rw inner (omega (arith, mul_mono (i + 1) q p (ground arith), mul_suc i p))
  | inr outer ↦ elim (Bool-cases (i == q)) [
    | inl last ↦ let e : i ≡ q = ground arith in rw (outer, last, e) (omega arith)
    | inr beyond ↦
        rw (outer, beyond) (omega (arith, mul_mono (q + 1) i p (ground arith), mul_suc q p))
  ]
]

module _ (ps : Pieces) (s : IsSized ps) where
  split_total : ps.total / ps.piece_size * ps.piece_size + ps.total % ps.piece_size ≡ ps.total
  split_total = div-add-mod' ps.total ps.piece_size

  -- Every piece has the piece size but the last, which has what is left; beyond it, 0.
  pub piece_length_lem :
      (index : ℕ) → piece_length ps index ≡ min ps.piece_size (ps.total - index * ps.piece_size)
  unfolding piece_length
  piece_length_lem index =
      let rest = mod-lt ps.total s.positive in
      let q : ps.total / ps.piece_size % 2 ^ 32 ≡ ps.total / ps.piece_size = omega (arith, s.few) in
      let r : ps.total % ps.piece_size % 2 ^ 32 ≡ ps.total % ps.piece_size =
        omega (arith, rest, s.size_fits) in
      rw (q, r)
        (piece_at ps.piece_size (ps.total / ps.piece_size) (ps.total % ps.piece_size) index rest
          ∙ rw split_total)

  pub piece_length-lt : (index : ℕ) → piece_length ps index < 2 ^ 32
  piece_length-lt index = omega (arith, piece_length_lem index, s.size_fits)

  pub piece_length-le : (index : ℕ) → piece_length ps index ≤ ps.piece_size
  piece_length-le index = omega (arith, piece_length_lem index)

  -- The chunks of a piece cover it, and each begins inside it.
  pub piece_chunks_lem :
      (index c : ℕ) → (c < piece_chunks ps index) ↔ (c * chunk_size < piece_length ps index)
  unfolding piece_chunks
  piece_chunks_lem index c =
      let l = piece_length-le index in
      (λ h. omega (arith, s.in_chunks, s.size_fits), λ h. omega (arith, s.in_chunks, s.size_fits))

  -- Every byte of the torrent lies in a piece that is there, inside its length; so the lookups of
  -- ReadAt are in range for every offset before the end.
  pub offset_in_piece :
      (off : ℕ)
      → off < ps.total
      → (off / ps.piece_size < length ps.pieces)
        × (off % ps.piece_size < piece_length ps (off / ps.piece_size))
  offset_in_piece off h =
      let p = ps.piece_size in
      let cut = div-add-mod' off p in
      let rest = mod-lt off s.positive in
      (
        rw s.number
            ((le-div_iff_mul-le {k = p} {x = suc (off / p)} s.positive).1 (omega (arith, cut))),
        omega (arith, piece_length_lem (off / p), cut),
      )
