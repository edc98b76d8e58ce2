-- ===== src/Piece/Store/Effect.antt =====
-- What AddData does to a piece that is neither busy nor complete.
use storrent.Prelude.{
  ℕ, ◌+◌, ◌-◌, ◌*◌, ◌/◌, ◌%◌, ◌^◌, ◌≤◌, ◌<◌, ◌≡◌, refl, ◌↔◌, Bool, true, false, not, ◌&&◌, ◌||◌,
  List, min, ◌⊎◌, inl, inr, Option, none, some, ltb, leb, ◌==◌, if◌then◌else◌, length, get_elem?,
  set, get_or, replicate, length-replicate, get_or-replicate, arith, Bool-cases, Option-cases, ap,
  sym, ◌∙◌, lt→ltb, ltb→lt,
}
use storrent.Bitmap
use storrent.Bitmap.{Bitmap, IsBitmap}
use storrent.Bitmap.Queries.{all_iff}
use storrent.Piece.{
  Piece, Pieces, chunk_size, busy_or_complete, piece_length, piece_chunks, max_uint32,
}
use storrent.Piece.Layout.{IsSized, piece_length-lt, piece_chunks_lem}
use storrent.Piece.Store.{
  Filling, Added, fill_loop, add_peer, add_chunks, add_checked, add_guarded, add_data,
}
use storrent.Piece.Store.Loop.{Advance, IsReady, Ends, fill_loop-Advance}

abbrev pub is_none : Option (List ℕ) → Bool
is_none none = true
is_none (some d) = false

-- The bytes of a piece that has none yet read as zeros.
abbrev byte_of : Option (List ℕ) → ℕ → ℕ
byte_of none j = 0
byte_of (some d) j = get_or d j 0

abbrev pub byte_at : Piece → ℕ → ℕ
byte_at p j = byte_of p.buffer j

-- The buffer is as long as the piece, and no chunk beyond its end is marked.
pub record Fits (ps : Pieces) (index : ℕ) (p : Piece) : Type 0 where
  pub bits_ok : IsBitmap p.bitmap
  pub bits_in : (c : ℕ) → Bitmap.get p.bitmap c ≡ true → c < piece_chunks ps index
  pub sized : (d : List ℕ) → p.buffer ≡ some d → length d ≡ piece_length ps index
  pub no_data : p.buffer ≡ none → (c : ℕ) → Bitmap.get p.bitmap c ≡ false

-- What a successful AddData of `input` at `begin` has done to the piece `p` by taking `n` bytes of
-- it: the chunks of that range are marked, and those that were not marked before hold the input.
pub record Stores (ps : Pieces) (index begin : ℕ) (input : List ℕ) (p p' : Piece) (n : ℕ)
    : Type 0 where
  pub taken : n ≤ length input
  pub in_piece : begin + n ≤ piece_length ps index
  pub greedy :
      (begin + n ≡ piece_length ps index)
      ⊎ (length input < n + min chunk_size (piece_length ps index - (begin + n)))
  pub fits : Fits ps index p'
  pub marked :
      (c : ℕ)
      → Bitmap.get p'.bitmap c ≡ (
          Bitmap.get p.bitmap c || (leb begin (c * chunk_size) && ltb (c * chunk_size) (begin + n)))
  pub content :
      (j : ℕ)
      → byte_at p' j ≡ (
          if leb begin j && (ltb j (begin + n) && not (Bitmap.get p.bitmap (j / chunk_size)))
          then get_or input (j - begin) 0
          else byte_at p j)
  pub same_state : (p'.state ≡ p.state) × (p'.time ≡ p.time)

peer_if : Bool → Piece → ℕ → Piece
peer_if b p peer = if b then add_peer p peer else p

-- Recording the peer leaves the rest of the piece alone.
record SameData (p q : Piece) : Type 0 where
  buffer_same : q.buffer ≡ p.buffer
  bitmap_same : q.bitmap ≡ p.bitmap
  state_same : q.state ≡ p.state
  time_same : q.time ≡ p.time

peer_if-SameData : (b : Bool) (p : Piece) (peer : ℕ) → SameData p (peer_if b p peer)
unfolding peer_if add_peer
peer_if-SameData b p peer = ground arith

piece_length-used :
    (ps : Pieces) (used index : ℕ)
    → piece_length (record ps { count = used }) index ≡ piece_length ps index
unfolding piece_length
piece_length-used ps used index = refl

piece_chunks-used :
    (ps : Pieces) (used index : ℕ)
    → piece_chunks (record ps { count = used }) index ≡ piece_chunks ps index
unfolding piece_chunks
piece_chunks-used ps used index = refl

add_chunks_run :
    (ps : Pieces) (index begin : ℕ) (input : List ℕ) (p : Piece) (used : ℕ) (buf : List ℕ)
    (peer : ℕ) (g : Filling)
    → fill_loop
        (length input)
        (piece_length ps index)
        input
        (record { buf = buf; bits = p.bitmap; offset = begin; done = 0; added = false })
      ≡ some g
    → let kept = record p { buffer = some g.buf; bitmap = g.bits } in
      add_chunks (record ps { count = used }) index p buf begin input peer
      ≡ some (
        record ps {
          count = used;
          pieces = set ps.pieces index (peer_if (g.added && not (peer == max_uint32)) kept peer);
        },
        record {
          count = g.done;
          is_complete = Bitmap.all g.bits (piece_chunks ps index);
          error = none;
        },
      )
unfolding add_chunks peer_if
add_chunks_run ps index begin input p used buf peer g run =
    rw (piece_length-used ps used index, piece_chunks-used ps used index, run)

module _ (ps : Pieces) (s : IsSized ps) (index begin : ℕ) (input : List ℕ) (p : Piece) where
  stored-Stores :
      (buf : List ℕ)
      → Fits ps index p
      → length buf ≡ piece_length ps index
      → ((j : ℕ) → byte_at p j ≡ get_or buf j 0)
      → (g : Filling) (p' : Piece)
      → Advance
          (piece_length ps index)
          input
          (record { buf = buf; bits = p.bitmap; offset = begin; done = 0; added = false })
          g
      → Ends (piece_length ps index) input g
      → SameData (record p { buffer = some g.buf; bitmap = g.bits }) p'
      → Stores ps index begin input p p' g.done
  stored-Stores buf fit len base g p' a ends d =
      let pace : g.offset ≡ begin + g.done = omega (arith, a.same_pace) in
      record {
        taken = a.in_input;
        in_piece = omega (arith, a.in_piece);
        greedy = rw pace at ends;
        fits = record {
          bits_ok = rw d.bitmap_same a.bytes;
          bits_in = λ c h. ground (
            arith,
            marks c,
            fit.bits_in c,
            (piece_chunks_lem ps s index c).1,
            a.in_piece,
            a.same_pace,
          );
          sized = λ e h.
              let q : e ≡ g.buf = cc (sym h, d.buffer_same) in ap length q ∙ a.same_length ∙ len;
          no_data = λ e. absurd (cc (e, d.buffer_same));
        };
        marked = marks;
        content = λ j. bytes_are j;
        same_state = (d.state_same, d.time_same);
      }
    where
      marks :
          (c : ℕ)
          → Bitmap.get p'.bitmap c ≡ (
              Bitmap.get p.bitmap c
              || (leb begin (c * chunk_size) && ltb (c * chunk_size) (begin + g.done)))
      marks c = ap (λ b. Bitmap.get b c) d.bitmap_same ∙ a.marked c ∙ ground (arith, a.same_pace)

      bytes_are :
          (j : ℕ)
          → byte_at p' j ≡ (
              if leb begin j
                && (ltb j (begin + g.done) && not (Bitmap.get p.bitmap (j / chunk_size)))
              then get_or input (j - begin) 0
              else byte_at p j)
      bytes_are j =
          let back : get_or input (j - begin + 0) 0 ≡ get_or input (j - begin) 0 =
            ap (λ k. get_or input k 0) (omega arith) in
          ap (λ o. byte_of o j) d.buffer_same
          ∙ a.content j
          ∙ ground (arith, a.same_pace, back, base j)

  -- AddData from its loop on, given a buffer of the right length that agrees with the piece. The
  -- count of pieces in use plays no part.
  add_chunks-Stores :
      (used : ℕ) (buf : List ℕ) (peer : ℕ)
      → Fits ps index p
      → length buf ≡ piece_length ps index
      → ((j : ℕ) → byte_at p j ≡ get_or buf j 0)
      → length input < 2 ^ 32
      → begin % chunk_size ≡ 0
      → begin < piece_length ps index
      → (p' : Piece) × (r : Added) × (add_chunks
            (record ps { count = used })
            index
            p
            buf
            begin
            input
            peer
          ≡ some (record ps { count = used; pieces = set ps.pieces index p' }, r))
        × (r.error ≡ none)
        × (r.is_complete ≡ Bitmap.all p'.bitmap (piece_chunks ps index))
        × Stores ps index begin input p p' r.count
  add_chunks-Stores used buf peer fit len base short aligned inside =
      let f : Filling = record {
        buf = buf;
        bits = p.bitmap;
        offset = begin;
        done = 0;
        added = false;
      } in
      let ready : IsReady (piece_length ps index) input f = record {
        aligned = aligned;
        within = omega arith;
        fits = omega arith;
        bits_ok = fit.bits_ok;
        sized = len;
      } in
      let (g, run, a, ends) =
        fill_loop-Advance (piece_length ps index) input (piece_length-lt ps s index) short
          (length input) f ready (omega arith) in
      let b : Bool = g.added && not (peer == max_uint32) in
      let kept = record p { buffer = some g.buf; bitmap = g.bits } in
      let d = peer_if-SameData b kept peer in
      (
        peer_if b kept peer,
        record {
          count = g.done;
          is_complete = Bitmap.all g.bits (piece_chunks ps index);
          error = none;
        },
        add_chunks_run ps index begin input p used buf peer g run,
        refl,
        ap (λ bits. Bitmap.all bits (piece_chunks ps index)) (sym d.bitmap_same),
        stored-Stores buf fit len base g (peer_if b kept peer) a ends d,
      )

-- For a bitmap with no bit at `n` or later, All(n) says that the bits below `n` are set.
all-chunks :
    (b : Bitmap) (n : ℕ)
    → IsBitmap b
    → ((c : ℕ) → Bitmap.get b c ≡ true → c < n)
    → (Bitmap.all b n ≡ true) ↔ ((c : ℕ) → c < n → Bitmap.get b c ≡ true)
all-chunks b n h within = (
  λ e c lt. (all_iff b n h).0 e c (omega arith) ∙ lt→ltb c n lt,
  λ e. (all_iff b n h).1 (λ c _. elim (Bool-cases (ltb c n)) [
    | inl lt ↦ e c (ltb→lt c n lt) ∙ sym lt
    | inr ge ↦ elim (Bool-cases (Bitmap.get b c)) [
      | inl there ↦ absurd (ground (arith, within c there))
      | inr absent ↦ absent ∙ sym ge
    ]
  ]),
)

add_data-reaches :
    (ps : Pieces) (index begin : ℕ) (input : List ℕ) (peer : ℕ) (alloc_ok : Bool) (p : Piece)
    → get_elem? ps.pieces index ≡ some p
    → busy_or_complete p ≡ false
    → ps.deleted ≡ false
    → begin % chunk_size ≡ 0
    → begin < piece_length ps index
    → add_data ps index begin input peer alloc_ok
      ≡ add_checked ps index p p.buffer begin input peer alloc_ok
unfolding add_data add_guarded
add_data-reaches ps index begin input peer alloc_ok p at idle live aligned inside =
    let on_chunk : (begin % chunk_size == 0) ≡ true = ground arith in
    let before_end : leb (piece_length ps index) begin ≡ false = ground arith in
    simp (at, idle, live, on_chunk, before_end)

-- AddData of data for a piece that is neither busy nor complete, at the offset of a chunk, with
-- the torrent not deleted and memory to be had: it succeeds, changes that piece only, stores the
-- whole chunks that the input has from there on and that were missing, and no byte of a chunk that
-- was there before. It reports completion exactly when every chunk of the piece is there. The
-- count of pieces in use grows by one if the piece had no buffer.
pub add_data-Stores :
    (ps : Pieces) (index begin : ℕ) (input : List ℕ) (peer : ℕ) (p : Piece)
    → IsSized ps
    → get_elem? ps.pieces index ≡ some p
    → Fits ps index p
    → busy_or_complete p ≡ false
    → ps.deleted ≡ false
    → length input < 2 ^ 32
    → begin % chunk_size ≡ 0
    → begin < piece_length ps index
    → (p' : Piece) × (used : ℕ) × (r : Added) × (add_data ps index begin input peer true
        ≡ some (record ps { count = used; pieces = set ps.pieces index p' }, r))
      × (r.error ≡ none)
      × ((r.is_complete ≡ true)
          ↔ ((c : ℕ) → c < piece_chunks ps index → Bitmap.get p'.bitmap c ≡ true))
      × Stores ps index begin input p p' r.count
      × (used ≡ ps.count + (if is_none p.buffer then 1 else 0))
unfolding add_checked
add_data-Stores ps index begin input peer p s at fit idle live short aligned inside =
    elim (Option-cases p.buffer) [
      | inl empty ↦
          let zeros : List ℕ = replicate (piece_length ps index) 0 in
          let base = λ (j : ℕ).
            ap (λ o. byte_of o j) empty
            ∙ sym (get_or-replicate {A = ℕ} (piece_length ps index) j 0) in
          let (p', r, run, ok, done, st) =
            add_chunks-Stores ps s index begin input p (ps.count + 1) zeros peer fit
              (length-replicate {A = ℕ} (piece_length ps index) 0) base short aligned inside in
          (
            p',
            ps.count + 1,
            r,
            reach ∙ ap (λ o. add_checked ps index p o begin input peer true) empty ∙ run,
            ok,
            rw done (all-chunks p'.bitmap (piece_chunks ps index) st.fits.bits_ok st.fits.bits_in),
            st,
            rw empty,
          )
      | inr (d, held) ↦
          let base = λ (j : ℕ). ap (λ o. byte_of o j) held in
          let (p', r, run, ok, done, st) =
            add_chunks-Stores ps s index begin input p ps.count d peer fit (fit.sized d held) base
              short aligned inside in
          (
            p',
            ps.count,
            r,
            reach ∙ ap (λ o. add_checked ps index p o begin input peer true) held ∙ run,
            ok,
            rw done (all-chunks p'.bitmap (piece_chunks ps index) st.fits.bits_ok st.fits.bits_in),
            st,
            rw held (omega arith),
          )
    ]
  where
    reach :
        add_data ps index begin input peer true
        ≡ add_checked ps index p p.buffer begin input peer true
    reach = add_data-reaches ps index begin input peer true p at idle live aligned inside
