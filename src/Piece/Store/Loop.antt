-- ===== src/Piece/Store/Loop.antt =====
-- The loop of AddData: its end, how much of the input it takes, and which chunks it writes.
use storrent.Prelude.{
  ℕ, zero, suc, ◌+◌, ◌-◌, ◌*◌, ◌/◌, ◌%◌, ◌^◌, ◌≤◌, ◌<◌, ◌≡◌, refl, not, ◌&&◌, ◌||◌, List, min, ◌⊎◌,
  inl, inr, some, ltb, leb, ◌==◌, if◌then◌else◌, length, take, drop, get_or, get_or-copy_at,
  get_or-take, get_or-drop, length-copy_at, length-take, length-drop, copy_at, arith, Bool-cases,
  ap, ◌∙◌,
}
use storrent.Bitmap
use storrent.Bitmap.{Bitmap, IsBitmap}
use storrent.Bitmap.Updates.{get-set, set-IsBitmap}
use storrent.Piece.{chunk_size}
use storrent.Piece.Store.{Filling, store_chunk, chunk_length, fill_loop}

-- What has happened between two points of the loop. The chunks from the old offset up to the new
-- one are marked; where a chunk was not marked before, its bytes are the input's, and all other
-- bytes are as they were.
pub record Advance (pl : ℕ) (input : List ℕ) (f g : Filling) : Type 0 where
  pub forward : f.offset ≤ g.offset
  pub same_pace : g.offset + f.done ≡ f.offset + g.done
  pub in_input : g.done ≤ length input
  pub in_piece : g.offset ≤ pl
  pub whole : (g.offset ≡ pl) ⊎ (g.offset % chunk_size ≡ 0)
  pub bytes : IsBitmap g.bits
  pub same_length : length g.buf ≡ length f.buf
  pub marked :
      (c : ℕ)
      → Bitmap.get g.bits c
        ≡ (Bitmap.get f.bits c || (leb f.offset (c * chunk_size) && ltb (c * chunk_size) g.offset))
  pub content :
      (j : ℕ)
      → get_or g.buf j 0 ≡ (
          if leb f.offset j && (ltb j g.offset && not (Bitmap.get f.bits (j / chunk_size)))
          then get_or input (j - f.offset + f.done) 0
          else get_or f.buf j 0)

module _ (pl : ℕ) (input : List ℕ) where
  -- The state at which the loop tests its condition.
  pub record IsReady (f : Filling) : Type 0 where
    pub aligned : f.offset % chunk_size ≡ 0
    pub within : f.offset ≤ pl
    pub fits : f.done ≤ length input
    pub bits_ok : IsBitmap f.bits
    pub sized : length f.buf ≡ pl

  Advance-refl : {f : Filling} → IsReady f → Advance pl input f f
  Advance-refl {f} r = record {
    forward = omega arith;
    same_pace = refl;
    in_input = r.fits;
    in_piece = r.within;
    whole = inr r.aligned;
    bytes = r.bits_ok;
    same_length = refl;
    marked = λ c. ground arith;
    content = λ j. ground arith;
  }

  Advance-trans :
      {f g h : Filling}
      → g.offset % chunk_size ≡ 0
      → Advance pl input f g
      → Advance pl input g h
      → Advance pl input f h
  Advance-trans {f} {g} {h} aligned a b = record {
    forward = omega (arith, a.forward, b.forward);
    same_pace = omega (arith, a.same_pace, b.same_pace);
    in_input = b.in_input;
    in_piece = b.in_piece;
    whole = b.whole;
    bytes = b.bytes;
    same_length = b.same_length ∙ a.same_length;
    marked = λ c. b.marked c ∙ ground (arith, a.marked c, a.forward, b.forward);
    content = λ j.
        b.content j
        ∙ ground (arith, a.content j, a.marked (j / chunk_size), a.forward, b.forward, back j);
  }
    where
      back :
          (j : ℕ)
          → g.offset ≤ j
          → get_or input (j - g.offset + g.done) 0 ≡ get_or input (j - f.offset + f.done) 0
      back j le = ap (λ k. get_or input k 0) (omega (arith, a.forward, a.same_pace))

  -- One chunk of length `l`.
  module _ (f : Filling) (l : ℕ) (r : IsReady f) (pos : 0 < l) (small : l ≤ chunk_size)
      (room : f.offset + l ≤ pl) (enough : f.done + l ≤ length input)
      (end : (f.offset + l ≡ pl) ⊎ (l ≡ chunk_size)) where
    slice_length : length (take l (drop f.done input)) ≡ l
    slice_length = omega (arith, length-take l (drop f.done input), length-drop f.done input)

    slice : (k : ℕ) → k < l → get_or (take l (drop f.done input)) k 0 ≡ get_or input (k + f.done) 0
    slice k lt =
        get_or-take l k (drop f.done input) 0 lt
        ∙ get_or-drop f.done k input 0
        ∙ ap (λ n. get_or input n 0) (omega arith)

    written :
        (j : ℕ)
        → get_or (copy_at f.buf f.offset (take l (drop f.done input))) j 0 ≡ (
            if leb f.offset j && ltb j (f.offset + l)
            then get_or input (j - f.offset + f.done) 0
            else get_or f.buf j 0)
    written j =
        get_or-copy_at f.buf f.offset (take l (drop f.done input)) j 0
          (omega (arith, slice_length, r.sized))
        ∙ rw slice_length (ground (arith, slice (j - f.offset)))

    one_chunk :
        (c : ℕ)
        → (leb f.offset (c * chunk_size) && ltb (c * chunk_size) (f.offset + l))
          ≡ (f.offset / chunk_size == c)
    one_chunk c = ground (arith, r.aligned)

    same_chunk : (j : ℕ) → f.offset ≤ j → j < f.offset + l → j / chunk_size ≡ f.offset / chunk_size
    same_chunk j lo hi = omega (arith, r.aligned)

    store_chunk-Advance : Advance pl input f (store_chunk f input l)
    unfolding store_chunk
    store_chunk-Advance = elim (Bool-cases (Bitmap.get f.bits (f.offset / chunk_size))) [
      | inl there ↦ rw there (record {
        forward = omega arith;
        same_pace = omega arith;
        in_input = enough;
        in_piece = room;
        whole = ground (arith, r.aligned);
        bytes = r.bits_ok;
        same_length = refl;
        marked = λ c. rw (one_chunk c) (ground (arith, there));
        content = λ j. ground (arith, there, same_chunk j);
      })
      | inr absent ↦ rw absent (record {
        forward = omega arith;
        same_pace = omega arith;
        in_input = enough;
        in_piece = room;
        whole = ground (arith, r.aligned);
        bytes = set-IsBitmap f.bits (f.offset / chunk_size) r.bits_ok;
        same_length = length-copy_at f.buf f.offset _;
        marked = λ c.
            get-set f.bits (f.offset / chunk_size) c r.bits_ok ∙ rw (one_chunk c) (ground arith);
        content = λ j. written j ∙ ground (arith, absent, same_chunk j);
      })
    ]

-- Where the loop ends: at the end of the piece, or where the input has no whole chunk left.
abbrev pub Ends : ℕ → List ℕ → Filling → Type 0
Ends pl input f = (f.offset ≡ pl) ⊎ (length input < f.done + min chunk_size (pl - f.offset))

module _ (pl : ℕ) (input : List ℕ) (small_piece : pl < 2 ^ 32)
    (small_input : length input < 2 ^ 32) where
  chunk_length_lem : (off : ℕ) → off ≤ pl → chunk_length pl off ≡ min chunk_size (pl - off)
  unfolding chunk_length
  chunk_length_lem off h = ground arith

  store_chunk-offset : (f : Filling) (l : ℕ) → (store_chunk f input l).offset ≡ f.offset + l
  unfolding store_chunk
  store_chunk-offset f l = ground arith

  store_chunk-done : (f : Filling) (l : ℕ) → (store_chunk f input l).done ≡ f.done + l
  unfolding store_chunk
  store_chunk-done f l = ground arith

  module _ (f : Filling) (r : IsReady pl input f) where
    abbrev step_size : ℕ
    step_size = chunk_length pl f.offset

    -- A round that stores a chunk.
    round-Advance :
        0 < step_size
        → f.done + step_size ≤ length input
        → Advance pl input f (store_chunk f input step_size)
    round-Advance pos enough =
        let e = chunk_length_lem f.offset r.within in
        store_chunk-Advance pl input f step_size r pos (omega (arith, e))
          (omega (arith, e, r.within)) enough (ground (arith, e, r.within))

  pub fill_loop-Advance :
      (fuel : ℕ) (f : Filling)
      → IsReady pl input f
      → length input ≤ f.done + fuel
      → (g : Filling) × (fill_loop fuel pl input f ≡ some g)
        × Advance pl input f g
        × Ends pl input g
  unfolding fill_loop
  fill_loop-Advance zero f r enough =
      (f, ground (arith, r.fits), Advance-refl pl input r, ground (arith, r.within))
  fill_loop-Advance (suc fuel) f r enough = elim (Bool-cases (ltb f.done (length input % 2 ^ 32))) [
    | inr out ↦ (f, rw (out, fill_loop), Advance-refl pl input r, ground (arith, r.within, r.fits))
    | inl more ↦ elim (Bool-cases ((l == 0) || ltb (length input % 2 ^ 32) (f.done + l))) [
      | inl short ↦
          (f, rw (more, short, fill_loop), Advance-refl pl input r, ground (arith, r.within, e))
      | inr chunk ↦
          let step = round-Advance f r (ground arith) (ground arith) in
          elim (Bool-cases (l % chunk_size == 0)) [
            | inr partial ↦ (
              store_chunk f input l,
              rw (more, chunk, partial, fill_loop),
              step,
              inl (ground (arith, e, store_chunk-offset f l, r.within)),
            )
            | inl whole ↦
                let (g, run, rest, end) =
                  fill_loop-Advance fuel (store_chunk f input l) (ready step (ground arith))
                    (ground (arith, store_chunk-done f l)) in
                (
                  g,
                  rw (more, chunk, whole, fill_loop) run,
                  Advance-trans pl input (ground (arith, store_chunk-offset f l, r.aligned)) step
                      rest,
                  end,
                )
          ]
    ]
  ]
    where
      l : ℕ
      l = chunk_length pl f.offset

      e : l ≡ min chunk_size (pl - f.offset)
      e = chunk_length_lem f.offset r.within

      ready :
          Advance pl input f (store_chunk f input l)
          → l % chunk_size ≡ 0
          → IsReady pl input (store_chunk f input l)
      ready a whole = record {
        aligned = omega (arith, store_chunk-offset f l, r.aligned);
        within = a.in_piece;
        fits = a.in_input;
        bits_ok = a.bytes;
        sized = a.same_length ∙ r.sized;
      }
