-- ===== src/Piece/Life/Steps.antt =====
-- The piece store under concurrent calls: the steps that goroutines make on it, in any order, with
-- the hash of a piece computed between the two parts of Finalise.
use storrent.Prelude.{
  ℕ, zero, suc, ◌+◌, ◌≤◌, ◌≡◌, refl, ◌≢◌, ◌⊎◌, inl, inr, Bool, true, false, List, [], ◌∷◌, Option,
  none, some, ◌==◌, if◌then◌else◌, get_elem?, set, arith, eq→==, ne→==, Bool-cases, Option-cases,
  get_elem?-set_self, get_elem?-set_ne, get_elem?-lt, ap, sym, ◌∙◌, subst,
}
use storrent.Piece.{Piece, Pieces, busy, state_complete, state_busy, update_time}
use storrent.Piece.Store.{Added, add_data}
use storrent.Piece.Life.{
  bytes_of, hashes, finalise_begin, waits, ended, del, del_waited, Finished, finalise_end,
}
use storrent.Piece.Life.Frames.{
  add_data-replaces, del-replaces, del_waited-replaces, update_time-replaces,
  finalise_begin-replaces, finalise_end-Ended,
}

-- The store, and for each piece the data that a Finalise of it has taken and is hashing, and how many
-- calls of `del` wait for it.
pub record System : Type 0 where
  pub store : Pieces
  pub taken : ℕ → Option (List ℕ)
  pub waiting : ℕ → ℕ

abbrev pub update : (ℕ → Option (List ℕ)) → ℕ → Option (List ℕ) → ℕ → Option (List ℕ)
update f i v j = if j == i then v else f j

abbrev update_count : (ℕ → ℕ) → ℕ → ℕ → ℕ → ℕ
update_count f i v j = if j == i then v else f j

set-beyond : (l : List Piece) (i : ℕ) (p : Piece) → get_elem? l i ≡ none → set l i p ≡ l
set-beyond [] i p e = refl
set-beyond (x ∷ l) zero p e = cc
set-beyond (x ∷ l) (suc i) p e = ap (λ m. x ∷ m) (set-beyond l i p e)

module _ (sha1 : List ℕ → List ℕ) (expected : ℕ → List ℕ) where
  -- Finalise of piece i is always called with the same hash, `expected i`.
  pub data Step : System → System → Type 0 where
    adds :
        (s : System) (index begin : ℕ) (input : List ℕ) (peer : ℕ) (ok : Bool) (ps' : Pieces)
        (r : Added)
        → add_data s.store index begin input peer ok ≡ some (ps', r)
        → Step s (record s { store = ps' })
    begins :
        (s : System) (index : ℕ) (ps' : Pieces) (d : List ℕ)
        → finalise_begin s.store index ≡ some (ps', hashes d)
        → Step s (record s { store = ps'; taken = update s.taken index (some d) })
    ends :
        (s : System) (index : ℕ) (d : List ℕ) (ps' : Pieces) (r : Finished)
        → s.taken index ≡ some d
        → finalise_end s.store index (sha1 d) (expected index) ≡ some (ps', r)
        → Step s (record s { store = ps'; taken = update s.taken index none })
    deletes :
        (s : System) (index : ℕ) (force : Bool) (ps' : Pieces) (d c : Bool)
        → del s.store index force ≡ some (ended ps' d c)
        → Step s (record s { store = ps' })
    waits_for :
        (s : System) (index : ℕ) (force : Bool)
        → del s.store index force ≡ some waits
        → Step s (record s { waiting = update_count s.waiting index (s.waiting index + 1) })
    resumes :
        (s : System) (index n : ℕ) (ps' : Pieces) (d c : Bool)
        → s.waiting index ≡ suc n
        → del_waited s.store index ≡ some (ended ps' d c)
        → Step s (record s { store = ps'; waiting = update_count s.waiting index n })
    touches :
        (s : System) (index now : ℕ) (ps' : Pieces) (c : Bool)
        → update_time s.store index now ≡ some (ps', c)
        → Step s (record s { store = ps' })
    -- The end of Del.
    marks : (s : System) → Step s (record s { store = record s.store { deleted = true } })

  pub data Reach (s : System) : System → Type 0 where
    here : Reach s s
    next : {t u : System} → Reach s t → Step t u → Reach s u

  -- A piece is idle, or busy with its data taken to be hashed, or complete with the right hash.
  pub data Valid (taken : Option (List ℕ)) (index : ℕ) (p : Piece) : Type 0 where
    idle : p.state ≡ 0 → Valid taken index p
    hashing : p.state ≡ state_busy → taken ≡ some (bytes_of p.buffer) → Valid taken index p
    validated :
        p.state ≡ state_complete → sha1 (bytes_of p.buffer) ≡ expected index → Valid taken index p

  abbrev pub Sound : System → Type 0
  Sound s = (i : ℕ) (p : Piece) → get_elem? s.store.pieces i ≡ some p → Valid (s.taken i) i p

  -- One piece is replaced by a valid one, and what is taken of the others stays.
  replace-Sound :
      (s t : System) (index : ℕ) (p p' : Piece)
      → Sound s
      → get_elem? s.store.pieces index ≡ some p
      → t.store.pieces ≡ set s.store.pieces index p'
      → ((i : ℕ) → i ≢ index → t.taken i ≡ s.taken i)
      → Valid (t.taken index) index p'
      → Sound t
  replace-Sound s t index p p' v at there others valid i q e = elim (Bool-cases (i == index)) [
    | inl same ↦
        let ie : i ≡ index = ground arith in
        let self =
          get_elem?-set_self s.store.pieces index p' (get_elem?-lt s.store.pieces index p at) in
        let qe : p' ≡ q = cc (self, rw ie at e, ap (λ l. get_elem? l index) there) in
        subst (λ k. Valid (t.taken k) k q) (sym ie)
          (subst (λ x. Valid (t.taken index) index x) qe valid)
    | inr other ↦
        let ne : i ≢ index = λ h. ground arith in
        let old : get_elem? s.store.pieces i ≡ some q =
          sym (get_elem?-set_ne s.store.pieces index i p' (λ h. ne (sym h)))
          ∙ sym (ap (λ l. get_elem? l i) there)
          ∙ e in
        subst (λ x. Valid x i q) (sym (others i ne)) (v i q old)
  ]

  same-Sound :
      (s t : System)
      → Sound s
      → t.store.pieces ≡ s.store.pieces
      → ((i : ℕ) → t.taken i ≡ s.taken i)
      → Sound t
  same-Sound s t v there same i q e =
      subst (λ x. Valid x i q) (sym (same i)) (v i q (sym (ap (λ l. get_elem? l i) there) ∙ e))

  Valid-known : {o : Option (List ℕ)} {i : ℕ} {p : Piece} → Valid o i p → p.state ≤ 2
  Valid-known (idle e) = omega arith
  Valid-known (hashing e t) = omega arith
  Valid-known (validated e h) = omega arith

  -- Emptying or filling an idle piece.
  idle-Sound :
      (s : System) (index : ℕ) (ps' : Pieces)
      → Sound s
      → (ps'.pieces ≡ s.store.pieces)
        ⊎ ((p' : Piece) × (ps'.pieces ≡ set s.store.pieces index p') × (p'.state ≡ 0))
      → Sound (record s { store = ps' })
  idle-Sound s index ps' v (inl same) = same-Sound s (record s { store = ps' }) v same (λ i. refl)
  idle-Sound s index ps' v (inr (p', there, zero_state)) =
      elim (Option-cases (get_elem? s.store.pieces index)) [
        | inl out ↦
            same-Sound s (record s { store = ps' }) v
              (there ∙ set-beyond s.store.pieces index p' out) (λ i. refl)
        | inr (p, at) ↦
            replace-Sound s (record s { store = ps' }) index p p' v at there (λ i ne. refl)
              (idle zero_state)
      ]

  ended-Valid :
      {o : Option (List ℕ)} {none_taken : Option (List ℕ)} {d : List ℕ} (index : ℕ) (p p' : Piece)
      → Valid o index p
      → o ≡ some d
      → ((p'.state ≡ 0)
          ⊎ ((p'.state ≡ state_complete)
              × (p'.buffer ≡ p.buffer)
              × (sha1 d ≡ expected index)
              × (p.state ≡ state_busy)))
      → Valid none_taken index p'
  ended-Valid index p p' v t (inl zero_state) = idle zero_state
  ended-Valid index p p' (idle e) t (inr (st, same, sum, was)) = absurd (omega arith)
  ended-Valid index p p' (validated e h) t (inr (st, same, sum, was)) = absurd (omega arith)
  ended-Valid {d} index p p' (hashing e k) t (inr (st, same, sum, was)) =
      let de : bytes_of p.buffer ≡ d = cc (k, t) in
      validated st (ap (λ o. sha1 (bytes_of o)) same ∙ ap sha1 de ∙ sum)

  touched-Valid :
      {o : Option (List ℕ)} {i now : ℕ} {p : Piece}
      → Valid o i p
      → Valid o i (record p { time = now })
  touched-Valid (idle e) = idle e
  touched-Valid (hashing e t) = hashing e t
  touched-Valid (validated e h) = validated e h

  -- Every step keeps the store sound.
  pub Step-Sound : {s t : System} → Step s t → Sound s → Sound t
  Step-Sound (adds s index begin input peer ok ps' r e) v =
      idle-Sound s index ps' v (add_data-replaces s.store index begin input peer ok ps' r e)
  Step-Sound (begins s index ps' d e) v =
      let (p, at, there, de) = finalise_begin-replaces s.store index ps' d e in
      replace-Sound s (record s { store = ps'; taken = update s.taken index (some d) }) index p
        (record p { state = state_busy }) v at there (λ i ne. rw (ne→== i index ne))
        (hashing refl (rw (eq→== index index refl) (ap some de)))
  Step-Sound (ends s index d ps' r tk e) v =
      let (p, p', at, there, how) =
        finalise_end-Ended s.store index (sha1 d) (expected index) ps' r e in
      replace-Sound s (record s { store = ps'; taken = update s.taken index none }) index p p' v at
        there (λ i ne. rw (ne→== i index ne)) (ended-Valid index p p' (v index p at) tk how)
  Step-Sound (deletes s index force ps' d c e) v =
      idle-Sound s index ps' v
        (emptied (del-replaces s.store index force ps' d c (λ p at. Valid-known (v index p at)) e))
    where
      emptied :
          (ps'.pieces ≡ s.store.pieces)
            ⊎ ((p : Piece) × (p' : Piece) × (get_elem? s.store.pieces index ≡ some p)
                × (ps'.pieces ≡ set s.store.pieces index p')
                × (p'.state ≡ 0)
                × (busy p ≡ false))
          → (ps'.pieces ≡ s.store.pieces)
            ⊎ ((p' : Piece) × (ps'.pieces ≡ set s.store.pieces index p') × (p'.state ≡ 0))
      emptied (inl same) = inl same
      emptied (inr (p, p', at, there, zero_state, not_busy)) = inr (p', there, zero_state)
  Step-Sound (waits_for s index force e) v = v
  Step-Sound (resumes s index n ps' d c w e) v =
      idle-Sound s index ps' v
        (inr (del_waited-replaces s.store index ps' d c (λ p at. Valid-known (v index p at)) e))
  Step-Sound (touches s index now ps' c e) v =
      elim (update_time-replaces s.store index now ps' c e) [
        | inl same ↦ same-Sound s (record s { store = ps' }) v same (λ i. refl)
        | inr (p, at, there) ↦
            replace-Sound s (record s { store = ps' }) index p (record p { time = now }) v at there
              (λ i ne. refl) (touched-Valid (v index p at))
      ]
  Step-Sound (marks s) v = v

  -- Whatever the calls and their order, a store that begins sound stays sound.
  pub Reach-Sound : {s t : System} → Sound s → Reach s t → Sound t
  Reach-Sound v here = v
  Reach-Sound v (next r st) = Step-Sound st (Reach-Sound v r)
