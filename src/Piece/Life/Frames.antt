-- ===== src/Piece/Life/Frames.antt =====
-- Which pieces the operations of tor/piece/piece.go change, and into what, where they return.
use storrent.Prelude.{
  ℕ, zero, suc, ◌+◌, ◌≤◌, ◌≡◌, refl, ◌⊎◌, ◌%◌, ◌||◌, length, inl, inr, Bool, true, false, not, ◌&&◌,
  List, [], ◌∷◌, Option, none, some, ltb, leb, ◌==◌, if◌then◌else◌, get_elem?, set, arith,
  Bool-cases, Option-cases, get_elem?-set_self, get_elem?-lt, ap, ◌∙◌,
}
use storrent.Hash
use storrent.Hash.{equal-true}
use storrent.Piece.{
  Piece, Pieces, complete, busy, busy_or_complete, set_state, state_complete, state_busy,
  with_piece, piece_length, chunk_size, max_uint32, update_time,
}
use storrent.Piece.Store.{
  Added, add_peer, fill_loop, add_chunks, add_checked, add_guarded, add_data,
}
use storrent.Piece.Life.{
  bytes_of, hashes, begin_piece, finalise_begin, discard, Deletion, waits, ended, del_idle,
  del_held, del, del_waited, Finished, drop_mismatch, end_piece, finalise_end,
}

peer_if-state :
    (b : Bool) (p : Piece) (peer : ℕ) → (if b then add_peer p peer else p).state ≡ p.state
unfolding add_peer
peer_if-state b p peer = ground arith

add_chunks-state :
    (ps : Pieces) (index : ℕ) (p : Piece) (buf : List ℕ) (begin : ℕ) (input : List ℕ) (peer : ℕ)
    (ps' : Pieces) (r : Added)
    → add_chunks ps index p buf begin input peer ≡ some (ps', r)
    → (p' : Piece) × (ps'.pieces ≡ set ps.pieces index p') × (p'.state ≡ p.state)
unfolding add_chunks
add_chunks-state ps index p buf begin input peer ps' r e =
    elim (Option-cases (
      fill_loop (length input) (piece_length ps index) input
        (record { buf = buf; bits = p.bitmap; offset = begin; done = 0; added = false }))) [
          | inl out ↦ absurd (ground (arith, rw out at e))
          | inr (g, run) ↦
              let b : Bool = g.added && not (peer == max_uint32) in
              let kept : Piece = record p { buffer = some g.buf; bitmap = g.bits } in
              (
                if b then add_peer kept peer else kept,
                ground (arith, rw run at e),
                peer_if-state b kept peer,
              )
        ]

add_checked-state :
    (ps : Pieces) (index : ℕ) (p : Piece) (o : Option (List ℕ)) (begin : ℕ) (input : List ℕ)
    (peer : ℕ) (ok : Bool) (ps' : Pieces) (r : Added)
    → add_checked ps index p o begin input peer ok ≡ some (ps', r)
    → (ps'.pieces ≡ ps.pieces)
      ⊎ ((p' : Piece) × (ps'.pieces ≡ set ps.pieces index p') × (p'.state ≡ p.state))
unfolding add_checked
add_checked-state ps index p (some d) begin input peer ok ps' r e =
    inr (add_chunks-state ps index p d begin input peer ps' r e)
add_checked-state ps index p none begin input peer true ps' r e =
    inr (add_chunks-state (record ps { count = ps.count + 1 }) index p _ begin input peer ps' r e)
add_checked-state ps index p none begin input peer false ps' r e = inl (ground arith)

add_guarded-cases :
    (ps : Pieces) (index : ℕ) (p : Piece) (begin : ℕ) (input : List ℕ) (peer : ℕ) (ok : Bool)
    (ps' : Pieces) (r : Added)
    → add_guarded ps index p begin input peer ok ≡ some (ps', r)
    → (ps'.pieces ≡ ps.pieces)
      ⊎ ((p' : Piece) × (ps'.pieces ≡ set ps.pieces index p') × (p'.state ≡ 0))
unfolding add_guarded busy_or_complete
add_guarded-cases ps index p begin input peer ok ps' r e = elim (Bool-cases (p.state == 0)) [
  | inr active ↦ inl (ground arith)
  | inl idle ↦
      elim (Bool-cases
        (ps.deleted || (not (begin % chunk_size == 0) || leb (piece_length ps index) begin))) [
          | inl refused ↦ inl (ground arith)
          | inr taken ↦
              elim (add_checked-state ps index p p.buffer begin input peer ok ps' r
                (ground arith)) [
                  | inl same ↦ inl same
                  | inr (p', there, kept) ↦ inr (p', there, ground arith)
                ]
        ]
]

-- AddData leaves all pieces as they were, or changes one that is idle, which stays so.
pub add_data-replaces :
    (ps : Pieces) (index begin : ℕ) (input : List ℕ) (peer : ℕ) (ok : Bool) (ps' : Pieces)
    (r : Added)
    → add_data ps index begin input peer ok ≡ some (ps', r)
    → (ps'.pieces ≡ ps.pieces)
      ⊎ ((p' : Piece) × (ps'.pieces ≡ set ps.pieces index p') × (p'.state ≡ 0))
unfolding add_data add_guarded busy_or_complete
add_data-replaces ps index begin input peer ok ps' r e =
    elim (Option-cases (get_elem? ps.pieces index)) [
      | inl out ↦ absurd (ground (arith, rw out at e))
      | inr (p, at) ↦
          let e' = rw at at e in
          elim (add_guarded-cases ps index p begin input peer ok ps' r e') [
            | inl same ↦ inl same
            | inr (p', there, idle) ↦ inr (p', there, idle)
          ]
    ]

del_idle-replaces :
    (ps : Pieces) (index : ℕ) (p : Piece) (ps' : Pieces) (d c : Bool)
    → (busy p ≡ false)
    → p.state ≤ 2
    → del_idle ps index p ≡ some (ended ps' d c)
    → (p' : Piece) × (ps'.pieces ≡ set ps.pieces index p') × (p'.state ≡ 0)
unfolding del_idle discard busy complete set_state
del_idle-replaces ps index p ps' d c idle known e = elim (Bool-cases (p.state == 1)) [
  | inl done ↦ (record p { buffer = none; peers = []; bitmap = []; state = 0 }, ground arith, refl)
  | inr open_piece ↦
      (record p { buffer = none; peers = []; bitmap = [] }, ground arith, ground arith)
]

del_held-replaces :
    (ps : Pieces) (index : ℕ) (p : Piece) (force : Bool) (o : Option (List ℕ)) (ps' : Pieces)
    (d c : Bool)
    → p.state ≤ 2
    → del_held ps index p force o ≡ some (ended ps' d c)
    → (ps'.pieces ≡ ps.pieces)
      ⊎ ((p' : Piece) × (ps'.pieces ≡ set ps.pieces index p') × (p'.state ≡ 0) × (busy p ≡ false))
unfolding del_held
del_held-replaces ps index p force none ps' d c known e = inl (ground arith)
del_held-replaces ps index p force (some buf) ps' d c known e = elim (Bool-cases (busy p)) [
  | inl hashing ↦ inl (ground (arith, rw hashing at e))
  | inr idle ↦
      let (p', there, zero_state) =
        del_idle-replaces ps index p ps' d c idle known (rw idle at e) in
      inr (p', there, zero_state, idle)
]

-- Del of one piece leaves all pieces as they were, or empties one that is not busy.
pub del-replaces :
    (ps : Pieces) (index : ℕ) (force : Bool) (ps' : Pieces) (d c : Bool)
    → ((p : Piece) → get_elem? ps.pieces index ≡ some p → p.state ≤ 2)
    → del ps index force ≡ some (ended ps' d c)
    → (ps'.pieces ≡ ps.pieces)
      ⊎ ((p : Piece) × (p' : Piece) × (get_elem? ps.pieces index ≡ some p)
          × (ps'.pieces ≡ set ps.pieces index p')
          × (p'.state ≡ 0)
          × (busy p ≡ false))
unfolding del
del-replaces ps index force ps' d c known e = elim (Option-cases (get_elem? ps.pieces index)) [
  | inl out ↦ absurd (ground (arith, rw out at e))
  | inr (p, at) ↦
      elim (del_held-replaces ps index p force p.buffer ps' d c (known p at) (rw at at e)) [
        | inl same ↦ inl same
        | inr (p', there, zero_state, idle) ↦ inr (p, p', at, there, zero_state, idle)
      ]
]

pub del_waited-replaces :
    (ps : Pieces) (index : ℕ) (ps' : Pieces) (d c : Bool)
    → ((p : Piece) → get_elem? ps.pieces index ≡ some p → p.state ≤ 2)
    → del_waited ps index ≡ some (ended ps' d c)
    → (p' : Piece) × (ps'.pieces ≡ set ps.pieces index p') × (p'.state ≡ 0)
unfolding del_waited
del_waited-replaces ps index ps' d c known e = elim (Option-cases (get_elem? ps.pieces index)) [
  | inl out ↦ absurd (ground (arith, rw out at e))
  | inr (p, at) ↦ elim (Bool-cases (busy p)) [
    | inl hashing ↦ absurd (ground (arith, rw (at, hashing) at e))
    | inr idle ↦ del_idle-replaces ps index p ps' d c idle (known p at) (rw (at, idle) at e)
  ]
]

set-set : (l : List Piece) (i : ℕ) (p q : Piece) → set (set l i p) i q ≡ set l i q
set-set [] i p q = refl
set-set (x ∷ l) zero p q = refl
set-set (x ∷ l) (suc i) p q = ap (λ m. x ∷ m) (set-set l i p q)

-- Finalise goes on to hash the data of an idle piece, which it marks as busy.
pub finalise_begin-replaces :
    (ps : Pieces) (index : ℕ) (ps' : Pieces) (d : List ℕ)
    → finalise_begin ps index ≡ some (ps', hashes d)
    → (p : Piece) × (get_elem? ps.pieces index ≡ some p)
      × (ps'.pieces ≡ set ps.pieces index (record p { state = state_busy }))
      × (d ≡ bytes_of p.buffer)
unfolding finalise_begin begin_piece set_state
finalise_begin-replaces ps index ps' d e = elim (Option-cases (get_elem? ps.pieces index)) [
  | inl out ↦ absurd (ground (arith, rw out at e))
  | inr (p, at) ↦ (p, at, ground (arith, rw at at e), ground (arith, rw at at e))
]

-- What Finalise makes of the piece in the end: idle, or complete if the hashes agree.
abbrev pub Ended : Pieces → ℕ → List ℕ → List ℕ → Pieces → Type 0
Ended ps index sum h ps' =
    (p : Piece) × (p' : Piece) × (get_elem? ps.pieces index ≡ some p)
    × (ps'.pieces ≡ set ps.pieces index p')
    × ((p'.state ≡ 0)
        ⊎ ((p'.state ≡ state_complete)
            × (p'.buffer ≡ p.buffer)
            × (sum ≡ h)
            × (p.state ≡ state_busy)))

drop_mismatch-pieces :
    (ps : Pieces) (index : ℕ) (senders : List ℕ) (o : Option Deletion) (ps' : Pieces) (r : Finished)
    → drop_mismatch ps index senders o ≡ some (ps', r)
    → (d : Bool) × (c : Bool) × (o ≡ some (ended ps' d c))
unfolding drop_mismatch
drop_mismatch-pieces ps index senders none ps' r e = cc
drop_mismatch-pieces ps index senders (some waits) ps' r e = cc
drop_mismatch-pieces ps index senders (some (ended qs d c)) ps' r e =
    let q : qs ≡ ps' = ground arith in (d, c, rw q)

end_mismatch :
    (ps : Pieces) (index : ℕ) (p : Piece) (ps' : Pieces) (r : Finished)
    → get_elem? ps.pieces index ≡ some p
    → end_piece ps index p false ≡ some (ps', r)
    → (p' : Piece) × (ps'.pieces ≡ set ps.pieces index p') × (p'.state ≡ 0)
unfolding end_piece set_state
end_mismatch ps index p ps' r at e = elim (Bool-cases (p.state == state_busy)) [
  | inr other ↦ absurd (ground (arith, rw other at e))
  | inl hashing ↦
      let p1 : Piece = record p { peers = []; state = 0 } in
      let (d, c, gone) =
        drop_mismatch-pieces ps index p.peers (del (with_piece ps index p1) index true) ps' r
          (rw hashing at e) in
      let in_place = get_elem?-set_self ps.pieces index p1 (get_elem?-lt ps.pieces index p at) in
      elim (del-replaces (with_piece ps index p1) index true ps' d c
        (λ q there. ground (arith, there, in_place)) gone) [
          | inl same ↦ (p1, same, refl)
          | inr (q, p', there, now, zero_state, idle) ↦
              (p', now ∙ set-set ps.pieces index p1 p', zero_state)
        ]
]

end_match :
    (ps : Pieces) (index : ℕ) (p : Piece) (ps' : Pieces) (r : Finished)
    → end_piece ps index p true ≡ some (ps', r)
    → (ps'.pieces ≡ set ps.pieces index (record p { peers = []; state = state_complete }))
      × (p.state ≡ state_busy)
unfolding end_piece set_state
end_match ps index p ps' r e = (ground arith, ground arith)

-- The second part of Finalise empties the piece or completes it, the latter only if the hash of the
-- data is the one wanted.
pub finalise_end-Ended :
    (ps : Pieces) (index : ℕ) (sum h : List ℕ) (ps' : Pieces) (r : Finished)
    → finalise_end ps index sum h ≡ some (ps', r)
    → Ended ps index sum h ps'
unfolding finalise_end
finalise_end-Ended ps index sum h ps' r e = elim (Option-cases (get_elem? ps.pieces index)) [
  | inl out ↦ absurd (ground (arith, rw out at e))
  | inr (p, at) ↦ elim (Option-cases (Hash.equal sum h)) [
    | inl bad ↦ absurd (ground (arith, rw (at, bad) at e))
    | inr (same, eq) ↦ elim (Bool-cases same) [
      | inl yes_same ↦ (
        p,
        record p { peers = []; state = state_complete },
        at,
        (end_match ps index p ps' r (rw (at, eq, yes_same) at e)).0,
        inr (
          refl,
          refl,
          equal-true sum h (eq ∙ ap some yes_same),
          (end_match ps index p ps' r (rw (at, eq, yes_same) at e)).1,
        ),
      )
      | inr differs ↦
          let (p', there, zero_state) =
            end_mismatch ps index p ps' r at (rw (at, eq, differs) at e) in
          (p, p', at, there, inl zero_state)
    ]
  ]
]

pub update_time-replaces :
    (ps : Pieces) (index now : ℕ) (ps' : Pieces) (c : Bool)
    → update_time ps index now ≡ some (ps', c)
    → (ps'.pieces ≡ ps.pieces)
      ⊎ ((p : Piece) × (get_elem? ps.pieces index ≡ some p)
          × (ps'.pieces ≡ set ps.pieces index (record p { time = now })))
unfolding update_time
update_time-replaces ps index now ps' c e = elim (Option-cases (get_elem? ps.pieces index)) [
  | inl out ↦ absurd (ground (arith, rw out at e))
  | inr (p, at) ↦ elim (Bool-cases (ltb p.time now)) [
    | inl older ↦ inr (p, at, ground (arith, rw at at e))
    | inr newer ↦ inl (ground (arith, rw at at e))
  ]
]
