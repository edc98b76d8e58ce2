-- ===== src/Requested/Priorities.antt =====
-- The set of requested pieces of tor/requests.go as a multiset of pairs of a piece and a priority.
use storrent.Prelude.{
  ℕ, ◌+◌, ◌-◌, ◌<◌, ◌≡◌, refl, inl, inr, Bool, true, ◌&&◌, List, [], ◌∷◌, ◌++◌, Option, none, some,
  ltb, ◌==◌, if◌then◌else◌, lookup, insert, delete, lookup-insert, lookup-delete, arith, Bool-cases,
  Option-cases, ap, sym, ◌∙◌,
}
use storrent.Requested.Runs.{Step, adds, dels, finishes, idles}
use storrent.Requested.{
  idle_priority, RequestedPiece, Requested, close, close_done, piece_or_new, with_prio,
  with_channel, add, del, remove_prio, is_empty, del_found, del_of, del_prio, del_idle_of,
  del_idle_piece, done_of, done, keys, del_idle_loop, del_idle,
}

-- How often a priority stands in a list.
abbrev pub times : ℕ → List ℕ → ℕ
times p [] = 0
times p (q ∷ l) = (if p == q then 1 else 0) + times p l

abbrev prios : Option RequestedPiece → List ℕ
prios none = []
prios (some r) = r.prio

-- How many clients want piece i with priority p.
abbrev pub wanted : Requested → ℕ → ℕ → ℕ
wanted rs i p = times p (prios (lookup i rs.pieces))

times-append : (p : ℕ) (l m : List ℕ) → times p (l ++ m) ≡ times p l + times p m
times-append p [] m = omega arith
times-append p (q ∷ l) m = omega (arith, times-append p l m)

remove_prio-some :
    (p q : ℕ) (l l' : List ℕ)
    → remove_prio p l ≡ some l'
    → (0 < times p l) × (times q l' ≡ times q l - (if q == p then 1 else 0))
unfolding remove_prio
remove_prio-some p q [] l' e = cc
remove_prio-some p q (x ∷ l) l' e = elim (Bool-cases (x == p)) [
  | inl here ↦ ground (arith, rw (remove_prio, here) at e)
  | inr there ↦ elim (Option-cases (remove_prio p l)) [
    | inl missing ↦ absurd (ground (arith, rw (remove_prio, there, missing) at e))
    | inr (m, found) ↦
        let split : x ∷ m ≡ l' = ground (arith, rw (remove_prio, there, found) at e) in
        let ih = remove_prio-some p q l m found in
        (
          ground (arith, ih),
          sym (ap (times q) split) ∙ ground (arith, ih, remove_prio-some p x l m found),
        )
  ]
]

remove_prio-none : (p : ℕ) (l : List ℕ) → remove_prio p l ≡ none → times p l ≡ 0
unfolding remove_prio
remove_prio-none p [] e = refl
remove_prio-none p (x ∷ l) e = ground (arith, remove_prio-none p l)

with_channel-prio :
    (rs : Requested) (r : RequestedPiece) (want : Bool) → (with_channel rs r want).1.prio ≡ r.prio
unfolding with_channel
with_channel-prio rs r want = ground arith

with_prio-times :
    (r : RequestedPiece) (prio p : ℕ)
    → times p (with_prio r prio).prio
      ≡ times p r.prio + (if (p == prio) && ltb 0 prio then 1 else 0)
unfolding with_prio
with_prio-times r prio p = ground (arith, times-append p r.prio (prio ∷ []))

close_done-pieces :
    (rs : Requested) (o : Option ℕ) (rs' : Requested)
    → close_done rs o ≡ some rs'
    → rs'.pieces ≡ rs.pieces
unfolding close_done close
close_done-pieces rs none rs' e = ground arith
close_done-pieces rs (some c) rs' e = ground arith

-- The same, once for every piece and priority.
module _ (rs : Requested) where
  prios-insert :
      (k i p : ℕ) (r : RequestedPiece)
      → times p (prios (lookup i (insert k r rs.pieces)))
        ≡ (if k == i then times p r.prio else wanted rs i p)
  prios-insert k i p r = ground (arith, lookup-insert k i r rs.pieces)

  prios-delete :
      (k i p : ℕ)
      → times p (prios (lookup i (delete k rs.pieces))) ≡ (if k == i then 0 else wanted rs i p)
  prios-delete k i p = ground (arith, lookup-delete k i rs.pieces)

  wanted-add :
      (index prio : ℕ) (want : Bool) (i p : ℕ)
      → wanted (add rs index prio want).0 i p
        ≡ wanted rs i p + (if (i == index) && (p == prio) && ltb 0 prio then 1 else 0)
  unfolding add piece_or_new
  wanted-add index prio want i p =
      let old : RequestedPiece = piece_or_new (lookup index rs.pieces) in
      let r : RequestedPiece = with_prio old prio in
      ground (
        arith,
        prios-insert index i p (with_channel rs r want).1,
        ap (times p) (with_channel-prio rs r want),
        with_prio-times old prio p,
        old_prio,
      )
    where
      old_prio : times p (piece_or_new (lookup index rs.pieces)).prio ≡ wanted rs index p
      old_prio = ground arith

  del-wanted :
      (index : ℕ) (rs' : Requested) (i p : ℕ)
      → del rs index ≡ some rs'
      → wanted rs' i p ≡ (if index == i then 0 else wanted rs i p)
  unfolding del
  del-wanted index rs' i p e = elim (Option-cases (lookup index rs.pieces)) [
    | inl missing ↦ absurd (ground (arith, rw (del, missing) at e))
    | inr (r, at) ↦ elim (Option-cases (close_done rs r.done)) [
      | inl twice ↦ absurd (ground (arith, rw (del, at, twice) at e))
      | inr (rs1, closes) ↦
          let there : rs'.pieces ≡ delete index rs.pieces =
            ground (arith, rw (del, at, closes) at e, close_done-pieces rs r.done rs1 closes) in
          ap (λ m. times p (prios (lookup i m))) there ∙ prios-delete index i p
    ]
  ]

is_empty-times : (l : List ℕ) (p : ℕ) → is_empty l ≡ true → times p l ≡ 0
is_empty-times [] p e = refl
is_empty-times (x ∷ l) p e = cc

del_idle_piece-wanted :
    (rs : Requested) (index : ℕ) (rs' : Requested) (i p : ℕ)
    → del_idle_piece rs index ≡ some rs'
    → wanted rs' i p ≡ wanted rs i p
unfolding del_idle_piece del_idle_of
del_idle_piece-wanted rs index rs' i p e = elim (Option-cases (lookup index rs.pieces)) [
  | inl missing ↦ ground (arith, rw (del_idle_piece, missing) at e)
  | inr (r, at) ↦ elim (Bool-cases (is_empty r.prio)) [
    | inl idle ↦ ground (
      arith,
      del-wanted rs index rs' i p (rw (del_idle_piece, at, del_idle_of, idle) at e),
      is_empty-times r.prio p idle,
    )
    | inr busy ↦ ground (arith, rw (del_idle_piece, at, del_idle_of, busy) at e)
  ]
]

del_idle_loop-wanted :
    (rs : Requested) (l : List ℕ) (rs' : Requested) (i p : ℕ)
    → del_idle_loop rs l ≡ some rs'
    → wanted rs' i p ≡ wanted rs i p
unfolding del_idle_loop
del_idle_loop-wanted rs [] rs' i p e = ground arith
del_idle_loop-wanted rs (k ∷ l) rs' i p e = elim (Option-cases (del_idle_piece rs k)) [
  | inl stuck ↦ absurd (ground (arith, rw (del_idle_loop, stuck) at e))
  | inr (rs1, run) ↦
      del_idle_loop-wanted rs1 l rs' i p (rw (del_idle_loop, run) at e)
      ∙ del_idle_piece-wanted rs k rs1 i p run
]

done-wanted :
    (rs : Requested) (index : ℕ) (rs' : Requested) (i p : ℕ)
    → done rs index ≡ some rs'
    → wanted rs' i p ≡ wanted rs i p
unfolding done done_of
done-wanted rs index rs' i p e = elim (Option-cases (lookup index rs.pieces)) [
  | inl missing ↦ ground (arith, rw (done, missing) at e)
  | inr (r, at) ↦ elim (Option-cases (close_done rs r.done)) [
    | inl twice ↦ absurd (ground (arith, rw (done, at, done_of, twice) at e))
    | inr (rs1, closes) ↦
        let r' : RequestedPiece = record r { done = none } in
        let there : rs1.pieces ≡ rs.pieces = close_done-pieces rs r.done rs1 closes in
        let rest =
          del_idle_piece-wanted (record rs1 { pieces = insert index r' rs1.pieces }) index rs' i p
            (rw (done, at, done_of, closes) at e) in
        rest
        ∙ ap (λ m. times p (prios (lookup i (insert index r' m)))) there
        ∙ ground (arith, prios-insert rs index i p r')
  ]
]

del_prio-wanted :
    (rs : Requested) (index prio : ℕ) (rs' : Requested) (last : Bool) (i p : ℕ)
    → del_prio rs index prio ≡ some (rs', last)
    → wanted rs' i p ≡ wanted rs i p - (if (i == index) && (p == prio) then 1 else 0)
unfolding del_prio del_of del_found
del_prio-wanted rs index prio rs' last i p e = elim (Option-cases (lookup index rs.pieces)) [
  | inl missing ↦ ground (arith, rw (del_prio, missing) at e)
  | inr (r, at) ↦ elim (Option-cases (remove_prio prio r.prio)) [
    | inl absent ↦
        ground (arith, rw (del_prio, at, del_of, absent) at e, remove_prio-none prio r.prio absent)
    | inr (l, found) ↦
        let r' : RequestedPiece = record r { prio = l } in
        let rs1 : Requested = record rs { pieces = insert index r' rs.pieces } in
        let less = remove_prio-some prio p r.prio l found in
        let kept = prios-insert rs index i p r' in
        elim (Bool-cases (is_empty l)) [
          | inr more ↦
              ground (arith, rw (del_prio, at, del_of, found, del_found, more) at e, less, kept)
          | inl empty ↦ elim (Option-cases (del rs1 index)) [
            | inl stuck ↦
                absurd
                  (ground (arith, rw (del_prio, at, del_of, found, del_found, empty, stuck) at e))
            | inr (rs2, run) ↦ ground (
              arith,
              rw (del_prio, at, del_of, found, del_found, empty, run) at e,
              less,
              kept,
              del-wanted rs1 index rs2 i p run,
              is_empty-times l p empty,
            )
          ]
        ]
  ]
]

del_idle-wanted :
    (rs rs' : Requested) (i p : ℕ) → del_idle rs ≡ some rs' → wanted rs' i p ≡ wanted rs i p
unfolding del_idle
del_idle-wanted rs rs' i p e = del_idle_loop-wanted rs (keys rs.pieces) rs' i p e

-- The specification: what a step does to the multiset of pairs of a piece and a priority.
abbrev pub change : {rs rs' : Requested} → Step rs rs' → (ℕ → ℕ → ℕ) → ℕ → ℕ → ℕ
change (adds rs index prio want) m =
    λ i p. m i p + (if (i == index) && (p == prio) && ltb idle_priority prio then 1 else 0)
change (dels rs index prio rs' last e) m =
    λ i p. m i p - (if (i == index) && (p == prio) then 1 else 0)
change (finishes rs index rs' e) m = m
change (idles rs rs' e) m = m

-- After Add of a piece with a priority that is not the idle one, one client more wants this piece with
-- this priority; after Del, one less, if there was one; for all other pieces and priorities, and
-- after Add with the idle priority, Done and DelIdle for all, the numbers are what they were.
pub Step-change :
    {rs rs' : Requested} (st : Step rs rs') (i p : ℕ) → wanted rs' i p ≡ change st (wanted rs) i p
Step-change (adds rs index prio want) i p = wanted-add rs index prio want i p
Step-change (dels rs index prio rs' last e) i p = del_prio-wanted rs index prio rs' last i p e
Step-change (finishes rs index rs' e) i p = done-wanted rs index rs' i p e
Step-change (idles rs rs' e) i p = del_idle-wanted rs rs' i p e
