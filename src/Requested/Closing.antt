-- ===== src/Requested/Closing.antt =====
-- The operations of tor/requests.go that close channels: Del, Done, DelIdlePiece and DelIdle.
use storrent.Prelude.{
  ℕ, ◌≡◌, refl, ◌⊎◌, inl, inr, Bool, true, false, List, [], ◌∷◌, Option, none, some, ◌==◌,
  if◌then◌else◌, lookup, insert, lookup-insert, arith, Bool-cases, Option-cases, ◌∙◌,
}
use storrent.Requested.{
  RequestedPiece, Requested, close, close_done, remove_prio, is_empty, del_found, del_of, del_prio,
  del_idle_of, del_idle_piece, done_of, done, del_idle_loop,
}
use storrent.Requested.Channels.{channel, Inv, channel-insert, same-Inv, closed-Inv, del-Takes}

-- What the operations promise that close channels: no panic, the invariant, and closed channels
-- stay closed.
abbrev pub Closes : Requested → Option Requested → (ℕ → Type 0) → Type 0
Closes rs result shut =
    (rs' : Requested) × (result ≡ some rs') × Inv rs' × ((c : ℕ) → shut c → rs'.closed c ≡ true)

pub del_idle_piece-Closes :
    (rs : Requested) (index : ℕ)
    → Inv rs
    → Closes rs (del_idle_piece rs index) (λ c. rs.closed c ≡ true)
unfolding del_idle_piece del_idle_of
del_idle_piece-Closes rs index v = elim (Option-cases (lookup index rs.pieces)) [
  | inl missing ↦ (rs, rw missing refl, v, λ c h. h)
  | inr (r, at) ↦ elim (Bool-cases (is_empty r.prio)) [
    | inl idle ↦
        let (rs', run, takes) = del-Takes rs index r v at in
        (rs', rw (at, del_idle_of, idle) run, takes.sound, takes.stays)
    | inr busy ↦ (rs, rw (at, del_idle_of, busy) refl, v, λ c h. h)
  ]
]

-- The state of Done between the closing of the channel and DelIdlePiece.
done_closed :
    (rs : Requested) (index : ℕ) (r : RequestedPiece)
    → Inv rs
    → lookup index rs.pieces ≡ some r
    → (rs' : Requested) × (close_done rs r.done ≡ some rs')
      × Inv (record rs' { pieces = insert index (record r { done = none }) rs'.pieces })
      × ((c : ℕ) → (rs.closed c ≡ true) ⊎ (channel rs index ≡ some c) → rs'.closed c ≡ true)
unfolding close_done close
done_closed rs index r v at = elim (Option-cases r.done) [
  | inl quiet ↦
      let no_channel : channel rs index ≡ none = rw (channel, at) quiet in
      (
        rs,
        rw quiet refl,
        same-Inv rs (record rs { pieces = insert index (record r { done = none }) rs.pieces }) v
            (λ i. ground (arith, channel-insert rs index (record r { done = none }) i, no_channel))
            refl (λ c. refl),
        λ c h. ground (arith, no_channel),
      )
  | inr (c, here) ↦
      let there : channel rs index ≡ some c = rw (channel, at) here in
      let still : rs.closed c ≡ false = (v.live index c there).1 in
      let rs' : Requested = record rs { closed = λ d. if d == c then true else rs.closed d } in
      (
        rs',
        rw (here, close_done, close, still) refl,
        closed-Inv rs (record rs' { pieces = insert index (record r { done = none }) rs.pieces }) v
            index c there (λ i. channel-insert rs index (record r { done = none }) i) refl
            (λ d. refl),
        λ d h. ground (arith, there),
      )
]

-- Done does not panic, keeps the invariant, and closes the channel of its piece.
pub done-Closes :
    (rs : Requested) (index : ℕ)
    → Inv rs
    → Closes rs (done rs index) (λ c. (rs.closed c ≡ true) ⊎ (channel rs index ≡ some c))
unfolding done done_of
done-Closes rs index v = elim (Option-cases (lookup index rs.pieces)) [
  | inl missing ↦
      let no_channel : channel rs index ≡ none = rw (channel, missing) refl in
      (rs, rw missing refl, v, λ c h. ground (arith, no_channel))
  | inr (r, at) ↦
      let (rs', closes, sound, shut) = done_closed rs index r v at in
      let next : Requested = record rs' {
        pieces = insert index (record r { done = none }) rs'.pieces;
      } in
      let (rs'', run, sound', stays) = del_idle_piece-Closes next index sound in
      (rs'', rw (at, done_of, closes) run, sound', λ c h. stays c (shut c h))
]

pub del_idle_loop-Closes :
    (rs : Requested) (l : List ℕ)
    → Inv rs
    → Closes rs (del_idle_loop rs l) (λ c. rs.closed c ≡ true)
unfolding del_idle_loop
del_idle_loop-Closes rs [] v = (rs, refl, v, λ c h. h)
del_idle_loop-Closes rs (i ∷ l) v =
    let (rs', run, v', stays) = del_idle_piece-Closes rs i v in
    let (rs'', run', v'', stays') = del_idle_loop-Closes rs' l v' in
    (rs'', rw (del_idle_loop, run) run', v'', λ c h. stays' c (stays c h))

-- Del, when it cancels a piece, closes the piece's channel.
abbrev pub Dels : Requested → ℕ → Option (Requested × Bool) → Type 0
Dels rs index result =
    (rs' : Requested) × (last : Bool) × (result ≡ some (rs', last))
    × Inv rs'
    × ((c : ℕ)
        → (rs.closed c ≡ true) ⊎ ((last ≡ true) × (channel rs index ≡ some c))
        → rs'.closed c ≡ true)

del_found-Dels :
    (rs : Requested) (index : ℕ) (r : RequestedPiece) (l : List ℕ)
    → Inv rs
    → lookup index rs.pieces ≡ some r
    → Dels rs index (del_found rs index r l)
unfolding del_found
del_found-Dels rs index r l v at =
    let rs1 : Requested = record rs { pieces = insert index (record r { prio = l }) rs.pieces } in
    let here : channel rs index ≡ r.done = rw (channel, at) refl in
    let same : (i : ℕ) → channel rs1 i ≡ channel rs i =
      λ i. ground (arith, channel-insert rs index (record r { prio = l }) i, here) in
    let v1 = same-Inv rs rs1 v same refl (λ c. refl) in
    elim (Bool-cases (is_empty l)) [
      | inl last ↦
          let at1 : lookup index rs1.pieces ≡ some (record r { prio = l }) =
            ground (arith, lookup-insert index index (record r { prio = l }) rs.pieces) in
          let (rs', run, takes) = del-Takes rs1 index (record r { prio = l }) v1 at1 in
          (
            rs',
            true,
            rw (last, run) refl,
            takes.sound,
            λ c h. elim h [
              | inl old ↦ takes.stays c old
              | inr (t, e) ↦ takes.shut c (same index ∙ e)
            ],
          )
      | inr more ↦ (rs1, false, rw more refl, v1, λ c h. ground arith)
    ]

pub del_prio-Dels :
    (rs : Requested) (index prio : ℕ) → Inv rs → Dels rs index (del_prio rs index prio)
unfolding del_prio del_of
del_prio-Dels rs index prio v = elim (Option-cases (lookup index rs.pieces)) [
  | inl missing ↦ (rs, false, rw missing refl, v, λ c h. ground arith)
  | inr (r, at) ↦ elim (Option-cases (remove_prio prio r.prio)) [
    | inl absent ↦ (rs, false, rw (at, del_of, absent) refl, v, λ c h. ground arith)
    | inr (l, found) ↦
        let (rs', last, run, v', shut) = del_found-Dels rs index r l v at in
        (rs', last, rw (at, del_of, found) run, v', shut)
  ]
]
