-- ===== src/Requested/Channels.antt =====
-- The channels of tor/requests.go: where those that Add hands out stand, and which are closed.
use storrent.Prelude.{
  ℕ, ◌+◌, ◌≤◌, ◌<◌, ◌≡◌, ◌≢◌, refl, ◌⊎◌, inl, inr, Bool, true, false, not, ◌&&◌, Option, none, some,
  ◌==◌, if◌then◌else◌, lookup, insert, delete, lookup-insert, lookup-delete, arith, Bool-cases,
  Option-cases, ap, sym, subst, ◌∙◌,
}
use storrent.Requested.{
  RequestedPiece, Requested, close, close_done, is_some, piece_or_new, with_prio, with_channel, add,
  del,
}

-- The channel that stands in the map for a piece.
abbrev pub channel : Requested → ℕ → Option ℕ
channel rs i = elim (lookup i rs.pieces) [ none ↦ none | some r ↦ r.done ]

pub record Inv (rs : Requested) : Type 0 where
  pub live : (i c : ℕ) → channel rs i ≡ some c → (c < rs.next) × (rs.closed c ≡ false)
  pub alone : (i j c : ℕ) → channel rs i ≡ some c → channel rs j ≡ some c → i ≡ j
  pub kept : (c : ℕ) → c < rs.next → (rs.closed c ≡ true) ⊎ ((i : ℕ) × (channel rs i ≡ some c))
  pub unmade : (c : ℕ) → rs.next ≤ c → rs.closed c ≡ false

pub channel-insert :
    (rs : Requested) (k : ℕ) (r : RequestedPiece) (i : ℕ)
    → channel (record rs { pieces = insert k r rs.pieces }) i
      ≡ (if k == i then r.done else channel rs i)
channel-insert rs k r i = ground (arith, lookup-insert k i r rs.pieces)

pub channel-delete :
    (rs : Requested) (k i : ℕ)
    → channel (record rs { pieces = delete k rs.pieces }) i
      ≡ (if k == i then none else channel rs i)
channel-delete rs k i = ground (arith, lookup-delete k i rs.pieces)

-- The three ways in which the operations change the channels: not at all, a channel is closed and
-- taken out, or one is made.
module _ (rs rs' : Requested) (v : Inv rs) where
  pub same-Inv :
      ((i : ℕ) → channel rs' i ≡ channel rs i)
      → rs'.next ≡ rs.next
      → ((c : ℕ) → rs'.closed c ≡ rs.closed c)
      → Inv rs'
  same-Inv chan next closed = record {
    live = λ i c e. ground (arith, chan i, closed c, v.live i c);
    alone = λ i j c e f. v.alone i j c (sym (chan i) ∙ e) (sym (chan j) ∙ f);
    kept = λ c h. keep c (v.kept c (omega (arith, next)));
    unmade = λ c h. closed c ∙ v.unmade c (omega (arith, next));
  }
    where
      keep :
          (c : ℕ)
          → (rs.closed c ≡ true) ⊎ ((i : ℕ) × (channel rs i ≡ some c))
          → (rs'.closed c ≡ true) ⊎ ((i : ℕ) × (channel rs' i ≡ some c))
      keep c (inl e) = inl (closed c ∙ e)
      keep c (inr (i, e)) = inr (i, chan i ∙ e)

  pub closed-Inv :
      (k c : ℕ)
      → channel rs k ≡ some c
      → ((i : ℕ) → channel rs' i ≡ (if k == i then none else channel rs i))
      → rs'.next ≡ rs.next
      → ((d : ℕ) → rs'.closed d ≡ (if d == c then true else rs.closed d))
      → Inv rs'
  closed-Inv k c there chan next closed = record {
    live = λ i d e.
        let old : channel rs i ≡ some d = ground (arith, chan i) in
        let apart : k ≢ i = λ h. ground (arith, chan i) in
        let other : d ≢ c = λ h. apart (v.alone k i c there (old ∙ ap some h)) in
        ground (arith, closed d, v.live i d old, next);
    alone = λ i j d e f. v.alone i j d (ground (arith, chan i)) (ground (arith, chan j));
    kept = λ d h. elim (v.kept d (omega (arith, next))) [
      | inl e ↦ inl (ground (arith, closed d))
      | inr (i, e) ↦ elim (Bool-cases (d == c)) [
        | inl same ↦ inl (ground (arith, closed d))
        | inr other ↦ inr (i, ground (arith, chan i))
      ]
    ];
    unmade = λ d h. ground (arith, closed d, v.unmade d, v.live k c there, next);
  }

  pub made-Inv :
      (k : ℕ)
      → channel rs k ≡ none
      → ((i : ℕ) → channel rs' i ≡ (if k == i then some rs.next else channel rs i))
      → rs'.next ≡ rs.next + 1
      → ((d : ℕ) → rs'.closed d ≡ rs.closed d)
      → Inv rs'
  made-Inv k there chan next closed = record {
    live = λ i d e. ground (arith, chan i, closed d, v.live i d, v.unmade d, next);
    alone = λ i j d e f. ground (arith, chan i, chan j, v.alone i j d, v.live i d, v.live j d);
    kept = λ d h. elim (Bool-cases (d == rs.next)) [
      | inl same ↦ inr (k, ground (arith, chan k))
      | inr other ↦ elim (v.kept d (ground (arith, next))) [
        | inl e ↦ inl (closed d ∙ e)
        | inr (i, e) ↦ inr (i, ground (arith, chan i))
      ]
    ];
    unmade = λ d h. closed d ∙ v.unmade d (omega (arith, next));
  }

-- Taking the entry of a piece out: no panic, its channel closed, the other entries as they were.
pub record Takes (rs : Requested) (index : ℕ) (rs' : Requested) : Type 0 where
  pub sound : Inv rs'
  pub shut : (c : ℕ) → channel rs index ≡ some c → rs'.closed c ≡ true
  pub stays : (c : ℕ) → rs.closed c ≡ true → rs'.closed c ≡ true
  pub gone : (i : ℕ) → lookup i rs'.pieces ≡ (if index == i then none else lookup i rs.pieces)

pub del-Takes :
    (rs : Requested) (index : ℕ) (r : RequestedPiece)
    → Inv rs
    → lookup index rs.pieces ≡ some r
    → (rs' : Requested) × (del rs index ≡ some rs') × Takes rs index rs'
unfolding del close_done close
del-Takes rs index r v at = elim (Option-cases r.done) [
  | inl quiet ↦
      let rs' : Requested = record rs { pieces = delete index rs.pieces } in
      let no_channel : channel rs index ≡ none = rw (channel, at) quiet in
      (
        rs',
        rw (at, quiet, close_done) refl,
        record {
          sound =
              same-Inv rs rs' v (λ i. ground (arith, channel-delete rs index i, no_channel)) refl
                (λ c. refl);
          shut = λ c e. cc (no_channel, e);
          stays = λ c h. h;
          gone = λ i. lookup-delete index i rs.pieces;
        },
      )
  | inr (c, here) ↦
      let rs' : Requested = record rs {
        pieces = delete index rs.pieces;
        closed = λ d. if d == c then true else rs.closed d;
      } in
      let there : channel rs index ≡ some c = rw (channel, at) here in
      let still : rs.closed c ≡ false = (v.live index c there).1 in
      (
        rs',
        rw (at, here, close_done, close, still) refl,
        record {
          sound =
              closed-Inv rs rs' v index c there (λ i. channel-delete rs index i) refl (λ d. refl);
          shut = λ d e. ground (arith, there);
          stays = λ d h. ground arith;
          gone = λ i. lookup-delete index i rs.pieces;
        },
      )
]

-- What Add does to the channel of the piece: nothing, or a new one where there was none.
data Adds (rs : Requested) (before : Option ℕ) (rs' : Requested) (after : Option ℕ) : Type 0 where
  keeps : rs' ≡ rs → after ≡ before → Adds rs before rs' after
  makes :
      rs' ≡ record rs { next = rs.next + 1 }
      → before ≡ none
      → after ≡ some rs.next
      → Adds rs before rs' after

with_channel-Adds :
    (rs : Requested) (r : RequestedPiece) (want : Bool)
    → Adds rs r.done (with_channel rs r want).0 (with_channel rs r want).1.done
unfolding with_channel
with_channel-Adds rs r want = elim (Bool-cases (want && not (is_some r.done))) [
  | inl new ↦ makes (rw new refl) (ground arith) (rw new refl)
  | inr old ↦ keeps (rw old refl) (rw old refl)
]

-- Add keeps the invariant, and the channel that it returns stands in the map.
pub add-Inv :
    (rs : Requested) (index prio : ℕ) (want : Bool)
    → Inv rs
    → Inv (add rs index prio want).0
      × (channel (add rs index prio want).0 index ≡ (add rs index prio want).1)
unfolding add with_prio piece_or_new
add-Inv rs index prio want v =
    let r : RequestedPiece = with_prio (piece_or_new (lookup index rs.pieces)) prio in
    let before : r.done ≡ channel rs index = ground arith in
    by_cases (with_channel rs r want).0 (with_channel rs r want).1 (
      subst (λ o. Adds rs o (with_channel rs r want).0 (with_channel rs r want).1.done) before
        (with_channel-Adds rs r want))
  where
    by_cases :
        (rs' : Requested) (r' : RequestedPiece)
        → Adds rs (channel rs index) rs' r'.done
        → Inv (record rs' { pieces = insert index r' rs.pieces })
          × (channel (record rs' { pieces = insert index r' rs.pieces }) index ≡ r'.done)
    by_cases rs' r' (keeps same kept) = (
      same-Inv rs (record rs' { pieces = insert index r' rs.pieces }) v
          (λ i. ground (arith, channel-insert rs index r' i, kept))
          (ap (λ (x : Requested). x.next) same) (λ c. ap (λ (x : Requested). x.closed c) same),
      ground (arith, channel-insert rs index r' index),
    )
    by_cases rs' r' (makes one_more before after) = (
      made-Inv rs (record rs' { pieces = insert index r' rs.pieces }) v index before
          (λ i. ground (arith, channel-insert rs index r' i, after))
          (ap (λ (x : Requested). x.next) one_more)
          (λ c. ap (λ (x : Requested). x.closed c) one_more),
      ground (arith, channel-insert rs index r' index),
    )
