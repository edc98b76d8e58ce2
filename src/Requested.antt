-- ===== src/Requested.antt =====
-- tor/requests.go: the pieces that clients of a torrent have asked for. An int8 priority p is the
-- number p + 128. A channel is a number, the next one to be made is `next`, and `closed` says which
-- are closed; closing one twice, and a missing key where the source dereferences it, are the panic
-- `none`. The map is an association list: the loop of DelIdle ranges over its keys.
pub mod Channels
pub mod Closing
pub mod Runs
pub mod Priorities
mod Tests
use storrent.Prelude.{
  ℕ, zero, suc, ◌+◌, Bool, true, false, not, ◌&&◌, ◌||◌, List, [], ◌∷◌, ◌++◌, Option, none, some,
  ltb, ◌==◌, if◌then◌else◌, ◌>>=◌, lookup, insert, delete,
}

abbrev pub idle_priority : ℕ
idle_priority = 0

pub record RequestedPiece : Type 0 where
  pub prio : List ℕ
  pub done : Option ℕ

pub record Requested : Type 0 where
  pub pieces : List (ℕ × RequestedPiece)
  pub next : ℕ
  pub closed : ℕ → Bool

unfoldable pub close : Requested → ℕ → Option Requested
close rs c =
    if rs.closed c
    then none
    else some (record rs { closed = λ d. if d == c then true else rs.closed d })

abbrev pub is_some : Option ℕ → Bool
is_some none = false
is_some (some c) = true

-- `r := rs.pieces[index]; if r == nil { r = &RequestedPiece{} }`
unfoldable pub piece_or_new : Option RequestedPiece → RequestedPiece
piece_or_new none = record { prio = []; done = none }
piece_or_new (some r) = r

abbrev is_new : Option RequestedPiece → Bool
is_new none = true
is_new (some r) = false

-- `if prio > IdlePriority { r.prio = append(r.prio, prio) }`
unfoldable pub with_prio : RequestedPiece → ℕ → RequestedPiece
with_prio r prio = if ltb idle_priority prio then record r { prio = r.prio ++ (prio ∷ []) } else r

-- `if want && r.done == nil { r.done = make(chan struct{}) }`
unfoldable pub with_channel : Requested → RequestedPiece → Bool → Requested × RequestedPiece
with_channel rs r want =
    if want && not (is_some r.done)
    then (record rs { next = rs.next + 1 }, record r { done = some rs.next })
    else (rs, r)

unfoldable pub add : Requested → ℕ → ℕ → Bool → Requested × Option ℕ × Bool
unfolding with_prio with_channel piece_or_new
add rs index prio want =
    let (rs', r) = with_channel rs (with_prio (piece_or_new (lookup index rs.pieces)) prio) want in
    (
      record rs' { pieces = insert index r rs.pieces },
      r.done,
      is_new (lookup index rs.pieces) || ltb idle_priority prio,
    )

-- `if done != nil { close(done) }`
close_done : Requested → Option ℕ → Option Requested
unfolding close
close_done rs none = some rs
close_done rs (some c) = close rs c

unfoldable pub del : Requested → ℕ → Option Requested
unfolding close_done
del rs index = do
  r ← lookup index rs.pieces
  rs' ← close_done rs r.done
  some (record rs' { pieces = delete index rs.pieces })

-- The loop of Del: the list without the first `prio`, if it is there.
unfoldable pub remove_prio : ℕ → List ℕ → Option (List ℕ)
remove_prio prio [] = none
remove_prio prio (p ∷ l) =
    let rest = remove_prio prio l in
    if p == prio then some l else elim rest [ none ↦ none | some l' ↦ some (p ∷ l') ]

abbrev is_empty : List ℕ → Bool
is_empty [] = true
is_empty (p ∷ l) = false

-- Del where the loop found the priority, and left `l`.
del_found : Requested → ℕ → RequestedPiece → List ℕ → Option (Requested × Bool)
del_found rs index r l =
    let rs' = record rs { pieces = insert index (record r { prio = l }) rs.pieces } in
    if is_empty l then (do rs'' ← del rs' index; some (rs'', true)) else some (rs', false)

del_of : Requested → ℕ → ℕ → Option RequestedPiece → Option (Requested × Bool)
unfolding del_found
del_of rs index prio none = some (rs, false)
del_of rs index prio (some r) = elim (remove_prio prio r.prio) [
  | none ↦ some (rs, false)
  | some l ↦ del_found rs index r l
]

-- Del.
unfoldable pub del_prio : Requested → ℕ → ℕ → Option (Requested × Bool)
unfolding del_of
del_prio rs index prio = del_of rs index prio (lookup index rs.pieces)

unfoldable pub count : Requested → (ℕ → Bool) → ℕ
count rs f = count_keys rs.pieces
  where
    count_keys : List (ℕ × RequestedPiece) → ℕ
    count_keys [] = 0
    count_keys ((i, r) ∷ m) = (if f i then 1 else 0) + count_keys m

contains : ℕ → List ℕ → Bool
contains prio [] = false
contains prio (p ∷ l) = if p == prio then true else contains prio l

unfoldable pub has_priority : RequestedPiece → ℕ → Bool
unfolding contains
has_priority r prio = if prio == idle_priority then true else contains prio r.prio

del_idle_of : Requested → ℕ → Option RequestedPiece → Option Requested
del_idle_of rs index none = some rs
del_idle_of rs index (some r) = if is_empty r.prio then del rs index else some rs

unfoldable pub del_idle_piece : Requested → ℕ → Option Requested
unfolding del_idle_of
del_idle_piece rs index = del_idle_of rs index (lookup index rs.pieces)

done_of : Requested → ℕ → Option RequestedPiece → Option Requested
unfolding close_done
done_of rs index none = some rs
done_of rs index (some r) = do
  rs' ← close_done rs r.done
  del_idle_piece (record rs' { pieces = insert index (record r { done = none }) rs'.pieces }) index

-- Done.
unfoldable pub done : Requested → ℕ → Option Requested
unfolding done_of
done rs index = done_of rs index (lookup index rs.pieces)

unfoldable pub keys : List (ℕ × RequestedPiece) → List ℕ
keys [] = []
keys ((i, r) ∷ m) = i ∷ keys m

-- The loop of DelIdle, over the keys that are there when it begins.
unfoldable pub del_idle_loop : Requested → List ℕ → Option Requested
del_idle_loop rs [] = some rs
del_idle_loop rs (i ∷ l) = elim (del_idle_piece rs i) [
  | none ↦ none
  | some rs' ↦ del_idle_loop rs' l
]

unfoldable pub del_idle : Requested → Option Requested
unfolding del_idle_loop keys
del_idle rs = del_idle_loop rs (keys rs.pieces)
