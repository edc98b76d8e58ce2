-- ===== src/PexState/Tests.antt =====
-- A peer that is announced, goes, and comes back.
use storrent.Prelude.{◌≡◌, refl, true, [], ◌∷◌}
use storrent.Net.{addr4}
use storrent.Pex
use storrent.Pex.{find, find_from}
use storrent.PexState.{PexState, is_found, add, del, compute_pex}
use storrent.PexState.Places.{
  AtMostOne, places, Reach, start, added, deleted, computed, Reach-AtMostOne, del-add_back,
}

abbrev one : Pex.Peer
one = record { addr = addr4 (10 ∷ 0 ∷ 0 ∷ 1 ∷ []); port = 6881; flags = 0 }

abbrev empty : PexState
empty = record { pending = []; pending_del = []; sent = [] }

abbrev going : PexState
going = del (compute_pex (add empty one)).0 one

abbrev going-Reach : Reach going
going-Reach = deleted _ one (computed _ (added _ one start))

Reach-AtMostOne_example : AtMostOne going
Reach-AtMostOne_example = Reach-AtMostOne going going-Reach

waits : is_found (find one going.pending_del) ≡ true
unfolding find add compute_pex del
waits = refl

del-add_back_example : (places one (add going one) ≡ 0) × (del (add going one) one ≡ add going one)
del-add_back_example = del-add_back going one going-Reach waits
