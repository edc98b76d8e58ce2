-- ===== src/Requested/Tests.antt =====
-- Two clients that want piece 3, and then Done.
use storrent.Prelude.{
  ℕ, ◌+◌, ◌-◌, ◌<◌, ◌≡◌, refl, ◌⊎◌, Bool, true, false, List, [], ◌∷◌, Option, none, some, arith,
}
use storrent.Requested.{Requested, add, del_prio, done, del_idle, count, has_priority}
use storrent.Requested.Channels.{channel}
use storrent.Requested.Runs.{empty_set, Reach, adds, here, next, Reach-safe, Reach-served}
use storrent.Requested.Priorities.{wanted, change, Step-change}

abbrev waiting : Requested
waiting = (add empty_set 3 130 true).0

waiting_reached : Reach waiting
waiting_reached = next here (adds empty_set 3 130 true)

waiting_channel : (add empty_set 3 130 true).1 ≡ some 0
unfolding add storrent.Prelude.lookup
waiting_channel = refl

counted : count waiting (λ i. true) ≡ 1
unfolding count add storrent.Prelude.insert
counted = refl

idle_asked : has_priority (record { prio = []; done = none }) 0 ≡ true
unfolding has_priority
idle_asked = refl

Reach-safe_example :
    ((r : Requested × Bool) × (del_prio waiting 3 130 ≡ some r))
    × ((rs' : Requested) × (done waiting 3 ≡ some rs'))
    × ((rs' : Requested) × (del_idle waiting ≡ some rs'))
Reach-safe_example = Reach-safe 3 130 waiting_reached

Reach-served_example :
    (waiting.closed 0 ≡ true)
    ⊎ ((i : ℕ) × (channel waiting i ≡ some 0)
        × ((j : ℕ) → channel waiting j ≡ some 0 → j ≡ i)
        × ((rs' : Requested) × (done waiting i ≡ some rs') × (rs'.closed 0 ≡ true)))
unfolding storrent.Prelude.lookup
Reach-served_example = Reach-served 0 waiting_reached (unfold add in omega arith)

Step-change_example :
    wanted (add waiting 3 200 false).0 3 200
    ≡ change (adds waiting 3 200 false) (wanted waiting) 3 200
Step-change_example = Step-change (adds waiting 3 200 false) 3 200
