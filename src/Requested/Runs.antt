-- ===== src/Requested/Runs.antt =====
-- The operations of tor/requests.go in any order, from the empty set.
use storrent.Prelude.{
  ℕ, ◌<◌, ◌≡◌, refl, ◌⊎◌, inl, inr, Bool, true, false, [], Option, none, some, arith, ap, sym,
  subst, ◌∙◌, lookup,
}
use storrent.Requested.{Requested, add, del_prio, done, del_idle, keys}
use storrent.Requested.Channels.{channel, Inv, add-Inv}
use storrent.Requested.Closing.{Closes, done-Closes, del_idle_loop-Closes, del_prio-Dels}

abbrev pub empty_set : Requested
empty_set = record { pieces = []; next = 0; closed = λ c. false }

pub data Step : Requested → Requested → Type 0 where
  adds : (rs : Requested) (index prio : ℕ) (want : Bool) → Step rs (add rs index prio want).0
  dels :
      (rs : Requested) (index prio : ℕ) (rs' : Requested) (last : Bool)
      → del_prio rs index prio ≡ some (rs', last)
      → Step rs rs'
  finishes : (rs : Requested) (index : ℕ) (rs' : Requested) → done rs index ≡ some rs' → Step rs rs'
  idles : (rs rs' : Requested) → del_idle rs ≡ some rs' → Step rs rs'

pub data Reach : Requested → Type 0 where
  here : Reach empty_set
  next : {rs rs' : Requested} → Reach rs → Step rs rs' → Reach rs'

empty_set-Inv : Inv empty_set
unfolding lookup
empty_set-Inv = record {
  live = λ i c e. cc;
  alone = λ i j c e f. cc;
  kept = λ c h. absurd (omega arith);
  unmade = λ c h. refl;
}

del_idle-Closes : (rs : Requested) → Inv rs → Closes rs (del_idle rs) (λ c. rs.closed c ≡ true)
unfolding del_idle
del_idle-Closes rs v = del_idle_loop-Closes rs (keys rs.pieces) v

-- The state that an operation returns is the one that its lemma speaks of.
same_result :
    {A : Type 0} (P : A → Type 0) (o : Option A) (x y : A) → o ≡ some x → o ≡ some y → P x → P y
same_result P o x y e f p = subst P (ap (λ q. or_else x q) (sym e ∙ f)) p
  where
    or_else : {A : Type 0} → A → Option A → A
    or_else a none = a
    or_else a (some b) = b

pub Step-Inv : {rs rs' : Requested} → Step rs rs' → Inv rs → Inv rs'
Step-Inv (adds rs index prio want) v = (add-Inv rs index prio want v).0
Step-Inv (dels rs index prio rs' last e) v =
    let (rs1, last1, run, v1, shut) = del_prio-Dels rs index prio v in
    same_result (λ r. Inv r.0) (del_prio rs index prio) (rs1, last1) (rs', last) run e v1
Step-Inv (finishes rs index rs' e) v =
    let (rs1, run, v1, shut) = done-Closes rs index v in
    same_result Inv (done rs index) rs1 rs' run e v1
Step-Inv (idles rs rs' e) v =
    let (rs1, run, v1, shut) = del_idle-Closes rs v in
    same_result Inv (del_idle rs) rs1 rs' run e v1

pub Reach-Inv : {rs : Requested} → Reach rs → Inv rs
Reach-Inv here = empty_set-Inv
Reach-Inv (next r st) = Step-Inv st (Reach-Inv r)

-- After any sequence of Add, Del, Done and DelIdle, none of them panics.
pub Reach-safe :
    {rs : Requested} (index prio : ℕ)
    → Reach rs
    → ((r : Requested × Bool) × (del_prio rs index prio ≡ some r))
      × ((rs' : Requested) × (done rs index ≡ some rs'))
      × ((rs' : Requested) × (del_idle rs ≡ some rs'))
Reach-safe {rs} index prio r =
    let v = Reach-Inv r in
    let (rs1, last, run, v1, s1) = del_prio-Dels rs index prio v in
    let (rs2, run2, v2, s2) = done-Closes rs index v in
    let (rs3, run3, v3, s3) = del_idle-Closes rs v in (((rs1, last), run), (rs2, run2), (rs3, run3))

-- After any such sequence, a channel that Add has made is closed, or it stands in the map for one
-- piece only, and then Done for that piece closes it.
pub Reach-served :
    {rs : Requested} (c : ℕ)
    → Reach rs
    → c < rs.next
    → (rs.closed c ≡ true)
      ⊎ ((i : ℕ) × (channel rs i ≡ some c)
          × ((j : ℕ) → channel rs j ≡ some c → j ≡ i)
          × ((rs' : Requested) × (done rs i ≡ some rs') × (rs'.closed c ≡ true)))
Reach-served {rs} c r h = served (v.kept c h)
  where
    v : Inv rs
    v = Reach-Inv r

    served :
        (rs.closed c ≡ true) ⊎ ((i : ℕ) × (channel rs i ≡ some c))
        → (rs.closed c ≡ true)
          ⊎ ((i : ℕ) × (channel rs i ≡ some c)
              × ((j : ℕ) → channel rs j ≡ some c → j ≡ i)
              × ((rs' : Requested) × (done rs i ≡ some rs') × (rs'.closed c ≡ true)))
    served (inl e) = inl e
    served (inr (i, e)) =
        let (rs', run, v', shut) = done-Closes rs i v in
        inr (i, e, λ j f. v.alone j i c f e, (rs', run, shut c (inr e)))
