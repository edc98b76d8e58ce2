-- ===== src/PexState/Places.antt =====
-- Where the pexState of peer/peer.go has a peer.
use storrent.Prelude.{
  ℕ, zero, suc, ◌+◌, ◌-◌, ◌≤◌, ◌≡◌, refl, Bool, true, ◌&&◌, List, [], ◌∷◌, ◌++◌, none, some, ltb,
  ◌==◌, if◌then◌else◌, length, take, drop, arith, inl, inr, Bool-cases, Option-cases, ap, sym, ◌∙◌,
  ◌⊎◌,
}
use storrent.Net.{Addr, no_addr, addr4, addr6, addr_eq, bytes_eq}
use storrent.Pex
use storrent.Pex.{find, find_from}
use storrent.PexState.{
  PexState, delete_at, is_found, add_pending, add, del_sent, del, max_peers, first_peers,
  other_peers, compute_pex,
}

abbrev pub same : Pex.Peer → Pex.Peer → Bool
same p q = addr_eq p.addr q.addr && (p.port == q.port)

-- How often an address stands in a list.
abbrev pub count : Pex.Peer → List Pex.Peer → ℕ
count p [] = 0
count p (q ∷ l) = (if same p q then 1 else 0) + count p l

bytes_eq-≡ : (a b : List ℕ) → bytes_eq a b ≡ true → a ≡ b
unfolding bytes_eq
bytes_eq-≡ [] [] e = refl
bytes_eq-≡ [] (y ∷ b) e = cc
bytes_eq-≡ (x ∷ a) [] e = cc
bytes_eq-≡ (x ∷ a) (y ∷ b) e =
    let head : x ≡ y = ground (arith, e) in
    let tail : bytes_eq a b ≡ true = ground (arith, e) in rw (head, bytes_eq-≡ a b tail) refl

addr_eq-≡ : (a b : Addr) → addr_eq a b ≡ true → a ≡ b
unfolding addr_eq
addr_eq-≡ no_addr no_addr e = refl
addr_eq-≡ (addr4 a) (addr4 b) e = ap addr4 (bytes_eq-≡ a b e)
addr_eq-≡ (addr6 a) (addr6 b) e = ap addr6 (bytes_eq-≡ a b e)
addr_eq-≡ no_addr (addr4 b) e = cc
addr_eq-≡ no_addr (addr6 b) e = cc
addr_eq-≡ (addr4 b) no_addr e = cc
addr_eq-≡ (addr4 b) (addr6 c) e = cc
addr_eq-≡ (addr6 b) no_addr e = cc
addr_eq-≡ (addr6 b) (addr4 c) e = cc

same_as : (q p x : Pex.Peer) → same q p ≡ true → same q x ≡ same p x
same_as q p x e =
    let addr : addr_eq q.addr p.addr ≡ true = ground (arith, e) in
    let port : q.port ≡ p.port = ground (arith, e) in rw (addr_eq-≡ q.addr p.addr addr, port) refl

same_to : (q p x : Pex.Peer) → same p x ≡ true → same q x ≡ same q p
same_to q p x e =
    let addr : addr_eq p.addr x.addr ≡ true = ground (arith, e) in
    let port : p.port ≡ x.port = ground (arith, e) in rw (addr_eq-≡ p.addr x.addr addr, port) refl

bytes_eq_refl : (a : List ℕ) → bytes_eq a a ≡ true
unfolding bytes_eq
bytes_eq_refl [] = refl
bytes_eq_refl (x ∷ a) = ground (arith, bytes_eq_refl a)

addr_eq_refl : (a : Addr) → addr_eq a a ≡ true
unfolding addr_eq
addr_eq_refl no_addr = refl
addr_eq_refl (addr4 a) = bytes_eq_refl a
addr_eq_refl (addr6 a) = bytes_eq_refl a

same_refl : (p : Pex.Peer) → same p p ≡ true
same_refl p = ground (arith, addr_eq_refl p.addr)

count_as : (q p : Pex.Peer) (l : List Pex.Peer) → same q p ≡ true → count q l ≡ count p l
count_as q p [] e = refl
count_as q p (x ∷ l) e = rw (same_as q p x e, count_as q p l e) refl

count-append : (q : Pex.Peer) (l m : List Pex.Peer) → count q (l ++ m) ≡ count q l + count q m
count-append q [] m = omega arith
count-append q (x ∷ l) m = omega (arith, count-append q l m)

find_from-none : (i : ℕ) (p : Pex.Peer) (l : List Pex.Peer) → find_from i p l ≡ none → count p l ≡ 0
unfolding find_from
find_from-none i p [] e = refl
find_from-none i p (x ∷ l) e = elim (Bool-cases (same p x)) [
  | inl here ↦ absurd (ground (arith, here))
  | inr on ↦ ground (arith, on, find_from-none (i + 1) p l (rw on at e))
]

-- What is found, and taken out, is one of that address.
find_from-some :
    (i k : ℕ) (p q : Pex.Peer) (l : List Pex.Peer)
    → find_from i p l ≡ some k
    → (i ≤ k) × (count q (delete_at l (k - i)) + (if same q p then 1 else 0) ≡ count q l)
unfolding find_from delete_at
find_from-some i k p q [] e = cc
find_from-some i k p q (x ∷ l) e = elim (Bool-cases (same p x)) [
  | inl here ↦
      let at : i ≡ k = ground (arith, here, e) in
      let n : k - i ≡ 0 = omega (arith, at) in
      (
        omega (arith, at),
        rw n (omega (arith, ap (λ (b : Bool). if◌then◌else◌ {A = ℕ} b 1 0) (same_to q p x here))),
      )
  | inr on ↦
      let (le, n) = find_from-some (i + 1) k p q l (rw on at e) in
      let next : k - i ≡ suc (k - (i + 1)) = omega (arith, le) in
      (omega (arith, le), rw next (omega (arith, n)))
]

-- Under `find`, an address that is not there, and one that is.
find-cases :
    (p : Pex.Peer) (l : List Pex.Peer)
    → ((find p l ≡ none) × (count p l ≡ 0))
      ⊎ ((i : ℕ) × (find p l ≡ some i)
          × ((q : Pex.Peer) → count q (delete_at l i) + (if same q p then 1 else 0) ≡ count q l))
unfolding find
find-cases p l = elim (Option-cases (find_from 0 p l)) [
  | inl missing ↦ inl (missing, find_from-none 0 p l missing)
  | inr (k, found) ↦
      let at : k - 0 ≡ k = omega arith in
      inr (k, found, λ q. rw at at (find_from-some 0 k p q l found).1)
]

-- In how many places an address is.
abbrev pub places : Pex.Peer → PexState → ℕ
places q s = count q s.pending + count q s.pending_del + count q s.sent

-- No address is in two places.
abbrev pub AtMostOne : PexState → Type 0
AtMostOne s = (q : Pex.Peer) → places q s ≤ 1

add-AtMostOne : (s : PexState) (p : Pex.Peer) → AtMostOne s → AtMostOne (add s p)
unfolding add add_pending
add-AtMostOne s p h q = elim (find-cases p s.pending_del) [
  | inr (i, found, gone) ↦ rw (add, found) (omega (arith, gone q, h q))
  | inl (missing, none_del) ↦ elim (find-cases p s.sent) [
    | inr (i, found, gone) ↦ rw (add, missing, add_pending, found) (h q)
    | inl (missing', none_sent) ↦ elim (find-cases p s.pending) [
      | inr (i, found, gone) ↦ rw (add, missing, add_pending, missing', found) (h q)
      | inl (missing'', none_pending) ↦
          rw (add, missing, add_pending, missing', missing'')
            (ground (
              arith,
              h q,
              count-append q s.pending (p ∷ []),
              count_as q p s.pending,
              count_as q p s.pending_del,
              count_as q p s.sent,
              none_del,
              none_sent,
              none_pending,
            ))
    ]
  ]
]

del-AtMostOne : (s : PexState) (p : Pex.Peer) → AtMostOne s → AtMostOne (del s p)
unfolding del del_sent
del-AtMostOne s p h q = elim (find-cases p s.pending) [
  | inr (i, found, gone) ↦ rw (del, found) (omega (arith, gone q, h q))
  | inl (missing, none_pending) ↦ elim (find-cases p s.sent) [
    | inl (missing', none_sent) ↦ rw (del, missing, del_sent, missing') (h q)
    | inr (i, found, gone) ↦ elim (find-cases p s.pending_del) [
      | inr (j, found', gone') ↦
          rw (del, missing, del_sent, found, found') (omega (arith, gone q, h q))
      | inl (missing'', none_del) ↦
          rw (del, missing, del_sent, found, missing'')
            (omega (arith, h q, gone q, count-append q s.pending_del (p ∷ [])))
    ]
  ]
]

take-drop : (n : ℕ) (l : List Pex.Peer) → take n l ++ drop n l ≡ l
take-drop zero l = refl
take-drop (suc n) [] = refl
take-drop (suc n) (x ∷ l) = ap (λ m. x ∷ m) (take-drop n l)

split_peers :
    (q : Pex.Peer) (l : List Pex.Peer)
    → count q (first_peers l) + count q (other_peers l) ≡ count q l
split_peers q l = elim (Bool-cases (ltb max_peers (length l))) [
  | inl long ↦ rw long (
      sym (count-append q (take max_peers l) (drop max_peers l))
      ∙ ap (count q) (take-drop max_peers l))
  | inr short ↦ rw short (omega arith)
]

compute-places : (s : PexState) (q : Pex.Peer) → places q (compute_pex s).0 ≤ places q s
unfolding compute_pex
compute-places s q = elim (Bool-cases ((length s.pending == 0) && (length s.pending_del == 0))) [
  | inl idle ↦ rw idle (omega arith)
  | inr busy ↦ rw busy (
      omega (
        arith,
        split_peers q s.pending,
        split_peers q s.pending_del,
        count-append q s.sent (first_peers s.pending),
      ))
]

-- What happens to the state as long as every message can be written.
pub data Reach : PexState → Type 0 where
  start : Reach (record { pending = []; pending_del = []; sent = [] })
  added : (s : PexState) (p : Pex.Peer) → Reach s → Reach (add s p)
  deleted : (s : PexState) (p : Pex.Peer) → Reach s → Reach (del s p)
  computed : (s : PexState) → Reach s → Reach (compute_pex s).0

-- Whatever peers come and go, and whenever messages are sent, as long as each can be written: an
-- address is at most once in all of the three lists together.
pub Reach-AtMostOne : (s : PexState) → Reach s → AtMostOne s
Reach-AtMostOne _ start q = omega arith
Reach-AtMostOne _ (added s p r) q = add-AtMostOne s p (Reach-AtMostOne s r) q
Reach-AtMostOne _ (deleted s p r) q = del-AtMostOne s p (Reach-AtMostOne s r) q
Reach-AtMostOne _ (computed s r) q = omega (arith, compute-places s q, Reach-AtMostOne s r q)

taken :
    (p : Pex.Peer) (l : List Pex.Peer) (i : ℕ)
    → count p (delete_at l i) + (if same p p then 1 else 0) ≡ count p l
    → count p (delete_at l i) + 1 ≡ count p l
taken p l i e = rw (same_refl p) at e

absent : (p : Pex.Peer) (l : List Pex.Peer) → count p l ≡ 0 → find p l ≡ none
absent p l e = elim (find-cases p l) [
  | inl (missing, n) ↦ missing
  | inr (i, found, gone) ↦ absurd (omega (arith, e, taken p l i (gone p)))
]

-- After any such sequence, a peer that is to be taken back, and that add is called for, is then in
-- none of the lists, and del for it then changes nothing.
pub del-add_back :
    (s : PexState) (p : Pex.Peer)
    → Reach s
    → is_found (find p s.pending_del) ≡ true
    → (places p (add s p) ≡ 0) × (del (add s p) p ≡ add s p)
unfolding add del del_sent
del-add_back s p r e = elim (find-cases p s.pending_del) [
  | inl (missing, none_del) ↦ absurd (ground (arith, e, missing))
  | inr (i, found, gone) ↦
      let once = taken p s.pending_del i (gone p) in
      let at_most = Reach-AtMostOne s r p in
      let s' : PexState = record s { pending_del = delete_at s.pending_del i } in
      let back : add s p ≡ s' = rw (add, found) refl in
      let still : del s' p ≡ s' =
        rw
          (
            del,
            absent p s.pending (omega (arith, once, at_most)),
            del_sent,
            absent p s.sent (omega (arith, once, at_most)),
          )
          refl in
      rw back (omega (arith, once, at_most), still)
]
