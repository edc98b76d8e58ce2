-- ===== src/Pex/NoFlags.antt =====
-- ParseCompact without flags, as the dropped peers of a message are read.
use storrent.Prelude.{
  ℕ, zero, suc, ◌+◌, ◌≡◌, refl, Bool, true, false, List, [], ◌∷◌, get_or, arith, ap, sym, ◌∙◌, All,
}
use storrent.Pex.{Peer, parse_peer, parse_peers, parse_compact, format_compact}
use storrent.Pex.RoundTrip.{
  IsPeer, entries, flags_of, select, format_compact-entries, parse_compact-format_compact,
}

abbrev pub without_flags : List Peer → List Peer
without_flags [] = []
without_flags (p ∷ ps) = record p { flags = 0 } ∷ without_flags ps

without_flags-IsPeer : (ps : List Peer) → All IsPeer ps → All IsPeer (without_flags ps)
without_flags-IsPeer [] ok = tt
without_flags-IsPeer (p ∷ ps) (ok, oks) = (ok, without_flags-IsPeer ps oks)

entries-without_flags :
    (b : Bool) (ps : List Peer) → entries (select b (without_flags ps)) ≡ entries (select b ps)
entries-without_flags b [] = refl
entries-without_flags b (p ∷ ps) = let ih = entries-without_flags b ps in ground (arith, ih)

flags_of-without_flags :
    (b : Bool) (ps : List Peer) (j : ℕ) → get_or (flags_of (select b (without_flags ps))) j 0 ≡ 0
flags_of-without_flags b [] j = refl
flags_of-without_flags b (p ∷ ps) zero =
    let ih = flags_of-without_flags b ps zero in ground (arith, ih)
flags_of-without_flags b (p ∷ ps) (suc j) =
    let ih = flags_of-without_flags b ps j in
    let ih_suc = flags_of-without_flags b ps (suc j) in ground (arith, ih, ih_suc)

parse_peers-same :
    (l i n : ℕ) (bs f g : List ℕ)
    → ((j : ℕ) → get_or f j 0 ≡ get_or g j 0)
    → parse_peers l i n bs f ≡ parse_peers l i n bs g
unfolding parse_peers parse_peer
parse_peers-same l i zero bs f g same = refl
parse_peers-same l i (suc n) bs f g same =
    rw (same i, parse_peers-same l (i + 1) n bs f g same) refl

parse_compact-same :
    (bs f g : List ℕ) (ipv6 : Bool)
    → ((j : ℕ) → get_or f j 0 ≡ get_or g j 0)
    → parse_compact bs f ipv6 ≡ parse_compact bs g ipv6
unfolding parse_compact
parse_compact-same bs f g true same = rw (parse_peers-same 16 0 _ bs f g same) refl
parse_compact-same bs f g false same = rw (parse_peers-same 4 0 _ bs f g same) refl

pub parse_compact-without_flags :
    (ps : List Peer)
    → All IsPeer ps
    → (parse_compact (format_compact ps).ipv4 [] false ≡ select true (without_flags ps))
      × (parse_compact (format_compact ps).ipv6 [] true ≡ select false (without_flags ps))
parse_compact-without_flags ps ok =
    let qs = without_flags ps in
    let oks = without_flags-IsPeer ps ok in
    let (a4, f4, a6, f6) = format_compact-entries qs oks in
    let (b4, g4, b6, g6) = format_compact-entries ps ok in
    let (r4, r6) = parse_compact-format_compact qs oks in
    (
      ap (λ x. parse_compact x [] false) (b4 ∙ sym (a4 ∙ entries-without_flags true ps))
          ∙ parse_compact-same _ [] _ false
              (λ j. sym (ap (λ f. get_or f j 0) f4 ∙ flags_of-without_flags true ps j))
          ∙ r4,
      ap (λ x. parse_compact x [] true) (b6 ∙ sym (a6 ∙ entries-without_flags false ps))
          ∙ parse_compact-same _ [] _ true
              (λ j. sym (ap (λ f. get_or f j 0) f6 ∙ flags_of-without_flags false ps j))
          ∙ r6,
    )
