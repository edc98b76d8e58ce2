-- ===== src/Pex/RoundTrip.antt =====
-- What ParseCompact reads back of the two lists that FormatCompact writes.
use storrent.Prelude.{
  ℕ, zero, suc, ◌+◌, ◌*◌, ◌/◌, ◌%◌, ◌^◌, ◌<◌, ◌≡◌, refl, Bool, true, false, List, [], ◌∷◌, ◌++◌,
  some, ◌==◌, if◌then◌else◌, length, take, drop, arith, ap, sym, ◌∙◌, append-nil, append_assoc, All,
  length-append, take-length_append, drop-length_append, eq→==, drop-add, get_or-drop, Bool-cases,
  inl, inr,
}
use native.Mathlib.Nat.{add-mul}
use storrent.Net.{Addr, no_addr, addr4, addr6, addr_from_slice, is4, as4, as16}
use storrent.Net.Words.{be16, read_uint16-be16}
use storrent.Pex.{
  Peer, addr_length, parse_peer, parse_peers, parse_compact, Compact, peer_of, format_peer,
  format_peers, format_compact,
}

abbrev pub is_sized : Addr → Bool
is_sized no_addr = false
is_sized (addr4 b) = length b == 4
is_sized (addr6 b) = length b == 16

-- A peer with an address of the right length and a port of 16 bits.
abbrev pub IsPeer : Peer → Type 0
IsPeer p = (is_sized p.addr ≡ true) × (p.port < 2 ^ 16)

abbrev addr_bytes : Addr → List ℕ
addr_bytes no_addr = []
addr_bytes (addr4 b) = b
addr_bytes (addr6 b) = b

abbrev pub entries : List Peer → List ℕ
entries [] = []
entries (p ∷ ps) = (addr_bytes p.addr ++ be16 p.port) ++ entries ps

abbrev pub flags_of : List Peer → List ℕ
flags_of [] = []
flags_of (p ∷ ps) = p.flags ∷ flags_of ps

-- The peers whose Is4 is `b`, in their order.
abbrev pub select : Bool → List Peer → List Peer
select b [] = []
select b (p ∷ ps) =
    let rest = select b ps in
    if is4 p.addr then (if b then p ∷ rest else rest) else (if b then rest else p ∷ rest)

as4-addr_bytes : (a : Addr) → is4 a ≡ true → as4 a ≡ some (addr_bytes a)
unfolding is4 as4
as4-addr_bytes no_addr e = cc
as4-addr_bytes (addr4 b) e = refl
as4-addr_bytes (addr6 b) e = cc

as16-addr_bytes : (a : Addr) → is_sized a ≡ true → is4 a ≡ false → as16 a ≡ addr_bytes a
unfolding is4 as16
as16-addr_bytes no_addr z e = cc
as16-addr_bytes (addr4 b) z e = cc
as16-addr_bytes (addr6 b) z e = refl

format_peer-4 :
    (c : Compact) (p : Peer)
    → is4 p.addr ≡ true
    → format_peer c p ≡ record c {
      ipv4 = c.ipv4 ++ (addr_bytes p.addr ++ be16 p.port);
      flags4 = c.flags4 ++ (p.flags ∷ []);
    }
unfolding format_peer
format_peer-4 c p e = rw (e, as4-addr_bytes p.addr e)

format_peer-6 :
    (c : Compact) (p : Peer)
    → is_sized p.addr ≡ true
    → is4 p.addr ≡ false
    → format_peer c p ≡ record c {
      ipv6 = c.ipv6 ++ (addr_bytes p.addr ++ be16 p.port);
      flags6 = c.flags6 ++ (p.flags ∷ []);
    }
unfolding format_peer
format_peer-6 c p z e = rw (e, as16-addr_bytes p.addr z e)

-- What the loop of FormatCompact appends to its four results.
format_peers-append :
    (c : Compact) (ps : List Peer)
    → All IsPeer ps
    → ((format_peers c ps).ipv4 ≡ c.ipv4 ++ entries (select true ps))
      × ((format_peers c ps).flags4 ≡ c.flags4 ++ flags_of (select true ps))
      × ((format_peers c ps).ipv6 ≡ c.ipv6 ++ entries (select false ps))
      × ((format_peers c ps).flags6 ≡ c.flags6 ++ flags_of (select false ps))
unfolding format_peers
format_peers-append c [] ok =
    (sym (append-nil _), sym (append-nil _), sym (append-nil _), sym (append-nil _))
format_peers-append c (p ∷ ps) (ok, oks) = elim (Bool-cases (is4 p.addr)) [
  | inl four ↦
      let (a, b, d, e) = format_peers-append (format_peer c p) ps oks in
      rw (four) (
        a
            ∙ rw (format_peer-4 c p four)
                (append_assoc c.ipv4 (addr_bytes p.addr ++ be16 p.port) (entries (select true ps))),
        b
            ∙ rw (format_peer-4 c p four)
                (append_assoc c.flags4 (p.flags ∷ []) (flags_of (select true ps))),
        d ∙ rw (format_peer-4 c p four) refl,
        e ∙ rw (format_peer-4 c p four) refl,
      )
  | inr six ↦
      let (a, b, d, e) = format_peers-append (format_peer c p) ps oks in
      rw (six) (
        a ∙ rw (format_peer-6 c p ok.0 six) refl,
        b ∙ rw (format_peer-6 c p ok.0 six) refl,
        d
            ∙ rw (format_peer-6 c p ok.0 six) (
                append_assoc c.ipv6 (addr_bytes p.addr ++ be16 p.port) (entries (select false ps))),
        e
            ∙ rw (format_peer-6 c p ok.0 six)
                (append_assoc c.flags6 (p.flags ∷ []) (flags_of (select false ps))),
      )
]

-- The peer at index i + 1 is the one at index i of the lists without their first entry.
parse_peer-shift :
    (l i : ℕ) (bs flags : List ℕ)
    → parse_peer l (i + 1) bs flags ≡ parse_peer l i (drop (l + 2) bs) (drop 1 flags)
unfolding parse_peer
parse_peer-shift l i bs flags =
    let at : (i + 1) * (l + 2) ≡ (l + 2) + i * (l + 2) = omega (arith, add-mul i 1 (l + 2)) in
    let port_at : (l + 2) + i * (l + 2) + l ≡ (l + 2) + (i * (l + 2) + l) = omega arith in
    let j : i + 1 ≡ 1 + i = omega arith in
    rw
      (
        parse_peer,
        at,
        port_at,
        drop-add (l + 2) (i * (l + 2)) bs,
        drop-add (l + 2) (i * (l + 2) + l) bs,
        get_or-drop 1 i flags 0,
        j,
      )
      refl

parse_peers-shift :
    (l i n : ℕ) (bs flags : List ℕ)
    → parse_peers l (i + 1) n bs flags ≡ parse_peers l i n (drop (l + 2) bs) (drop 1 flags)
unfolding parse_peers
parse_peers-shift l i zero bs flags = refl
parse_peers-shift l i (suc n) bs flags =
    rw (parse_peer-shift l i bs flags, parse_peers-shift l (i + 1) n bs flags) refl

-- A peer whose address has l bytes, which AddrFromSlice takes for that address.
abbrev IsOfLength : ℕ → Peer → Type 0
IsOfLength l p =
    (length (addr_bytes p.addr) ≡ l)
    × (addr_from_slice (addr_bytes p.addr) ≡ some p.addr)
    × (p.port < 2 ^ 16)

parse_peer-entry :
    (l : ℕ) (p : Peer) (r flags : List ℕ)
    → IsOfLength l p
    → parse_peer l 0 ((addr_bytes p.addr ++ be16 p.port) ++ r) (p.flags ∷ flags) ≡ p ∷ []
unfolding parse_peer peer_of
parse_peer-entry l p r flags (len, there, small) =
    let head : take l ((addr_bytes p.addr ++ be16 p.port) ++ r) ≡ addr_bytes p.addr =
      rw (sym len, append_assoc (addr_bytes p.addr) (be16 p.port) r)
        (take-length_append (addr_bytes p.addr) (be16 p.port ++ r)) in
    let tail : drop l ((addr_bytes p.addr ++ be16 p.port) ++ r) ≡ be16 p.port ++ r =
      rw (sym len, append_assoc (addr_bytes p.addr) (be16 p.port) r)
        (drop-length_append (addr_bytes p.addr) (be16 p.port ++ r)) in
    let z : 0 * (l + 2) ≡ 0 = omega arith in
    let z_add : 0 * (l + 2) + l ≡ l = omega arith in
    rw (parse_peer, z_add, z, head, there, tail, read_uint16-be16 p.port r small) refl

parse_peers-entries :
    (l : ℕ) (ps : List Peer)
    → All (IsOfLength l) ps
    → parse_peers l 0 (length ps) (entries ps) (flags_of ps) ≡ ps
unfolding parse_peers
parse_peers-entries l [] ok = refl
parse_peers-entries l (p ∷ ps) (ok, oks) =
    let e : List ℕ = addr_bytes p.addr ++ be16 p.port in
    let len : l + 2 ≡ length e =
      omega (arith, length-append (addr_bytes p.addr) (be16 p.port), ok.0) in
    let past : drop (l + 2) (e ++ entries ps) ≡ entries ps =
      rw len (drop-length_append e (entries ps)) in
    rw
      (
        parse_peer-entry l p (entries ps) (flags_of ps) ok,
        parse_peers-shift l 0 (length ps) (e ++ entries ps) (p.flags ∷ flags_of ps),
        past,
      )
      (ap (λ m. p ∷ m) (parse_peers-entries l ps oks))

length-entries :
    (l : ℕ) (ps : List Peer) → All (IsOfLength l) ps → length (entries ps) ≡ length ps * (l + 2)
length-entries l [] ok = omega arith
length-entries l (p ∷ ps) (ok, oks) = omega (
  arith,
  length-append (addr_bytes p.addr) (be16 p.port),
  ok.0,
  length-append (addr_bytes p.addr ++ be16 p.port) (entries ps),
  length-entries l ps oks,
  add-mul 1 (length ps) (l + 2),
)

parse_compact-entries :
    (ipv6 : Bool) (ps : List Peer)
    → All (IsOfLength (addr_length ipv6)) ps
    → parse_compact (entries ps) (flags_of ps) ipv6 ≡ ps
unfolding parse_compact
parse_compact-entries true ps ok =
    let len = length-entries 16 ps ok in
    let whole : length (entries ps) % (16 + 2) ≡ 0 = omega (arith, len) in
    let n : length (entries ps) / (16 + 2) ≡ length ps = omega (arith, len) in
    rw (eq→== _ _ whole, n) (parse_peers-entries 16 ps ok)
parse_compact-entries false ps ok =
    let len = length-entries 4 ps ok in
    let whole : length (entries ps) % (4 + 2) ≡ 0 = omega (arith, len) in
    let n : length (entries ps) / (4 + 2) ≡ length ps = omega (arith, len) in
    rw (eq→== _ _ whole, n) (parse_peers-entries 4 ps ok)

sized_4 :
    (a : Addr)
    → is_sized a ≡ true
    → is4 a ≡ true
    → (length (addr_bytes a) ≡ 4) × (addr_from_slice (addr_bytes a) ≡ some a)
unfolding addr_from_slice is4
sized_4 no_addr z e = cc
sized_4 (addr4 b) z e = (ground arith, ground arith)
sized_4 (addr6 b) z e = cc

sized_6 :
    (a : Addr)
    → is_sized a ≡ true
    → is4 a ≡ false
    → (length (addr_bytes a) ≡ 16) × (addr_from_slice (addr_bytes a) ≡ some a)
unfolding addr_from_slice is4
sized_6 no_addr z e = cc
sized_6 (addr4 b) z e = cc
sized_6 (addr6 b) z e = (ground arith, ground arith)

select-4 : (ps : List Peer) → All IsPeer ps → All (IsOfLength 4) (select true ps)
select-4 [] ok = tt
select-4 (p ∷ ps) (ok, oks) = elim (Bool-cases (is4 p.addr)) [
  | inl four ↦
      let (len, there) = sized_4 p.addr ok.0 four in rw four ((len, there, ok.1), select-4 ps oks)
  | inr six ↦ rw six (select-4 ps oks)
]

select-6 : (ps : List Peer) → All IsPeer ps → All (IsOfLength 16) (select false ps)
select-6 [] ok = tt
select-6 (p ∷ ps) (ok, oks) = elim (Bool-cases (is4 p.addr)) [
  | inl four ↦ rw four (select-6 ps oks)
  | inr six ↦
      let (len, there) = sized_6 p.addr ok.0 six in rw six ((len, there, ok.1), select-6 ps oks)
]

pub format_compact-entries :
    (ps : List Peer)
    → All IsPeer ps
    → ((format_compact ps).ipv4 ≡ entries (select true ps))
      × ((format_compact ps).flags4 ≡ flags_of (select true ps))
      × ((format_compact ps).ipv6 ≡ entries (select false ps))
      × ((format_compact ps).flags6 ≡ flags_of (select false ps))
unfolding format_compact
format_compact-entries ps ok =
    format_peers-append (record { ipv4 = []; flags4 = []; ipv6 = []; flags6 = [] }) ps ok

-- For peers whose addresses have 4 or 16 bytes and whose ports have 16 bits, the two lists that
-- FormatCompact writes are read back by ParseCompact as the IPv4 peers and as the others, with
-- their flags and in their order.
pub parse_compact-format_compact :
    (ps : List Peer)
    → All IsPeer ps
    → (parse_compact (format_compact ps).ipv4 (format_compact ps).flags4 false ≡ select true ps)
      × (parse_compact (format_compact ps).ipv6 (format_compact ps).flags6 true ≡ select false ps)
parse_compact-format_compact ps ok =
    let (a, b, c, d) = format_compact-entries ps ok in
    (
      rw (a, b) (parse_compact-entries false (select true ps) (select-4 ps ok)),
      rw (c, d) (parse_compact-entries true (select false ps) (select-6 ps ok)),
    )
