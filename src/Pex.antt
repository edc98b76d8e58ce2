-- ===== src/Pex.antt =====
-- pex/pex.go: peers as peer exchange sends them, 6 or 18 bytes each with the flags apart.
pub mod RoundTrip
pub mod NoFlags
mod Tests
use storrent.Prelude.{
  ℕ, zero, suc, ◌+◌, ◌-◌, ◌*◌, ◌/◌, ◌%◌, ◌≡◌, Bool, true, false, not, ◌&&◌, List, [], ◌∷◌, ◌++◌,
  Option, none, some, ltb, ◌==◌, if◌then◌else◌, length, get_or, take, drop,
}
use storrent.Net.{Addr, addr_eq, addr_from_slice, is4, as4, as16}
use storrent.Net.Words.{be16, read_uint16}

pub record Peer : Type 0 where
  pub addr : Addr
  pub port : ℕ
  pub flags : ℕ

unfoldable pub find_from : ℕ → Peer → List Peer → Option ℕ
find_from i p [] = none
find_from i p (q ∷ l) =
    let rest = find_from (i + 1) p l in
    if addr_eq p.addr q.addr && (p.port == q.port) then some i else rest

-- Find; `none` is -1.
unfoldable pub find : Peer → List Peer → Option ℕ
unfolding find_from addr_eq
find p l = find_from 0 p l

-- The number of bytes of an address.
abbrev pub addr_length : Bool → ℕ
addr_length ipv6 = if ipv6 then 16 else 4

-- The end of a round of ParseCompact, with the address if there is one, the flags, and the port that
-- begins the slice after it. Too short a slice is a panic of Uint16, here no peer.
unfoldable pub peer_of : Option Addr → ℕ → Option (ℕ × List ℕ) → List Peer
peer_of none flag port = []
peer_of (some ip) flag none = []
peer_of (some ip) flag (some (port, rest)) = record { addr = ip; port = port; flags = flag } ∷ []

-- One round: the peer at index i, or nothing after `continue`.
unfoldable pub parse_peer : ℕ → ℕ → List ℕ → List ℕ → List Peer
parse_peer l i bs flags =
    let j = i * (l + 2) in
    peer_of (addr_from_slice (take l (drop j bs))) (get_or flags i 0)
      (read_uint16 (drop (j + l) bs))

unfoldable pub parse_peers : ℕ → ℕ → ℕ → List ℕ → List ℕ → List Peer
unfolding parse_peer
parse_peers l i zero bs flags = []
parse_peers l i (suc n) bs flags = parse_peer l i bs flags ++ parse_peers l (i + 1) n bs flags

unfoldable pub parse_compact : List ℕ → List ℕ → Bool → List Peer
unfolding parse_peers
parse_compact bs flags ipv6 =
    let l = addr_length ipv6 in
    if not (length bs % (l + 2) == 0) then [] else parse_peers l 0 (length bs / (l + 2)) bs flags

-- The results of FormatCompact.
pub record Compact : Type 0 where
  pub ipv4 : List ℕ
  pub flags4 : List ℕ
  pub ipv6 : List ℕ
  pub flags6 : List ℕ

-- One round of its loop. As4 does not panic, since Is4 was tested.
unfoldable pub format_peer : Compact → Peer → Compact
format_peer c p =
    if is4 p.addr
    then elim (as4 p.addr) [
      | none ↦ c
      | some v4 ↦ record c {
        ipv4 = c.ipv4 ++ (v4 ++ be16 p.port);
        flags4 = c.flags4 ++ (p.flags ∷ []);
      }
    ]
    else record c {
      ipv6 = c.ipv6 ++ (as16 p.addr ++ be16 p.port);
      flags6 = c.flags6 ++ (p.flags ∷ []);
    }

unfoldable pub format_peers : Compact → List Peer → Compact
unfolding format_peer
format_peers c [] = c
format_peers c (p ∷ ps) = format_peers (format_peer c p) ps

unfoldable pub format_compact : List Peer → Compact
unfolding format_peers
format_compact ps = format_peers (record { ipv4 = []; flags4 = []; ipv6 = []; flags6 = [] }) ps
