-- ===== src/Pex/Tests.antt =====
-- Two peers, formatted and parsed.
use storrent.Prelude.{◌∷◌, [], ◌≡◌, refl, true, false, List, replicate, arith}
use storrent.Net.{addr4, addr6}
use storrent.Pex.{Peer, parse_compact, format_compact}
use storrent.Pex.RoundTrip.{select, parse_compact-format_compact}

abbrev peers : List Peer
peers =
    record { addr = addr6 (replicate 16 9); port = 6881; flags = 2 }
    ∷ record { addr = addr4 (10 ∷ 0 ∷ 0 ∷ 1 ∷ []); port = 51413; flags = 1 }
    ∷ []

parse_compact-format_compact_example :
    (parse_compact (format_compact peers).ipv4 (format_compact peers).flags4 false
      ≡ select true peers)
    × (parse_compact (format_compact peers).ipv6 (format_compact peers).flags6 true
        ≡ select false peers)
parse_compact-format_compact_example =
    parse_compact-format_compact peers ((refl, omega arith), ((refl, omega arith), tt))
