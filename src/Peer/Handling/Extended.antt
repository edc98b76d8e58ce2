-- ===== src/Peer/Handling/Extended.antt =====
-- The extended messages in handleMessage of peer/peer.go: handshake, peers, metadata and DontHave.
use storrent.Prelude.{
  ℕ, ◌+◌, ◌*◌, ◌%◌, ◌^◌, Bool, true, false, not, ◌&&◌, ◌||◌, List, [], ◌∷◌, ◌++◌, Option, none,
  some, ltb, leb, ◌==◌, if◌then◌else◌, length, set, take, drop,
}
use storrent.Bitmap
use storrent.Bitmap.{Bitmap}
use storrent.Net.{Addr, no_addr, addr4, addr6, bytes_eq}
use storrent.Pex
use storrent.Protocol
use storrent.Protocol.{Message, Handshake}
use storrent.Known.{Kind, active_no_reset, seen, heard, pex}
use storrent.Peer.{
  Peer, Failure, out_of_range, duplicate_extended0, unexpected_metadata, err_congested,
  dont_have_from_seed, tor_peer_have, tor_peer_extended, tor_metadata, tor_add_known,
}
use storrent.Peer.Chunks.{num_pieces}
use storrent.Peer.Writing.{write, write_event, choose, bits, is_some}
use storrent.Peer.Handling.{done, fails}

-- An entry of the map of an extended handshake, 0 if there is none.
unfoldable pub subtype_of : List ℕ → List (List ℕ × ℕ) → ℕ
subtype_of name [] = 0
subtype_of name ((n, v) ∷ l) = let rest = subtype_of name l in if bytes_eq n name then v else rest

abbrev pub is_valid : Addr → Bool
is_valid no_addr = false
is_valid (addr4 b) = true
is_valid (addr6 b) = true

abbrev pub add_known : Peer → Addr → Handshake → Kind → Peer
add_known p ip h kind = write_event p (tor_add_known ip p.port (some p.id) h.version kind)

-- The part of Extended0 under `m.Port != 0`.
unfoldable pub learn_port : Peer → Handshake → Peer
learn_port p h =
    let p1 =
      if not (p.port == 0) && not (h.port == p.port % 2 ^ 16)
      then p
      else record p { port = h.port } in
    let p2 = add_known (add_known p1 p1.ip h active_no_reset) p1.ip h seen in
    let p3 = if is_valid h.ipv4 then add_known p2 h.ipv4 h heard else p2 in
    if is_valid h.ipv6 then add_known p3 h.ipv6 h heard else p3

abbrev pub is_empty_map : List (List ℕ × ℕ) → Bool
is_empty_map [] = true
is_empty_map (e ∷ l) = false

-- `ut_pex`, `ut_metadata`, `lt_donthave` and `upload_only`.
abbrev ut_pex : List ℕ
ut_pex = 117 ∷ 116 ∷ 95 ∷ 112 ∷ 101 ∷ 120 ∷ []

abbrev ut_metadata : List ℕ
ut_metadata = 117 ∷ 116 ∷ 95 ∷ 109 ∷ 101 ∷ 116 ∷ 97 ∷ 100 ∷ 97 ∷ 116 ∷ 97 ∷ []

abbrev lt_donthave : List ℕ
lt_donthave = 108 ∷ 116 ∷ 95 ∷ 100 ∷ 111 ∷ 110 ∷ 116 ∷ 104 ∷ 97 ∷ 118 ∷ 101 ∷ []

abbrev upload_only_name : List ℕ
upload_only_name = 117 ∷ 112 ∷ 108 ∷ 111 ∷ 97 ∷ 100 ∷ 95 ∷ 111 ∷ 110 ∷ 108 ∷ 121 ∷ []

unfoldable pub learn_extensions : Peer → Handshake → Peer
learn_extensions p h = if is_empty_map h.messages then p else record p {
  pex_ext = subtype_of ut_pex h.messages;
  metadata_ext = subtype_of ut_metadata h.messages;
  dont_have_ext = subtype_of lt_donthave h.messages;
  upload_only_ext = subtype_of upload_only_name h.messages;
}

-- The part of Extended0 from `m.ReqQ` on.
unfoldable pub learn_rest : Peer → Handshake → Peer
unfolding learn_extensions
learn_rest p h =
    let p' = learn_extensions (if ltb 0 h.req_q then record p { req_q = h.req_q } else p) h in
    write_event (record p' { prefers_encryption = h.encrypt; upload_only = h.upload_only })
      (tor_peer_extended h.metadata_size)

unfoldable pub handle_extended0 : Peer → Handshake → Option (Peer × Option Failure)
unfolding learn_port learn_rest
handle_extended0 p h =
    if p.got_extended
    then fails p duplicate_extended0
    else (let p' = record p { got_extended = true } in
        done (learn_rest (if h.port == 0 then p' else learn_port p' h) h))

-- The bodies of the two loops of ExtendedPex.
unfoldable pub learn_peer : Peer → Pex.Peer → Option ℕ → Peer
learn_peer p a (some i) = record p { pex = set p.pex i a }
learn_peer p a none =
    write_event (record p { pex = p.pex ++ (a ∷ []) }) (tor_add_known a.addr a.port none [] pex)

unfoldable pub forget_peer : Peer → Option ℕ → Peer
forget_peer p (some i) = record p { pex = take i p.pex ++ drop (i + 1) p.pex }
forget_peer p none = p

unfoldable pub pex_added : Peer → List Pex.Peer → Peer
unfolding learn_peer
pex_added p [] = p
pex_added p (a ∷ l) = pex_added (learn_peer p a (Pex.find a p.pex)) l

unfoldable pub pex_dropped : Peer → List Pex.Peer → Peer
unfolding forget_peer
pex_dropped p [] = p
pex_dropped p (d ∷ l) = pex_dropped (forget_peer p (Pex.find d p.pex)) l

-- The reject of a request for metadata; its error is ignored.
abbrev pub refuse_metadata : Peer → ℕ → Peer
refuse_metadata p index =
    (write p (Protocol.extended_metadata (p.metadata_ext % 256) 2 index 0 [])).0

unfoldable pub after_metadata : ℕ → Peer × Option Failure → Peer × Option Failure
after_metadata index (p, none) = (p, none)
after_metadata index (p, some err_congested) = (refuse_metadata p index, none)
after_metadata index (p, some e) = (p, some e)

unfoldable pub info_bytes : Option (List ℕ) → List ℕ
info_bytes none = []
info_bytes (some b) = b

unfoldable pub send_metadata : Peer → ℕ → List ℕ → Peer × Option Failure
unfolding after_metadata
send_metadata p index info =
    if leb (length info) (index * 16384)
    then (refuse_metadata p index, none)
    else after_metadata index (
        write p (
          Protocol.extended_metadata (p.metadata_ext % 256) 1 index (length info)
            (take 16384 (drop (index * 16384) info))))

unfoldable pub handle_metadata : Peer → ℕ → ℕ → ℕ → List ℕ → Peer × Option Failure
unfolding send_metadata info_bytes
handle_metadata p tpe index total bs =
    if tpe == 0
    then (let (p', full) = choose p in
        if (p.metadata_ext == 0) || full
        then (p', none)
        else send_metadata p' index (info_bytes p.info))
    else if tpe == 1
    then (write_event p (tor_metadata total index bs), none)
    else if tpe == 2
    then (p, none)
    else (p, some unexpected_metadata)

unfoldable pub handle_dont_have : Peer → ℕ → Option (Peer × Option Failure)
handle_dont_have p index =
    if p.is_seed && not (is_some p.info)
    then fails p dont_have_from_seed
    else (let p' = record p { is_seed = false } in
        if is_some p'.info && leb (num_pieces p'.pieces % 2 ^ 32) index
        then fails p' out_of_range
        else if Bitmap.get (bits p'.bitmap) index
        then done (
            write_event (record p' { bitmap = some (Bitmap.reset (bits p'.bitmap) index) })
              (tor_peer_have index false))
        else done p')
