-- ===== src/Protocol/Reader.antt =====
-- Read of protocol/reader.go: the next message of a connection whose bytes are a list. That ends
-- where the peer closes the connection.
pub mod Framing
pub mod Consumption
pub mod RoundTrip
use storrent.Prelude.{
  ℕ, zero, suc, ◌+◌, ◌-◌, ◌*◌, ◌/◌, ◌%◌, ◌^◌, Bool, true, false, not, ◌&&◌, ◌||◌, List, [], ◌∷◌,
  ◌++◌, Option, none, some, ◌==◌, ltb, leb, if◌then◌else◌, length, take, drop,
}
use storrent.Net.{Addr, no_addr, addr_from_slice, is4, is6}
use storrent.Net.Words.{read_byte, read_uint16, read_uint32}
use storrent.Pex.{Peer, parse_compact}
use storrent.Protocol.{
  ExtensionInfo, PexInfo, MetadataInfo, Handshake, Message, keep_alive, choke, unchoke, interested,
  not_interested, have_all, have_none, have, bitfield, request, cancel, reject_request, piece, port,
  suggest_piece, allowed_fast, extended0, extended_pex, extended_metadata, extended_dont_have,
  extended_upload_only, extended_unknown, unknown, Codec, max_length, ext_pex, ext_metadata,
  ext_dont_have, ext_upload_only,
}

pub data Failure : Type 0 where
  io_error parse_error too_long decode_error : Failure

-- A message and the bytes after it, an error, or `silent`: no message and no error.
pub data Read : Type 0 where
  got : Message → List ℕ → Read
  failed : Failure → Read
  silent : List ℕ → Read

-- A read of a part, with the return on an error, and what follows it.
unfoldable pub need {ℓ} : {A : Type ℓ} → Option (A × List ℕ) → (A → List ℕ → Read) → Read
need none k = failed io_error
need (some (v, r)) k = k v r

-- io.ReadFull of n bytes.
unfoldable pub read_full : ℕ → List ℕ → Option (List ℕ × List ℕ)
read_full n bs = if leb n (length bs) then some (take n bs, drop n bs) else none

-- `length-2`, which wraps around for a length of 1.
abbrev pub minus2 : ℕ → ℕ
minus2 n = (n + (2 ^ 32 - 2)) % 2 ^ 32

-- The messages that are only a type.
unfoldable pub read_bare : ℕ → Message → List ℕ → Read
read_bare n m r = if not (n == 1) then failed parse_error else got m r

-- The messages with a number of 32 bits.
unfoldable pub read_index : ℕ → (ℕ → Message) → List ℕ → Read
unfolding need
read_index n m r =
    if not (n == 5) then failed parse_error else need (read_uint32 r) (λ i r'. got (m i) r')

-- The messages with three of them.
unfoldable pub read_range : ℕ → (ℕ → ℕ → ℕ → Message) → List ℕ → Read
unfolding need
read_range n m r =
    if not (n == 13)
    then failed parse_error
    else need (read_uint32 r)
        (λ i r1. need (read_uint32 r1) (λ b r2. need (read_uint32 r2) (λ l r3. got (m i b l) r3)))

unfoldable pub read_piece : ℕ → List ℕ → Read
unfolding need
read_piece n r =
    if ltb n 9
    then failed parse_error
    else need (read_uint32 r) (λ i r1.
      need (read_uint32 r1) (λ b r2. need (read_full (n - 9) r2) (λ d r3. got (piece i b d) r3)))

unfoldable pub read_port : ℕ → List ℕ → Read
unfolding need
read_port n r =
    if not (n == 3) then failed parse_error else need (read_uint16 r) (λ p r'. got (port p) r')

-- `if ok && is(ip) { field = ip }`
unfoldable pub checked_addr : (Addr → Bool) → Option Addr → Addr
checked_addr is none = no_addr
checked_addr is (some ip) = if is ip then ip else no_addr

abbrev pub handshake : ExtensionInfo → Handshake
handshake e = record {
  version = e.version;
  port = e.port;
  req_q = e.req_q;
  ipv4 = checked_addr is4 (addr_from_slice e.ipv4);
  ipv6 = checked_addr is6 (addr_from_slice e.ipv6);
  metadata_size = e.metadata_size;
  messages = e.messages;
  upload_only = e.upload_only;
  encrypt = e.encrypt;
}

-- One list of peers, if its length is right.
unfoldable pub peers_of : List ℕ → List ℕ → Bool → List Peer
peers_of bs flags ipv6 =
    if length bs % (if ipv6 then 18 else 6) == 0 then parse_compact bs flags ipv6 else []

abbrev pub pex_message : PexInfo → Message
pex_message p =
    extended_pex ext_pex (peers_of p.added p.added_f false ++ peers_of p.added6 p.added6_f true)
      (peers_of p.dropped [] false ++ peers_of p.dropped6 [] true)

-- The total size if it is there, else 0.
abbrev pub value_or_0 : Option ℕ → ℕ
value_or_0 none = 0
value_or_0 (some v) = v

-- After the decoder, with its result and the number of the bytes of `body` that it took.
unfoldable pub metadata_message : List ℕ → List ℕ → Option ℕ → Option ℕ → Option ℕ → ℕ → Read
metadata_message body r (some t) (some i) total count =
    got (extended_metadata ext_metadata t i (value_or_0 total) (drop count body)) r
metadata_message body r (some t) none total count = failed parse_error
metadata_message body r none i total count = failed parse_error

unfoldable pub decoded {ℓ} : {A : Type ℓ} → Option A → (A → Read) → Read
decoded none k = failed decode_error
decoded (some x) k = k x

unfoldable pub read_upload_only : ℕ → Option (ℕ × List ℕ) → Read
read_upload_only n none = failed parse_error
read_upload_only n (some (v, r)) =
    if not (minus2 n == 1) || (not (v == 0) && not (v == 1))
    then failed parse_error
    else got (extended_upload_only ext_upload_only (v == 1)) r

-- bufio's Discard of n bytes, and a message after it.
unfoldable pub discard : ℕ → Message → List ℕ → Read
discard n m r = if leb n (length r) then got m (drop n r) else failed io_error

module _ (codec : Codec) where
  -- The decoder reads at most n bytes, and what it leaves of them is thrown away.
  unfoldable pub read_extension : ℕ → List ℕ → Read
  unfolding decoded
  read_extension n r =
      decoded (codec.decode_extension (take n r)) (λ e. got (extended0 (handshake e)) (drop n r))

  unfoldable pub read_pex : ℕ → List ℕ → Read
  unfolding decoded
  read_pex n r = decoded (codec.decode_pex (take n r)) (λ p. got (pex_message p) (drop n r))

  unfoldable pub read_metadata : ℕ → List ℕ → Read
  unfolding need decoded
  read_metadata n r = need (read_full n r) (λ body r'.
      decoded (codec.decode_metadata body)
        (λ m. metadata_message body r' (m.0).tpe (m.0).piece (m.0).total_size m.1))

  unfoldable pub read_dont_have : ℕ → List ℕ → Read
  unfolding need
  read_dont_have n r =
      if not (n == 4)
      then failed parse_error
      else need (read_uint32 r) (λ i r'. got (extended_dont_have ext_dont_have i) r')

  unfoldable pub read_extended : ℕ → ℕ → List ℕ → Read
  read_extended n subtype r =
      if subtype == 0
      then read_extension (minus2 n) r
      else if subtype == ext_pex
      then read_pex (minus2 n) r
      else if subtype == ext_metadata
      then read_metadata (minus2 n) r
      else if subtype == ext_dont_have
      then read_dont_have (minus2 n) r
      else if subtype == ext_upload_only
      then read_upload_only n (read_byte r)
      else discard (minus2 n) (extended_unknown subtype) r

  -- The switch on the type, for a message of length n.
  unfoldable pub read_typed : ℕ → ℕ → List ℕ → Read
  unfolding need
  read_typed n tpe r =
      if tpe == 0
      then read_bare n choke r
      else if tpe == 1
      then read_bare n unchoke r
      else if tpe == 2
      then read_bare n interested r
      else if tpe == 3
      then read_bare n not_interested r
      else if tpe == 4
      then read_index n have r
      else if tpe == 5
      then need (read_full (n - 1) r) (λ b r'. got (bitfield b) r')
      else if tpe == 6
      then read_range n request r
      else if tpe == 7
      then read_piece n r
      else if tpe == 8
      then read_range n cancel r
      else if tpe == 9
      then read_port n r
      else if tpe == 13
      then read_index n suggest_piece r
      else if tpe == 14
      then (if not (n == 1) then silent r else got have_all r)
      else if tpe == 15
      then (if not (n == 1) then silent r else got have_none r)
      else if tpe == 16
      then read_range n reject_request r
      else if tpe == 17
      then read_index n allowed_fast r
      else if tpe == 20
      then need (read_byte r) (λ subtype r'. read_extended n subtype r')
      else discard (n - 1) (unknown tpe) r

  unfoldable pub read_sized : ℕ → List ℕ → Read
  unfolding need
  read_sized n r =
      if n == 0
      then got keep_alive r
      else if ltb max_length n
      then failed too_long
      else need (read_byte r) (λ tpe r'. read_typed n tpe r')

  unfoldable pub read : List ℕ → Read
  unfolding need
  read bs = need (read_uint32 bs) (λ n r. read_sized n r)
