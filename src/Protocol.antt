-- ===== src/Protocol.antt =====
-- protocol/: the messages of the BitTorrent protocol, of protocol/requests.go. What is written to
-- and read from a connection is the list of its bytes. github.com/zeebo/bencode is a parameter, a
-- `Codec`, of the modules below.
pub mod Writer
pub mod Reader
mod Tests
use storrent.Prelude.{ℕ, ◌*◌, Bool, List, Option}
use storrent.Net.{Addr}
use storrent.Pex
use storrent.Pex.{Peer}

-- The subtypes that storrent takes extended messages under.
abbrev pub ext_pex : ℕ
ext_pex = 1

abbrev pub ext_metadata : ℕ
ext_metadata = 2

abbrev pub ext_dont_have : ℕ
ext_dont_have = 3

abbrev pub ext_upload_only : ℕ
ext_upload_only = 4

-- `m` of the dictionary of an extended handshake: names with subtypes. Nil and empty slices are the
-- empty list, which `omitempty` leaves out.
pub record ExtensionInfo : Type 0 where
  pub version : List ℕ
  pub ipv4 : List ℕ
  pub ipv6 : List ℕ
  pub port : ℕ
  pub req_q : ℕ
  pub metadata_size : ℕ
  pub messages : List (List ℕ × ℕ)
  pub upload_only : Bool
  pub encrypt : Bool

pub record PexInfo : Type 0 where
  pub added : List ℕ
  pub added_f : List ℕ
  pub added6 : List ℕ
  pub added6_f : List ℕ
  pub dropped : List ℕ
  pub dropped6 : List ℕ

pub record MetadataInfo : Type 0 where
  pub tpe : Option ℕ
  pub piece : Option ℕ
  pub total_size : Option ℕ

pub record Handshake : Type 0 where
  pub version : List ℕ
  pub port : ℕ
  pub req_q : ℕ
  pub ipv4 : Addr
  pub ipv6 : Addr
  pub metadata_size : ℕ
  pub messages : List (List ℕ × ℕ)
  pub upload_only : Bool
  pub encrypt : Bool

-- The messages of the wire. An Error, which Reader makes where Read fails, and nil are the cases
-- `failed` and `silent` of Read; Flush, which nothing uses, is left out.
pub data Message : Type 0 where
  keep_alive choke unchoke interested not_interested have_all have_none : Message
  have : ℕ → Message
  bitfield : List ℕ → Message
  request cancel reject_request : ℕ → ℕ → ℕ → Message
  piece : ℕ → ℕ → List ℕ → Message
  port : ℕ → Message
  suggest_piece allowed_fast : ℕ → Message
  extended0 : Handshake → Message
  extended_pex : ℕ → List Peer → List Peer → Message
  extended_metadata : ℕ → ℕ → ℕ → ℕ → List ℕ → Message
  extended_dont_have : ℕ → ℕ → Message
  extended_upload_only : ℕ → Bool → Message
  extended_unknown unknown : ℕ → Message

-- The calls of the bencode library. An encoder's `none` is an error. The decoder of MetadataInfo also
-- gives BytesParsed.
pub record Codec : Type 0 where
  pub encode_extension : ExtensionInfo → Option (List ℕ)
  pub decode_extension : List ℕ → Option ExtensionInfo
  pub encode_pex : PexInfo → Option (List ℕ)
  pub decode_pex : List ℕ → Option PexInfo
  pub encode_metadata : MetadataInfo → Option (List ℕ)
  pub decode_metadata : List ℕ → Option (MetadataInfo × ℕ)

-- The largest length that Read accepts.
abbrev pub max_length : ℕ
max_length = 1024 * 1024
