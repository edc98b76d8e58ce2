-- ===== src/Protocol/Writer.antt =====
-- protocol/writer.go: the bytes of a message. Errors of the connection are not modelled.
use storrent.Prelude.{
  ℕ, ◌+◌, ◌%◌, ◌^◌, List, [], ◌∷◌, ◌++◌, Option, none, some, ◌==◌, ltb, if◌then◌else◌, length,
}
use storrent.Net.{Addr, no_addr, addr4, addr6}
use storrent.Net.Words.{be16, be32}
use storrent.Pex.{Compact, format_compact}
use storrent.Protocol.{
  ExtensionInfo, PexInfo, MetadataInfo, Handshake, Message, keep_alive, choke, unchoke, interested,
  not_interested, have_all, have_none, have, bitfield, request, cancel, reject_request, piece, port,
  suggest_piece, allowed_fast, extended0, extended_pex, extended_metadata, extended_dont_have,
  extended_upload_only, extended_unknown, unknown, Codec,
}

-- Write sends bytes, fails in bencode, or panics.
pub data Written : Type 0 where
  sends : List ℕ → Written
  encode_error panics : Written

-- The slice `data1`, `data2` and `data3` one after the other.
unfoldable pub send_message : ℕ → List ℕ → List ℕ
send_message tpe body = be32 ((length body + 1) % 2 ^ 32) ++ (tpe ∷ body)

unfoldable pub send_message0 : ℕ → List ℕ
send_message0 tpe = be32 1 ++ (tpe ∷ [])

unfoldable pub send_message_short : ℕ → ℕ → List ℕ
send_message_short tpe v = be32 3 ++ (tpe ∷ be16 v)

unfoldable pub send_message1 : ℕ → ℕ → List ℕ
send_message1 tpe v = be32 5 ++ (tpe ∷ be32 v)

unfoldable pub send_message3 : ℕ → ℕ → ℕ → ℕ → List ℕ
send_message3 tpe v1 v2 v3 = be32 13 ++ (tpe ∷ (be32 v1 ++ (be32 v2 ++ be32 v3)))

unfoldable pub send_extended : ℕ → List ℕ → List ℕ → List ℕ
send_extended subtype data1 data2 = send_message 20 (subtype ∷ (data1 ++ data2))

-- `if a.IsValid() { field = a.AsSlice() }`
unfoldable pub as_slice : Addr → List ℕ
as_slice no_addr = []
as_slice (addr4 b) = b
as_slice (addr6 b) = b

abbrev pub extension_info : Handshake → ExtensionInfo
extension_info h = record {
  version = h.version;
  ipv4 = as_slice h.ipv4;
  ipv6 = as_slice h.ipv6;
  port = h.port;
  req_q = h.req_q;
  metadata_size = h.metadata_size;
  messages = h.messages;
  upload_only = h.upload_only;
  encrypt = h.encrypt;
}

abbrev pub metadata_info : ℕ → ℕ → ℕ → MetadataInfo
metadata_info t i total = record {
  tpe = some t;
  piece = some i;
  total_size = if ltb 0 total then some total else none;
}

abbrev pub pex_info : Compact → Compact → PexInfo
pex_info a d = record {
  added = a.ipv4;
  added_f = a.flags4;
  added6 = a.ipv6;
  added6_f = a.flags6;
  dropped = d.ipv4;
  dropped6 = d.ipv6;
}

unfoldable pub send_encoded : ℕ → Option (List ℕ) → List ℕ → Written
send_encoded subtype none rest = encode_error
send_encoded subtype (some b) rest = sends (send_extended subtype b rest)

module _ (codec : Codec) where
  unfoldable pub write : Message → Written
  write keep_alive = sends (0 ∷ 0 ∷ 0 ∷ 0 ∷ [])
  write choke = sends (send_message0 0)
  write unchoke = sends (send_message0 1)
  write interested = sends (send_message0 2)
  write not_interested = sends (send_message0 3)
  write (have i) = sends (send_message1 4 i)
  write (bitfield b) = sends (send_message 5 b)
  write (request i b l) = sends (send_message3 6 i b l)
  write (piece i b d) =
      sends (be32 ((1 + 8 + length d) % 2 ^ 32) ++ (7 ∷ (be32 i ++ (be32 b ++ d))))
  write (cancel i b l) = sends (send_message3 8 i b l)
  write (port p) = sends (send_message_short 9 p)
  write (suggest_piece i) = sends (send_message1 13 i)
  write have_all = sends (send_message0 14)
  write have_none = sends (send_message0 15)
  write (reject_request i b l) = sends (send_message3 16 i b l)
  write (allowed_fast i) = sends (send_message1 17 i)
  write (extended0 h) = send_encoded 0 (codec.encode_extension (extension_info h)) []
  write (extended_metadata s t i total d) = elim (codec.encode_metadata (metadata_info t i total)) [
    | none ↦ encode_error
    | some b ↦ if s == 0 then panics else sends (send_extended s b d)
  ]
  write (extended_pex s a d) =
      send_encoded s (codec.encode_pex (pex_info (format_compact a) (format_compact d))) []
  write (extended_dont_have s i) = if s == 0 then panics else sends (send_extended s (be32 i) [])
  write (extended_upload_only s v) = panics
  write (extended_unknown s) = panics
  write (unknown t) = panics
