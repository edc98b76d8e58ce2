-- ===== src/Protocol/Reader/RoundTrip.antt =====
-- Read of what Write writes.
mod Plain
mod Extended
use storrent.Prelude.{
  ℕ, zero, suc, ◌+◌, ◌-◌, ◌*◌, ◌/◌, ◌%◌, ◌^◌, ◌<◌, ◌≤◌, ◌≡◌, refl, ◌⊎◌, inl, inr, Bool, true, false,
  List, [], ◌∷◌, ◌++◌, Option, none, some, ◌==◌, if◌then◌else◌, length, arith, ap, sym, subst, ◌∙◌,
  Option-cases, ltb, length-append, All,
}
use storrent.Net.{is4, is6}
use storrent.Net.Words.{be16, be32, read_uint32}
use storrent.Pex.{Peer, format_compact}
use storrent.Pex.RoundTrip.{IsPeer, select}
use storrent.Pex.NoFlags.{without_flags}
use storrent.Protocol.{
  ExtensionInfo, PexInfo, MetadataInfo, Handshake, Message, keep_alive, choke, unchoke, interested,
  not_interested, have_all, have_none, have, bitfield, request, cancel, reject_request, piece, port,
  suggest_piece, allowed_fast, extended0, extended_pex, extended_metadata, extended_dont_have,
  extended_upload_only, extended_unknown, unknown, Codec, max_length, ext_pex, ext_metadata,
  ext_dont_have, ext_upload_only,
}
use storrent.Protocol.Writer.{
  Written, sends, encode_error, panics, write, send_message, send_message0, send_message1,
  send_message3, send_message_short, send_extended, send_encoded, extension_info, metadata_info,
  pex_info,
}
use storrent.Protocol.Reader.{
  value_or_0, Read, got, need, read_sized, read, read_typed, read_bare, read_index, read_range,
  read_piece, read_port,
}
use Plain.{read-bare, read-index, read-range, read-bitfield, read-piece, read-port}
use Extended.{
  IsField, read_dont_have-send, read_metadata-send, read_extension-send, read_pex-send,
  pex_message-pex_info, handshake-extension_info,
}

-- The decoders take back what the encoders made, and the one of MetadataInfo tells where it ends.
pub record IsInverse (codec : Codec) : Type 0 where
  pub extension :
      (e : ExtensionInfo) (b : List ℕ)
      → codec.encode_extension e ≡ some b
      → codec.decode_extension b ≡ some e
  pub pex : (p : PexInfo) (b : List ℕ) → codec.encode_pex p ≡ some b → codec.decode_pex b ≡ some p
  pub metadata :
      (m : MetadataInfo) (b d : List ℕ)
      → codec.encode_metadata m ≡ some b
      → codec.decode_metadata (b ++ d) ≡ some (m, length b)

-- The fields fit their types, and the subtype is the one that storrent takes such a message under.
abbrev pub IsSendable : Message → Type 0
IsSendable keep_alive = Unit
IsSendable choke = Unit
IsSendable unchoke = Unit
IsSendable interested = Unit
IsSendable not_interested = Unit
IsSendable have_all = Unit
IsSendable have_none = Unit
IsSendable (have i) = i < 2 ^ 32
IsSendable (bitfield b) = Unit
IsSendable (request i b l) = (i < 2 ^ 32) × (b < 2 ^ 32) × (l < 2 ^ 32)
IsSendable (cancel i b l) = (i < 2 ^ 32) × (b < 2 ^ 32) × (l < 2 ^ 32)
IsSendable (reject_request i b l) = (i < 2 ^ 32) × (b < 2 ^ 32) × (l < 2 ^ 32)
IsSendable (piece i b d) = (i < 2 ^ 32) × (b < 2 ^ 32)
IsSendable (port p) = p < 2 ^ 16
IsSendable (suggest_piece i) = i < 2 ^ 32
IsSendable (allowed_fast i) = i < 2 ^ 32
IsSendable (extended0 h) = IsField is4 h.ipv4 × IsField is6 h.ipv6
IsSendable (extended_pex s a d) = (s ≡ ext_pex) × All IsPeer a × All IsPeer d
IsSendable (extended_metadata s t i total d) = s ≡ ext_metadata
IsSendable (extended_dont_have s i) = (s ≡ ext_dont_have) × (i < 2 ^ 32)
IsSendable (extended_upload_only s v) = Unit
IsSendable (extended_unknown s) = Unit
IsSendable (unknown t) = Unit

-- Peers arrive with the IPv4 ones first, and the dropped ones without flags.
abbrev pub received : Message → Message
received (extended_pex s a d) =
    extended_pex s (select true a ++ select false a)
      (select true (without_flags d) ++ select false (without_flags d))
received m = m

abbrev sent : Written → List ℕ
sent (sends b) = b
sent encode_error = []
sent panics = []

total_size : (v : ℕ) → value_or_0 (if ltb 0 v then some v else none) ≡ v
total_size v = ground arith

-- What the bytes sent are, and how long, where the message is encoded first.
send_encoded-sends :
    (s : ℕ) (o : Option (List ℕ)) (bs : List ℕ)
    → send_encoded s o [] ≡ sends bs
    → length bs ≤ 4 + max_length
    → (b : List ℕ) × (o ≡ some b)
      × (sends (send_extended s b []) ≡ sends bs)
      × (length b + 2 ≤ max_length)
unfolding send_encoded send_extended send_message
send_encoded-sends s none bs e small = cc
send_encoded-sends s (some b) bs e small =
    let len : length (send_extended s b []) ≤ 4 + max_length =
      subst (λ y. length y ≤ 4 + max_length) (sym (ap sent e)) small in
    (b, refl, e, omega (arith, len, length-append b []))

extended_metadata-sends :
    (codec : Codec) (s t i total : ℕ) (d bs : List ℕ)
    → write codec (extended_metadata s t i total d) ≡ sends bs
    → length bs ≤ 4 + max_length
    → (b : List ℕ) × (codec.encode_metadata (metadata_info t i total) ≡ some b)
      × (sends (send_extended s b d) ≡ sends bs)
      × (length b + length d + 2 ≤ max_length)
unfolding write send_extended send_message
extended_metadata-sends codec s t i total d bs e small =
    elim (Option-cases (codec.encode_metadata (metadata_info t i total))) [
      | inl fails ↦ absurd (ground (arith, rw (write, fails) at e))
      | inr (b, encodes) ↦
          let e' : sends (send_extended s b d) ≡ sends bs =
            ground (arith, rw (write, encodes) at e) in
          let len : length (send_extended s b d) ≤ 4 + max_length =
            subst (λ y. length y ≤ 4 + max_length) (sym (ap sent e')) small in
          (b, encodes, e', omega (arith, len, length-append b d))
    ]

module _ (codec : Codec) (inverse : IsInverse codec) (rest : List ℕ) where
  -- From what Write is to send to what it sent.
  by_bytes :
      (x bs : List ℕ) (r : Read)
      → sends x ≡ sends bs
      → read codec (x ++ rest) ≡ r
      → read codec (bs ++ rest) ≡ r
  by_bytes x bs r e done = subst (λ y. read codec (y ++ rest) ≡ r) (ap sent e) done

  by_length :
      (x bs : List ℕ) → sends x ≡ sends bs → length bs ≤ 4 + max_length → length x ≤ 4 + max_length
  by_length x bs e small = subst (λ y. length y ≤ 4 + max_length) (sym (ap sent e)) small

  -- If the codec's decoders take back what its encoders made, a message whose fields fit their types,
  -- with a subtype that storrent takes such a message under, and whose bytes are within the limit of
  -- Read, is read back from the bytes that Write sends, whatever follows them, and Read stops where
  -- they end. Peers come back with the IPv4 ones first, and the dropped ones without flags.
  pub read-write :
      (m : Message) (bs : List ℕ)
      → IsSendable m
      → length bs ≤ 4 + max_length
      → write codec m ≡ sends bs
      → read codec (bs ++ rest) ≡ got (received m) rest
  unfolding write read_typed read_bare read read_sized need read_uint32 send_message
  read-write keep_alive bs ok small e = by_bytes _ bs _ e refl
  read-write choke bs ok small e = by_bytes _ bs _ e (read-bare codec rest 0 choke (λ r. refl))
  read-write unchoke bs ok small e = by_bytes _ bs _ e (read-bare codec rest 1 unchoke (λ r. refl))
  read-write interested bs ok small e =
      by_bytes _ bs _ e (read-bare codec rest 2 interested (λ r. refl))
  read-write not_interested bs ok small e =
      by_bytes _ bs _ e (read-bare codec rest 3 not_interested (λ r. refl))
  read-write have_all bs ok small e =
      by_bytes _ bs _ e (read-bare codec rest 14 have_all (λ r. refl))
  read-write have_none bs ok small e =
      by_bytes _ bs _ e (read-bare codec rest 15 have_none (λ r. refl))
  read-write (have i) bs ok small e =
      by_bytes _ bs _ e (read-index codec rest 4 have i (λ r. refl) ok)
  read-write (bitfield b) bs ok small e =
      by_bytes _ bs _ e (read-bitfield codec rest b (omega (arith, small, by_length _ bs e small)))
  read-write (request i b l) bs ok small e =
      by_bytes _ bs _ e (read-range codec rest 6 request i b l (λ r. refl) ok)
  read-write (cancel i b l) bs ok small e =
      by_bytes _ bs _ e (read-range codec rest 8 cancel i b l (λ r. refl) ok)
  read-write (reject_request i b l) bs ok small e =
      by_bytes _ bs _ e (read-range codec rest 16 reject_request i b l (λ r. refl) ok)
  read-write (piece i b d) bs (hi, hb) small e =
      by_bytes _ bs _ e
        (read-piece codec rest i b d (hi, hb, omega (arith, by_length _ bs e small)))
  read-write (port p) bs ok small e = by_bytes _ bs _ e (read-port codec rest p ok)
  read-write (suggest_piece i) bs ok small e =
      by_bytes _ bs _ e (read-index codec rest 13 suggest_piece i (λ r. refl) ok)
  read-write (allowed_fast i) bs ok small e =
      by_bytes _ bs _ e (read-index codec rest 17 allowed_fast i (λ r. refl) ok)
  read-write (extended0 h) bs (four, six) small e =
      let (b, encodes, e', len) = send_encoded-sends 0 _ bs e small in
      by_bytes _ bs _ e' (
        read_extension-send codec rest b (extension_info h) len (inverse.extension _ b encodes)
        ∙ ap (λ x. got (extended0 x) rest) (handshake-extension_info h four six))
  read-write (extended_pex s a d) bs (is_pex, ha, hd) small e =
      let (b, encodes, e', len) = send_encoded-sends s _ bs e small in
      by_bytes _ bs _ e' (
        rw is_pex (
          read_pex-send codec rest b (pex_info (format_compact a) (format_compact d)) len
            (inverse.pex _ b encodes)
          ∙ ap (λ x. got x rest) (pex_message-pex_info a d ha hd)))
  read-write (extended_metadata s t i total d) bs is_metadata small e =
      let (b, encodes, e', len) = extended_metadata-sends codec s t i total d bs e small in
      by_bytes _ bs _ e' (
        rw is_metadata (
          read_metadata-send codec rest b d t i (if ltb 0 total then some total else none) len
            (inverse.metadata _ b d encodes)
          ∙ ap (λ x. got (extended_metadata ext_metadata t i x d) rest) (total_size total)))
  read-write (extended_dont_have s i) bs (is_dont_have, hi) small e =
      by_bytes (send_extended s (be32 i) []) bs _ (dont_have_sends e)
        (rw is_dont_have (read_dont_have-send codec rest i hi))
    where
      dont_have_sends :
          write codec (extended_dont_have s i) ≡ sends bs
          → sends (send_extended s (be32 i) []) ≡ sends bs
      dont_have_sends h = ground arith
  read-write (extended_upload_only s v) bs ok small e = cc
  read-write (extended_unknown s) bs ok small e = cc
  read-write (unknown t) bs ok small e = cc
