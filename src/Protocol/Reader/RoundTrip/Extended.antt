-- ===== src/Protocol/Reader/RoundTrip/Extended.antt =====
-- Read of what Write writes, for the extended messages.
use storrent.Prelude.{
  ℕ, ◌+◌, ◌%◌, ◌^◌, ◌<◌, ◌≤◌, ◌≡◌, refl, Bool, true, false, List, [], ◌∷◌, ◌++◌, Option, some,
  length, arith, ap, sym, ◌∙◌, append-nil, length-append, All, take-length_append,
  drop-length_append,
}
use storrent.Net.{Addr, addr_from_slice, is4, is6}
use storrent.Net.Words.{be32, read_byte}
use storrent.Protocol.{
  ExtensionInfo, PexInfo, Handshake, extended0, extended_pex, extended_metadata, extended_dont_have,
  Codec, max_length, ext_pex, ext_metadata, ext_dont_have,
}
use storrent.Protocol.Writer.{send_extended, extension_info, pex_info, as_slice, send_message}
use storrent.Protocol.Reader.{
  minus2, decoded, need, handshake, checked_addr, peers_of, pex_message, metadata_message,
  value_or_0, read_extension, read_pex, read_metadata, read_dont_have, read_extended, Read, got,
  read, read_typed,
}
use storrent.Protocol.Reader.Framing.{need-be32, need-read_full, read-frame}
use storrent.Pex.{Peer, Compact, parse_compact, format_compact}
use storrent.Pex.RoundTrip.{IsPeer, select, parse_compact-format_compact}
use storrent.Pex.NoFlags.{without_flags, parse_compact-without_flags}

-- The length of a part is not changed by `length-2`.
minus2-add : (n : ℕ) → n ≤ max_length → minus2 (n + 2) ≡ n
minus2-add n h = omega arith

peers_of-parse_compact :
    (bs flags : List ℕ) (ipv6 : Bool) → peers_of bs flags ipv6 ≡ parse_compact bs flags ipv6
unfolding peers_of parse_compact
peers_of-parse_compact bs flags true = ground arith
peers_of-parse_compact bs flags false = ground arith

decoded-some : {A : Type 0} (o : Option A) (x : A) (k : A → Read) → o ≡ some x → decoded o k ≡ k x
unfolding decoded
decoded-some o x k e = rw e refl

module _ (codec : Codec) (rest : List ℕ) where
  extended-frame :
      (s : ℕ) (d e : List ℕ)
      → length d + length e + 2 ≤ max_length
      → read codec (send_extended s d e ++ rest)
        ≡ read_extended codec (length d + length e + 2) s ((d ++ e) ++ rest)
  unfolding send_extended send_message read_typed need read_byte
  extended-frame s d e h =
      let len : length (s ∷ (d ++ e)) + 1 ≡ length d + length e + 2 =
        omega (arith, length-append d e) in
      let n : (length d + length e + 2) % 2 ^ 32 ≡ length d + length e + 2 = omega arith in
      rw (len, n)
        (read-frame codec (length d + length e + 2) 20 (s ∷ (d ++ e)) rest (omega arith) h)

  pub read_dont_have-send :
      (i : ℕ)
      → i < 2 ^ 32
      → read codec (send_extended ext_dont_have (be32 i) [] ++ rest)
        ≡ got (extended_dont_have ext_dont_have i) rest
  unfolding read_extended read_dont_have
  read_dont_have-send i h =
      extended-frame ext_dont_have (be32 i) [] (omega arith)
      ∙ need-be32 i rest (λ v r. got (extended_dont_have ext_dont_have v) r) h

  pub read_metadata-send :
      (b d : List ℕ) (t i : ℕ) (total : Option ℕ)
      → length b + length d + 2 ≤ max_length
      → codec.decode_metadata (b ++ d)
        ≡ some (record { tpe = some t; piece = some i; total_size = total }, length b)
      → read codec (send_extended ext_metadata b d ++ rest)
        ≡ got (extended_metadata ext_metadata t i (value_or_0 total) d) rest
  unfolding read_extended read_metadata metadata_message
  read_metadata-send b d t i total small decode =
      extended-frame ext_metadata b d small
      ∙ need-read_full (b ++ d) rest (minus2 (length b + length d + 2)) _
          (minus2-add (length b + length d) (omega arith) ∙ sym (length-append b d))
      ∙ decoded-some (codec.decode_metadata (b ++ d)) (_, length b) _ decode
      ∙ ap (λ x. got (extended_metadata ext_metadata t i (value_or_0 total) x) rest)
          (drop-length_append b d)

  pub read_extension-send :
      (b : List ℕ) (e : ExtensionInfo)
      → length b + 2 ≤ max_length
      → codec.decode_extension b ≡ some e
      → read codec (send_extended 0 b [] ++ rest) ≡ got (extended0 (handshake e)) rest
  unfolding read_extended read_extension
  read_extension-send b e small decode =
      let n : minus2 (length b + 0 + 2) ≡ length b = omega arith in
      extended-frame 0 b [] (omega arith)
      ∙ rw (append-nil b, n, take-length_append b rest, drop-length_append b rest)
          (decoded-some (codec.decode_extension b) e (λ x. got (extended0 (handshake x)) rest)
            decode)

  pub read_pex-send :
      (b : List ℕ) (p : PexInfo)
      → length b + 2 ≤ max_length
      → codec.decode_pex b ≡ some p
      → read codec (send_extended ext_pex b [] ++ rest) ≡ got (pex_message p) rest
  unfolding read_extended read_pex
  read_pex-send b p small decode =
      let n : minus2 (length b + 0 + 2) ≡ length b = omega arith in
      extended-frame ext_pex b [] (omega arith)
      ∙ rw (append-nil b, n, take-length_append b rest, drop-length_append b rest)
          (decoded-some (codec.decode_pex b) p (λ x. got (pex_message x) rest) decode)

pub pex_message-pex_info :
    (a d : List Peer)
    → All IsPeer a
    → All IsPeer d
    → pex_message (pex_info (format_compact a) (format_compact d))
      ≡ extended_pex ext_pex
          (select true a ++ select false a)
          (select true (without_flags d) ++ select false (without_flags d))
pex_message-pex_info a d ha hd =
    let (a4, a6) = parse_compact-format_compact a ha in
    let (d4, d6) = parse_compact-without_flags d hd in
    let c : Compact = format_compact a in
    let e : Compact = format_compact d in
    rw
      (
        peers_of-parse_compact c.ipv4 c.flags4 false,
        peers_of-parse_compact c.ipv6 c.flags6 true,
        peers_of-parse_compact e.ipv4 [] false,
        peers_of-parse_compact e.ipv6 [] true,
        a4,
        a6,
        d4,
        d6,
      )
      refl

-- An address of the kind that its field is for, or none.
abbrev pub IsField : (Addr → Bool) → Addr → Type 0
IsField is a = checked_addr is (addr_from_slice (as_slice a)) ≡ a

pub handshake-extension_info :
    (h : Handshake) → IsField is4 h.ipv4 → IsField is6 h.ipv6 → handshake (extension_info h) ≡ h
handshake-extension_info h e4 e6 = rw (e4, e6) refl
