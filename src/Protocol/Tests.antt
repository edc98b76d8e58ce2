-- ===== src/Protocol/Tests.antt =====
-- A small codec in place of bencode, and messages that are written and read with it.
use storrent.Prelude.{
  ℕ, ◌+◌, ◌≡◌, refl, Bool, true, false, List, [], ◌∷◌, ◌++◌, Option, none, some, ◌==◌,
  if◌then◌else◌, length, take, drop, arith, ap, subst, take-length_append, drop-length_append,
}
use storrent.Net.Words.{be32, read_uint32}
use storrent.Protocol.{
  ExtensionInfo, PexInfo, MetadataInfo, have, extended_metadata, Codec, ext_metadata,
}
use storrent.Protocol.Writer.{sends, write, send_extended, send_message}
use storrent.Protocol.Reader.{got, read, read_sized, read_typed, read_index}
use storrent.Protocol.Reader.RoundTrip.{IsInverse, received, read-write}
use storrent.Protocol.Reader.Consumption.{read-drop}

-- A list after its length.
abbrev put : List ℕ → List ℕ → List ℕ
put l r = length l ∷ (l ++ r)

abbrev first : List ℕ → List ℕ
first [] = []
first (n ∷ r) = take n r

abbrev after : List ℕ → List ℕ
after [] = []
after (n ∷ r) = drop n r

first-put : (l r : List ℕ) → first (put l r) ≡ l
first-put l r = take-length_append l r

after-put : (l r : List ℕ) → after (put l r) ≡ r
after-put l r = drop-length_append l r

abbrev head_or_0 : List ℕ → ℕ
head_or_0 [] = 0
head_or_0 (x ∷ l) = x

abbrev bit : Bool → ℕ
bit true = 1
bit false = 0

bit-is_one : (b : Bool) → (bit b == 1) ≡ b
bit-is_one true = refl
bit-is_one false = refl

-- Handshakes without a dictionary of messages; others are refused.
abbrev numbers : ExtensionInfo → List ℕ
numbers e = e.port ∷ e.req_q ∷ e.metadata_size ∷ bit e.upload_only ∷ bit e.encrypt ∷ []

abbrev toy_extension : ExtensionInfo → List (List ℕ × ℕ) → Option (List ℕ)
toy_extension e [] = some (put e.version (put e.ipv4 (put e.ipv6 (numbers e))))
toy_extension e (m ∷ ms) = none

abbrev numbered : List ℕ → List ℕ → List ℕ → List ℕ → Option ExtensionInfo
numbered v a4 a6 (p ∷ q ∷ s ∷ u ∷ c ∷ l) = some (record {
  version = v;
  ipv4 = a4;
  ipv6 = a6;
  port = p;
  req_q = q;
  metadata_size = s;
  messages = [];
  upload_only = u == 1;
  encrypt = c == 1;
})
numbered v a4 a6 l = none

abbrev option_pair : Option ℕ → List ℕ → List ℕ
option_pair none r = 0 ∷ 0 ∷ r
option_pair (some v) r = 1 ∷ v ∷ r

abbrev pair_option : ℕ → ℕ → Option ℕ
pair_option t v = if t == 0 then none else some v

abbrev toy_metadata : List ℕ → Option (MetadataInfo × ℕ)
toy_metadata (a ∷ b ∷ c ∷ d ∷ e ∷ f ∷ l) =
    some
      (record { tpe = pair_option a b; piece = pair_option c d; total_size = pair_option e f }, 6)
toy_metadata l = none

abbrev toy : Codec
toy = record {
  encode_extension = λ e. toy_extension e e.messages;
  decode_extension =
      λ l. numbered (first l) (first (after l)) (first (after (after l))) (after (after (after l)));
  encode_pex = λ p. some (
      put p.added
        (put p.added_f (put p.added6 (put p.added6_f (put p.dropped (put p.dropped6 []))))));
  decode_pex = λ l. some (record {
    added = first l;
    added_f = first (after l);
    added6 = first (after (after l));
    added6_f = first (after (after (after l)));
    dropped = first (after (after (after (after l))));
    dropped6 = first (after (after (after (after (after l)))));
  });
  encode_metadata =
      λ m. some (option_pair m.tpe (option_pair m.piece (option_pair m.total_size [])));
  decode_metadata = toy_metadata;
}

toy_metadata-inverse :
    (t i s : Option ℕ) (d : List ℕ)
    → toy_metadata (option_pair t (option_pair i (option_pair s [])) ++ d)
      ≡ some (
        record { tpe = t; piece = i; total_size = s },
        length (option_pair t (option_pair i (option_pair s []))),
      )
toy_metadata-inverse none none none d = refl
toy_metadata-inverse none none (some z) d = refl
toy_metadata-inverse none (some y) none d = refl
toy_metadata-inverse none (some y) (some z) d = refl
toy_metadata-inverse (some x) none none d = refl
toy_metadata-inverse (some x) none (some z) d = refl
toy_metadata-inverse (some x) (some y) none d = refl
toy_metadata-inverse (some x) (some y) (some z) d = refl

numbered-numbers :
    (e : ExtensionInfo) → e.messages ≡ [] → numbered e.version e.ipv4 e.ipv6 (numbers e) ≡ some e
numbered-numbers e none_there = rw (bit-is_one e.upload_only, bit-is_one e.encrypt, none_there) refl

toy_extension-inverse :
    (e : ExtensionInfo) (b : List ℕ)
    → toy.encode_extension e ≡ some b
    → toy.decode_extension b ≡ some e
toy_extension-inverse e b h = by_messages e.messages refl
  where
    by_messages : (ms : List (List ℕ × ℕ)) → e.messages ≡ ms → toy.decode_extension b ≡ some e
    by_messages [] there =
        let bytes : put e.version (put e.ipv4 (put e.ipv6 (numbers e))) ≡ b =
          cc (h, ap (toy_extension e) there) in
        subst (λ x. toy.decode_extension x ≡ some e) bytes
          (simp (take-length_append, drop-length_append) (numbered-numbers e there))
    by_messages (m ∷ ms) there = absurd (cc (h, ap (toy_extension e) there))

toy_pex-inverse : (p : PexInfo) (b : List ℕ) → toy.encode_pex p ≡ some b → toy.decode_pex b ≡ some p
toy_pex-inverse p b h =
    let bytes : put p.added
          (put p.added_f (put p.added6 (put p.added6_f (put p.dropped (put p.dropped6 [])))))
        ≡ b =
      cc in
    subst (λ x. toy.decode_pex x ≡ some p) bytes (simp (take-length_append, drop-length_append))

toy-IsInverse : IsInverse toy
toy-IsInverse = record {
  extension = toy_extension-inverse;
  pex = toy_pex-inverse;
  metadata = λ m b d h.
      let bytes : option_pair m.tpe (option_pair m.piece (option_pair m.total_size [])) ≡ b = cc in
      subst (λ x. toy_metadata (x ++ d) ≡ some (m, length x)) bytes
        (toy_metadata-inverse m.tpe m.piece m.total_size d);
}

abbrev wire : List ℕ
wire = 0 ∷ 0 ∷ 0 ∷ 10 ∷ 20 ∷ 2 ∷ 1 ∷ 1 ∷ 1 ∷ 0 ∷ 1 ∷ 20000 ∷ 7 ∷ 8 ∷ []

writes : write toy (extended_metadata ext_metadata 1 0 20000 (7 ∷ 8 ∷ [])) ≡ sends wire
unfolding write send_extended send_message
writes = refl

read-write_example :
    read toy (wire ++ (0 ∷ 0 ∷ []))
    ≡ got (received (extended_metadata ext_metadata 1 0 20000 (7 ∷ 8 ∷ []))) (0 ∷ 0 ∷ [])
read-write_example =
    read-write toy toy-IsInverse (0 ∷ 0 ∷ [])
      (extended_metadata ext_metadata 1 0 20000 (7 ∷ 8 ∷ [])) wire refl (omega arith) writes

abbrev have_wire : List ℕ
have_wire = 0 ∷ 0 ∷ 0 ∷ 5 ∷ 4 ∷ 0 ∷ 0 ∷ 1 ∷ 2 ∷ 9 ∷ []

read_length : read_uint32 have_wire ≡ some (5, 4 ∷ 0 ∷ 0 ∷ 1 ∷ 2 ∷ 9 ∷ [])
unfolding read_uint32
read_length = refl

have_read : read toy have_wire ≡ got (have 258) (9 ∷ [])
unfolding read read_uint32 read_sized storrent.Net.Words.read_byte read_typed read_index
have_read = refl

read-drop_example : 9 ∷ [] ≡ drop (4 + 5) have_wire
read-drop_example =
    read-drop (have 258) (9 ∷ []) toy have_wire 5 (4 ∷ 0 ∷ 0 ∷ 1 ∷ 2 ∷ 9 ∷ []) read_length
      (λ r' e. omega arith) have_read
