-- ===== src/Protocol/Reader/Framing.antt =====
-- Where Read of protocol/reader.go stops in the stream of bytes.
use storrent.Prelude.{
  ℕ, ◌^◌, ◌<◌, ◌≤◌, ◌≡◌, refl, List, ◌∷◌, ◌++◌, some, length, arith, ne→==, le→ltb, ◌∙◌,
  length-append, take-length_append, drop-length_append, le→leb,
}
use storrent.Net.Words.{
  be16, be32, read_byte, read_uint16, read_uint32, read_uint16-be16, read_uint32-be32,
}
use storrent.Protocol.{Codec, max_length}
use storrent.Protocol.Reader.{Read, need, read_full, read_typed, read_sized, read}

pub read_full-append : (b r : List ℕ) → read_full (length b) (b ++ r) ≡ some (b, r)
unfolding read_full
read_full-append b r =
    rw
      (
        le→leb (length b) (length (b ++ r)) (omega (arith, length-append b r)),
        take-length_append b r,
        drop-length_append b r,
      )
      refl

pub need-be32 :
    (v : ℕ) (r : List ℕ) (k : ℕ → List ℕ → Read)
    → v < 2 ^ 32
    → need (read_uint32 (be32 v ++ r)) k ≡ k v r
unfolding need
need-be32 v r k h = rw (read_uint32-be32 v r h) refl

pub need-be16 :
    (v : ℕ) (r : List ℕ) (k : ℕ → List ℕ → Read)
    → v < 2 ^ 16
    → need (read_uint16 (be16 v ++ r)) k ≡ k v r
unfolding need
need-be16 v r k h = rw (read_uint16-be16 v r h) refl

pub need-read_full :
    (b r : List ℕ) (n : ℕ) (k : List ℕ → List ℕ → Read)
    → n ≡ length b
    → need (read_full n (b ++ r)) k ≡ k b r
unfolding need
need-read_full b r n k e = rw (e, read_full-append b r) refl

-- A length, a type and what follows them.
pub read-frame :
    (codec : Codec) (n tpe : ℕ) (body rest : List ℕ)
    → 0 < n
    → n ≤ max_length
    → read codec ((be32 n ++ (tpe ∷ body)) ++ rest) ≡ read_typed codec n tpe (body ++ rest)
unfolding read read_sized need read_byte
read-frame codec n tpe body rest positive small =
    need-be32 n (tpe ∷ (body ++ rest)) (λ m r. read_sized codec m r) (omega arith)
    ∙ rw (ne→== n 0 (λ e. omega arith), le→ltb max_length n small) refl
