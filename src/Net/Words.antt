-- ===== src/Net/Words.antt =====
-- Numbers of 16 and 32 bits as bytes, the highest first, as encoding/binary writes and reads them.
use storrent.Prelude.{
  ℕ, ◌+◌, ◌*◌, ◌/◌, ◌%◌, ◌^◌, ◌<◌, ◌≡◌, List, [], ◌∷◌, ◌++◌, Option, none, some, arith,
}

abbrev pub be16 : ℕ → List ℕ
be16 v = (v / 256 % 256) ∷ (v % 256) ∷ []

abbrev pub be32 : ℕ → List ℕ
be32 v = (v / 16777216 % 256) ∷ (v / 65536 % 256) ∷ (v / 256 % 256) ∷ (v % 256) ∷ []

-- Reading one byte, or a number; `none` where the bytes end.
unfoldable pub read_byte : List ℕ → Option (ℕ × List ℕ)
read_byte [] = none
read_byte (a ∷ r) = some (a, r)

unfoldable pub read_uint16 : List ℕ → Option (ℕ × List ℕ)
read_uint16 (a ∷ b ∷ r) = some (a * 256 + b, r)
read_uint16 (a ∷ []) = none
read_uint16 [] = none

unfoldable pub read_uint32 : List ℕ → Option (ℕ × List ℕ)
read_uint32 (a ∷ b ∷ c ∷ d ∷ r) = some (((a * 256 + b) * 256 + c) * 256 + d, r)
read_uint32 (a ∷ b ∷ c ∷ []) = none
read_uint32 (a ∷ b ∷ []) = none
read_uint32 (a ∷ []) = none
read_uint32 [] = none

pub read_uint16-be16 : (v : ℕ) (r : List ℕ) → v < 2 ^ 16 → read_uint16 (be16 v ++ r) ≡ some (v, r)
unfolding read_uint16
read_uint16-be16 v r h = let e : v / 256 % 256 * 256 + v % 256 ≡ v = omega arith in rw e

pub read_uint32-be32 : (v : ℕ) (r : List ℕ) → v < 2 ^ 32 → read_uint32 (be32 v ++ r) ≡ some (v, r)
unfolding read_uint32
read_uint32-be32 v r h =
    let e : ((v / 16777216 % 256 * 256 + v / 65536 % 256) * 256 + v / 256 % 256) * 256 + v % 256
        ≡ v =
      omega arith in
    rw e
