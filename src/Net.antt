-- ===== src/Net.antt =====
-- What the source uses of Go's net/netip and encoding/binary: addresses, without zones, and numbers
-- as bytes, the highest byte first. An address is the list of its bytes.
pub mod Words
use storrent.Prelude.{
  ℕ, zero, suc, ◌+◌, ◌*◌, ◌/◌, ◌%◌, ◌^◌, ◌≡◌, Bool, true, false, ◌&&◌, List, [], ◌∷◌, ◌++◌, Option,
  none, some, ◌==◌, if◌then◌else◌, length, replicate,
}

-- An IPv6 address that stands for an IPv4 one is an `addr6`. The zero Addr is `no_addr`.
pub data Addr : Type 0 where
  no_addr : Addr
  addr4 : List ℕ → Addr
  addr6 : List ℕ → Addr

unfoldable pub addr_from_slice : List ℕ → Option Addr
addr_from_slice b =
    if length b == 4 then some (addr4 b) else if length b == 16 then some (addr6 b) else none

unfoldable pub is4 : Addr → Bool
is4 no_addr = false
is4 (addr4 b) = true
is4 (addr6 b) = false

unfoldable pub is6 : Addr → Bool
is6 no_addr = false
is6 (addr4 b) = false
is6 (addr6 b) = true

-- As4; `none` is its panic.
unfoldable pub as4 : Addr → Option (List ℕ)
as4 no_addr = none
as4 (addr4 b) = some b
as4 (addr6 b) = none

unfoldable pub as16 : Addr → List ℕ
as16 no_addr = replicate 16 0
as16 (addr4 b) = replicate 10 0 ++ (0xff ∷ 0xff ∷ b)
as16 (addr6 b) = b

abbrev pub IsAddr : Addr → Type 0
IsAddr a = (b : List ℕ) → ((a ≡ addr4 b) → length b ≡ 4) × ((a ≡ addr6 b) → length b ≡ 16)

-- `==` on lists of bytes, and on addresses.
unfoldable pub bytes_eq : List ℕ → List ℕ → Bool
bytes_eq [] [] = true
bytes_eq [] (y ∷ b) = false
bytes_eq (x ∷ a) [] = false
bytes_eq (x ∷ a) (y ∷ b) = (x == y) && bytes_eq a b

unfoldable pub addr_eq : Addr → Addr → Bool
unfolding bytes_eq
addr_eq no_addr no_addr = true
addr_eq (addr4 a) (addr4 b) = bytes_eq a b
addr_eq (addr6 a) (addr6 b) = bytes_eq a b
addr_eq a b = false
