-- ===== src/Oid.antt =====
-- Object IDs: `objectID` and `parseOID` of main.go, and the part of `encoding/hex` that they use.
pub mod Parse
use git_spdx.Common.{
  ℕ, zero, suc, ◌+◌, ◌-◌, ◌*◌, Bool, true, false, not, ◌&&◌, ◌||◌, Option, none, some, List, [],
  ◌∷◌, ◌++◌, leb, ◌==◌, if◌then◌else◌, Bytes, length, replicate, Error, invalid_oid, invalid_hex,
  Result, ok, err, ◌>>=◌,
}

-- `sha1.Size` and `sha256.Size`.
abbrev pub sha1_size : ℕ
sha1_size = 20

abbrev pub sha256_size : ℕ
sha256_size = 32

-- The value of a hexadecimal digit, in either case.
unfoldable pub hex_digit : ℕ → Option ℕ
hex_digit c =
    if leb b'0' c && leb c b'9'
    then some (c - b'0')
    else if leb b'a' c && leb c b'f'
    then some (c - b'a' + 10)
    else if leb b'A' c && leb c b'F'
    then some (c - b'A' + 10)
    else none

-- `hex.Decode`: two digits for a byte.
unfoldable pub hex_decode : Bytes → Option Bytes
hex_decode [] = some []
hex_decode (a ∷ []) = none
hex_decode (a ∷ b ∷ rest) = elim (hex_digit a) [
  | none ↦ none
  | some h ↦ elim (hex_digit b) [
    | none ↦ none
    | some l ↦ elim (hex_decode rest) [ none ↦ none | some bs ↦ some ((h * 16 + l) ∷ bs) ]
  ]
]

-- `hex.EncodedLen`
abbrev pub encoded_len : ℕ → ℕ
encoded_len n = n * 2

-- `type objectID [sha256.Size]byte`: an array of 32 bytes, zeros behind a SHA-1.
abbrev pub ObjectId : Type 0
ObjectId = Bytes

-- The bytes that are decoded fill the front of the array.
abbrev pub fill : Bytes → ObjectId
fill decoded = decoded ++ replicate (sha256_size - length decoded) 0

unfoldable pub parse_oid : Bytes → Result ObjectId
parse_oid s =
    if not (length s == encoded_len sha1_size) && not (length s == encoded_len sha256_size)
    then err (invalid_oid s)
    else elim (hex_decode s) [ none ↦ err (invalid_hex s) | some bs ↦ ok (fill bs) ]
