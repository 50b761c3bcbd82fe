-- ===== src/Index.antt =====
-- The results of matching, by blob: `blobResult`, `skipReason`, `index` and its methods, `lookup` and
-- `equalExprs` of main.go. The mutex is the Scan module's concern; each operation here is one
-- critical section.
pub mod Interning
pub mod Lookup
use git_spdx.Common.{
  ℕ, zero, suc, ◌+◌, Bool, true, false, not, ◌&&◌, ◌||◌, Option, none, some, List, [], ◌∷◌, ◌==◌,
  if◌then◌else◌, Bytes, codes, equal, bytes_eq, length, replicate, Error, Result, ok, err,
}
use git_spdx.Common.Dict
use git_spdx.Common.Dict.{Dict}
use git_spdx.Oid.{ObjectId, parse_oid}

pub data SkipReason : Type 0 where
  not_skipped skipped_size skipped_binary skipped_error : SkipReason

-- `String`
pub to_string : SkipReason → Bytes
to_string skipped_size = codes "size"
to_string skipped_binary = codes "binary"
to_string skipped_error = codes "error"
to_string not_skipped = codes "scanned"

abbrev pub is_skipped : SkipReason → Bool
is_skipped not_skipped = false
is_skipped _ = true

pub record BlobResult : Type 0 where
  pub expressions : List Bytes
  pub skipped : SkipReason
  pub spdx : Bool

-- `blobResult{}`
abbrev pub empty_result : BlobResult
empty_result = record { expressions = []; skipped = not_skipped; spdx = false }

-- `blobResult{skipped: reason}`
abbrev pub skipped_result : SkipReason → BlobResult
skipped_result reason = record { expressions = []; skipped = reason; spdx = false }

pub record Index : Type 0 where
  pub blobs : Dict ObjectId BlobResult
  pub interned : Dict Bytes Bytes
  pub skipped : ℕ
  pub failure : Option Error

-- `newIndex`
abbrev pub new_index : Index
new_index = record { blobs = []; interned = []; skipped = 0; failure = none }

-- `get`
unfoldable pub get : Index → Bytes → BlobResult × Bool
get x oid = elim (parse_oid oid) [
  | err e ↦ (skipped_result skipped_error, true)
  | ok key ↦ elim (Dict.lookup key x.blobs) [ some r ↦ (r, true) | none ↦ (empty_result, false) ]
]

-- The loop of `put` over the expressions: each is replaced by the string interned for it.
unfoldable pub intern : Dict Bytes Bytes → List Bytes → List Bytes × Dict Bytes Bytes
intern table [] = ([], table)
intern table (e ∷ es) = elim (Dict.lookup e table) [
  | some s ↦ let (rest, table') = intern table es in (s ∷ rest, table')
  | none ↦ let (rest, table') = intern (Dict.insert e e table) es in (e ∷ rest, table')
]

-- An empty successful result.
unfoldable pub is_implicit : BlobResult → Bool
is_implicit r = length r.expressions == 0 && not (is_skipped r.skipped) && not r.spdx

unfoldable pub put : Index → Bytes → BlobResult → Index
put x oid r = if is_implicit r then x else elim (parse_oid oid) [
  | err e ↦ record x { failure = some e }
  | ok key ↦
      let (expressions, table) = intern x.interned r.expressions in
      record x {
        blobs = Dict.insert key (record r { expressions = expressions }) x.blobs;
        interned = table;
        skipped = if is_skipped r.skipped then x.skipped + 1 else x.skipped;
      }
]

abbrev pub zero_oid : Bytes
zero_oid = replicate 40 b'0'

abbrev pub zero_oid_sha256 : Bytes
zero_oid_sha256 = replicate 64 b'0'

-- `lookup`
unfoldable pub lookup : Index → Bytes → BlobResult
lookup x oid =
    if length oid == 0 || equal oid zero_oid || equal oid zero_oid_sha256
    then empty_result
    else (let (r, found) = get x oid in if found then r else empty_result)

-- `equalExprs`: the lengths, then each place.
unfoldable pub same_places : List Bytes → List Bytes → Bool
same_places [] b = true
same_places (x ∷ a) [] = false
same_places (x ∷ a) (y ∷ b) = if not (equal x y) then false else same_places a b

unfoldable pub equal_exprs : List Bytes → List Bytes → Bool
equal_exprs a b = if not (length a == length b) then false else same_places a b
