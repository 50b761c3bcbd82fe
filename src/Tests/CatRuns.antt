-- ===== src/Tests/CatRuns.antt =====
-- A store with two blobs and a tree, listed and read as `git cat-file` writes it.
use git_spdx.Common.{
  ℕ, ◌≡◌, none, some, Option, List, [], ◌∷◌, Bytes, codes, All, Error, eof, arith,
}
use git_spdx.CatFile.Decimal.{decimal, digits}
use git_spdx.CatFile.Blobs.{Object, IsObject}
use git_spdx.CatFile.Listing.{ListedBlob, list_blobs}
use git_spdx.CatFile.Listed.{
  Entry, print_entries, blobs_of, IsEntry, Visits, first_error, list_blobs-print,
}

abbrev pub small : Object
small = record { oid = codes "a1"; kind = codes "blob"; content = codes "MIT" }

abbrev pub large : Object
large = record { oid = codes "b2"; kind = codes "blob"; content = codes "a longer text" }

abbrev tree : Object
tree = record { oid = codes "c3"; kind = codes "tree"; content = codes "100644" }

abbrev store : List Object
store = small ∷ tree ∷ large ∷ []

abbrev pub ten : Bytes → ℕ
ten oid = 10

store-IsObject : All IsObject store
store-IsObject = omega arith

abbrev entry : Object → ℕ → Entry
entry o size = record { kind = o.kind; oid = o.oid; size = size }

abbrev pub listing : List Entry
listing = entry small 3 ∷ entry tree 6 ∷ entry large 13 ∷ []

pub listing-IsEntry : All IsEntry listing
unfolding decimal digits
listing-IsEntry = omega arith

-- The callback keeps the object IDs and stops at the second blob.
abbrev keep : List Bytes → ListedBlob → List Bytes × Option Error
keep [] b = (b.oid ∷ [], none)
keep (oid ∷ oids) b = (b.oid ∷ oid ∷ oids, some eof)

list_blobs-print_example :
    (s' : List Bytes) × (n : ℕ) × (failure : Option Error) × Visits keep
      (blobs_of listing)
      []
      s'
      n
      failure
    × (list_blobs keep [] (record { bytes = print_entries listing; stop = eof }) none
        ≡ ((s', n), first_error keep failure none))
list_blobs-print_example = list_blobs-print keep listing [] none listing-IsEntry
