-- ===== src/CatFile/Listing.antt =====
-- `listBlobs` of main.go, on the output of `git cat-file --batch-all-objects --batch-check`.
use git_spdx.Common.{
  ℕ, zero, suc, ◌+◌, not, Option, none, some, List, [], ◌∷◌, if◌then◌else◌, Bytes, codes, equal,
  length, Error, wrapped, out_of_fuel, Result, ok, err,
}
use git_spdx.Stream.{Stream, line, finished, scan}
use git_spdx.Text.{fields}
use git_spdx.Options.{Whole}
use git_spdx.CatFile.{parse_int}
use git_spdx.Tree.{and_then}

pub record ListedBlob : Type 0 where
  pub oid : Bytes
  pub size : Whole

-- What a line says: nothing of a blob, a blob, or a size that is no number.
unfoldable pub listed_fields : List Bytes → Result (Option ListedBlob)
listed_fields (kind ∷ oid ∷ size ∷ []) =
    if not (equal kind (codes "blob")) then ok none else elim (parse_int size) [
      | err e ↦ err (wrapped e)
      | ok n ↦ ok (some (record { oid = oid; size = n }))
    ]
listed_fields parts = ok none

-- The error of the loop comes first, then that of the process.
abbrev pub end_listing {ℓ} : {V : Type ℓ} → Option Error → V × Option Error → V × Option Error
end_listing wait_error (v, some e) = (v, some e)
end_listing wait_error (v, none) = (v, wait_error)

module _ {ℓ} {S : Type ℓ} (visit : S → ListedBlob → S × Option Error) where
  -- The callback on one blob, which is counted first.
  unfoldable pub counted : ListedBlob → S × ℕ → (S × ℕ) × Option Error
  counted blob (s, total) = let (s', failure) = visit s blob in ((s', total + 1), failure)

  -- What the loop makes of a line.
  unfoldable pub list_line : Result (Option ListedBlob) → S × ℕ → (S × ℕ) × Option Error
  list_line (err e) q = (q, some e)
  list_line (ok none) q = (q, none)
  list_line (ok (some blob)) q = counted blob q

  -- The loop over the lines, with the callback's state and the total.
  unfoldable pub list_loop : ℕ → S × ℕ → Stream → (S × ℕ) × Option Error
  list_loop zero q r = (q, some out_of_fuel)
  list_loop (suc fuel) q r = elim (scan r) [
    | finished failure ↦ (q, failure)
    | line text r' ↦
        and_then (list_line (listed_fields (fields text)) q) (λ q'. list_loop fuel q' r')
  ]

  -- `listBlobs`; `wait_error` is what the process ends with.
  unfoldable pub list_blobs : S → Stream → Option Error → (S × ℕ) × Option Error
  list_blobs s r wait_error = end_listing wait_error (list_loop (suc (length r.bytes)) (s, 0) r)
