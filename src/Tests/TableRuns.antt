-- ===== src/Tests/TableRuns.antt =====
-- The tables of a small index and of two months.
use git_spdx.Common.{
  All, arith, ◌≡◌, refl, none, List, [], ◌∷◌, map, Bytes, codes, Bool, false, equal, bytes_eq,
}
use git_spdx.Common.Count.{count_if}
use git_spdx.Common.Sort.{IsChain, sort_by, insert_by}
use git_spdx.Common.Dict
use git_spdx.Common.Dict.{Dict}
use git_spdx.Oid.{ObjectId}
use git_spdx.Index.{BlobResult, not_skipped}
use git_spdx.Scan.{is_before}
use git_spdx.Log.{HistoryTotals, no_totals}
use git_spdx.Tables.{
  count_line, show_counts, print_expr_counts, sorted_counts, count_all, count_blobs, times,
  is_above, print_monthly,
}
use git_spdx.Tables.Monthly.{
  MonthLine, key_of, title, cells, IsKey, IsLine, NotBehind, names, keep_row, done,
  print_monthly_lem,
}

abbrev found : List Bytes → BlobResult
found es = record { expressions = es; skipped = not_skipped; spdx = false }

abbrev blobs : Dict ObjectId BlobResult
blobs =
    (codes "1", found (codes "MIT" ∷ codes "0BSD" ∷ []))
    ∷ (codes "2", found (codes "MIT" ∷ []))
    ∷ (codes "3", found (codes "ISC" ∷ []))
    ∷ []

-- The most frequent one comes first, then the two others in order.
prints_counts :
    print_expr_counts blobs
    ≡ count_line 2 (codes "MIT") ∷ count_line 1 (codes "0BSD") ∷ count_line 1 (codes "ISC") ∷ []
unfolding print_expr_counts show_counts sorted_counts count_blobs count_all times is_above is_before
    sort_by insert_by Dict.insert Dict.lookup equal
prints_counts = refl

abbrev months : Dict Bytes HistoryTotals
months = (codes "2026-02,root", no_totals) ∷ (codes "2026-01,root", no_totals) ∷ []

months-IsKey : All IsKey (names months)
months-IsKey = (
  (codes "2026-02", codes "root", refl, ground arith, ground arith),
  ((codes "2026-01", codes "root", refl, ground arith, ground arith), tt),
)

print_monthly_lem_example :
    (ls : List MonthLine) × (print_monthly keep_row done months [] ≡ (title ∷ map cells ls, none))
    × All (IsLine months) ls
    × IsChain NotBehind ls
    × ((p : Bytes → Bool) → count_if p (map key_of ls) ≡ count_if p (names months))
print_monthly_lem_example = print_monthly_lem months months-IsKey
