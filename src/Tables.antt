-- ===== src/Tables.antt =====
-- The tables that are printed at the end: `printExprCounts` of main.go and `printMonthly` of history.go.
-- A line is a value here; how wide its numbers are printed is left out.
pub mod Counted
pub mod Monthly
use git_spdx.Common.{
  ℕ, zero, suc, ◌+◌, ◌==◌, Bool, true, false, not, Option, none, some, List, [], ◌∷◌, ◌++◌, map,
  ltb, if◌then◌else◌, Bytes, codes, bytes_eq, length, Error,
}
use git_spdx.Common.Sort.{sort_by}
use git_spdx.Common.Dict
use git_spdx.Common.Dict.{Dict}
use git_spdx.Oid.{ObjectId}
use git_spdx.Index.{BlobResult}
use git_spdx.Scan.{is_before, sort_strings}
use git_spdx.Tree.{and_then}
use git_spdx.History.{split}
use git_spdx.CatFile.Decimal.{decimal}
use git_spdx.Log.{HistoryTotals, entry}

-- `counts[e]`
unfoldable pub times : Bytes → Dict Bytes ℕ → ℕ
times e counts = elim (Dict.lookup e counts) [ none ↦ 0 | some n ↦ n ]

-- `counts[e]++` for the expressions of a blob.
unfoldable pub count_all : List Bytes → Dict Bytes ℕ → Dict Bytes ℕ
count_all [] counts = counts
count_all (e ∷ es) counts = count_all es (Dict.insert e (times e counts + 1) counts)

unfoldable pub count_blobs : Dict ObjectId BlobResult → Dict Bytes ℕ → Dict Bytes ℕ
count_blobs [] counts = counts
count_blobs ((oid, r) ∷ blobs) counts = count_blobs blobs (count_all r.expressions counts)

-- The more frequent expression comes first, then the smaller one.
unfoldable pub is_above : Bytes × ℕ → Bytes × ℕ → Bool
is_above (k, v) (k', v') = if not (v == v') then ltb v' v else is_before k k'

pub data CountLine : Type 0 where
  count_line : ℕ → Bytes → CountLine
  more_line : ℕ → CountLine

-- The lines, up to a limit.
unfoldable pub show_counts : ℕ → List (Bytes × ℕ) → List CountLine
show_counts limit [] = []
show_counts zero (row ∷ rows) = more_line (length (row ∷ rows)) ∷ []
show_counts (suc limit) ((e, n) ∷ rows) = count_line n e ∷ show_counts limit rows

abbrev pub expression_display_limit : ℕ
expression_display_limit = 20

unfoldable pub sorted_counts : Dict ObjectId BlobResult → List (Bytes × ℕ)
sorted_counts blobs = sort_by is_above (count_blobs blobs [])

unfoldable pub print_expr_counts : Dict ObjectId BlobResult → List CountLine
print_expr_counts blobs = show_counts expression_display_limit (sorted_counts blobs)

-- The head of the monthly table.
abbrev pub month_head : List Bytes
month_head =
    codes "month"
    ∷ codes "group"
    ∷ codes "commits"
    ∷ codes "expression_changes"
    ∷ codes "file_additions"
    ∷ codes "file_deletions"
    ∷ codes "incomplete"
    ∷ codes "spdx_added"
    ∷ codes "spdx_removed"
    ∷ []

abbrev pub month_numbers : HistoryTotals → List ℕ
month_numbers t =
    t.commits ∷ t.expressions ∷ t.additions ∷ t.deletions ∷ t.incomplete ∷ t.spdx_added
    ∷ t.spdx_removed ∷ []

unfoldable pub month_row : Dict Bytes HistoryTotals → Bytes → List Bytes
month_row months key = split b',' key ++ map decimal (month_numbers (entry key months))

abbrev pub keys : Dict Bytes HistoryTotals → List Bytes
keys [] = []
keys ((key, t) ∷ months) = key ∷ keys months

-- `write` and `flush` are the CSV writer's operations on its state, with their errors.
module _ {ℓ} {W : Type ℓ} (write : List Bytes → W → W × Option Error) where
  unfoldable pub write_rows : Dict Bytes HistoryTotals → List Bytes → W → W × Option Error
  write_rows months [] w = (w, none)
  write_rows months (key ∷ rest) w =
      and_then (write (month_row months key) w) (write_rows months rest)

  unfoldable pub print_monthly :
      (W → W × Option Error) → Dict Bytes HistoryTotals → W → W × Option Error
  print_monthly flush months w =
      and_then (write month_head w)
        (λ w'. and_then (write_rows months (sort_strings (keys months)) w') flush)
