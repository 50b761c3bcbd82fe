-- ===== src/Log/Totals.antt =====
-- What the totals count: each counter against an independent description of the changes.
use git_spdx.Common.{
  ℕ, ◌+◌, ◌≡◌, Bool, not, ◌&&◌, ◌||◌, List, [], ◌∷◌, if◌then◌else◌, equal, arith, length,
}
use git_spdx.Common.Count.{count_if}
use git_spdx.Change.{Change}
use git_spdx.Index.{BlobResult, is_skipped, equal_exprs}
use git_spdx.Log.{
  HistoryTotals, Kind, incomplete, file_added, file_deleted, expressions_changed,
  declaration_changed, count_commit, count_spdx, count_kind, absent, record_change,
}
use mathlib.Core.List.{foldl}

-- The counters of a report but the commits.
pub data Counter : Type 0 where
  expressions additions deletions incompletes spdx_added spdx_removed : Counter

abbrev pub counter : Counter → HistoryTotals → ℕ
counter expressions t = t.expressions
counter additions t = t.additions
counter deletions t = t.deletions
counter incompletes t = t.incomplete
counter spdx_added t = t.spdx_added
counter spdx_removed t = t.spdx_removed

-- A change with the results of its two sides.
pub record Compared : Type 0 where
  pub change : Change
  pub before : BlobResult
  pub after : BlobResult

abbrev is_complete : Compared → Bool
is_complete x = not (is_skipped x.before.skipped || is_skipped x.after.skipped)

abbrev has_old : Compared → Bool
has_old x = not (equal x.change.old_mode absent)

abbrev has_new : Compared → Bool
has_new x = not (equal x.change.new_mode absent)

-- Does the change count for the counter?
abbrev pub counts_for : Counter → Compared → Bool
counts_for incompletes x = not (is_complete x)
counts_for additions x = is_complete x && not (has_old x)
counts_for deletions x = is_complete x && has_old x && not (has_new x)
counts_for expressions x =
    is_complete x
    && has_old x
    && has_new x
    && not (equal_exprs x.before.expressions x.after.expressions)
counts_for spdx_added x = is_complete x && not x.before.spdx && x.after.spdx
counts_for spdx_removed x = is_complete x && x.before.spdx && not x.after.spdx

abbrev pub step : HistoryTotals → Compared → HistoryTotals
step t x = (record_change t x.change x.before x.after).0

pub counter-record_change :
    (k : Counter) (t : HistoryTotals) (x : Compared)
    → counter k (step t x) ≡ counter k t + (if counts_for k x then 1 else 0)
unfolding record_change count_commit count_spdx count_kind
counter-record_change expressions t x = ground arith
counter-record_change _ t x = ground arith

abbrev pub run : HistoryTotals → List Compared → HistoryTotals
run = foldl step

-- After any list of changes each counter has grown by the number of the changes that count for it.
pub counter-run :
    (k : Counter) (xs : List Compared) (t : HistoryTotals)
    → counter k (run t xs) ≡ counter k t + count_if (counts_for k) xs
unfolding count_if
counter-run k [] t = omega arith
counter-run k (x ∷ xs) t = omega (arith, counter-run k xs (step t x), counter-record_change k t x)

-- The change is reported for its SPDX declaration alone.
abbrev pub is_declaration_change : Compared → Bool
is_declaration_change x =
    is_complete x && has_old x && has_new x && equal_exprs x.before.expressions x.after.expressions

-- The sum of the counters that `record` tells apart by its `switch` and its first return.
abbrev pub classified : HistoryTotals → ℕ
classified t = t.incomplete + t.additions + t.deletions + t.expressions

classified-step :
    (t : HistoryTotals) (x : Compared)
    → classified (step t x) + (if is_declaration_change x then 1 else 0) ≡ classified t + 1
unfolding record_change count_commit count_spdx count_kind
classified-step t x = ground arith

-- Every change is counted once, as incomplete, an addition, a deletion, an expression change, or
-- else as a change of the declaration alone.
pub classified-run :
    (xs : List Compared) (t : HistoryTotals)
    → classified (run t xs) + count_if is_declaration_change xs ≡ classified t + length xs
unfolding count_if
classified-run [] t = omega arith
classified-run (x ∷ xs) t = omega (arith, classified-run xs (step t x), classified-step t x)

-- The kind of a change, by what is known of its two sides.
abbrev pub kind_of : Compared → Kind
kind_of x =
    if not (is_complete x)
    then incomplete
    else if not (has_old x)
    then file_added
    else if not (has_new x)
    then file_deleted
    else if is_declaration_change x
    then declaration_changed
    else expressions_changed

-- The text that `record` returns is that kind, whatever was counted before.
pub record_change_kind :
    (t : HistoryTotals) (x : Compared) → (record_change t x.change x.before x.after).1 ≡ kind_of x
unfolding record_change count_kind
record_change_kind t x = ground arith
