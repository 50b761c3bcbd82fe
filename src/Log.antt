-- ===== src/Log.antt =====
-- `git-spdx log`: the totals of history.go (`historyTotals.record`), the visitor that `logCmd` hands to
-- the replay, and the lines it prints at the end.
pub mod Totals
pub mod Commits
pub mod Report
pub mod Months
pub mod Command
pub mod Whole
pub mod Due
pub mod Output
use git_spdx.Common.{
  ℕ, zero, suc, ◌+◌, Bool, true, false, not, ◌&&◌, ◌||◌, Option, none, some, List, [], ◌∷◌, ◌++◌,
  leb, ◌==◌, if◌then◌else◌, Bytes, codes, equal, bytes_eq, length, take, Error, panicked, Result,
  ok, err, ◌>>=◌,
}
use git_spdx.Common.Dict
use git_spdx.Common.Dict.{Dict}
use git_spdx.Change.{Change, group_all, group_root, group_legal, group_other, path_group}
use git_spdx.Index.{Index, BlobResult, SkipReason, is_skipped, equal_exprs, lookup}

-- `historyTotals`
pub record HistoryTotals : Type 0 where
  pub commits : ℕ
  pub expressions : ℕ
  pub additions : ℕ
  pub deletions : ℕ
  pub incomplete : ℕ
  pub spdx_added : ℕ
  pub spdx_removed : ℕ
  pub last_commit : Bytes

-- `historyTotals{}`
abbrev pub no_totals : HistoryTotals
no_totals = record {
  commits = 0;
  expressions = 0;
  additions = 0;
  deletions = 0;
  incomplete = 0;
  spdx_added = 0;
  spdx_removed = 0;
  last_commit = [];
}

-- The texts that `record` returns.
pub data Kind : Type 0 where
  incomplete file_added file_deleted expressions_changed declaration_changed : Kind

-- `t.lastCommit != c.commit`
unfoldable pub count_commit : HistoryTotals → Bytes → HistoryTotals
count_commit t commit =
    if not (equal t.last_commit commit)
    then record t { commits = t.commits + 1; last_commit = commit }
    else t

unfoldable pub count_spdx : HistoryTotals → Bool → Bool → HistoryTotals
count_spdx t before after =
    let t' = if not before && after then record t { spdx_added = t.spdx_added + 1 } else t in
    if before && not after then record t' { spdx_removed = t'.spdx_removed + 1 } else t'

abbrev pub absent : Bytes
absent = codes "000000"

-- The `switch` at the end of `record`.
unfoldable pub count_kind : HistoryTotals → Change → BlobResult → BlobResult → HistoryTotals × Kind
count_kind t c before after =
    if equal c.old_mode absent
    then (record t { additions = t.additions + 1 }, file_added)
    else if equal c.new_mode absent
    then (record t { deletions = t.deletions + 1 }, file_deleted)
    else if not (equal_exprs before.expressions after.expressions)
    then (record t { expressions = t.expressions + 1 }, expressions_changed)
    else (t, declaration_changed)

-- `record`: the new totals and the kind of the change.
unfoldable pub record_change :
    HistoryTotals → Change → BlobResult → BlobResult → HistoryTotals × Kind
record_change t c before after =
    let t' = count_commit t c.commit in
    if is_skipped before.skipped || is_skipped after.skipped
    then (record t' { incomplete = t'.incomplete + 1 }, incomplete)
    else count_kind (count_spdx t' before.spdx after.spdx) c before after

-- The flags of the command.
pub record LogOptions : Type 0 where
  pub group : Bytes
  pub monthly : Bool
  pub details : Bool

-- A line that is printed while the history is replayed.
pub data Line : Type 0 where
  commit_line : Bytes → Bytes → Bytes → Line
  change_line : Change → Bytes → Kind → BlobResult → BlobResult → Line

-- What the visitor changes: `totals`, `months`, `lastPrinted` and the output.
pub record LogState : Type 0 where
  pub totals : Dict Bytes HistoryTotals
  pub months : Dict Bytes HistoryTotals
  pub last_printed : Bytes
  pub printed : List Line

abbrev pub start : LogState
start = record {
  totals = (group_root, no_totals) ∷ (group_legal, no_totals) ∷ (group_other, no_totals) ∷ [];
  months = [];
  last_printed = [];
  printed = [];
}

-- `s[:n]`, which panics on a shorter string.
unfoldable pub slice_to : ℕ → Bytes → Result Bytes
slice_to n s = if leb n (length s) then ok (take n s) else err panicked

-- The totals under a key of `months`, where a missing entry is made first, `&historyTotals{}`.
abbrev pub entry : Bytes → Dict Bytes HistoryTotals → HistoryTotals
entry k m = elim (Dict.lookup k m) [ some t ↦ t | none ↦ no_totals ]

-- `before.spdx == after.spdx`
abbrev pub same_flag : Bool → Bool → Bool
same_flag true b = b
same_flag false b = not b

-- `months[key].record(…)`, after `months[key] = &historyTotals{}` where there is none.
unfoldable pub record_month :
    Dict Bytes HistoryTotals
    → Bytes
    → Change
    → BlobResult
    → BlobResult
    → Result (Dict Bytes HistoryTotals)
record_month months role c before after = do
  month ← slice_to 7 c.date
  let key = month ++ (b',' ∷ role)
  ok (Dict.insert key (record_change (entry key months) c before after).0 months)

-- The output under `--details`.
unfoldable pub print_details :
    LogState → Bytes → Kind → Change → BlobResult → BlobResult → Result LogState
print_details s role kind c before after =
    let line = change_line c role kind before after in
    if not (equal s.last_printed c.commit)
    then (do
      short ← slice_to 12 c.commit
      day ← slice_to 10 c.date
      ok (record s {
        last_printed = c.commit;
        printed = s.printed ++ (commit_line short day c.subject ∷ line ∷ []);
      }))
    else ok (record s { printed = s.printed ++ (line ∷ []) })

module _ (is_legal_path : Bytes → Bool) (o : LogOptions) (idx : Index) where
  -- The early returns of the visitor: the change is not of the group, is of a submodule, or changes
  -- nothing of the evidence.
  unfoldable pub is_reported : Change → Bool
  is_reported c =
      let role = path_group is_legal_path c.path in
      let before = lookup idx c.old_oid in
      let after = lookup idx c.new_oid in
      let is_incomplete = is_skipped before.skipped || is_skipped after.skipped in
      let expressions = not (equal_exprs before.expressions after.expressions) in
      if not (equal o.group group_all) && not (equal o.group role)
      then false
      else if equal c.old_mode (codes "160000") || equal c.new_mode (codes "160000")
      then false
      else not (not is_incomplete && not expressions && same_flag before.spdx after.spdx)

  -- The visitor behind its early returns, with the totals of the group.
  unfoldable pub report_in : HistoryTotals → LogState → Change → Result LogState
  report_in total s c =
      let role = path_group is_legal_path c.path in
      let before = lookup idx c.old_oid in
      let after = lookup idx c.new_oid in
      let (t, kind) = record_change total c before after in
      let counted = record s { totals = Dict.insert role t s.totals } in
      do
        months ← (if o.monthly then record_month s.months role c before after else ok s.months)
        let dated = record counted { months = months }
        if o.details then print_details dated role kind c before after else ok dated

  -- `totals[role]` is a nil pointer for a missing group, and `t.record` panics on it.
  unfoldable pub report : LogState → Change → Result LogState
  report s c = elim (Dict.lookup (path_group is_legal_path c.path) s.totals) [
    | none ↦ err panicked
    | some total ↦ report_in total s c
  ]

  unfoldable pub log_change : LogState → Change → Result LogState
  log_change s c = if not (is_reported c) then ok s else report s c

  -- The callback of `replay`; a panic ends the program, so nothing is done after one.
  unfoldable pub log_visit : Result LogState → Change → Result LogState
  log_visit (ok s) c = log_change s c
  log_visit (err e) c = err e

-- The line of a group, if it is selected; `totals[role]` is a nil pointer for a missing group.
unfoldable pub summary_line : LogOptions → LogState → Bytes → Result (List (Bytes × HistoryTotals))
summary_line o s role =
    if not (equal o.group group_all) && not (equal o.group role)
    then ok []
    else elim (Dict.lookup role s.totals) [ none ↦ err panicked | some t ↦ ok ((role, t) ∷ []) ]

-- The lines at the end of a run without `--monthly`: the selected groups with their totals. A panic
-- ends the program, so it does not matter which lines it has printed before.
unfoldable pub summary : LogOptions → LogState → Result (List (Bytes × HistoryTotals))
summary o s = do
  roots ← summary_line o s group_root
  legals ← summary_line o s group_legal
  others ← summary_line o s group_other
  ok (roots ++ legals ++ others)
