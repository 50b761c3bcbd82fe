-- ===== src/Tests/LogRuns.antt =====
-- The totals, the months and the commits of the small history.
use git_spdx.Common.{
  ◌+◌, ◌≡◌, ◌≢◌, refl, Bool, true, false, List, [], ◌∷◌, Bytes, codes, equal, bytes_eq, ok, arith,
  length, has_byte,
}
use git_spdx.Common.Dict
use git_spdx.Common.Count.{count_if}
use git_spdx.Oid.{hex_digit, hex_decode, parse_oid}
use git_spdx.Change.{Change, group_all, group_root, path_group}
use git_spdx.Index.{
  Index, BlobResult, new_index, not_skipped, is_implicit, intern, put, get, lookup, same_places,
  equal_exprs,
}
use git_spdx.Log.{no_totals, LogOptions, LogState, start, is_reported, log_visit}
use git_spdx.Log.Totals.{expressions, additions, counter, Compared, counts_for, run, counter-run}
use git_spdx.Log.Commits.{Group, all_members, commits-run}
use git_spdx.Log.Report.{counts_in, log_visit_total, HasGroups}
use git_spdx.Log.Months.{sum_counter, monthly_balance}
use git_spdx.GitLog.Print.{changes_of}
use git_spdx.Tests.Data.{history, legal_path, oid_a, oid_b, first_id, second_id}
use mathlib.Core.List.{foldl}

abbrev result : Bytes → Bool → BlobResult
result e declared = record { expressions = e ∷ []; skipped = not_skipped; spdx = declared }

-- The licence of the first blob is MIT, that of the second Apache-2.0 with a declaration.
abbrev idx : Index
idx =
    put (put new_index oid_a (result (codes "MIT") false)) oid_b (result (codes "Apache-2.0") true)

abbrev options : LogOptions
options = record { group = group_all; monthly = true; details = true }

abbrev changes : List Change
changes = changes_of history

log_total :
    (s : LogState) × (foldl (log_visit legal_path options idx) (ok start) changes ≡ ok s)
    × HasGroups s
log_total = log_visit_total legal_path options idx changes (omega arith)

log_visit_total_example :
    (s : LogState) × (foldl (log_visit legal_path options idx) (ok start) changes ≡ ok s)
    × HasGroups s
log_visit_total_example = log_visit_total legal_path options idx changes (omega arith)

monthly_balance_example :
    sum_counter expressions log_total.0.months ≡ sum_counter expressions log_total.0.totals
monthly_balance_example =
    monthly_balance legal_path options idx refl expressions changes log_total.1

-- One addition in the root group is counted.
one_addition : count_if (counts_in legal_path options idx group_root additions) changes ≡ 1
unfolding count_if is_reported path_group has_byte equal lookup get put is_implicit intern parse_oid
    hex_decode hex_digit Dict.lookup Dict.insert equal_exprs same_places
one_addition = refl

abbrev compare_a : Change → Compared
compare_a c = record { change = c; before = lookup idx c.old_oid; after = lookup idx c.new_oid }

abbrev blank_change : Bytes → Bytes → Change
blank_change commit old_mode = record {
  commit = commit;
  date = codes "2026-01-02";
  subject = [];
  old_oid = oid_a;
  new_oid = oid_b;
  path = codes "LICENSE";
  old_mode = old_mode;
  new_mode = codes "100644";
  merge = false;
}

abbrev groups : List Group
groups =
    record {
      commit = second_id;
      first = compare_a (blank_change second_id (codes "100644"));
      rest = compare_a (blank_change second_id (codes "000000")) ∷ [];
    }
    ∷ record {
      commit = first_id;
      first = compare_a (blank_change first_id (codes "000000"));
      rest = [];
    }
    ∷ []

second-ne-nil : second_id ≢ []
second-ne-nil e = cc

first-ne-second : first_id ≢ second_id
first-ne-second e = ground arith

commits-run_example :
    (run no_totals (all_members groups)).commits ≡ no_totals.commits + length groups
commits-run_example =
    commits-run groups no_totals
      (second-ne-nil, (refl, (refl, tt)), (first-ne-second, (refl, tt), tt))

counter-run_example :
    counter expressions (run no_totals (all_members groups))
    ≡ counter expressions no_totals + count_if (counts_for expressions) (all_members groups)
counter-run_example = counter-run expressions (all_members groups) no_totals
