-- ===== src/Tests/CommandRuns.antt =====
-- `git-spdx log` on the small history, with two small blobs in the store.
use git_spdx.Common.{
  ℕ, ◌≡◌, refl, ap, ◌∙◌, inl, inr, true, false, none, Option, Error, List, [], ◌∷◌, Bytes, codes,
  equal, has_byte, bytes_eq, eof, ok, arith,
}
use git_spdx.Common.Sort.{sort_by, insert_by}
use git_spdx.Common.Dict
use git_spdx.Common.Count.{HasCount}
use git_spdx.Change.{path_group, group_all, record_legal_change, is_file_mode}
use git_spdx.Oid.{parse_oid, hex_decode, hex_digit}
use git_spdx.Index.{Index, BlobResult, not_skipped, get, put, is_implicit, intern}
use git_spdx.Spool.LogHistory.{plain, spool_log_history_lem}
use git_spdx.Scan.{
  Match, StoredBlob, new_feeder, match_blob, sort_strings, feed_serial, finish_scan, handle,
  count_match, blob_limit, feed_one, read_blob, append_job, make_room, put_in, flush_full, flush,
}
use git_spdx.Tree.{and_then}
use git_spdx.Log.{LogOptions, LogState, entry, start, log_visit, summary, summary_line}
use git_spdx.Log.Totals.{Counter, counter}
use git_spdx.Log.Report.{HasGroups, log_visit_total}
use git_spdx.Log.Due.{Part, root, legal, other, name_of, CountsFor}
use git_spdx.Log.Command.{Surroundings, scan_history, log_cmd, replayed}
use git_spdx.Log.Whole.{IndexOf, TellsOf, history_limit, log_cmd_lem}
use git_spdx.Log.Output.{GroupLine, all, Reports, last_lines, log_all, log_all_lem}
use git_spdx.GitLog.Print.{changes_of}
use git_spdx.Tests.Data.{sound, legal_path, history, oid_a, oid_b}
use git_spdx.Tests.SpoolRuns.{walk, walked, spool_runs, spooled_bytes, legal_map}

abbrev mit : BlobResult
mit = record { expressions = codes "MIT" ∷ []; skipped = not_skipped; spdx = true }

abbrev blob : Bytes → StoredBlob
blob oid = record {
  oid = oid;
  size = 3;
  content = codes "MIT";
  open_error = none;
  read_error = none;
  close_error = none;
}

abbrev options : LogOptions
options = record { group = group_all; monthly = false; details = false }

abbrev around : Surroundings
around = record {
  matcher_error = none;
  matcher = λ content. ok (record { expressions = codes "MIT" ∷ []; declarations = 1 });
  create_error = none;
  device = sound;
  walk = walk;
  feed = λ limit. feed_serial limit (blob oid_a ∷ blob oid_b ∷ []) eof new_feeder;
  shallow = ok false;
}

abbrev limit : Bytes → ℕ
limit = history_limit legal_path 10 20 (changes_of history)

tells : TellsOf (match_blob around.matcher) (λ oid. mit) (around.feed limit).0.events
unfolding feed_serial feed_one blob_limit record_legal_change path_group is_file_mode equal has_byte
    Dict.insert Dict.lookup read_blob append_job make_room put_in flush_full flush and_then
    match_blob sort_strings sort_by insert_by
tells = (refl, (refl, tt))

index_runs : (idx : Index) × (scan_history legal_path options 10 20 around legal_map ≡ ok idx)
unfolding scan_history finish_scan handle count_match put get intern is_implicit parse_oid
    hex_decode hex_digit feed_serial feed_one blob_limit equal has_byte Dict.insert Dict.lookup
    read_blob append_job make_room put_in flush_full git_spdx.Scan.flush and_then match_blob
    sort_strings sort_by insert_by
index_runs = (_, refl)

log_runs : (s : LogState) × (log_cmd legal_path options 10 20 around ≡ ok s) × HasGroups s
unfolding log_cmd has_byte
log_runs =
    let (s, visited, groups) =
      log_visit_total legal_path options index_runs.0 (plain (changes_of history)) (omega arith) in
    let (replays, same) =
      spool_log_history_lem legal_path sound walk (changes_of history) walked
        (log_visit legal_path options index_runs.0) (ok start) spooled_bytes legal_map (omega arith)
        spool_runs in
    (
      s,
      rw spool_runs (rw index_runs.1 (ap replayed replays ∙ ap (λ r. replayed (r, none)) visited)),
      groups,
    )

log_cmd_lem_example :
    (idx : Index) × IndexOf (λ oid. mit) (around.feed limit).0.events idx
    × ((part : Part) (k : Counter)
        → HasCount
            (CountsFor legal_path options idx part k)
            (plain (changes_of history))
            (counter k (entry (name_of part) log_runs.0.totals)))
log_cmd_lem_example =
    log_cmd_lem legal_path options 10 20 around (changes_of history) walked (λ oid. mit)
      (λ a b key p q. refl) (omega arith) tells log_runs.1

-- A table that is not printed.
abbrev keep_table : List Bytes → ℕ → ℕ × Option Error
keep_table row n = (n, none)

abbrev end_table : ℕ → ℕ × Option Error
end_table n = (n, none)

-- The summary has all lines.
summary_runs : (lines : List GroupLine) × (summary options log_runs.0 ≡ ok lines)
unfolding summary summary_line equal HasGroups
summary_runs =
    let (roots, p) = log_runs.2 (codes "root") (inl refl) in
    let (legals, q) = log_runs.2 (codes "legal") (inr (inl refl)) in
    let (others, r) = log_runs.2 (codes "other") (inr (inr refl)) in
    (
      (codes "root", roots) ∷ (codes "legal", legals) ∷ (codes "other", others) ∷ [],
      rw (p, q, r) refl,
    )

all_runs :
    log_all keep_table end_table options (log_cmd legal_path options 10 20 around) 0
    ≡ ((summary_runs.0, 0), none)
unfolding log_all last_lines
all_runs = ap (λ r. log_all keep_table end_table options r 0) log_runs.1 ∙ rw (summary_runs.1) refl

log_all_lem_example :
    (idx : Index) × IndexOf (λ oid. mit) (around.feed limit).0.events idx
    × Reports keep_table end_table legal_path options 10 20 around
        (changes_of history)
        walked
        idx
        summary_runs.0
        (root ∷ legal ∷ other ∷ [])
    × ◌≡◌ {A = ℕ} 0 0
log_all_lem_example =
    log_all_lem keep_table end_table legal_path options 10 20 around (changes_of history) walked
      (λ oid. mit) 0 0 summary_runs.0 (root ∷ legal ∷ other ∷ []) all refl (λ a b key p q. refl)
      (omega arith) tells all_runs
