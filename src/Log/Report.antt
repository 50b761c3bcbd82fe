-- ===== src/Log/Report.antt =====
-- From the replayed history to the totals that are printed.
use git_spdx.Common.{
  ◌+◌, ◌≡◌, ◌≢◌, ◌⊎◌, inl, inr, ◌↔◌, ◌≤◌, All, refl, Bool, true, ◌&&◌, List, [], ◌∷◌, if◌then◌else◌,
  Bytes, codes, equal, equal_iff, bytes_eq, arith, length, Error, Result, ok, err, Result-cases,
  Bool-cases, Option-cases, some, ap,
}
use git_spdx.Common.Count.{count_if}
use git_spdx.Common.Dict
use git_spdx.Common.Dict.{Dict, lookup-insert}
use git_spdx.Change.{Change, group_all, group_root, group_legal, group_other, path_group}
use git_spdx.Index.{Index, BlobResult, lookup, is_skipped}
use git_spdx.Index.Interning.{equal_exprs_iff}
use git_spdx.Log.{
  HistoryTotals, Kind, record_change, no_totals, LogOptions, LogState, start, entry, print_details,
  slice_to, record_month, is_reported, report_in, report, log_change, log_visit,
}
use git_spdx.Log.Totals.{Counter, counter, Compared, counts_for, step, counter-record_change}
use mathlib.Core.List.{foldl}

-- The details leave the totals and the months alone.
print_details_totals :
    (s : LogState) (role : Bytes) (kind : Kind) (c : Change) (before after : BlobResult)
    {s' : LogState}
    → print_details s role kind c before after ≡ ok s'
    → (s'.totals ≡ s.totals) × (s'.months ≡ s.months)
unfolding print_details
print_details_totals s role kind c before after e = ground arith

-- `totals` has an entry for each group.
unfoldable pub HasGroups : LogState → Type 0
HasGroups s =
    (role : Bytes)
    → (role ≡ group_root) ⊎ ((role ≡ group_legal) ⊎ (role ≡ group_other))
    → (t : HistoryTotals) × (Dict.lookup role s.totals ≡ some t)

start-HasGroups : HasGroups start
unfolding HasGroups Dict.lookup equal
start-HasGroups role h = elim h [
  | inl p ↦ (no_totals, rw p refl)
  | inr (inl p) ↦ (no_totals, rw p refl)
  | inr (inr p) ↦ (no_totals, rw p refl)
]

insert-HasGroups :
    (key : Bytes) (t : HistoryTotals) (s s' : LogState)
    → HasGroups s
    → s'.totals ≡ Dict.insert key t s.totals
    → HasGroups s'
unfolding HasGroups
insert-HasGroups key t s s' h e role is_role = elim (Bool-cases (equal key role)) [
  | inl same ↦ (t, ground (arith, ap (Dict.lookup role) e, lookup-insert key role t s.totals))
  | inr other ↦
      let (u, found) = h role is_role in
      (u, ground (arith, ap (Dict.lookup role) e, lookup-insert key role t s.totals))
]

module _ (is_legal_path : Bytes → Bool) (o : LogOptions) (idx : Index) where
  abbrev pub compared : Change → Compared
  compared c = record { change = c; before = lookup idx c.old_oid; after = lookup idx c.new_oid }

  -- The change is reported, in this group.
  abbrev pub is_reported_in : Bytes → Change → Bool
  is_reported_in role c =
      is_reported is_legal_path o idx c && equal (path_group is_legal_path c.path) role

  abbrev role_of : Change → Bytes
  role_of c = path_group is_legal_path c.path

  -- The months behind one change.
  abbrev pub next_months : LogState → Change → Result (Dict Bytes HistoryTotals)
  next_months s c =
      if o.monthly
      then record_month s.months (role_of c) c (lookup idx c.old_oid) (lookup idx c.new_oid)
      else ok s.months

  report_in_parts :
      (total : HistoryTotals) (s : LogState) (c : Change) {s' : LogState}
      → report_in is_legal_path o idx total s c ≡ ok s'
      → (s'.totals ≡ Dict.insert (role_of c) (step total (compared c)) s.totals)
        × (next_months s c ≡ ok s'.months)
  unfolding report_in
  report_in_parts total s c {s'} e =
      let (t, kind) = record_change total c (lookup idx c.old_oid) (lookup idx c.new_oid) in
      elim (Result-cases (next_months s c)) [
        | inl (months, m) ↦
            let dated = record s { totals = Dict.insert (role_of c) t s.totals; months = months } in
            ground (
              arith,
              print_details_totals dated (role_of c) kind c (lookup idx c.old_oid)
                  (lookup idx c.new_oid) {s' = s'},
            )
        | inr (x, m) ↦ ground arith
      ]

  report-found :
      (s : LogState) (c : Change) {s' : LogState}
      → report is_legal_path o idx s c ≡ ok s'
      → report_in is_legal_path o idx (entry (role_of c) s.totals) s c ≡ ok s'
  unfolding report
  report-found s c e = elim (Option-cases (Dict.lookup (role_of c) s.totals)) [
    | inl missing ↦ absurd (cc (rw (report, missing) at e))
    | inr (total, found) ↦ rw (entry, found) (rw (report, found) at e)
  ]

  -- What a report that does not panic does to the totals and to the months.
  pub report_parts :
      (s : LogState) (c : Change) {s' : LogState}
      → report is_legal_path o idx s c ≡ ok s'
      → (s'.totals
          ≡ Dict.insert (role_of c) (step (entry (role_of c) s.totals) (compared c)) s.totals)
        × (next_months s c ≡ ok s'.months)
  report_parts s c e = report_in_parts (entry (role_of c) s.totals) s c (report-found s c e)

  entry-insert :
      (k j : Bytes) (t : HistoryTotals) (m : Dict Bytes HistoryTotals)
      → entry j (Dict.insert k t m) ≡ (if equal k j then t else entry j m)
  entry-insert k j t m = ground (arith, lookup-insert k j t m)

  -- Does the change count for the counter, in this group?
  abbrev pub counts_in : Bytes → Counter → Change → Bool
  counts_in role k c = is_reported_in role c && counts_for k (compared c)

  counter-log_change :
      (role : Bytes) (k : Counter) (s : LogState) (c : Change) {s' : LogState}
      → log_change is_legal_path o idx s c ≡ ok s'
      → counter k (entry role s'.totals)
        ≡ counter k (entry role s.totals) + (if counts_in role k c then 1 else 0)
  unfolding log_change
  counter-log_change role k s c e = elim (Bool-cases (is_reported is_legal_path o idx c)) [
    | inr silent ↦ ground arith
    | inl reported ↦ ground (
      arith,
      report_parts s c (rw reported at e),
      entry-insert (role_of c) role (step (entry (role_of c) s.totals) (compared c)) s.totals,
      equal_iff (role_of c) role,
      counter-record_change k (entry (role_of c) s.totals) (compared c),
    )
  ]

  pub log_visit_err :
      (cs : List Change) (e : Error) → foldl (log_visit is_legal_path o idx) (err e) cs ≡ err e
  unfolding log_visit
  log_visit_err [] e = refl
  log_visit_err (c ∷ cs) e = log_visit_err cs e

  -- If the visit of all changes does not panic, each counter of each group has grown by the number
  -- of the changes that are reported in the group and count for it.
  pub counter-log_visit :
      (role : Bytes) (k : Counter) (cs : List Change) (s : LogState) {s' : LogState}
      → foldl (log_visit is_legal_path o idx) (ok s) cs ≡ ok s'
      → counter k (entry role s'.totals)
        ≡ counter k (entry role s.totals) + count_if (counts_in role k) cs
  unfolding count_if log_visit
  counter-log_visit role k [] s e = ground arith
  counter-log_visit role k (c ∷ cs) s {s'} e =
      elim (Result-cases (log_change is_legal_path o idx s c)) [
        | inl (mid, m) ↦ omega (
          arith,
          counter-log_change role k s c m,
          counter-log_visit role k cs mid {s' = s'} (rw m at e),
        )
        | inr (x, m) ↦ cc (log_visit_err cs x, rw m at e)
      ]

  -- A change is reported exactly when its group is selected, it is of no submodule, and its evidence
  -- is incomplete or differs, in the expressions or in the declaration.
  pub is_reported_iff :
      (c : Change)
      → (is_reported is_legal_path o idx c ≡ true) ↔ (
          ((o.group ≡ group_all) ⊎ (o.group ≡ role_of c))
          × (c.old_mode ≢ codes "160000")
          × (c.new_mode ≢ codes "160000")
          × ((is_skipped (lookup idx c.old_oid).skipped ≡ true)
              ⊎ (is_skipped (lookup idx c.new_oid).skipped ≡ true)
              ⊎ ((lookup idx c.old_oid).expressions ≢ (lookup idx c.new_oid).expressions)
              ⊎ ((lookup idx c.old_oid).spdx ≢ (lookup idx c.new_oid).spdx)))
  unfolding is_reported
  is_reported_iff c = ground (
    arith,
    equal_iff o.group group_all,
    equal_iff o.group (role_of c),
    equal_iff c.old_mode (codes "160000"),
    equal_iff c.new_mode (codes "160000"),
    equal_exprs_iff (lookup idx c.old_oid).expressions (lookup idx c.new_oid).expressions,
  )

  abbrev pub HasPrefixes : Change → Type 0
  HasPrefixes c = (12 ≤ length c.commit) × (10 ≤ length c.date)

  -- The groups of the paths.
  path_group-cases :
      (path : Bytes)
      → (path_group is_legal_path path ≡ group_root)
        ⊎ ((path_group is_legal_path path ≡ group_legal)
            ⊎ (path_group is_legal_path path ≡ group_other))
  unfolding path_group
  path_group-cases path = ground arith

  report_in_total :
      (total : HistoryTotals) (s : LogState) (c : Change)
      → HasPrefixes c
      → (s' : LogState) × (report_in is_legal_path o idx total s c ≡ ok s')
  report_in_total total s c h = elim (Result-cases (report_in is_legal_path o idx total s c)) [
    | inl r ↦ r
    | inr (x, e) ↦ unfold report_in record_month print_details slice_to in absurd (ground arith)
  ]

  report_total :
      (s : LogState) (c : Change)
      → HasPrefixes c
      → HasGroups s
      → (s' : LogState) × (report is_legal_path o idx s c ≡ ok s') × HasGroups s'
  unfolding report HasGroups
  report_total s c h groups =
      let (total, found) = groups (role_of c) (path_group-cases c.path) in
      let (s', e) = report_in_total total s c h in
      let e' : report is_legal_path o idx s c ≡ ok s' = rw (report, found) e in
      (s', e', insert-HasGroups (role_of c) _ s s' groups (report_in_parts total s c e).0)

  log_change_total :
      (s : LogState) (c : Change)
      → HasPrefixes c
      → HasGroups s
      → (s' : LogState) × (log_change is_legal_path o idx s c ≡ ok s') × HasGroups s'
  unfolding log_change
  log_change_total s c h groups = elim (Bool-cases (is_reported is_legal_path o idx c)) [
    | inr silent ↦ (s, rw (log_change, silent) refl, groups)
    | inl reported ↦
        let (s', e, kept) = report_total s c h groups in
        let e' : log_change is_legal_path o idx s c ≡ ok s' = rw (log_change, reported) e in
        (s', e', kept)
  ]

  run_total :
      (cs : List Change) (s : LogState)
      → All HasPrefixes cs
      → HasGroups s
      → (s' : LogState) × (foldl (log_visit is_legal_path o idx) (ok s) cs ≡ ok s') × HasGroups s'
  unfolding log_visit
  run_total [] s h groups = (s, refl, groups)
  run_total (c ∷ cs) s (h, hs) groups =
      let (mid, m, kept) = log_change_total s c h groups in
      let (last, e, still) = run_total cs mid hs kept in (last, rw m e, still)

  -- A history with whole commit IDs and dates is replayed without a panic, from the totals that
  -- `logCmd` makes, and at its end the three groups have their totals, so none is missing for a line.
  pub log_visit_total :
      (cs : List Change)
      → All HasPrefixes cs
      → (s : LogState) × (foldl (log_visit is_legal_path o idx) (ok start) cs ≡ ok s) × HasGroups s
  log_visit_total cs h = run_total cs start h start-HasGroups
