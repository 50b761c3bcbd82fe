-- ===== src/Log/Months.antt =====
-- The monthly counts against the totals of the groups.
use git_spdx.Common.{
  ℕ, ◌+◌, ◌≡◌, refl, Bool, true, List, [], ◌∷◌, if◌then◌else◌, Bytes, bytes_eq, arith, ok,
  Result-cases, Bool-cases, inl, inr, ◌++◌,
}
use git_spdx.Common.Count.{sum_of}
use git_spdx.Common.Dict
use git_spdx.Common.Dict.{Dict}
use git_spdx.Change.{Change, path_group}
use git_spdx.Index.{Index}
use git_spdx.Log.{
  HistoryTotals, no_totals, LogOptions, LogState, start, entry, slice_to, record_month, is_reported,
  log_change, log_visit,
}
use git_spdx.Log.Totals.{
  Counter, expressions, counter, Compared, counts_for, step, counter-record_change,
}
use git_spdx.Log.Report.{compared, report_parts, log_visit_err}
use mathlib.Core.List.{foldl}

-- The sum of one counter over all entries.
abbrev pub sum_counter : Counter → Dict Bytes HistoryTotals → ℕ
sum_counter k = sum_of (λ p. counter k p.1)

counter_none : (k : Counter) → counter k no_totals ≡ 0
counter_none expressions = refl
counter_none _ = refl

sum_counter-insert :
    (k : Counter) (key : Bytes) (t : HistoryTotals) (m : Dict Bytes HistoryTotals)
    → sum_counter k (Dict.insert key t m) + counter k (entry key m) ≡ sum_counter k m + counter k t
unfolding sum_of Dict.insert Dict.lookup
sum_counter-insert k key t [] = omega (arith, counter_none k)
sum_counter-insert k key t ((j, w) ∷ m) = ground (arith, sum_counter-insert k key t m)

-- One change more in an entry.
sum_counter-step :
    (k : Counter) (key : Bytes) (x : Compared) (m : Dict Bytes HistoryTotals)
    → sum_counter k (Dict.insert key (step (entry key m) x) m)
      ≡ sum_counter k m + (if counts_for k x then 1 else 0)
sum_counter-step k key x m = omega (
  arith,
  sum_counter-insert k key (step (entry key m) x) m,
  counter-record_change k (entry key m) x,
)

sum_counter-record_month :
    (k : Counter) (m : Dict Bytes HistoryTotals) (role : Bytes) (x : Compared)
    {m' : Dict Bytes HistoryTotals}
    → record_month m role x.change x.before x.after ≡ ok m'
    → sum_counter k m' ≡ sum_counter k m + (if counts_for k x then 1 else 0)
unfolding record_month
sum_counter-record_month k m role x e = elim (Result-cases (slice_to 7 x.change.date)) [
  | inl (month, got) ↦ ground (arith, sum_counter-step k (month ++ (b',' ∷ role)) x m)
  | inr (p, got) ↦ ground arith
]

module _ (is_legal_path : Bytes → Bool) (o : LogOptions) (idx : Index)
    (monthly : o.monthly ≡ true) where
  -- The months hold in all what the totals hold in all.
  abbrev IsBalanced : Counter → LogState → Type 0
  IsBalanced k s = sum_counter k s.months ≡ sum_counter k s.totals

  start-IsBalanced : (k : Counter) → IsBalanced k start
  unfolding sum_of
  start-IsBalanced k = omega (arith, counter_none k)

  log_change-IsBalanced :
      (k : Counter) (s : LogState) (c : Change) {s' : LogState}
      → IsBalanced k s
      → log_change is_legal_path o idx s c ≡ ok s'
      → IsBalanced k s'
  unfolding log_change
  log_change-IsBalanced k s c {s'} h e = elim (Bool-cases (is_reported is_legal_path o idx c)) [
    | inr silent ↦ ground arith
    | inl reported ↦ ground (
      arith,
      report_parts is_legal_path o idx s c (rw reported at e),
      sum_counter-record_month k s.months (path_group is_legal_path c.path)
          (compared is_legal_path o idx c) {m' = s'.months},
      sum_counter-step k (path_group is_legal_path c.path) (compared is_legal_path o idx c)
          s.totals,
    )
  ]

  log_visit-IsBalanced :
      (k : Counter) (cs : List Change) (s : LogState) {s' : LogState}
      → IsBalanced k s
      → foldl (log_visit is_legal_path o idx) (ok s) cs ≡ ok s'
      → IsBalanced k s'
  unfolding log_visit
  log_visit-IsBalanced k [] s h e = ground arith
  log_visit-IsBalanced k (c ∷ cs) s {s'} h e =
      elim (Result-cases (log_change is_legal_path o idx s c)) [
        | inl (mid, m) ↦
            log_visit-IsBalanced k cs mid {s' = s'} (log_change-IsBalanced k s c h m) (rw m at e)
        | inr (x, m) ↦ cc (log_visit_err is_legal_path o idx cs x, rw m at e)
      ]

  -- Under `--monthly` the rows of all months add up to the totals of all groups, in each counter but
  -- the commits.
  pub monthly_balance :
      (k : Counter) (cs : List Change) {s : LogState}
      → foldl (log_visit is_legal_path o idx) (ok start) cs ≡ ok s
      → sum_counter k s.months ≡ sum_counter k s.totals
  monthly_balance k cs {s} e = log_visit-IsBalanced k cs start {s' = s} (start-IsBalanced k) e
