-- ===== src/Log/Commits.antt =====
-- The commit counter: on a history that lists each commit's changes together it counts commits.
use git_spdx.Common.{
  ◌+◌, ◌≡◌, ◌≢◌, refl, List, [], ◌∷◌, ◌++◌, if◌then◌else◌, Bytes, equal, equal_iff, arith, length,
  All,
}
use git_spdx.Log.{HistoryTotals, count_commit, count_spdx, count_kind, record_change}
use git_spdx.Log.Totals.{Compared, step, run}

-- The changes of one commit: a first one and the rest.
pub record Group : Type 0 where
  pub commit : Bytes
  pub first : Compared
  pub rest : List Compared

abbrev pub members : Group → List Compared
members g = g.first ∷ g.rest

abbrev pub all_members : List Group → List Compared
all_members [] = []
all_members (g ∷ gs) = members g ++ all_members gs

-- Every change of a group has the group's commit, and neighbours have different commits; `last` is
-- the commit in front.
abbrev pub IsGrouped : Bytes → List Group → Type 0
IsGrouped last [] = Unit {0}
IsGrouped last (g ∷ gs) =
    (g.commit ≢ last) × All (λ x. x.change.commit ≡ g.commit) (members g) × IsGrouped g.commit gs

commits-step :
    (t : HistoryTotals) (x : Compared)
    → ((step t x).last_commit ≡ x.change.commit)
      × ((step t x).commits ≡ t.commits + (if equal t.last_commit x.change.commit then 0 else 1))
unfolding record_change count_commit count_spdx count_kind
commits-step t x = ground (arith, equal_iff t.last_commit x.change.commit)

commits_same :
    (commit : Bytes) (xs : List Compared) (t : HistoryTotals)
    → t.last_commit ≡ commit
    → All (λ x. x.change.commit ≡ commit) xs
    → ((run t xs).commits ≡ t.commits) × ((run t xs).last_commit ≡ commit)
commits_same commit [] t e h = (refl, e)
commits_same commit (x ∷ xs) t e h = ground (
  arith,
  commits-step t x,
  equal_iff t.last_commit x.change.commit,
  commits_same commit xs (step t x),
)

run-append : (xs ys : List Compared) (t : HistoryTotals) → run t (xs ++ ys) ≡ run (run t xs) ys
run-append [] ys t = refl
run-append (x ∷ xs) ys t = run-append xs ys (step t x)

-- If the changes come commit by commit, the commit counter grows by the number of commits.
pub commits-run :
    (gs : List Group) (t : HistoryTotals)
    → IsGrouped t.last_commit gs
    → (run t (all_members gs)).commits ≡ t.commits + length gs
commits-run [] t h = omega arith
commits-run (g ∷ gs) t (new, same, more) =
    let after = step t g.first in
    let inside =
      commits_same g.commit g.rest after (ground (arith, commits-step t g.first)) same.1 in
    ground (
      arith,
      run-append (members g) (all_members gs) t,
      commits-step t g.first,
      equal_iff t.last_commit g.first.change.commit,
      commits-run gs (run after g.rest),
    )
