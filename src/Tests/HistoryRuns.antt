-- ===== src/Tests/HistoryRuns.antt =====
-- A history of a commit with a parent.
use git_spdx.Common.{
  ℕ, ◌+◌, ◌*◌, ◌≤◌, ◌≡◌, ◌⊎◌, inr, refl, true, false, Option, none, some, List, [], ◌∷◌, ◌++◌,
  codes, length, Error, eof, ok, arith,
}
use git_spdx.Common.Count.{count_if}
use git_spdx.Common.Dict.{lookup, insert, erase}
use git_spdx.Stream.{is_eof}
use git_spdx.Change.{Change}
use git_spdx.History.{
  Node, Trees, DiffSide, commit_subject, subject_lines, join_lines, split, mode_text, octal,
  strip_zeros, chain, tree_changes, entry_change, side_oid, load, load_parent, visit_node,
  visit_task, walk_nodes,
}
use git_spdx.History.Cache.{plain_walk, empty-IsCoherent, walk_nodes-plain_walk}
use git_spdx.Text.{is_blank, trim_space, trim_left, trim_right, trim_left_from, space_len}
use git_spdx.History.Stream.{
  history_lookahead, State, start, Step, announce, enqueue, exhaust, filled, begin, finish,
  take_changes, complete, Run, here, next,
}
use git_spdx.History.Order.{Agrees, Run-Agrees}
use git_spdx.History.Progress.{Run-bounded}
use git_spdx.Tests.WalkRuns.{number_eq}

subject_run : commit_subject (codes "  One\n two \n\nbody\n") ≡ codes "One two"
unfolding commit_subject subject_lines join_lines split is_blank trim_space trim_left trim_right
    trim_left_from space_len
subject_run = refl

mode_run : mode_text 0o40000 ≡ codes "040000"
unfolding mode_text octal strip_zeros
mode_run = refl

abbrev side : ℕ → ℕ → DiffSide ℕ
side mode hash = record { name = codes "LICENSE"; mode = mode; hash = hash }

-- Every commit has itself as its tree, and one file differs between any two.
abbrev trees : Trees ℕ ℕ
trees = record {
  tree_at = λ h. ok h;
  diff = λ from to. ok (record { before = side 0 0; after = side 0o100644 to } ∷ []);
  text = λ h. h ∷ [];
}

abbrev child : Node ℕ
child = record {
  id = 1;
  parents = 2 ∷ [];
  commit = ok (codes "2024-01-01", codes "Add");
  parent_error = none;
}

abbrev keep_all : List Change → Change → List Change
keep_all cs c = cs ++ (c ∷ [])

walk_nodes-plain_walk_example :
    walk_nodes trees true keep_all (child ∷ []) eof [] []
    ≡ plain_walk trees true keep_all (child ∷ []) eof []
walk_nodes-plain_walk_example =
    walk_nodes-plain_walk trees true keep_all (child ∷ []) eof [] [] (empty-IsCoherent trees)

abbrev added : Change
added = record {
  commit = 1 ∷ [];
  date = codes "2024-01-01";
  subject = codes "Add";
  old_oid = codes "0";
  new_oid = 1 ∷ [];
  path = codes "LICENSE";
  old_mode = codes "000000";
  new_mode = codes "100644";
  merge = false;
}

abbrev walked : State ℕ ℕ (List Change)
walked = record {
  upcoming = [];
  exhausted = true;
  pending = [];
  filling = false;
  cache = (2, ok 2) ∷ [];
  out = added ∷ [];
  ended = some none;
}

walk-Run : Run trees true keep_all 1 eof (start (child ∷ []) []) 9 walked
unfolding start is_eof count_if visit_task visit_node chain load load_parent tree_changes
    entry_change side_oid lookup insert erase commit_subject subject_lines join_lines split is_blank
    trim_space trim_left trim_right trim_left_from space_len mode_text octal strip_zeros
walk-Run =
    next
      (next
        (next
          (next
            (next
              (next
                (next
                  (next (next here (announce child [] (refl, refl, refl) (omega arith) refl refl))
                    (enqueue child [] [] refl refl (omega arith)))
                  (exhaust (refl, refl, refl) (omega arith) refl refl refl))
                (filled (refl, refl, refl) (inr refl)))
              (begin child [] [] refl refl refl (omega arith)))
            (finish child [] [] refl refl))
          (take_changes child (added ∷ []) [] refl refl refl))
        (filled (refl, refl, refl) (inr refl)))
      (complete refl refl refl)

Run-Agrees_example :
    Agrees trees true keep_all 1 eof
      (walk_nodes trees true keep_all (child ∷ []) eof [] [])
      (added ∷ [])
      none
Run-Agrees_example =
    Run-Agrees trees true keep_all 1 eof (child ∷ []) [] 9 walked none (omega arith) walk-Run refl

Run-bounded_example :
    (length walked.pending ≤ history_lookahead * 1)
    × (9 ≤ 7 * length (child ∷ []) + 3)
    × (((failure : Option Error) × (walked.ended ≡ some failure))
        ⊎ ((t : State ℕ ℕ (List Change)) × Step trees true keep_all 1 eof walked t))
Run-bounded_example =
    Run-bounded trees true keep_all 1 eof (child ∷ []) [] 9 walked (omega arith) walk-Run
