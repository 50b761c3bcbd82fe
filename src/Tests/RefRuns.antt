-- ===== src/Tests/RefRuns.antt =====
-- A tag on a tag of a commit, and a tag on itself.
use git_spdx.Common.{
  Bool, none, not, ◌&&◌, ℕ, ◌≡◌, ◌≢◌, refl, ◌==◌, if◌then◌else◌, some, List, [], ◌∷◌, out_of_fuel,
  not_found, Result, ok, eof, Option, true, codes, cut_prefix, All, err, arith,
}
use git_spdx.Walk.{is_seen}
use git_spdx.Walk.Reach.{Member}
use git_spdx.Refs.{Named, commit, tag, commit_at_reference}
use git_spdx.Refs.Peel.{Peels, commit_at_reference-Peels, commit_at_reference-ne-out_of_fuel}
use git_spdx.Refs.Roots.{
  shallow_node, root_nodes, Reference, has_prefix, head_roots, peeled_roots, reference_roots,
  roots_loop, history_roots,
}
use git_spdx.Common.Count.{count_if}
use git_spdx.History.{Node}
use git_spdx.Refs.Once.{root_nodes_lem}
use git_spdx.Tests.WalkRuns.{number_eq}

abbrev found : ℕ → Result (Named ℕ)
found h =
    if h == 1
    then ok (tag 2)
    else if h == 2
    then ok (tag 3)
    else if h == 3
    then ok (commit 3)
    else if h == 4
    then ok (tag 4)
    else err not_found

peel_runs : commit_at_reference found 5 [] 1 ≡ ok (some 3)
unfolding commit_at_reference is_seen
peel_runs = refl

commit_at_reference-Peels_example : Peels found 1 (some 3)
commit_at_reference-Peels_example = commit_at_reference-Peels found 5 [] 1 (some 3) peel_runs

abbrev tag_list : List ℕ
tag_list = 1 ∷ 2 ∷ 4 ∷ []

no_fuel_error : (h : ℕ) → found h ≢ err out_of_fuel
no_fuel_error h e = ground arith

tags-listed : (h t : ℕ) → found h ≡ ok (tag t) → Member h tag_list
tags-listed h t e = ground arith

commit_at_reference-ne-out_of_fuel_example : commit_at_reference found 5 [] 4 ≢ err out_of_fuel
commit_at_reference-ne-out_of_fuel_example =
    commit_at_reference-ne-out_of_fuel found tag_list no_fuel_error tags-listed 5 4 (omega arith)

-- A branch that HEAD stands for, a tag of another commit, and a name that is no reference.
abbrev named : List (Reference ℕ)
named =
    record { name = codes "refs/heads/main"; resolved = ok 3 }
    ∷ record { name = codes "refs/tags/v1"; resolved = ok 1 }
    ∷ record { name = codes "HEAD"; resolved = ok 3 }
    ∷ []

abbrev peeled : ℕ → Result (Option ℕ)
peeled h = commit_at_reference found 5 [] h

roots_run : history_roots peeled (ok (named, eof)) (ok 3) ≡ ok (3 ∷ 3 ∷ 3 ∷ [])
unfolding history_roots head_roots roots_loop reference_roots peeled_roots has_prefix cut_prefix
    commit_at_reference is_seen
roots_run = refl

-- Commit 3 is at the boundary.
abbrev node : ℕ → Node ℕ
node h = record { id = h; parents = 7 ∷ []; commit = err not_found; parent_error = none }

abbrev at_boundary : ℕ → Bool
at_boundary h = h == 3

abbrev root_list : List (Node ℕ)
root_list =
    record { id = 3; parents = []; commit = err not_found; parent_error = none } ∷ node 5 ∷ []

nodes_run : root_nodes (λ h. ok (node h)) at_boundary [] (3 ∷ 5 ∷ 3 ∷ []) ≡ ok root_list
unfolding root_nodes shallow_node is_seen
nodes_run = refl

node_id : (h : ℕ) (n : Node ℕ) → ◌≡◌ {A = Result (Node ℕ)} (ok (node h)) (ok n) → n.id ≡ h
node_id h n e = cc

root_nodes_lem_example :
    ((c : ℕ)
      → count_if (λ n. n.id == c) root_list
        ≡ (if is_seen c (3 ∷ 5 ∷ 3 ∷ []) && not (is_seen c []) then 1 else 0))
    × All (λ n. at_boundary n.id ≡ true → n.parents ≡ []) root_list
root_nodes_lem_example =
    root_nodes_lem (λ h. ok (node h)) at_boundary node_id (3 ∷ 5 ∷ 3 ∷ []) [] nodes_run
