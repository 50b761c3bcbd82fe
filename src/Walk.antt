-- ===== src/Walk.antt =====
-- The walk over the commits and the serial collection of legal blobs: `visitCommitTrees` and
-- `legalBlobsGoGit` of gogit_history_stream.go.
pub mod Reach
pub mod Fuel
pub mod Streamed
use git_spdx.Common.{
  ℕ, zero, suc, Bool, true, false, not, ◌||◌, Option, none, some, List, [], ◌∷◌, Bytes, Eq, Error,
  out_of_fuel, Result, ok, err,
}
use git_spdx.Common.Dict.{Dict}
use git_spdx.Tree.{Library, Outcome, Collector, new_collector, and_then, collect_legal_tree}
use git_spdx.Links.{read_commit}

-- `append(stack, hashes...)`: the top of the stack, its last element in the program, is the head here.
unfoldable pub push_all {ℓ} : {A : Type ℓ} → List A → List A → List A
push_all [] stack = stack
push_all (x ∷ xs) stack = push_all xs (x ∷ stack)

-- A key of the map `seen`.
unfoldable pub is_seen : {Hash : Type 0} → ⦃e : Eq Hash⦄ → Hash → List Hash → Bool
is_seen h [] = false
is_seen ⦃e⦄ h (k ∷ seen) = e.beq k h || is_seen h seen

-- `read` is `readCommitTreeAndParents`, and `visit` the visitor with a state of its own.
module _ {Hash C : Type 0} ⦃e : Eq Hash⦄ (read : Hash → Bool → Result (Hash × List Hash))
    (boundary : Hash → Bool) (visit : Hash → C → C × Option Error) where
  unfoldable pub visit_loop : ℕ → List Hash → List Hash → C → C × Option Error
  visit_loop zero seen stack c = (c, some out_of_fuel)
  visit_loop (suc fuel) seen [] c = (c, none)
  visit_loop (suc fuel) seen (h ∷ stack) c = elim (is_seen h seen) [
    | true ↦ visit_loop fuel seen stack c
    | false ↦ elim (read h (not (boundary h))) [
      | err x ↦ (c, some x)
      | ok (tree, parents) ↦
          and_then (visit tree c) (λ c'. visit_loop fuel (h ∷ seen) (push_all parents stack) c')
    ]
  ]

  -- `visitCommitTrees`
  unfoldable pub visit_commit_trees : ℕ → List Hash → C → C × Option Error
  visit_commit_trees fuel roots c = visit_loop fuel [] (push_all roots []) c

-- The part of `legalBlobsGoGit` behind the opening of the repository, for one worker: the map of the
-- legal blobs and the error. `depth` bounds the depth of the trees.
unfoldable pub legal_blobs_gogit :
    {Hash : Type 0}
    → ⦃e : Eq Hash⦄ → Library Hash
    → (Hash → Bool)
    → ℕ
    → ℕ
    → List Hash
    → Dict Bytes Bool × Option Error
legal_blobs_gogit g boundary depth fuel roots =
    let out =
      visit_commit_trees (read_commit g) boundary
        (λ tree c. collect_legal_tree g depth tree false c) fuel roots new_collector in
    ((out.0).legal, out.1)
