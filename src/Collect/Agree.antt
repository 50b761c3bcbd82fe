-- ===== src/Collect/Agree.antt =====
-- Several workers and one: `legalBlobsGoGit` of gogit_history_stream.go either way.
use git_spdx.Common.{
  ℕ, ◌<◌, ◌≡◌, inl, inr, ◌↔◌, Bool, true, Bytes, bytes_eq, Option, none, some, List, [], Eq, Error,
}
use git_spdx.Common.Member.{Member}
use git_spdx.Common.Dict.{Dict, lookup}
use git_spdx.Tree.{Library}
use git_spdx.Links.{read_commit}
use git_spdx.Walk.{push_all, visit_commit_trees, legal_blobs_gogit}
use git_spdx.Walk.Reach.{push_all-Member, record_tree, visit_commit_trees_lem}
use git_spdx.Collect.{State, start, Run, outcome}
use git_spdx.Collect.Cover.{Stored}
use git_spdx.Collect.Blobs.{IsLegalBlob}
use git_spdx.Collect.Serial.{push_all-origin, IsTop, legal_blobs_gogit_lem}
use git_spdx.Collect.Ends.{IsDone, Run-IsLegalBlob}

module _ {Hash : Type 0} ⦃e : Eq Hash⦄ (g : Library Hash) (boundary : Hash → Bool) (fuel : ℕ)
    (roots : List Hash) where
  -- The trees that a walk keeps, the last one first, and its error.
  abbrev pub walked : List Hash × Option Error
  walked = visit_commit_trees (read_commit g) boundary record_tree fuel roots []

  walked-IsTop :
      walked.1 ≡ none → (h : Hash) → IsTop g boundary roots h ↔ Member h (push_all walked.0 [])
  walked-IsTop p h =
      let kept =
        visit_commit_trees_lem (read_commit g) boundary roots fuel walked.0 (λ i. (walked.0, p i))
          h in
      (
        λ top. push_all-Member h walked.0 [] (kept.1 top),
        λ m. elim (push_all-origin h walked.0 [] m) [ inl k ↦ kept.0 k | inr z ↦ absurd z ],
      )

  -- A collection with several workers, over the trees of the commits that the roots reach, finds the
  -- legal blobs below these trees, and no other, if it ends without an error.
  pub legal_blobs_parallel_lem :
      (count : ℕ) (s : State Hash)
      → 0 < count
      → Run g walked.1 (start count (push_all walked.0 [])) s
      → IsDone s
      → outcome s ≡ none
      → (text : Bytes) → Stored s.collector text ↔ IsLegalBlob g (IsTop g boundary roots) text
  legal_blobs_parallel_lem count s l r done p =
      let trees = push_all walked.0 [] in
      let (ended, _) =
        Run-IsLegalBlob g walked.1 (λ h. Member h trees) count trees s l (λ h. (λ m. m, λ m. m)) r
          done p in
      (Run-IsLegalBlob g walked.1 (IsTop g boundary roots) count trees s l (walked-IsTop ended) r
        done p).1

  -- Where both succeed, several workers find what one finds, however they take turns.
  pub parallel-serial :
      (depth : ℕ) (legal : Dict Bytes Bool) (count : ℕ) (s : State Hash)
      → legal_blobs_gogit g boundary depth fuel roots ≡ (legal, none)
      → 0 < count
      → Run g walked.1 (start count (push_all walked.0 [])) s
      → IsDone s
      → outcome s ≡ none
      → (text : Bytes) → Stored s.collector text ↔ (lookup text legal ≡ some true)
  parallel-serial depth legal count s q l r done p text =
      let several = legal_blobs_parallel_lem count s l r done p text in
      let one = legal_blobs_gogit_lem g boundary depth fuel roots legal q text in
      (λ m. one.1 (several.0 m), λ m. several.1 (one.0 m))
