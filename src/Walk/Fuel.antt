-- ===== src/Walk/Fuel.antt =====
-- How many rounds the walk takes: one for each root and one for each parent of a commit.
use git_spdx.Common.{
  ℕ, zero, suc, ◌+◌, ◌≤◌, ◌<◌, ◌≡◌, inl, inr, refl, sym, ap, ◌∙◌, Bool, false, not, Option, none,
  some, List, [], ◌∷◌, All, length, Eq, Error, if◌then◌else◌, Result, ok, err, arith, Bool-cases,
}
use git_spdx.Tree.{and_then}
use git_spdx.Walk.{push_all, is_seen, visit_loop, visit_commit_trees}
use git_spdx.Walk.Reach.{Member, push_all-All, visit_loop_seen, visit_loop_new}

length-push_all :
    {A : Type 0} (xs stack : List A) → length (push_all xs stack) ≡ length xs + length stack
unfolding push_all
length-push_all [] stack = omega arith
length-push_all (x ∷ xs) stack = omega (arith, length-push_all xs (x ∷ stack))

and_then_ok :
    {C : Type 0} (o : C × Option Error) (next : C → C × Option Error)
    → o.1 ≡ none
    → and_then o next ≡ next o.0
unfolding and_then
and_then_ok (c, none) next e = refl
and_then_ok (c, some x) next e = cc

module _ {Hash : Type 0} ⦃e : Eq Hash⦄ (read : Hash → Bool → Result (Hash × List Hash))
    (boundary : Hash → Bool) where
  -- The parents that the walk takes from a commit.
  unfoldable pub parent_count : Hash → ℕ
  parent_count h = elim (read h (not (boundary h))) [
    | err x ↦ 0
    | ok (tree, parents) ↦ length parents
  ]

  -- The parents of the commits that are not seen yet.
  unfoldable pub pending : List Hash → List Hash → ℕ
  pending seen [] = 0
  pending seen (h ∷ hs) = (if is_seen h seen then 0 else parent_count h) + pending seen hs

  -- A commit that can be read and whose parents are listed.
  unfoldable pub IsListed : List Hash → Hash → Type 0
  IsListed commits h =
      (tree : Hash) × (parents : List Hash) × (read h (not (boundary h)) ≡ ok (tree, parents))
      × All (λ p. Member p commits) parents

  pending-older :
      (seen : List Hash) (h : Hash) (hs : List Hash) → pending (h ∷ seen) hs ≤ pending seen hs
  unfolding pending is_seen
  pending-older seen h [] = omega arith
  pending-older seen h (k ∷ hs) = ground (arith, pending-older seen h hs)

  pub pending-visit :
      (seen : List Hash) (h : Hash) (hs : List Hash)
      → Member h hs
      → is_seen h seen ≡ false
      → pending (h ∷ seen) hs + parent_count h ≤ pending seen hs
  unfolding pending is_seen
  pending-visit seen h [] m s = absurd m
  pending-visit seen h (k ∷ hs) (inl same) s = ground (
    arith,
    pending-older seen h hs,
    e.beq_iff h k,
    ap parent_count same,
    ap (λ q. is_seen q seen) same,
    sym same,
  )
  pending-visit seen h (k ∷ hs) (inr m) s = ground (arith, pending-visit seen h hs m s)

  parent_count-read :
      (h tree : Hash) (parents : List Hash)
      → read h (not (boundary h)) ≡ ok (tree, parents)
      → parent_count h ≡ length parents
  unfolding parent_count
  parent_count-read h tree parents r = rw (parent_count, r)

  module _ {C : Type 0} (visit : Hash → C → C × Option Error)
      (visits : (tree : Hash) (c : C) → (visit tree c).1 ≡ none) where
    visit_loop_total :
        (commits : List Hash)
        → ((h : Hash) → Member h commits → IsListed commits h)
        → (fuel : ℕ) (seen stack : List Hash) (c : C) → All (λ h. Member h commits) stack
        → length stack + pending seen commits < fuel
        → (visit_loop read boundary visit fuel seen stack c).1 ≡ none
    unfolding IsListed
    visit_loop_total commits listed zero seen stack c w f = absurd (omega arith)
    visit_loop_total commits listed (suc fuel) seen [] c w f = unfold visit_loop in refl
    visit_loop_total commits listed (suc fuel) seen (h ∷ stack) c (now, w) f =
        elim (Bool-cases (is_seen h seen)) [
          | inl s ↦
              ap (λ o. o.1) (visit_loop_seen read boundary visit fuel seen h stack c s)
              ∙ visit_loop_total commits listed fuel seen stack c w (omega arith)
          | inr s ↦
              let (tree, parents, r, inside) = listed h now in
              ap (λ o. o.1)
                (visit_loop_new read boundary visit fuel seen h stack c s r
                  ∙ and_then_ok (visit tree c)
                      (λ c'.
                        visit_loop read boundary visit fuel (h ∷ seen) (push_all parents stack) c')
                      (visits tree c))
              ∙ visit_loop_total commits listed fuel (h ∷ seen) (push_all parents stack)
                  (visit tree c).0 (push_all-All (λ k. Member k commits) parents stack inside w)
                  (omega (
                    arith,
                    length-push_all parents stack,
                    pending-visit seen h commits now s,
                    parent_count-read h tree parents r,
                  ))
        ]

  -- A walk that has one round for each root and each parent of the commits, and one more, ends without
  -- an error, if each commit can be read and its parents and the roots are commits, whatever cycles the
  -- parents form, if the visitor meets no error.
  pub visit_commit_trees_total :
      {C : Type 0} (visit : Hash → C → C × Option Error)
      → ((tree : Hash) (c : C) → (visit tree c).1 ≡ none)
      → (commits : List Hash) → ((h : Hash) → Member h commits → IsListed commits h)
      → (fuel : ℕ) (roots : List Hash) (c : C) → All (λ h. Member h commits) roots
      → length roots + pending [] commits < fuel
      → (visit_commit_trees read boundary visit fuel roots c).1 ≡ none
  unfolding visit_commit_trees
  visit_commit_trees_total visit visits commits listed fuel roots c inside f =
      visit_loop_total visit visits commits listed fuel [] (push_all roots []) c
        (push_all-All (λ h. Member h commits) roots [] inside tt)
        (omega (arith, length-push_all roots []))
