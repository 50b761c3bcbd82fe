-- ===== src/Walk/Streamed.antt =====
-- The two ways to read objects, for the whole collection.
use git_spdx.Common.{
  ℕ, zero, suc, ◌≡◌, inl, inr, refl, sym, ap, ◌∙◌, Bool, false, not, Option, none, some, List, [],
  ◌∷◌, Bytes, Eq, Error, Result, ok, Bool-cases, Result-cases,
}
use git_spdx.Common.Dict.{Dict}
use git_spdx.Tree.{Library, new_collector, and_then, collect_legal_tree}
use git_spdx.Tree.Streamed.{in_memory_library, and_then-none, collect_legal_tree-Refines}
use git_spdx.Links.{read_commit}
use git_spdx.Links.Streamed.{read_commit-memory}
use git_spdx.Walk.{push_all, is_seen, visit_loop, visit_commit_trees, legal_blobs_gogit}
use git_spdx.Walk.Reach.{visit_loop_seen, visit_loop_wrong, visit_loop_new}

module _ {Hash C : Type 0} ⦃e : Eq Hash⦄ (read read' : Hash → Bool → Result (Hash × List Hash))
    (boundary : Hash → Bool) (visit visit' : Hash → C → C × Option Error)
    (reads : (h : Hash) (b : Bool) (v : Hash × List Hash) → read h b ≡ ok v → read' h b ≡ ok v)
    (visits : (tree : Hash) (c c' : C)
      → visit tree c ≡ (c', none)
      → visit' tree c ≡ (c', none)) where
  visit_loop-memory :
      (fuel : ℕ) (seen stack : List Hash) (c c' : C)
      → visit_loop read boundary visit fuel seen stack c ≡ (c', none)
      → visit_loop read' boundary visit' fuel seen stack c ≡ (c', none)
  unfolding and_then
  visit_loop-memory zero seen stack c c' r = unfold visit_loop in cc
  visit_loop-memory (suc fuel) seen [] c c' r = unfold visit_loop in r
  visit_loop-memory (suc fuel) seen (h ∷ stack) c c' r = elim (Bool-cases (is_seen h seen)) [
    | inl s ↦
        visit_loop_seen read' boundary visit' fuel seen h stack c s
        ∙ visit_loop-memory fuel seen stack c c'
            (sym (visit_loop_seen read boundary visit fuel seen h stack c s) ∙ r)
    | inr s ↦ elim (Result-cases (read h (not (boundary h)))) [
      | inr (x, l) ↦ cc (visit_loop_wrong read boundary visit fuel seen h stack c s l)
      | inl ((tree, parents), l) ↦
          let (mid, entered, more) =
            and_then-none (visit tree c)
              (λ k. visit_loop read boundary visit fuel (h ∷ seen) (push_all parents stack) k)
              (sym (visit_loop_new read boundary visit fuel seen h stack c s l) ∙ r) in
          visit_loop_new read' boundary visit' fuel seen h stack c s
            (reads h (not (boundary h)) (tree, parents) l)
          ∙ ap
              (λ o.
                and_then o (λ k.
                  visit_loop read' boundary visit' fuel (h ∷ seen) (push_all parents stack) k))
              (visits tree c mid entered)
          ∙ visit_loop-memory fuel (h ∷ seen) (push_all parents stack) mid c' more
    ]
  ]

pair_none :
    {A B : Type 0} (f : A → B) (o : A × Option Error) {b : B}
    → ◌≡◌ {A = B × Option Error} (f o.0, o.1) (b, none)
    → (o ≡ (o.0, none)) × (f o.0 ≡ b)
pair_none f (a, none) r = (refl, ap (λ q. q.0) r)
pair_none f (a, some x) r = cc

-- A collection of legal blobs that succeeds gives the same map if every object is held in memory: it
-- does not matter which objects go-git hands out as a memory object and which by a reader.
pub legal_blobs_gogit-memory :
    {Hash : Type 0} ⦃e : Eq Hash⦄ (g : Library Hash) (boundary : Hash → Bool) (depth fuel : ℕ)
    (roots : List Hash) (legal : Dict Bytes Bool)
    → legal_blobs_gogit g boundary depth fuel roots ≡ (legal, none)
    → legal_blobs_gogit (in_memory_library g) boundary depth fuel roots ≡ (legal, none)
unfolding legal_blobs_gogit visit_commit_trees
legal_blobs_gogit-memory g boundary depth fuel roots legal r =
    let out =
      visit_loop (read_commit g) boundary (λ tree c. collect_legal_tree g depth tree false c) fuel
        [] (push_all roots []) new_collector in
    let (good, found) = pair_none (λ c. c.legal) out r in
    ap (λ o. ((o.0).legal, o.1))
      (visit_loop-memory (read_commit g) (read_commit (in_memory_library g)) boundary
        (λ tree c. collect_legal_tree g depth tree false c)
        (λ tree c. collect_legal_tree (in_memory_library g) depth tree false c)
        (read_commit-memory g) (λ tree c c'. collect_legal_tree-Refines g depth tree false c c')
        fuel [] (push_all roots []) new_collector out.0 good)
    ∙ ap (λ k. (k, none)) found
