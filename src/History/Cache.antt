-- ===== src/History/Cache.antt =====
-- The tree cache cannot be seen: the walk with it against a description that asks for each tree anew.
use git_spdx.Common.{
  ◌≡◌, ◌≢◌, inl, inr, refl, sym, ap, ◌∙◌, Bool, ◌||◌, Option, none, some, List, [], ◌∷◌, ltb,
  if◌then◌else◌, length, Eq, Error, Result, ok, err, ◌>>=◌, Bool-cases, Option-cases, List-cases,
}
use git_spdx.Common.Dict.{lookup, insert, erase, lookup-insert, lookup-erase}
use git_spdx.Stream.{is_eof}
use git_spdx.Change.{Change}
use git_spdx.History.{
  Node, Trees, Cache, tree_changes, chain, visit_changes, load, load_parent, visit_node, visit_task,
  walk_nodes,
}
use mathlib.Core.List.{foldl}

module _ {Hash Tree : Type 0} (g : Trees Hash Tree) where
  unfoldable pub parent_tree : Node Hash → Result (Option Tree)
  parent_tree n = elim n.parents [
    | [] ↦ ok none
    | p ∷ ps ↦ elim n.parent_error [ some x ↦ err x | none ↦ do t ← g.tree_at p; ok (some t) ]
  ]

  -- The changes of a commit: its tree against the one of its first parent.
  unfoldable pub node_changes : Node Hash → Result (List Change)
  node_changes n = do
    info ← n.commit
    to ← g.tree_at n.id
    from ← parent_tree n
    tree_changes g n info from to

  unfoldable pub task_changes : Bool → Node Hash → Result (List Change)
  task_changes merges n = if merges || ltb (length n.parents) 2 then node_changes n else ok []

  -- The changes of the commits in order, up to the first commit that fails.
  unfoldable pub plain_walk :
      {S : Type 0} → Bool → (S → Change → S) → List (Node Hash) → Error → S → S × Option Error
  plain_walk merges visit [] stop s = (s, if is_eof stop then none else some stop)
  plain_walk merges visit (n ∷ ns) stop s =
      visit_changes visit (task_changes merges n, tt) s (λ s' u. plain_walk merges visit ns stop s')

module _ {Hash Tree : Type 0} ⦃e : Eq Hash⦄ (g : Trees Hash Tree) where
  -- What the cache holds is what go-git answers.
  unfoldable pub IsCoherent : Cache Hash Tree → Type 0
  IsCoherent cache = (h : Hash) (r : Result Tree) → lookup h cache ≡ some r → r ≡ g.tree_at h

  IsCoherent-entry :
      (cache : Cache Hash Tree)
      → IsCoherent cache
      → (h : Hash) (r : Result Tree) → lookup h cache ≡ some r
      → r ≡ g.tree_at h
  unfolding IsCoherent
  IsCoherent-entry cache inv = inv

  none-ne-some : {V : Type 0} {v : V} → none ≢ some v
  none-ne-some q = cc q

  some-injective : {V : Type 0} {v w : V} → some v ≡ some w → v ≡ w
  some-injective q = cc q

  pub empty-IsCoherent : IsCoherent []
  unfolding IsCoherent lookup
  empty-IsCoherent h r m = cc

  insert-IsCoherent :
      (h : Hash) (cache : Cache Hash Tree)
      → IsCoherent cache
      → IsCoherent (insert h (g.tree_at h) cache)
  unfolding IsCoherent
  insert-IsCoherent h cache inv k r m = elim (Bool-cases (e.beq h k)) [
    | inl same ↦
        sym (some-injective (sym (rw same at (lookup-insert h k (g.tree_at h) cache)) ∙ m))
        ∙ ap g.tree_at ((e.beq_iff h k).0 same)
    | inr differ ↦ inv k r (sym (rw differ at (lookup-insert h k (g.tree_at h) cache)) ∙ m)
  ]

  pub erase-IsCoherent :
      (h : Hash) (cache : Cache Hash Tree) → IsCoherent cache → IsCoherent (erase h cache)
  unfolding IsCoherent
  erase-IsCoherent h cache inv k r m = elim (Bool-cases (e.beq h k)) [
    | inl same ↦ absurd (none-ne-some (sym (rw same at (lookup-erase h k cache)) ∙ m))
    | inr differ ↦ inv k r (sym (rw differ at (lookup-erase h k cache)) ∙ m)
  ]

  -- A computation with the cache gives the value that needs no cache, and leaves a coherent cache.
  abbrev pub Gives : {V : Type 0} → V × Cache Hash Tree → V → Type 0
  Gives out v = (cache : Cache Hash Tree) × (out ≡ (v, cache)) × IsCoherent cache

  chain-Gives :
      {A B : Type 0} (m : Result A × Cache Hash Tree)
      (next : A → Cache Hash Tree → Result B × Cache Hash Tree) (r : Result A) (f : A → Result B)
      → Gives m r
      → ((a : A) (cache : Cache Hash Tree) → IsCoherent cache → Gives (next a cache) (f a))
      → Gives (chain m next) (r >>= f)
  unfolding chain
  chain-Gives m next (err x) f (cache, e, inv) goes = (cache, rw (chain, e), inv)
  chain-Gives m next (ok a) f (cache, e, inv) goes =
      let (cache', e', inv') = goes a cache inv in (cache', rw (chain, e) e', inv')

  load-IsCoherent :
      (h : Hash) (cache : Cache Hash Tree) → IsCoherent cache → Gives (load g h cache) (g.tree_at h)
  unfolding load
  load-IsCoherent h cache inv = elim (Option-cases (lookup h cache)) [
    | inr (r, l) ↦
        (cache, rw (load, l) (ap (λ v. (v, cache)) (IsCoherent-entry cache inv h r l)), inv)
    | inl l ↦ (insert h (g.tree_at h) cache, rw (load, l), insert-IsCoherent h cache inv)
  ]

  load_parent-IsCoherent :
      (n : Node Hash) (cache : Cache Hash Tree)
      → IsCoherent cache
      → Gives (load_parent g n cache) (parent_tree g n)
  unfolding load_parent parent_tree
  load_parent-IsCoherent n cache inv = elim (List-cases n.parents) [
    | inl ps ↦ (cache, rw (load_parent, parent_tree, ps), inv)
    | inr (p, more, ps) ↦ elim (Option-cases n.parent_error) [
      | inr (x, pe) ↦ (cache, rw (load_parent, parent_tree, ps, pe), inv)
      | inl pe ↦
          let (cache', found, inv') =
            chain-Gives (load g p cache) (λ from c. (ok (some from), c)) (g.tree_at p)
              (λ t. ok (some t)) (load-IsCoherent p cache inv) (λ t c i. (c, refl, i)) in
          (cache', rw (load_parent, parent_tree, ps, pe) found, inv')
    ]
  ]

  visit_node-IsCoherent :
      (n : Node Hash) (cache : Cache Hash Tree)
      → IsCoherent cache
      → Gives (visit_node g n cache) (node_changes g n)
  unfolding visit_node node_changes
  visit_node-IsCoherent n cache inv =
      chain-Gives (n.commit, cache) _ n.commit _ (cache, refl, inv)
        λ info c i.
          chain-Gives (load g n.id c) _ (g.tree_at n.id) _ (load-IsCoherent n.id c i) λ to c' i'.
            chain-Gives (load_parent g n c') _ (parent_tree g n) _ (load_parent-IsCoherent n c' i')
              λ from c'' i''. (c'', refl, i'')

  pub visit_task-IsCoherent :
      (merges : Bool) (n : Node Hash) (cache : Cache Hash Tree)
      → IsCoherent cache
      → Gives (visit_task g merges n cache) (task_changes g merges n)
  unfolding visit_task task_changes
  visit_task-IsCoherent merges n cache inv =
      elim (Bool-cases (merges || ltb (length n.parents) 2)) [
        | inl wanted ↦ rw wanted (visit_node-IsCoherent n cache inv)
        | inr merge ↦ rw merge (cache, refl, inv)
      ]

  -- The same changes are visited, or the same error is met, whatever each side carries along.
  visit_changes-eq :
      {S C D : Type 0} (visit : S → Change → S) (r : Result (List Change)) (c : C) (d : D) (s : S)
      (next : S → C → S × Option Error) (next' : S → D → S × Option Error)
      → ((s' : S) → next s' c ≡ next' s' d)
      → visit_changes visit (r, c) s next ≡ visit_changes visit (r, d) s next'
  unfolding visit_changes
  visit_changes-eq visit (err x) c d s next next' same = refl
  visit_changes-eq visit (ok cs) c d s next next' same = same (foldl visit s cs)

  -- The walk with the cache, which is filled and emptied as it goes, visits the changes of each commit
  -- against its first parent, in order, and ends with the first error, as if every tree were asked for
  -- anew.
  pub walk_nodes-plain_walk :
      {S : Type 0} (merges : Bool) (visit : S → Change → S) (ns : List (Node Hash)) (stop : Error)
      (cache : Cache Hash Tree) (s : S)
      → IsCoherent cache
      → walk_nodes g merges visit ns stop cache s ≡ plain_walk g merges visit ns stop s
  unfolding walk_nodes plain_walk
  walk_nodes-plain_walk merges visit [] stop cache s inv = refl
  walk_nodes-plain_walk merges visit (n ∷ ns) stop cache s inv =
      let (cache', v, inv') = visit_task-IsCoherent merges n cache inv in
      ap
        (λ out.
          visit_changes visit out s (λ s' c. walk_nodes g merges visit ns stop (erase n.id c) s'))
        v
      ∙ visit_changes-eq visit (task_changes g merges n) cache' tt s
          (λ s' c. walk_nodes g merges visit ns stop (erase n.id c) s')
          (λ s' u. plain_walk g merges visit ns stop s')
          (λ s'.
            walk_nodes-plain_walk merges visit ns stop (erase n.id cache') s'
              (erase-IsCoherent n.id cache' inv'))
