-- ===== src/Refs/Once.antt =====
-- The walk starts once at each root: the nodes that `walkChangesGoGitStream` hands to the iterator.
use git_spdx.Common.{
  ◌≡◌, refl, ap, ◌∙◌, Bool, true, false, not, ◌&&◌, List, [], ◌∷◌, if◌then◌else◌, Eq, Result, ok,
  >>=-eq-ok, Bool-cases, inl, inr, arith, All,
}
use git_spdx.Common.Count.{count_if}
use git_spdx.Walk.{is_seen}
use git_spdx.History.{Node}
use git_spdx.Refs.Roots.{shallow_node, root_nodes}
use mathlib.Core.Path.{subst}

shallow_node_id :
    {Hash : Type 0} (boundary : Hash → Bool) (n : Node Hash) → (shallow_node boundary n).id ≡ n.id
unfolding shallow_node
shallow_node_id boundary n = ground arith

shallow_node_cut :
    {Hash : Type 0} (boundary : Hash → Bool) (n : Node Hash)
    → boundary (shallow_node boundary n).id ≡ true
    → (shallow_node boundary n).parents ≡ []
unfolding shallow_node
shallow_node_cut boundary n b = ground arith

module _ {Hash : Type 0} ⦃e : Eq Hash⦄ (get : Hash → Result (Node Hash)) (boundary : Hash → Bool)
    (same_id : (h : Hash) (n : Node Hash) → get h ≡ ok n → n.id ≡ h) where
  -- How often a commit is among the nodes.
  abbrev pub is_at : Hash → Node Hash → Bool
  is_at c n = e.beq n.id c

  abbrev Counts : List Hash → List Hash → List (Node Hash) → Type 0
  Counts hs seen ns =
      (c : Hash) → count_if (is_at c) ns ≡ (if is_seen c hs && not (is_seen c seen) then 1 else 0)

  Counts-again :
      (h : Hash) (hs seen : List Hash) (ns : List (Node Hash))
      → is_seen h seen ≡ true
      → Counts hs seen ns
      → Counts (h ∷ hs) seen ns
  unfolding is_seen
  Counts-again h hs seen ns again counts c = ground (arith, counts c, e.beq_iff h c)

  Counts-new :
      (h : Hash) (n : Node Hash) (hs seen : List Hash) (ns : List (Node Hash))
      → is_seen h seen ≡ false
      → get h ≡ ok n
      → Counts hs (h ∷ seen) ns
      → Counts (h ∷ hs) seen (shallow_node boundary n ∷ ns)
  unfolding is_seen count_if
  Counts-new h n hs seen ns new q counts c = ground (
    arith,
    counts c,
    e.beq_iff h c,
    ap (λ k. e.beq k c) (shallow_node_id boundary n ∙ same_id h n q),
  )

  ok-injective :
      {ns ks : List (Node Hash)} → ◌≡◌ {A = Result (List (Node Hash))} (ok ns) (ok ks) → ns ≡ ks
  ok-injective p = cc

  abbrev IsCut : Node Hash → Type 0
  IsCut n = boundary n.id ≡ true → n.parents ≡ []

  -- If the nodes of the root are made, and each node has the hash that it was asked by, each hash that
  -- was given has one node, but those that were seen before have none, and a node of a commit at the
  -- shallow boundary has no parents.
  pub root_nodes_lem :
      (hs seen : List Hash) {ns : List (Node Hash)}
      → root_nodes get boundary seen hs ≡ ok ns
      → ((c : Hash)
          → count_if (is_at c) ns ≡ (if is_seen c hs && not (is_seen c seen) then 1 else 0))
        × All (λ n. boundary n.id ≡ true → n.parents ≡ []) ns
  unfolding root_nodes
  root_nodes_lem [] seen {ns} p =
      subst (λ ks. Counts [] seen ks × All IsCut ks) (ok-injective p)
        (unfold is_seen count_if in (λ c. refl, tt))
  root_nodes_lem (h ∷ hs) seen {ns} p = elim (Bool-cases (is_seen h seen)) [
    | inl again ↦
        let (counts, cuts) = root_nodes_lem hs seen (rw (root_nodes, again) at p) in
        (Counts-again h hs seen ns again counts, cuts)
    | inr new ↦
        let (n, q, p') = >>=-eq-ok (get h) _ (rw (root_nodes, new) at p) in
        let (rest, r, p'') = >>=-eq-ok (root_nodes get boundary (h ∷ seen) hs) _ p' in
        let (counts, cuts) = root_nodes_lem hs (h ∷ seen) r in
        subst (λ ks. Counts (h ∷ hs) seen ks × All IsCut ks) (ok-injective p'')
          (Counts-new h n hs seen rest new q counts, (shallow_node_cut boundary n, cuts))
  ]
