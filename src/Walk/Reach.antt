-- ===== src/Walk/Reach.antt =====
-- The commits that the walk visits are the ones that the roots reach.
use git_spdx.Common.{
  ℕ, zero, suc, ◌≡◌, ◌⊎◌, inl, inr, refl, sym, ap, ◌∙◌, ◌↔◌, Bool, true, false, not, Option, none,
  some, List, [], ◌∷◌, All, Eq, Error, Result, ok, err, arith, Bool-cases, Result-cases,
}
pub use git_spdx.Common.Member.{Member}
use git_spdx.Tree.{and_then}
use git_spdx.Walk.{push_all, is_seen, visit_loop, visit_commit_trees}
use mathlib.Core.Path.{subst}

pub push_all-above :
    {A : Type 0} (x : A) (xs stack : List A) → Member x stack → Member x (push_all xs stack)
unfolding push_all
push_all-above x [] stack m = m
push_all-above x (y ∷ xs) stack m = push_all-above x xs (y ∷ stack) (inr m)

pub push_all-Member :
    {A : Type 0} (x : A) (xs stack : List A) → Member x xs → Member x (push_all xs stack)
unfolding push_all
push_all-Member x [] stack m = absurd m
push_all-Member x (y ∷ xs) stack (inl i) = push_all-above x xs (y ∷ stack) (inl i)
push_all-Member x (y ∷ xs) stack (inr m) = push_all-Member x xs (y ∷ stack) m

pub push_all-All :
    {A : Type 0} (P : A → Type 0) (xs stack : List A)
    → All P xs
    → All P stack
    → All P (push_all xs stack)
unfolding push_all
push_all-All P [] stack p s = s
push_all-All P (x ∷ xs) stack (p, ps) s = push_all-All P xs (x ∷ stack) ps (p, s)

-- The rounds of the loop.
module _ {Hash C : Type 0} ⦃e : Eq Hash⦄ (read : Hash → Bool → Result (Hash × List Hash))
    (boundary : Hash → Bool) (visit : Hash → C → C × Option Error) (fuel : ℕ) (seen : List Hash)
    (h : Hash) (stack : List Hash) (c : C) where
  pub visit_loop_seen :
      is_seen h seen ≡ true
      → visit_loop read boundary visit (suc fuel) seen (h ∷ stack) c
        ≡ visit_loop read boundary visit fuel seen stack c
  unfolding visit_loop
  visit_loop_seen s = rw (visit_loop, s)

  pub visit_loop_wrong :
      {x : Error}
      → is_seen h seen ≡ false
      → read h (not (boundary h)) ≡ err x
      → visit_loop read boundary visit (suc fuel) seen (h ∷ stack) c ≡ (c, some x)
  unfolding visit_loop
  visit_loop_wrong s r = rw (visit_loop, s, r)

  pub visit_loop_new :
      {tree : Hash} {parents : List Hash}
      → is_seen h seen ≡ false
      → read h (not (boundary h)) ≡ ok (tree, parents)
      → visit_loop read boundary visit (suc fuel) seen (h ∷ stack) c
        ≡ and_then
            (visit tree c)
            (λ c'. visit_loop read boundary visit fuel (h ∷ seen) (push_all parents stack) c')
  unfolding visit_loop
  visit_loop_new s r = rw (visit_loop, s, r)

-- The visitor that keeps the trees.
abbrev pub record_tree : {Hash : Type 0} → Hash → List Hash → List Hash × Option Error
record_tree tree trees = (tree ∷ trees, none)

module _ {Hash : Type 0} ⦃e : Eq Hash⦄ (read : Hash → Bool → Result (Hash × List Hash))
    (boundary : Hash → Bool) (roots : List Hash) where
  -- A root, or a parent of a commit that is reached; a commit at the boundary is read without its
  -- parents.
  pub data Reachable : Hash → Type 0 where
    at_root : {h : Hash} → Member h roots → Reachable h
    at_parent :
        {h p tree : Hash} {parents : List Hash}
        → Reachable h
        → read h (not (boundary h)) ≡ ok (tree, parents)
        → Member p parents
        → Reachable p

  -- The tree of a commit that is reached.
  abbrev pub IsTree : Hash → Type 0
  IsTree tree =
      (h : Hash) × (parents : List Hash) × Reachable h
      × (read h (not (boundary h)) ≡ ok (tree, parents))

  -- The parents of a commit that is seen are seen or wait, and its tree is kept.
  abbrev Settled : List Hash → List Hash → List Hash → Type 0
  Settled seen stack trees =
      (h : Hash)
      → is_seen h seen ≡ true
      → (tree : Hash) × (parents : List Hash) × (read h (not (boundary h)) ≡ ok (tree, parents))
        × Member tree trees
        × ((p : Hash) → Member p parents → (is_seen p seen ≡ true) ⊎ Member p stack)

  abbrev loop : ℕ → List Hash → List Hash → List Hash → List Hash × Option Error
  loop = visit_loop read boundary record_tree

  pub is_seen-cons :
      (h k : Hash) (seen : List Hash)
      → is_seen k (h ∷ seen) ≡ true
      → (h ≡ k) ⊎ (is_seen k seen ≡ true)
  unfolding is_seen
  is_seen-cons h k seen s = ground (arith, e.beq_iff h k)

  pub is_seen_self : (h k : Hash) (seen : List Hash) → h ≡ k → is_seen k (h ∷ seen) ≡ true
  unfolding is_seen
  is_seen_self h k seen s = ground (arith, e.beq_iff h k)

  pub is_seen_older :
      (h k : Hash) (seen : List Hash) → is_seen k seen ≡ true → is_seen k (h ∷ seen) ≡ true
  unfolding is_seen
  is_seen_older h k seen s = ground (arith, e.beq_iff h k)

  Settled-skip :
      (seen stack trees : List Hash) (h : Hash)
      → is_seen h seen ≡ true
      → Settled seen (h ∷ stack) trees
      → Settled seen stack trees
  Settled-skip seen stack trees h s inv k sk =
      let (tree, parents, r, m, next) = inv k sk in
      (
        tree,
        parents,
        r,
        m,
        λ p pm. elim (next p pm) [
          | inl old ↦ inl old
          | inr (inl same) ↦ inl (ap (λ q. is_seen q seen) (sym same) ∙ s)
          | inr (inr waits) ↦ inr waits
        ],
      )

  Settled-visit :
      (seen stack trees : List Hash) (h tree : Hash) (parents : List Hash)
      → read h (not (boundary h)) ≡ ok (tree, parents)
      → Settled seen (h ∷ stack) trees
      → Settled (h ∷ seen) (push_all parents stack) (tree ∷ trees)
  Settled-visit seen stack trees h tree parents r inv k sk = elim (is_seen-cons h k seen sk) [
    | inl same ↦ (
      tree,
      parents,
      ap (λ q. read q (not (boundary q))) (sym same) ∙ r,
      inl refl,
      λ p pm. inr (push_all-Member p parents stack pm),
    )
    | inr old ↦
        let (tree', parents', r', m, next) = inv k old in
        (
          tree',
          parents',
          r',
          inr m,
          λ p pm. elim (next p pm) [
            | inl before ↦ inl (is_seen_older h p seen before)
            | inr (inl same) ↦ inl (is_seen_self h p seen same)
            | inr (inr waits) ↦ inr (push_all-above p parents stack waits)
          ],
        )
  ]

  loop_done :
      (fuel : ℕ) (seen trees kept : List Hash)
      → loop (suc fuel) seen [] trees ≡ (kept, none)
      → trees ≡ kept
  unfolding visit_loop
  loop_done fuel seen trees kept e = ap (λ o. o.0) e

  -- A loop that ends well has seen all that waited, and nothing waits.
  loop_complete :
      (fuel : ℕ) (seen stack trees kept : List Hash)
      → Settled seen stack trees
      → loop fuel seen stack trees ≡ (kept, none)
      → (all_seen : List Hash) × Settled all_seen [] kept
        × ((h : Hash) → is_seen h seen ≡ true → is_seen h all_seen ≡ true)
        × ((h : Hash) → Member h stack → is_seen h all_seen ≡ true)
  unfolding and_then
  loop_complete zero seen stack trees kept inv e = unfold visit_loop in cc
  loop_complete (suc fuel) seen [] trees kept inv e = (
    seen,
    subst (Settled seen []) (loop_done fuel seen trees kept e) inv,
    λ h s. s,
    λ h m. absurd m,
  )
  loop_complete (suc fuel) seen (h ∷ stack) trees kept inv e = elim (Bool-cases (is_seen h seen)) [
    | inl s ↦
        let (all_seen, done, old, waits) =
          loop_complete fuel seen stack trees kept (Settled-skip seen stack trees h s inv)
            (sym (visit_loop_seen read boundary record_tree fuel seen h stack trees s) ∙ e) in
        (
          all_seen,
          done,
          old,
          λ k m. elim m [
            | inl same ↦ old k (ap (λ q. is_seen q seen) (sym same) ∙ s)
            | inr later ↦ waits k later
          ],
        )
    | inr s ↦ elim (Result-cases (read h (not (boundary h)))) [
      | inr (x, r) ↦ cc (visit_loop_wrong read boundary record_tree fuel seen h stack trees s r)
      | inl ((tree, parents), r) ↦
          let (all_seen, done, old, waits) =
            loop_complete fuel (h ∷ seen) (push_all parents stack) (tree ∷ trees) kept
              (Settled-visit seen stack trees h tree parents r inv)
              (sym (visit_loop_new read boundary record_tree fuel seen h stack trees s r) ∙ e) in
          (
            all_seen,
            done,
            (λ k sk. old k (is_seen_older h k seen sk)),
            λ k m. elim m [
              | inl same ↦ old k (is_seen_self h k seen same)
              | inr later ↦ waits k (push_all-above k parents stack later)
            ],
          )
    ]
  ]

  All-Member : (P : Hash → Type 0) (hs : List Hash) → ((h : Hash) → Member h hs → P h) → All P hs
  All-Member P [] f = tt
  All-Member P (h ∷ hs) f = (f h (inl refl), All-Member P hs (λ k m. f k (inr m)))

  pub Member-All : (P : Hash → Type 0) (hs : List Hash) (h : Hash) → All P hs → Member h hs → P h
  Member-All P [] h tt m = absurd m
  Member-All P (k ∷ hs) h (p, ps) (inl same) = subst P same p
  Member-All P (k ∷ hs) h (p, ps) (inr m) = Member-All P hs h ps m

  loop_sound :
      (fuel : ℕ) (seen stack trees kept : List Hash)
      → All Reachable stack
      → All IsTree trees
      → loop fuel seen stack trees ≡ (kept, none)
      → All IsTree kept
  unfolding and_then
  loop_sound zero seen stack trees kept w t e = unfold visit_loop in cc
  loop_sound (suc fuel) seen [] trees kept w t e =
      subst (All IsTree) (loop_done fuel seen trees kept e) t
  loop_sound (suc fuel) seen (h ∷ stack) trees kept (now, w) t e =
      elim (Bool-cases (is_seen h seen)) [
        | inl s ↦
            loop_sound fuel seen stack trees kept w t
              (sym (visit_loop_seen read boundary record_tree fuel seen h stack trees s) ∙ e)
        | inr s ↦ elim (Result-cases (read h (not (boundary h)))) [
          | inr (x, r) ↦ cc (visit_loop_wrong read boundary record_tree fuel seen h stack trees s r)
          | inl ((tree, parents), r) ↦
              loop_sound fuel (h ∷ seen) (push_all parents stack) (tree ∷ trees) kept
                (push_all-All Reachable parents stack
                  (All-Member Reachable parents (λ p m. at_parent now r m)) w)
                ((h, parents, now, r), t)
                (sym (visit_loop_new read boundary record_tree fuel seen h stack trees s r) ∙ e)
        ]
      ]

  ok-injective : {V : Type 0} {v w : V} → ok v ≡ ok w → v ≡ w
  ok-injective q = cc q

  Reachable-seen :
      (seen trees : List Hash)
      → Settled seen [] trees
      → ((h : Hash) → Member h roots → is_seen h seen ≡ true)
      → (h : Hash) → Reachable h
      → is_seen h seen ≡ true
  Reachable-seen seen trees inv start h (at_root m) = start h m
  Reachable-seen seen trees inv start p
        (at_parent {h} {tree = tree} {parents = parents} reach r m) =
      let (tree', parents', r', _, next) = inv h (Reachable-seen seen trees inv start h reach) in
      elim (next p (subst (λ o. Member p o.1) (ok-injective (sym r ∙ r')) m)) [
        | inl before ↦ before
        | inr waits ↦ absurd waits
      ]

  nothing-Settled : Settled [] (push_all roots []) []
  unfolding is_seen
  nothing-Settled h s = cc

  -- A walk that succeeds visits the trees of the commits that the roots reach, and no other.
  pub visit_commit_trees_lem :
      (fuel : ℕ) (kept : List Hash)
      → visit_commit_trees read boundary record_tree fuel roots [] ≡ (kept, none)
      → (tree : Hash) → Member tree kept ↔ IsTree tree
  unfolding visit_commit_trees
  visit_commit_trees_lem fuel kept e tree =
      let (all_seen, done, _, waits) =
        loop_complete fuel [] (push_all roots []) [] kept nothing-Settled e in
      (
        Member-All IsTree kept tree (
            loop_sound fuel [] (push_all roots []) [] kept
              (push_all-All Reachable roots [] (All-Member Reachable roots (λ h m. at_root m)) tt)
              tt e),
        λ (h, parents, reach, r).
            let (tree', parents', r', m, _) = done h (
              Reachable-seen all_seen kept done (λ k q. waits k (push_all-Member k roots [] q)) h
                reach) in
            subst (λ o. Member o.0 kept) (ok-injective (sym r' ∙ r)) m,
      )
