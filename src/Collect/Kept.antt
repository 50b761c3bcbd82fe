-- ===== src/Collect/Kept.antt =====
-- One step of a worker, as a step from what waits to what waits then.
use git_spdx.Common.{
  ◌≡◌, ◌≢◌, ◌⊎◌, inl, inr, refl, sym, ap, ◌∙◌, Bool, true, false, ◌||◌, Option, none, some, List,
  [], ◌∷◌, if◌then◌else◌, Bytes, bytes_eq, Eq, Error, Result, ok, err, arith, Bool-cases,
}
use git_spdx.Names.{is_legal_file_name}
use git_spdx.Tree.{
  FileMode, dir, regular, deprecated, executable, symlink, submodule, other_mode, Library,
  Collector, claim, is_claimed, add,
}
use git_spdx.Walk.Reach.{Member}
use git_spdx.Collect.{Entry, entries_of, Todo, tree, entries, work_entry, claimed_tasks, work}
use git_spdx.Collect.Cover.{
  is_blob, Claimed, Grows, Grows-same, Grows-add, Stored-add, claim-old, claim-new, is_claimed-cons,
  is_claimed_self, is_claimed_older, Settled, Waits, Next,
}
use mathlib.Core.Path.{subst}

abbrev flag_of : {Hash : Type 0} → Todo Hash → Bool
flag_of (tree h b) = b
flag_of (entries b xs stop) = b

abbrev left_of : {Hash : Type 0} → Todo Hash → List (Entry Hash)
left_of (tree h b) = []
left_of (entries b xs stop) = xs

-- `P` waits before the step, `Q` behind it; the step is made for `t`.
module _ {Hash : Type 0} ⦃e : Eq Hash⦄ (g : Library Hash) (P Q : Todo Hash → Type 0) (t : Todo Hash)
    (others : (u : Todo Hash) → P u → (t ≡ u) ⊎ Q u) (c : Collector Hash) where
  -- A step that succeeds is one of `Next`, if its new tasks wait.
  abbrev Good : Collector Hash × Result (List (Todo Hash)) → Type 0
  Good (d, err x) = Unit
  Good (d, ok new) = ((u : Todo Hash) → Member u new → Q u) → Next g c P d Q

  -- Nothing new is claimed.
  no_new_keys :
      (h : Hash) (b : Bool)
      → Claimed c h b
      → Claimed c h b ⊎ ((x : Entry Hash) → Member x (entries_of g h).0 → Waits Q b x)
  no_new_keys h b q = inl q

  module _ (k : Hash) (f : Bool) (is_tree : t ≡ tree k f) where
    other_entries :
        (b : Bool) (x : Entry Hash) (d : Collector Hash)
        → Waits P b x
        → Waits Q b x ⊎ Settled g d Q b x
    other_entries b x d (xs, stop, p, m) = elim (others (entries b xs stop) p) [
      | inl same ↦ absurd (cc (same, is_tree))
      | inr q ↦ inl (xs, stop, q, m)
    ]

    other_trees :
        (h : Hash) (b : Bool) (d : Collector Hash)
        → Claimed d k f
        → P (tree h b)
        → Claimed d h b ⊎ Q (tree h b)
    other_trees h b d claimed p = elim (others (tree h b) p) [
      | inl same ↦ inl (ground (arith, same, is_tree))
      | inr q ↦ inr q
    ]

    claimed-Good : Claimed c k f → Good (c, ok [])
    claimed-Good claimed w = record {
      grows = Grows-same c;
      new_keys = no_new_keys;
      trees = λ h b. other_trees h b c claimed;
      waiting = λ b x. other_entries b x c;
    }

    new-Good : Good (record c { seen = (k, f) ∷ c.seen }, ok (claimed_tasks g k f true))
    new-Good w =
        let d = record c { seen = (k, f) ∷ c.seen } in
        record {
          grows = record { keys = λ h b q. is_claimed_older h k b f c.seen q; blobs = λ text q. q };
          new_keys = λ h b q. elim (is_claimed-cons k h f b c.seen q) [
            | inr old ↦ inl old
            | inl (same, flag) ↦ inr (
                subst (λ i. (x : Entry Hash) → Member x (entries_of g i).0 → Waits Q b x) same
                  (subst (λ j. (x : Entry Hash) → Member x (entries_of g k).0 → Waits Q j x) flag
                    (λ x m. ((entries_of g k).0, (entries_of g k).1, w _ (inl refl), m))))
          ];
          trees = λ h b. other_trees h b d (is_claimed_self k f c.seen);
          waiting = λ b x. other_entries b x d;
        }

  -- Of the entries of a tree the first one is settled, and the rest waits.
  entry-Next :
      (f : Bool) (y : Entry Hash) (ys : List (Entry Hash)) (stop : Option Error)
      (d : Collector Hash)
      → t ≡ entries f (y ∷ ys) stop
      → Grows c d
      → d.seen ≡ c.seen
      → Q (entries f ys stop)
      → Settled g d Q f y
      → Next g c P d Q
  entry-Next f y ys stop d is_entries grows keys rest settled = record {
    grows = grows;
    new_keys = λ h b q. inl (ap (λ s. is_claimed h b s) (sym keys) ∙ q);
    trees = λ h b p. elim (others (tree h b) p) [
      | inl same ↦ absurd (cc (same, is_entries))
      | inr q ↦ inr q
    ];
    waiting = λ b x (xs, last, p, m). elim (others (entries b xs last) p) [
      | inr q ↦ inl (xs, last, q, m)
      | inl same ↦
          let together = sym is_entries ∙ same in
          subst (λ j. Waits Q j x ⊎ Settled g d Q j x) (ap flag_of together)
            (elim (subst (Member x) (sym (ap left_of together)) m) [
              | inl first ↦ inr (subst (Settled g d Q f) first settled)
              | inr later ↦ inl (ys, stop, rest, later)
            ])
    ];
  }

  -- The end of a tree.
  empty-Next : (f : Bool) → t ≡ entries f [] none → Next g c P c Q
  empty-Next f is_entries = record {
    grows = Grows-same c;
    new_keys = no_new_keys;
    trees = λ h b p. elim (others (tree h b) p) [
      | inl same ↦ absurd (cc (same, is_entries))
      | inr q ↦ inr q
    ];
    waiting = λ b x (xs, last, p, m). elim (others (entries b xs last) p) [
      | inr q ↦ inl (xs, last, q, m)
      | inl same ↦ absurd (subst (Member x) (ap left_of (sym same ∙ is_entries)) m)
    ];
  }

  -- An entry that is no tree and no blob that has to be stored.
  quiet-Settled :
      (mode : FileMode) (name : Bytes) (oid : Hash) (f : Bool)
      → mode ≢ dir
      → is_blob mode ≡ false
      → Settled g c Q f (record { mode = mode; name = name; oid = oid })
  quiet-Settled mode name oid f no_tree no_blob = record {
    as_tree = λ m. absurd (no_tree m);
    as_blob = λ m l. absurd (cc (no_blob, m));
  }

  -- A file, whether it is stored or not.
  blob-Good :
      (mode : FileMode) (name : Bytes) (oid : Hash) (f : Bool) (ys : List (Entry Hash))
      (stop : Option Error)
      → mode ≢ dir
      → t ≡ entries f (record { mode = mode; name = name; oid = oid } ∷ ys) stop
      → Good (if f || is_legal_file_name name then add g oid c else c, ok (entries f ys stop ∷ []))
  blob-Good mode name oid f ys stop no_tree is_entries w =
      elim (Bool-cases (f || is_legal_file_name name)) [
        | inl legal ↦ rw legal (
            entry-Next f _ ys stop (add g oid c) is_entries (Grows-add g oid c) (unfold add in refl)
              (w _ (inl refl))
              (record { as_tree = λ m. absurd (no_tree m); as_blob = λ m l. Stored-add g oid c }))
        | inr other ↦ rw other (
            entry-Next f _ ys stop c is_entries (Grows-same c) refl (w _ (inl refl)) (record {
              as_tree = λ m. absurd (no_tree m);
              as_blob = λ m l. absurd (cc (other, l));
            }))
      ]

  entry-Good :
      (mode : FileMode) (name : Bytes) (oid : Hash) (f : Bool) (ys : List (Entry Hash))
      (stop : Option Error)
      → t ≡ entries f (record { mode = mode; name = name; oid = oid } ∷ ys) stop
      → Good (work_entry g mode name oid f (entries f ys stop) c)
  unfolding work_entry
  entry-Good dir name oid f ys stop is_entries = λ w.
      entry-Next f _ ys stop c is_entries (Grows-same c) refl (w _ (inr (inl refl)))
        (record { as_tree = λ m. inr (w _ (inl refl)); as_blob = λ m l. absurd (cc m) })
  entry-Good symlink name oid f ys stop is_entries = λ w.
      entry-Next f _ ys stop c is_entries (Grows-same c) refl (w _ (inl refl))
        (quiet-Settled symlink name oid f (λ m. cc m) refl)
  entry-Good submodule name oid f ys stop is_entries = λ w.
      entry-Next f _ ys stop c is_entries (Grows-same c) refl (w _ (inl refl))
        (quiet-Settled submodule name oid f (λ m. cc m) refl)
  entry-Good (other_mode m) name oid f ys stop is_entries = tt
  entry-Good regular name oid f ys stop is_entries =
      blob-Good regular name oid f ys stop (λ m. cc m) is_entries
  entry-Good deprecated name oid f ys stop is_entries =
      blob-Good deprecated name oid f ys stop (λ m. cc m) is_entries
  entry-Good executable name oid f ys stop is_entries =
      blob-Good executable name oid f ys stop (λ m. cc m) is_entries

  tree-Good :
      (k : Hash) (f : Bool)
      → t ≡ tree k f
      → Good ((claim k f c).0, ok (claimed_tasks g k f (claim k f c).1))
  tree-Good k f is_tree = elim (Bool-cases (is_claimed k f c.seen)) [
    | inl old ↦
        subst (λ o. Good (o.0, ok (claimed_tasks g k f o.1))) (sym (claim-old k f c old))
          (claimed-Good k f is_tree old)
    | inr fresh ↦
        subst (λ o. Good (o.0, ok (claimed_tasks g k f o.1))) (sym (claim-new k f c fresh))
          (new-Good k f is_tree)
  ]

  work-Good : (u : Todo Hash) → t ≡ u → Good (work g u c)
  unfolding work
  work-Good (tree k f) is_tree = tree-Good k f is_tree
  work-Good (entries f [] none) is_entries = λ w. empty-Next f is_entries
  work-Good (entries f [] (some x)) is_entries = tt
  work-Good (entries f (y ∷ ys) stop) is_entries =
      entry-Good y.mode y.name y.oid f ys stop is_entries

  -- A step of a worker keeps what is covered, if the tasks it leaves wait.
  pub work-Next :
      {d : Collector Hash} {new : List (Todo Hash)}
      → work g t c ≡ (d, ok new)
      → ((u : Todo Hash) → Member u new → Q u)
      → Next g c P d Q
  work-Next p = subst Good p (work-Good t refl)
