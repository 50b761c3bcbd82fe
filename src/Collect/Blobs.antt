-- ===== src/Collect/Blobs.antt =====
-- Which blobs are legal, told without a collector: a tree of the walk, or a tree below one, names them
-- as a file, with a legal name or under a legal directory.
use git_spdx.Common.{
  ◌≡◌, inl, inr, ◌↔◌, refl, sym, ◌∙◌, Bool, true, false, ◌||◌, Option, none, some, List, [], ◌∷◌,
  if◌then◌else◌, Bytes, bytes_eq, equal, equal_iff, Eq, Error, Result, ok, err, Bool-cases,
}
use git_spdx.Common.Dict.{lookup, lookup-insert}
use git_spdx.Names.{is_legal_directory, is_legal_file_name}
use git_spdx.Tree.{
  FileMode, dir, regular, deprecated, executable, symlink, submodule, other_mode, Library,
  Collector, new_collector, claim, is_claimed, add,
}
use git_spdx.Walk.Reach.{Member}
use git_spdx.Collect.{Entry, entries_of, Todo, tree, entries, work_entry, claimed_tasks, work}
use git_spdx.Collect.Cover.{
  is_blob, Claimed, Stored, claim-old, claim-new, is_claimed-cons, Covered,
}
use mathlib.Core.Path.{subst}

module _ {Hash : Type 0} ⦃e : Eq Hash⦄ (g : Library Hash) (Top : Hash → Type 0) where
  -- A tree that is reached, and whether a directory on the way is legal.
  pub data Key : Hash → Bool → Type 0 where
    at_top : {h : Hash} → Top h → Key h false
    below :
        {h : Hash} {b : Bool} (x : Entry Hash)
        → Key h b
        → Member x (entries_of g h).0
        → x.mode ≡ dir
        → Key x.oid (b || is_legal_directory x.name)

  pub record IsLegalBlob (text : Bytes) : Type 0 where
    pub tree_hash : Hash
    pub inherited : Bool
    pub found : Entry Hash
    pub reached : Key tree_hash inherited
    pub listed : Member found (entries_of g tree_hash).0
    pub is_file : is_blob found.mode ≡ true
    pub is_legal : (inherited || is_legal_file_name found.name) ≡ true
    pub is_text : g.hex found.oid ≡ text

  -- The tasks that the walk gives rise to.
  abbrev pub IsTask : Todo Hash → Type 0
  IsTask (tree h b) = Key h b
  IsTask (entries b xs stop) =
      (h : Hash) × Key h b × ((x : Entry Hash) → Member x xs → Member x (entries_of g h).0)

  pub record Sound (c : Collector Hash) : Type 0 where
    pub keys : (h : Hash) (b : Bool) → Claimed c h b → Key h b
    pub blobs : (text : Bytes) → Stored c text → IsLegalBlob text

  abbrev Fair : Collector Hash × Result (List (Todo Hash)) → Type 0
  Fair (d, err x) = Unit
  Fair (d, ok new) = Sound d × ((u : Todo Hash) → Member u new → IsTask u)

  one-IsTask : (t : Todo Hash) → IsTask t → (u : Todo Hash) → Member u (t ∷ []) → IsTask u
  one-IsTask t i u (inl same) = subst IsTask same i
  one-IsTask t i u (inr m) = absurd m

  new-Sound :
      (h : Hash) (b : Bool) (c : Collector Hash)
      → Key h b
      → Sound c
      → Sound (record c { seen = (h, b) ∷ c.seen })
  new-Sound h b c key s = record {
    keys = λ k f q. elim (is_claimed-cons h k b f c.seen q) [
      | inr old ↦ s.keys k f old
      | inl (same, flag) ↦ subst (λ i. Key i f) same (subst (λ j. Key h j) flag key)
    ];
    blobs = s.blobs;
  }

  tree-Fair :
      (h : Hash) (b : Bool) (c : Collector Hash)
      → Key h b
      → Sound c
      → Fair ((claim h b c).0, ok (claimed_tasks g h b (claim h b c).1))
  tree-Fair h b c key s = elim (Bool-cases (is_claimed h b c.seen)) [
    | inl old ↦
        subst (λ o. Fair (o.0, ok (claimed_tasks g h b o.1))) (sym (claim-old h b c old))
          (s, λ u m. absurd m)
    | inr fresh ↦
        subst (λ o. Fair (o.0, ok (claimed_tasks g h b o.1))) (sym (claim-new h b c fresh))
          (new-Sound h b c key s, one-IsTask _ (h, key, λ x m. m))
  ]

  add-Sound :
      (oid : Hash) (c : Collector Hash) → IsLegalBlob (g.hex oid) → Sound c → Sound (add g oid c)
  unfolding add
  add-Sound oid c legal s = record {
    keys = s.keys;
    blobs = λ text q. elim (Bool-cases (equal (g.hex oid) text)) [
      | inl same ↦ subst IsLegalBlob ((equal_iff (g.hex oid) text).0 same) legal
      | inr other ↦
          s.blobs text (sym (lookup-insert (g.hex oid) text true c.legal ∙ rw other refl) ∙ q)
    ];
  }

  module _ (name : Bytes) (oid h : Hash) (b : Bool) (ys : List (Entry Hash)) (stop : Option Error)
      (c : Collector Hash) (key : Key h b) (s : Sound c) where
    abbrev of_mode : FileMode → Entry Hash
    of_mode mode = record { mode = mode; name = name; oid = oid }

    -- The entries that are left are entries of the tree.
    abbrev Lists : FileMode → Type 0
    Lists mode = (x : Entry Hash) → Member x (of_mode mode ∷ ys) → Member x (entries_of g h).0

    rest-IsTask : (mode : FileMode) → Lists mode → IsTask (entries b ys stop)
    rest-IsTask mode all = (h, key, λ x m. all x (inr m))

    blob-Fair :
        (mode : FileMode)
        → is_blob mode ≡ true
        → Lists mode
        → Fair
            (if b || is_legal_file_name name then add g oid c else c, ok (entries b ys stop ∷ []))
    blob-Fair mode is_file all = elim (Bool-cases (b || is_legal_file_name name)) [
      | inr other ↦ rw other (s, one-IsTask _ (rest-IsTask mode all))
      | inl legal ↦ rw legal (
        add-Sound oid c
            (record {
              tree_hash = h;
              inherited = b;
              found = of_mode mode;
              reached = key;
              listed = all _ (inl refl);
              is_file = is_file;
              is_legal = legal;
              is_text = refl;
            })
            s,
        one-IsTask _ (rest-IsTask mode all),
      )
    ]

    entry-Fair :
        (mode : FileMode) → Lists mode → Fair (work_entry g mode name oid b (entries b ys stop) c)
    unfolding work_entry
    entry-Fair dir all = (
      s,
      λ u m. elim m [
        | inl same ↦ subst IsTask same (below (of_mode dir) key (all _ (inl refl)) refl)
        | inr rest ↦ one-IsTask _ (rest-IsTask dir all) u rest
      ],
    )
    entry-Fair symlink all = (s, one-IsTask _ (rest-IsTask symlink all))
    entry-Fair submodule all = (s, one-IsTask _ (rest-IsTask submodule all))
    entry-Fair (other_mode m) all = tt
    entry-Fair regular all = blob-Fair regular refl all
    entry-Fair deprecated all = blob-Fair deprecated refl all
    entry-Fair executable all = blob-Fair executable refl all

  work-Fair : (t : Todo Hash) (c : Collector Hash) → IsTask t → Sound c → Fair (work g t c)
  unfolding work
  work-Fair (tree h b) c key s = tree-Fair h b c key s
  work-Fair (entries b [] none) c i s = (s, λ u m. absurd m)
  work-Fair (entries b [] (some x)) c i s = tt
  work-Fair (entries b (y ∷ ys) stop) c (h, key, all) s =
      entry-Fair y.name y.oid h b ys stop c key s y.mode all

  -- A step keeps a sound collector, and its new tasks come from the walk.
  pub work-Sound :
      (t : Todo Hash) (c : Collector Hash) {d : Collector Hash} {new : List (Todo Hash)}
      → work g t c ≡ (d, ok new)
      → IsTask t
      → Sound c
      → Sound d × ((u : Todo Hash) → Member u new → IsTask u)
  work-Sound t c p i s = subst Fair p (work-Fair t c i s)

  pub start-Sound : Sound new_collector
  unfolding is_claimed lookup
  start-Sound = record { keys = λ h b q. absurd (cc q); blobs = λ text q. absurd (cc q) }

  -- Where nothing waits, the trees that are reached are claimed.
  Key-Claimed :
      (c : Collector Hash)
      → Covered g c (λ u. ⊥)
      → ((h : Hash) → Top h → Claimed c h false)
      → {h : Hash} {b : Bool} → Key h b
      → Claimed c h b
  Key-Claimed c cover top (at_top {h} m) = top h m
  Key-Claimed c cover top (below {h} {b} x key m is_dir) =
      elim (cover h b (Key-Claimed c cover top key) x m) [
        | inl (xs, stop, waits, m') ↦ absurd waits
        | inr settled ↦ elim (settled.as_tree is_dir) [
          | inl claimed ↦ claimed
          | inr waits ↦ absurd waits
        ]
      ]

  -- A collector that is sound, at a place where nothing waits, holds the legal blobs and no other.
  pub Stored-IsLegalBlob :
      (c : Collector Hash)
      → Sound c
      → Covered g c (λ u. ⊥)
      → ((h : Hash) → Top h → Claimed c h false)
      → (text : Bytes) → Stored c text ↔ IsLegalBlob text
  Stored-IsLegalBlob c s cover top text = (
    s.blobs text,
    λ l. elim (cover l.tree_hash l.inherited (Key-Claimed c cover top l.reached) l.found l.listed) [
      | inl (xs, stop, waits, m) ↦ absurd waits
      | inr settled ↦ subst (Stored c) l.is_text (settled.as_blob l.is_file l.is_legal)
    ],
  )
