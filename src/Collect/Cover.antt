-- ===== src/Collect/Cover.antt =====
-- What the collector holds and what is still to be done, against the trees that are claimed.
use git_spdx.Common.{
  ◌≡◌, ◌⊎◌, inl, inr, Bool, true, false, ◌||◌, Option, some, List, ◌∷◌, Bytes, bytes_eq, Eq, Error,
  arith,
}
use git_spdx.Common.Dict.{lookup, lookup-insert}
use git_spdx.Names.{is_legal_directory, is_legal_file_name}
use git_spdx.Tree.{
  FileMode, dir, regular, deprecated, executable, Library, Collector, new_collector, claim,
  is_claimed, add,
}
use git_spdx.Walk.Reach.{Member}
use git_spdx.Collect.{Entry, entries_of, Todo, tree, entries}

-- The modes of files.
abbrev pub is_blob : FileMode → Bool
is_blob regular = true
is_blob deprecated = true
is_blob executable = true
is_blob _ = false

-- The entry is among those that are left of a tree.
abbrev pub Waits : {Hash : Type 0} → (Todo Hash → Type 0) → Bool → Entry Hash → Type 0
Waits {Hash} P b x =
    (xs : List (Entry Hash)) × (stop : Option Error) × P (entries b xs stop) × Member x xs

module _ {Hash : Type 0} ⦃e : Eq Hash⦄ where
  abbrev pub Claimed : Collector Hash → Hash → Bool → Type 0
  Claimed c h b = is_claimed h b c.seen ≡ true

  abbrev pub Stored : Collector Hash → Bytes → Type 0
  Stored c text = lookup text c.legal ≡ some true

  pub claim-old :
      (h : Hash) (b : Bool) (c : Collector Hash)
      → is_claimed h b c.seen ≡ true
      → claim h b c ≡ (c, false)
  unfolding claim
  claim-old h b c q = rw (claim, q)

  pub claim-new :
      (h : Hash) (b : Bool) (c : Collector Hash)
      → is_claimed h b c.seen ≡ false
      → claim h b c ≡ (record c { seen = (h, b) ∷ c.seen }, true)
  unfolding claim
  claim-new h b c q = rw (claim, q)

  pub is_claimed_self :
      (h : Hash) (b : Bool) (keys : List (Hash × Bool)) → is_claimed h b ((h, b) ∷ keys) ≡ true
  unfolding is_claimed
  is_claimed_self h b keys = ground (arith, e.beq_iff h h)

  pub is_claimed_older :
      (h k : Hash) (b f : Bool) (keys : List (Hash × Bool))
      → is_claimed h b keys ≡ true
      → is_claimed h b ((k, f) ∷ keys) ≡ true
  unfolding is_claimed
  is_claimed_older h k b f keys q = ground arith

  pub is_claimed-cons :
      (h k : Hash) (b f : Bool) (keys : List (Hash × Bool))
      → is_claimed k f ((h, b) ∷ keys) ≡ true
      → ((h ≡ k) × (b ≡ f)) ⊎ (is_claimed k f keys ≡ true)
  unfolding is_claimed
  is_claimed-cons h k b f keys q = ground (arith, e.beq_iff h k)

  -- A collector only grows.
  pub record Grows (c d : Collector Hash) : Type 0 where
    pub keys : (h : Hash) (b : Bool) → Claimed c h b → Claimed d h b
    pub blobs : (text : Bytes) → Stored c text → Stored d text

  pub Grows-same : (c : Collector Hash) → Grows c c
  Grows-same c = record { keys = λ h b q. q; blobs = λ text q. q }

  module _ (g : Library Hash) where
    pub Stored-add : (h : Hash) (c : Collector Hash) → Stored (add g h c) (g.hex h)
    unfolding add
    Stored-add h c = ground (
      arith,
      lookup-insert (g.hex h) (g.hex h) true c.legal,
      bytes_eq.beq_iff (g.hex h) (g.hex h),
    )

    pub Grows-add : (h : Hash) (c : Collector Hash) → Grows c (add g h c)
    unfolding add
    Grows-add h c = record {
      keys = λ k b q. q;
      blobs = λ text q. ground (arith, lookup-insert (g.hex h) text true c.legal);
    }

    -- An entry is settled: its tree is claimed or waits, its blob is stored if it is legal.
    pub record Settled (c : Collector Hash) (P : Todo Hash → Type 0) (b : Bool) (x : Entry Hash)
        : Type 0 where
      pub as_tree :
          x.mode ≡ dir
          → Claimed c x.oid (b || is_legal_directory x.name)
            ⊎ P (tree x.oid (b || is_legal_directory x.name))
      pub as_blob :
          is_blob x.mode ≡ true → (b || is_legal_file_name x.name) ≡ true → Stored c (g.hex x.oid)

    abbrev pub Covered : Collector Hash → (Todo Hash → Type 0) → Type 0
    Covered c P =
        (h : Hash) (b : Bool)
        → Claimed c h b
        → (x : Entry Hash) → Member x (entries_of g h).0
        → Waits P b x ⊎ Settled c P b x

    -- What a step from one collector and the tasks that wait there may do to another.
    pub record Next (c : Collector Hash) (P : Todo Hash → Type 0) (d : Collector Hash)
        (Q : Todo Hash → Type 0) : Type 0 where
      pub grows : Grows c d
      pub new_keys :
          (h : Hash) (b : Bool)
          → Claimed d h b
          → Claimed c h b ⊎ ((x : Entry Hash) → Member x (entries_of g h).0 → Waits Q b x)
      pub trees : (h : Hash) (b : Bool) → P (tree h b) → Claimed d h b ⊎ Q (tree h b)
      pub waiting : (b : Bool) (x : Entry Hash) → Waits P b x → Waits Q b x ⊎ Settled d Q b x

    Settled-Next :
        {c d : Collector Hash} {P Q : Todo Hash → Type 0} {b : Bool} {x : Entry Hash}
        → Next c P d Q
        → Settled c P b x
        → Settled d Q b x
    Settled-Next {b = b} {x = x} n s = record {
      as_tree = λ m. elim (s.as_tree m) [
        | inl old ↦ inl (n.grows.keys _ _ old)
        | inr waits ↦ n.trees _ _ waits
      ];
      as_blob = λ m l. n.grows.blobs _ (s.as_blob m l);
    }

    pub Covered-Next :
        {c d : Collector Hash} {P Q : Todo Hash → Type 0} → Next c P d Q → Covered c P → Covered d Q
    Covered-Next n cover h b claimed x m = elim (n.new_keys h b claimed) [
      | inr waits ↦ inl (waits x m)
      | inl old ↦ elim (cover h b old x m) [
        | inl waits ↦ n.waiting b x waits
        | inr settled ↦ inr (Settled-Next n settled)
      ]
    ]

    -- Where nothing has to wait, anything may.
    pub Covered-more :
        {c : Collector Hash} {P : Todo Hash → Type 0} → Covered c (λ u. ⊥) → Covered c P
    Covered-more cover h b claimed x m = elim (cover h b claimed x m) [
      | inl (xs, stop, waits, m') ↦ absurd waits
      | inr settled ↦ inr (record {
        as_tree =
            λ is_dir. elim (settled.as_tree is_dir) [ inl q ↦ inl q | inr waits ↦ absurd waits ];
        as_blob = settled.as_blob;
      })
    ]

    -- Nothing is claimed at the start.
    pub start-Covered : {P : Todo Hash → Type 0} → Covered new_collector P
    unfolding is_claimed
    start-Covered h b claimed x m = absurd (cc claimed)
