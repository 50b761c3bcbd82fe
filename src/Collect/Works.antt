-- ===== src/Collect/Works.antt =====
-- `collectLegalTreeRaw` as a whole is a run of its steps.
use git_spdx.Common.{
  ℕ, zero, suc, ◌≡◌, inl, inr, refl, sym, ap, Bool, true, false, not, Option, none, some, List, [],
  ◌∷◌, ◌++◌, append_assoc, if◌then◌else◌, Bytes, Eq, Error, wrong_kind, Result, ok, err,
  Result-cases,
}
use git_spdx.Tree.{
  FileMode, dir, regular, deprecated, executable, symlink, submodule, other_mode, Item, entry,
  finished, failed, next_in_memory, next_in_stream, Object, Library, Collector, Outcome, claim,
  and_then, close_reader, visit_entry, write_tree, read_tree, collect_object, collect_legal_tree,
}
use mathlib.Core.Path.{subst}
use git_spdx.Collect.{
  Entries, put_entry, memory_entries, stream_entries, close_entries, object_entries, entries_of,
  Todo, tree, entries, work_entry, claimed_tasks, work,
}

module _ {Hash : Type 0} ⦃e : Eq Hash⦄ (g : Library Hash) where
  -- The tasks are worked off one after the other, from one collector to another.
  pub data Works : Collector Hash → List (Todo Hash) → Collector Hash → Type 0 where
    done : {c : Collector Hash} → Works c [] c
    more :
        {c d f : Collector Hash} {t : Todo Hash} {ts new : List (Todo Hash)}
        → work g t c ≡ (d, ok new)
        → Works d (new ++ ts) f
        → Works c (t ∷ ts) f

  Works-append :
      {c d f : Collector Hash} {ts us : List (Todo Hash)}
      → Works c ts d
      → Works d us f
      → Works c (ts ++ us) f
  Works-append done w' = w'
  Works-append {f = f} {us = us} (more {d = mid} {ts = ts} {new = new} step w) w' =
      more step (subst (λ ts. Works mid ts f) (append_assoc new ts us) (Works-append w w'))

  -- A chain without an error has two parts without an error.
  pub and_then-none :
      {C : Type 0} (p : C × Option Error) (next : C → C × Option Error) {c : C}
      → and_then p next ≡ (c, none)
      → (d : C) × (p ≡ (d, none)) × (next d ≡ (c, none))
  unfolding and_then
  and_then-none (d, some x) next q = cc
  and_then-none (d, none) next q = (d, refl, q)

  module _ (collect : Hash → Bool → Collector Hash → Outcome Hash)
      (collect_works : (h : Hash) (b : Bool) (c d : Collector Hash)
        → collect h b c ≡ (d, none)
        → Works c (tree h b ∷ []) d)
      (inherited : Bool) where
    -- The entries that are left are worked off.
    abbrev Left : Collector Hash → Entries Hash → Collector Hash → Type 0
    Left c (es, stop) d = Works c (entries inherited es stop ∷ []) d

    same_rest :
        (es : Entries Hash) {k mid : Collector Hash}
        → ◌≡◌ {A = Outcome Hash} (k, none) (mid, none)
        → ◌≡◌ {A = Collector Hash × Result (List (Todo Hash))}
            (k, ok (entries inherited es.0 es.1 ∷ []))
            (mid, ok (entries inherited es.0 es.1 ∷ []))
    same_rest es p = ap (λ o. (o.0, ok (entries inherited es.0 es.1 ∷ []))) p

    entry-Left :
        (mode : FileMode) (name : Bytes) (oid : Hash) (es : Entries Hash) (c mid d : Collector Hash)
        → visit_entry g collect inherited mode name oid c ≡ (mid, none)
        → Left mid es d
        → Left c (put_entry mode name oid es) d
    unfolding visit_entry work work_entry
    entry-Left dir name oid es c mid d p w =
        more refl (Works-append (collect_works oid _ c mid p) w)
    entry-Left symlink name oid es c mid d p w = more (same_rest es p) w
    entry-Left submodule name oid es c mid d p w = more (same_rest es p) w
    entry-Left (other_mode m) name oid es c mid d p w = absurd (cc p)
    entry-Left regular name oid es c mid d p w = more (same_rest es p) w
    entry-Left deprecated name oid es c mid d p w = more (same_rest es p) w
    entry-Left executable name oid es c mid d p w = more (same_rest es p) w

    -- A round of a loop over the entries, for both ways to read them.
    abbrev round :
        Item Hash → (Bytes → Collector Hash → Outcome Hash) → Collector Hash → Outcome Hash
    round i next c = elim i [
      | finished ↦ (c, none)
      | failed x ↦ (c, some x)
      | entry mode name oid rest ↦
          and_then (visit_entry g collect inherited mode name oid c) (λ c'. next rest c')
    ]

    abbrev round_entries : Item Hash → (Bytes → Entries Hash) → Entries Hash
    round_entries i left = elim i [
      | finished ↦ ([], none)
      | failed x ↦ ([], some x)
      | entry mode name oid rest ↦ put_entry mode name oid (left rest)
    ]

    round-Left :
        (i : Item Hash) (next : Bytes → Collector Hash → Outcome Hash) (left : Bytes → Entries Hash)
        (c d : Collector Hash)
        → ((rest : Bytes) (k : Collector Hash) → next rest k ≡ (d, none) → Left k (left rest) d)
        → round i next c ≡ (d, none)
        → Left c (round_entries i left) d
    unfolding work
    round-Left finished next left c d later p = more (ap (λ o. (o.0, ok [])) p) done
    round-Left (failed x) next left c d later p = absurd (cc p)
    round-Left (entry mode name oid rest) next left c d later p =
        let (mid, visited, q) =
          and_then-none (visit_entry g collect inherited mode name oid c) (next rest) p in
        entry-Left mode name oid (left rest) c mid d visited (later rest mid q)

    write_tree-Left :
        (size fuel : ℕ) (bytes : Bytes) (c d : Collector Hash)
        → write_tree g collect size inherited fuel bytes c ≡ (d, none)
        → Left c (memory_entries g size fuel bytes) d
    unfolding write_tree memory_entries
    write_tree-Left size zero bytes c d p = absurd (cc p)
    write_tree-Left size (suc fuel) bytes c d p =
        round-Left (next_in_memory g size bytes) (write_tree g collect size inherited fuel)
          (memory_entries g size fuel) c d (λ rest k q. write_tree-Left size fuel rest k d q) p

    read_tree-Left :
        (size : ℕ) (stop : Error) (fuel : ℕ) (bytes : Bytes) (c d : Collector Hash)
        → read_tree g collect size inherited stop fuel bytes c ≡ (d, none)
        → Left c (stream_entries g size stop fuel bytes) d
    unfolding read_tree stream_entries
    read_tree-Left size stop zero bytes c d p = absurd (cc p)
    read_tree-Left size stop (suc fuel) bytes c d p =
        round-Left (next_in_stream g size (record { bytes = bytes; stop = stop }))
          (read_tree g collect size inherited stop fuel) (stream_entries g size stop fuel) c d
          (λ rest k q. read_tree-Left size stop fuel rest k d q) p

    -- The reader's error comes before the one of closing it.
    closed-Left :
        (closing : Option Error) (out : Outcome Hash) (es : Entries Hash) (c d : Collector Hash)
        → (out ≡ (d, none) → Left c es d)
        → close_reader closing out ≡ (d, none)
        → Left c (close_entries closing es) d
    unfolding close_reader
    closed-Left closing (k, some x) es c d f p = absurd (cc p)
    closed-Left (some x) (k, none) es c d f p = absurd (cc p)
    closed-Left none (k, none) (es, none) c d f p = f p
    closed-Left none (k, none) (es, some x) c d f p = f p

    -- How an object is read.
    chosen-Left :
        (is_tree in_memory : Bool) (opening closing : Option Error) (written read : Outcome Hash)
        (ws rs : Entries Hash) (c d : Collector Hash)
        → (written ≡ (d, none) → Left c ws d)
        → (read ≡ (d, none) → Left c rs d)
        → (if not is_tree
            then (c, some wrong_kind)
            else if in_memory
            then written
            else elim opening [ some x ↦ (c, some x) | none ↦ close_reader closing read ])
          ≡ (d, none)
        → Left c
            (if not is_tree
              then ([], some wrong_kind)
              else if in_memory
              then ws
              else elim opening [ some x ↦ ([], some x) | none ↦ close_entries closing rs ])
            d
    chosen-Left false m opening closing written read ws rs c d f f' p = absurd (cc p)
    chosen-Left true true opening closing written read ws rs c d f f' p = f p
    chosen-Left true false (some x) closing written read ws rs c d f f' p = absurd (cc p)
    chosen-Left true false none closing written read ws rs c d f f' p =
        closed-Left closing read rs c d f' p

    object-Left :
        (size : ℕ) (o : Object) (c d : Collector Hash)
        → collect_object g collect size inherited o c ≡ (d, none)
        → Left c (object_entries g size o) d
    unfolding collect_object object_entries
    object-Left size o c d p =
        chosen-Left o.is_tree o.in_memory o.open_error o.close_error _ _ _ _ c d
          (write_tree-Left size _ o.content c d) (read_tree-Left size o.stop _ o.content c d) p

  entries_of-ok :
      (h : Hash) (o : Object) → g.load h ≡ ok o → entries_of g h ≡ object_entries g (g.size h) o
  unfolding entries_of
  entries_of-ok h o q = rw (entries_of, q)

  abbrev behind_claim :
      (Hash → Bool → Collector Hash → Outcome Hash)
      → Hash
      → Bool
      → Collector Hash
      → Bool
      → Outcome Hash
  behind_claim collect h b c new = elim new [
    | false ↦ (c, none)
    | true ↦ elim (g.load h) [
      | err x ↦ (c, some x)
      | ok o ↦ collect_object g collect (g.size h) b o c
    ]
  ]

  -- What follows a claim.
  claimed-Works :
      (collect : Hash → Bool → Collector Hash → Outcome Hash) (h : Hash) (b : Bool)
      (c d : Collector Hash) (new : Bool)
      → ((k : Hash) (f : Bool) (c d : Collector Hash)
          → collect k f c ≡ (d, none)
          → Works c (tree k f ∷ []) d)
      → behind_claim collect h b c new ≡ (d, none)
      → Works c (claimed_tasks g h b new ++ []) d
  claimed-Works collect h b c d false ih p = subst (Works c []) (ap (λ o. o.0) p) done
  claimed-Works collect h b c d true ih p = elim (Result-cases (g.load h)) [
    | inr (x, q) ↦ absurd (cc (rw (behind_claim, q) at p))
    | inl (o, q) ↦
        subst (λ es. Left collect ih b c es d) (sym (entries_of-ok h o q))
          (object-Left collect ih b (g.size h) o c d (rw (behind_claim, q) at p))
  ]

  -- A collection that succeeds is a run of the steps of its worker.
  pub collect-Works :
      (fuel : ℕ) (h : Hash) (b : Bool) (c d : Collector Hash)
      → collect_legal_tree g fuel h b c ≡ (d, none)
      → Works c (tree h b ∷ []) d
  unfolding collect_legal_tree work
  collect-Works zero h b c d p = absurd (cc p)
  collect-Works (suc fuel) h b c d p =
      let (c', new) = claim h b c in
      more refl (claimed-Works (collect_legal_tree g fuel) h b c' d new (collect-Works fuel) p)
