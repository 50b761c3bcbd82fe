-- ===== src/Tree/Streamed.antt =====
-- The two ways to read a tree, from memory and from a buffered reader.
use git_spdx.Common.{
  ℕ, zero, suc, ◌≡◌, ◌≢◌, ◌⊎◌, inl, inr, refl, sym, ap, ◌∙◌, Bool, true, ◌||◌, Option, none, some,
  [], ◌∷◌, Bytes, cut, length, Eq, Error, ok, ◌>>=◌, arith, Bool-cases, Option-cases, Result-cases,
}
use git_spdx.Stream.{Stream}
use git_spdx.Names.{is_legal_directory}
use git_spdx.Tree.{
  FileMode, dir, Item, entry, finished, failed, Object, Library, read_slice, entry_in_memory,
  next_in_memory, entry_in_stream, next_in_stream, Collector, Outcome, and_then, claim, add,
  visit_entry, write_tree, read_tree, close_reader, collect_object, collect_legal_tree,
}

-- What a buffered read finds, the cut finds.
read_slice-cut :
    (d : ℕ) (r : Stream) (s : Bytes) (r' : Stream)
    → read_slice d r ≡ ok (s, r')
    → (cut d r.bytes ≡ some (s, r'.bytes)) × (r'.stop ≡ r.stop)
unfolding read_slice
read_slice-cut d r s r' e = elim (Option-cases (cut d r.bytes)) [
  | inl c ↦ ground arith
  | inr ((front, back), c) ↦ ground arith
]

module _ {Hash : Type 0} (g : Library Hash) where
  entry_in_stream-memory :
      (size mode : ℕ) (r : Stream) (m : FileMode) (name : Bytes) (oid : Hash) (rest : Bytes)
      → entry_in_stream g size mode r ≡ entry m name oid rest
      → entry_in_memory g size mode r.bytes ≡ entry m name oid rest
  unfolding entry_in_stream entry_in_memory
  entry_in_stream-memory size mode r m name oid rest e = elim (Result-cases (read_slice 0 r)) [
    | inr (x, f) ↦ ground arith
    | inl ((s, r'), f) ↦ ground (arith, read_slice-cut 0 r s r' f)
  ]

  next_in_memory_mode :
      (size : ℕ) (bytes mode_bytes rest : Bytes) (mode : ℕ)
      → cut b' ' bytes ≡ some (mode_bytes, rest)
      → g.mode_of mode_bytes ≡ ok mode
      → next_in_memory g size bytes ≡ entry_in_memory g size mode rest
  unfolding next_in_memory
  next_in_memory_mode size [] mode_bytes rest mode c h = unfold cut in cc
  next_in_memory_mode size (b ∷ bs) mode_bytes rest mode c h = rw (next_in_memory, c) (rw h)

  -- An entry that the reader finds is found in memory too.
  next_in_stream-memory :
      (size : ℕ) (r : Stream) (m : FileMode) (name : Bytes) (oid : Hash) (rest : Bytes)
      → next_in_stream g size r ≡ entry m name oid rest
      → next_in_memory g size r.bytes ≡ entry m name oid rest
  unfolding next_in_stream
  next_in_stream-memory size r m name oid rest e = elim (Result-cases (read_slice b' ' r)) [
    | inr (x, f) ↦ ground arith
    | inl ((s, r'), f) ↦ elim (Result-cases (g.mode_of s)) [
      | inr (x, h) ↦ ground arith
      | inl (mode, h) ↦
          next_in_memory_mode size r.bytes s r'.bytes mode (read_slice-cut b' ' r s r' f).0 h
          ∙ entry_in_stream-memory size mode r' m name oid rest (ground arith)
    ]
  ]

  entry_in_stream-ne-finished :
      (size mode : ℕ) (r : Stream) → entry_in_stream g size mode r ≢ finished
  unfolding entry_in_stream
  entry_in_stream-ne-finished size mode r e = ground arith

  -- Where the reader finds the end, nothing is left.
  next_in_stream-finished :
      (size : ℕ) (r : Stream) → next_in_stream g size r ≡ finished → r.bytes ≡ []
  unfolding next_in_stream
  next_in_stream-finished size r e = elim (Result-cases (read_slice b' ' r)) [
    | inr (x, f) ↦ ground arith
    | inl ((s, r'), f) ↦ elim (Result-cases (g.mode_of s)) [
      | inr (x, h) ↦ ground arith
      | inl (mode, h) ↦ ground (arith, entry_in_stream-ne-finished size mode r')
    ]
  ]

Item-cases :
    {Hash : Type 0} (i : Item Hash)
    → (i ≡ finished)
      ⊎ ((x : Error) × (i ≡ failed x))
      ⊎ ((m : FileMode) × (name : Bytes) × (oid : Hash) × (rest : Bytes) × (i
            ≡ entry m name oid rest))
Item-cases finished = inl refl
Item-cases (failed x) = inr (inl (x, refl))
Item-cases (entry m name oid rest) = inr (inr (m, name, oid, rest, refl))

pub and_then-none {ℓ} :
    {C : Type ℓ} (o : C × Option Error) (next : C → C × Option Error) {c : C}
    → and_then o next ≡ (c, none)
    → (mid : C) × (o ≡ (mid, none)) × (next mid ≡ (c, none))
unfolding and_then
and_then-none (mid, none) next e = (mid, refl, e)
and_then-none (mid, some x) next e = cc

close_reader-none :
    {Hash : Type 0} (closing : Option Error) (o : Outcome Hash) {c : Collector Hash}
    → close_reader closing o ≡ (c, none)
    → o ≡ (c, none)
unfolding close_reader
close_reader-none closing (k, some x) e = cc
close_reader-none closing (k, none) e = ground arith

module _ {Hash : Type 0} ⦃e : Eq Hash⦄ (g : Library Hash)
    (f : Hash → Bool → Collector Hash → Outcome Hash) (size : ℕ) (inherited : Bool) (fuel : ℕ)
    (bytes : Bytes) (c : Collector Hash) where
  write_tree_finished :
      next_in_memory g size bytes ≡ finished
      → write_tree g f size inherited (suc fuel) bytes c ≡ (c, none)
  unfolding write_tree
  write_tree_finished i = rw (write_tree, i)

  write_tree_failed :
      {x : Error}
      → next_in_memory g size bytes ≡ failed x
      → write_tree g f size inherited (suc fuel) bytes c ≡ (c, some x)
  unfolding write_tree
  write_tree_failed i = rw (write_tree, i)

  write_tree-entry :
      {m : FileMode} {name : Bytes} {oid : Hash} {rest : Bytes}
      → next_in_memory g size bytes ≡ entry m name oid rest
      → write_tree g f size inherited (suc fuel) bytes c
        ≡ and_then
            (visit_entry g f inherited m name oid c)
            (λ k. write_tree g f size inherited fuel rest k)
  unfolding write_tree
  write_tree-entry i = rw (write_tree, i)

-- The object as a `MemoryObject`.
abbrev pub as_memory : Object → Object
as_memory o = record o { in_memory = true }

-- The same objects, all of them in memory.
abbrev pub in_memory_library : {Hash : Type 0} → Library Hash → Library Hash
in_memory_library g = record g { load = λ h. g.load h >>= λ o. ok (as_memory o) }

module _ {Hash : Type 0} ⦃e : Eq Hash⦄ (g : Library Hash) where
  abbrev Collects : Type 0
  Collects = Hash → Bool → Collector Hash → Outcome Hash

  -- Where the first succeeds, the second does, with the same collector.
  abbrev Refines : Collects → Collects → Type 0
  Refines f f' =
      (h : Hash) (inherited : Bool) (c c' : Collector Hash)
      → f h inherited c ≡ (c', none)
      → f' h inherited c ≡ (c', none)

  visit_entry-Refines :
      (f f' : Collects) (inherited : Bool) (m : FileMode) (name : Bytes) (oid : Hash)
      (c c' : Collector Hash)
      → Refines f f'
      → visit_entry g f inherited m name oid c ≡ (c', none)
      → visit_entry (in_memory_library g) f' inherited m name oid c ≡ (c', none)
  unfolding visit_entry add
  visit_entry-Refines f f' inherited dir name oid c c' r h =
      r oid (inherited || is_legal_directory name) c c' h
  visit_entry-Refines f f' inherited _ name oid c c' r h = h

  next_in_memory_library :
      (size : ℕ) (bytes : Bytes)
      → next_in_memory (in_memory_library g) size bytes ≡ next_in_memory g size bytes
  unfolding next_in_memory entry_in_memory
  next_in_memory_library size [] = refl
  next_in_memory_library size (b ∷ bs) = refl

  module _ (f : Collects) (size : ℕ) (inherited : Bool) (fuel : ℕ) (bytes : Bytes)
      (c : Collector Hash) where
    module _ (stop : Error) where
      read_tree_finished :
          next_in_stream g size (record { bytes = bytes; stop = stop }) ≡ finished
          → read_tree g f size inherited stop (suc fuel) bytes c ≡ (c, none)
      unfolding read_tree
      read_tree_finished i = rw (read_tree, i)

      read_tree_failed :
          {x : Error}
          → next_in_stream g size (record { bytes = bytes; stop = stop }) ≡ failed x
          → read_tree g f size inherited stop (suc fuel) bytes c ≡ (c, some x)
      unfolding read_tree
      read_tree_failed i = rw (read_tree, i)

      read_tree-entry :
          {m : FileMode} {name : Bytes} {oid : Hash} {rest : Bytes}
          → next_in_stream g size (record { bytes = bytes; stop = stop }) ≡ entry m name oid rest
          → read_tree g f size inherited stop (suc fuel) bytes c
            ≡ and_then
                (visit_entry g f inherited m name oid c)
                (λ k. read_tree g f size inherited stop fuel rest k)
      unfolding read_tree
      read_tree-entry i = rw (read_tree, i)

  read_tree-Refines :
      (f f' : Collects) (size : ℕ) (inherited : Bool) (stop : Error) (fuel : ℕ) (bytes : Bytes)
      (c c' : Collector Hash)
      → Refines f f'
      → read_tree g f size inherited stop fuel bytes c ≡ (c', none)
      → write_tree (in_memory_library g) f' size inherited fuel bytes c ≡ (c', none)
  unfolding and_then
  read_tree-Refines f f' size inherited stop zero bytes c c' r h = unfold read_tree in cc
  read_tree-Refines f f' size inherited stop (suc fuel) bytes c c' r h =
      elim (Item-cases (next_in_stream g size (record { bytes = bytes; stop = stop }))) [
        | inl i ↦ rw (next_in_stream-finished g size (record { bytes = bytes; stop = stop }) i) (
            write_tree_finished (in_memory_library g) f' size inherited fuel [] c
              (unfold next_in_memory in refl)
            ∙ sym (read_tree_finished f size inherited fuel bytes c stop i)
            ∙ h)
        | inr (inl (x, i)) ↦ cc (read_tree_failed f size inherited fuel bytes c stop i)
        | inr (inr (m, name, oid, rest, i)) ↦
            let (mid, entered, more) =
              and_then-none (visit_entry g f inherited m name oid c)
                (λ k. read_tree g f size inherited stop fuel rest k)
                (sym (read_tree-entry f size inherited fuel bytes c stop i) ∙ h) in
            write_tree-entry (in_memory_library g) f' size inherited fuel bytes c (
              next_in_memory_library size bytes
              ∙ next_in_stream-memory g size (record { bytes = bytes; stop = stop }) m name oid rest
                  i)
            ∙ ap
                (λ k.
                  and_then k (λ q. write_tree (in_memory_library g) f' size inherited fuel rest q))
                (visit_entry-Refines f f' inherited m name oid c mid r entered)
            ∙ read_tree-Refines f f' size inherited stop fuel rest mid c' r more
      ]

  write_tree-Refines :
      (f f' : Collects) (size : ℕ) (inherited : Bool) (fuel : ℕ) (bytes : Bytes)
      (c c' : Collector Hash)
      → Refines f f'
      → write_tree g f size inherited fuel bytes c ≡ (c', none)
      → write_tree (in_memory_library g) f' size inherited fuel bytes c ≡ (c', none)
  unfolding and_then
  write_tree-Refines f f' size inherited zero bytes c c' r h = unfold write_tree in cc
  write_tree-Refines f f' size inherited (suc fuel) bytes c c' r h =
      let i' = next_in_memory_library size bytes in
      elim (Item-cases (next_in_memory g size bytes)) [
        | inl i ↦
            write_tree_finished (in_memory_library g) f' size inherited fuel bytes c (i' ∙ i)
            ∙ sym (write_tree_finished g f size inherited fuel bytes c i)
            ∙ h
        | inr (inl (x, i)) ↦ cc (write_tree_failed g f size inherited fuel bytes c i)
        | inr (inr (m, name, oid, rest, i)) ↦
            let (mid, entered, more) =
              and_then-none (visit_entry g f inherited m name oid c)
                (λ k. write_tree g f size inherited fuel rest k)
                (sym (write_tree-entry g f size inherited fuel bytes c i) ∙ h) in
            write_tree-entry (in_memory_library g) f' size inherited fuel bytes c (i' ∙ i)
            ∙ ap
                (λ k.
                  and_then k (λ q. write_tree (in_memory_library g) f' size inherited fuel rest q))
                (visit_entry-Refines f f' inherited m name oid c mid r entered)
            ∙ write_tree-Refines f f' size inherited fuel rest mid c' r more
      ]

  collect_object-Refines :
      (f f' : Collects) (size : ℕ) (inherited : Bool) (o : Object) (c c' : Collector Hash)
      → Refines f f'
      → collect_object g f size inherited o c ≡ (c', none)
      → collect_object (in_memory_library g) f' size inherited (as_memory o) c ≡ (c', none)
  unfolding collect_object
  collect_object-Refines f f' size inherited o c c' r h =
      let fuel = suc (length o.content) in
      ground (
        arith,
        write_tree-Refines f f' size inherited fuel o.content c c' r,
        read_tree-Refines f f' size inherited o.stop fuel o.content c c' r,
        close_reader-none o.close_error (read_tree g f size inherited o.stop fuel o.content c)
            {c = c'},
      )

  -- A collection that succeeds collects the same if every object is held in memory: the two ways to
  -- read a tree agree.
  pub collect_legal_tree-Refines :
      (fuel : ℕ) (h : Hash) (inherited : Bool) (c c' : Collector Hash)
      → collect_legal_tree g fuel h inherited c ≡ (c', none)
      → collect_legal_tree (in_memory_library g) fuel h inherited c ≡ (c', none)
  unfolding collect_legal_tree
  collect_legal_tree-Refines zero h inherited c c' r = cc
  collect_legal_tree-Refines (suc fuel) h inherited c c' r =
      let f = collect_legal_tree g fuel in
      let f' = collect_legal_tree (in_memory_library g) fuel in
      elim (Bool-cases (claim h inherited c).1) [
        | inr old ↦ ground arith
        | inl new ↦ elim (Result-cases (g.load h)) [
          | inr (x, l) ↦ ground arith
          | inl (o, l) ↦ ground (
            arith,
            collect_object-Refines f f' (g.size h) inherited o (claim h inherited c).0 c'
                (collect_legal_tree-Refines fuel),
          )
        ]
      ]
