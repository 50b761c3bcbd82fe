-- ===== src/Links/Streamed.antt =====
-- The two ways to read a commit, from memory and from a buffered reader.
use git_spdx.Common.{
  ℕ, zero, suc, ◌≤◌, ◌<◌, ◌≡◌, ◌⊎◌, inl, inr, refl, sym, ap, ◌∙◌, Bool, true, false, Option, none,
  some, List, [], ◌∷◌, Bytes, cut, cut_splits, length, length-append, Error, Result, ok, err,
  wrapped, ◌>>=◌, >>=-eq-ok, arith, Option-cases, Result-cases,
}
use git_spdx.Tree.{Object, Library}
use git_spdx.Tree.Streamed.{as_memory, in_memory_library}
use git_spdx.Links.{
  Line, line, last, broken, read_line, cut_line, tree_header, parent_header, write_parents, keep,
  write_links, read_parents, read_links, close_links, object_links, read_commit,
}

Line-cases :
    (l : Line)
    → ((s : Bytes) × (rest : Bytes) × (l ≡ line s rest))
      ⊎ ((s : Bytes) × (l ≡ last s))
      ⊎ ((x : Error) × (l ≡ broken x))
Line-cases (line s rest) = inl (s, rest, refl)
Line-cases (last s) = inr (inl (s, refl))
Line-cases (broken x) = inr (inr (x, refl))

-- A line that the reader gives is the one that the cut gives, and it takes a byte at least.
read_line-line :
    (bytes : Bytes) (stop : Error) (s rest : Bytes)
    → read_line bytes stop ≡ line s rest
    → (cut_line bytes ≡ (s, rest)) × (length rest < length bytes)
unfolding read_line cut_line
read_line-line bytes stop s rest e = elim (Option-cases (cut b'\n' bytes)) [
  | inl c ↦ ground arith
  | inr ((front, back), c) ↦
      let split = cut_splits b'\n' bytes front back c in
      ground (arith, ap length split, length-append front (b'\n' ∷ back))
]

read_line-last :
    (bytes : Bytes) (stop : Error) (s : Bytes)
    → read_line bytes stop ≡ last s
    → (cut_line bytes ≡ (s, [])) × (0 < length bytes)
unfolding read_line cut_line
read_line-last bytes stop s e = elim (Option-cases (cut b'\n' bytes)) [
  | inl c ↦ ground arith
  | inr ((front, back), c) ↦ ground arith
]

Option-Result-cases {ℓ} :
    {A : Type ℓ} (o : Option (Result A))
    → (o ≡ none) ⊎ ((x : Error) × (o ≡ some (err x))) ⊎ ((v : A) × (o ≡ some (ok v)))
Option-Result-cases none = inl refl
Option-Result-cases (some (err x)) = inr (inl (x, refl))
Option-Result-cases (some (ok v)) = inr (inr (v, refl))

module _ {Hash : Type 0} (from_bytes : Bytes → Option Hash) where
  -- One round of the writer's loop on a text that is not empty.
  write_parents_stop :
      (size fuel : ℕ) (bytes : Bytes) {s next : Bytes}
      → 0 < length bytes
      → cut_line bytes ≡ (s, next)
      → parent_header from_bytes size s ≡ none
      → write_parents from_bytes size (suc fuel) bytes ≡ ok []
  unfolding write_parents
  write_parents_stop size fuel [] p c i = absurd (omega arith)
  write_parents_stop size fuel (b ∷ bs) p c i = rw (write_parents, c) (rw i)

  write_parents_more :
      (size fuel : ℕ) (bytes : Bytes) {s next : Bytes} {h : Hash}
      → 0 < length bytes
      → cut_line bytes ≡ (s, next)
      → parent_header from_bytes size s ≡ some (ok h)
      → write_parents from_bytes size (suc fuel) bytes
        ≡ (write_parents from_bytes size fuel next >>= λ hs. ok (h ∷ hs))
  unfolding write_parents
  write_parents_more size fuel [] p c i = absurd (omega arith)
  write_parents_more size fuel (b ∷ bs) p c i = rw (write_parents, c) (rw i (rw c))

  write_parents_done : (size fuel : ℕ) → 0 < fuel → write_parents from_bytes size fuel [] ≡ ok []
  unfolding write_parents
  write_parents_done size zero f = absurd (omega arith)
  write_parents_done size (suc fuel) f = refl

  module _ (size fuel : ℕ) (bytes : Bytes) (stop : Error) where
    read_parents_broken :
        {x : Error}
        → read_line bytes stop ≡ broken x
        → read_parents from_bytes size (suc fuel) bytes stop ≡ err (wrapped x)
    unfolding read_parents
    read_parents_broken l = rw (read_parents, l)

    read_parents_last :
        {s : Bytes} {h : Hash}
        → read_line bytes stop ≡ last s
        → parent_header from_bytes size s ≡ some (ok h)
        → read_parents from_bytes size (suc fuel) bytes stop ≡ ok (h ∷ [])
    unfolding read_parents
    read_parents_last l i = rw (read_parents, l) (rw i)

    read_parents_more :
        {s rest : Bytes} {h : Hash}
        → read_line bytes stop ≡ line s rest
        → parent_header from_bytes size s ≡ some (ok h)
        → read_parents from_bytes size (suc fuel) bytes stop
          ≡ (read_parents from_bytes size fuel rest stop >>= λ hs. ok (h ∷ hs))
    unfolding read_parents
    read_parents_more l i = rw (read_parents, l) (rw i)

    -- A line that is no parent ends the loop, and a wrong one is its error.
    read_parents_stop :
        {s : Bytes}
        → (read_line bytes stop ≡ last s) ⊎ ((rest : Bytes) × (read_line bytes stop ≡ line s rest))
        → parent_header from_bytes size s ≡ none
        → read_parents from_bytes size (suc fuel) bytes stop ≡ ok []
    unfolding read_parents
    read_parents_stop (inl l) i = rw (read_parents, l) (rw i)
    read_parents_stop (inr (rest, l)) i = rw (read_parents, l) (rw i)

    read_parents_wrong :
        {s : Bytes} {x : Error}
        → (read_line bytes stop ≡ last s) ⊎ ((rest : Bytes) × (read_line bytes stop ≡ line s rest))
        → parent_header from_bytes size s ≡ some (err x)
        → read_parents from_bytes size (suc fuel) bytes stop ≡ err x
    unfolding read_parents
    read_parents_wrong (inl l) i = rw (read_parents, l) (rw i)
    read_parents_wrong (inr (rest, l)) i = rw (read_parents, l) (rw i)

  -- Parents that the reader finds are found in memory too, with no fewer rounds.
  read_parents-memory :
      (size fuel fuel' : ℕ) (bytes : Bytes) (stop : Error) (hs : List Hash)
      → length bytes < fuel'
      → read_parents from_bytes size fuel bytes stop ≡ ok hs
      → write_parents from_bytes size fuel' bytes ≡ ok hs
  read_parents-memory size fuel zero bytes stop hs f e = absurd (omega arith)
  read_parents-memory size zero (suc fuel') bytes stop hs f e = unfold read_parents in cc
  read_parents-memory size (suc fuel) (suc fuel') bytes stop hs f e =
      elim (Line-cases (read_line bytes stop)) [
        | inr (inr (x, l)) ↦ cc (read_parents_broken size fuel bytes stop l)
        | inr (inl (s, l)) ↦
            let (c, p) = read_line-last bytes stop s l in
            elim (Option-Result-cases (parent_header from_bytes size s)) [
              | inl i ↦
                  write_parents_stop size fuel' bytes p c i
                  ∙ sym (read_parents_stop size fuel bytes stop (inl l) i)
                  ∙ e
              | inr (inl (x, i)) ↦ cc (read_parents_wrong size fuel bytes stop (inl l) i)
              | inr (inr (h, i)) ↦
                  write_parents_more size fuel' bytes p c i
                  ∙ ap (λ q. q >>= λ hs. ok (h ∷ hs)) (write_parents_done size fuel' (omega arith))
                  ∙ sym (read_parents_last size fuel bytes stop l i)
                  ∙ e
            ]
        | inl (s, rest, l) ↦
            let (c, p) = read_line-line bytes stop s rest l in
            elim (Option-Result-cases (parent_header from_bytes size s)) [
              | inl i ↦
                  write_parents_stop size fuel' bytes (omega arith) c i
                  ∙ sym (read_parents_stop size fuel bytes stop (inr (rest, l)) i)
                  ∙ e
              | inr (inl (x, i)) ↦ cc (read_parents_wrong size fuel bytes stop (inr (rest, l)) i)
              | inr (inr (h, i)) ↦
                  let (more, found, tail) =
                    >>=-eq-ok (read_parents from_bytes size fuel rest stop) (λ hs. ok (h ∷ hs))
                      (sym (read_parents_more size fuel bytes stop l i) ∙ e) in
                  write_parents_more size fuel' bytes (omega arith) c i
                  ∙ ap (λ q. q >>= λ hs. ok (h ∷ hs))
                      (read_parents-memory size fuel fuel' rest stop more (omega arith) found)
                  ∙ tail
            ]
      ]

  -- What `write_links` does with the first line and what is behind it.
  write_links_cut :
      (size : ℕ) (included : Bool) (content : Bytes) {s next : Bytes} {tree : Hash} {hs : List Hash}
      → length next ≤ length content
      → cut_line content ≡ (s, next)
      → tree_header from_bytes size s ≡ ok tree
      → write_parents from_bytes size (suc (length content)) next ≡ ok hs
      → write_links from_bytes size included content ≡ ok (tree, keep included hs)
  unfolding write_links
  write_links_cut size included content n c t w = rw (write_links, c, t, w)

  keep_none : (included : Bool) → keep {Hash = Hash} included [] ≡ []
  keep_none true = refl
  keep_none false = refl

  module _ (size : ℕ) (included : Bool) (bytes : Bytes) (stop : Error) where
    read_links_broken :
        {x : Error}
        → read_line bytes stop ≡ broken x
        → read_links from_bytes size included bytes stop ≡ err (wrapped x)
    unfolding read_links
    read_links_broken l = rw (read_links, l)

    read_links_last :
        {s : Bytes}
        → read_line bytes stop ≡ last s
        → read_links from_bytes size included bytes stop
          ≡ (tree_header from_bytes size s >>= λ tree. ok (tree, []))
    unfolding read_links
    read_links_last l = rw (read_links, l)

    read_links_more :
        {s rest : Bytes}
        → read_line bytes stop ≡ line s rest
        → read_links from_bytes size included bytes stop ≡ (
            tree_header from_bytes size s >>= λ tree.
            read_parents from_bytes size (suc (length rest)) rest stop >>= λ hs.
            ok (tree, keep included hs))
    unfolding read_links
    read_links_more l = rw (read_links, l)

  read_links-memory :
      (size : ℕ) (included : Bool) (bytes : Bytes) (stop : Error) (v : Hash × List Hash)
      → read_links from_bytes size included bytes stop ≡ ok v
      → write_links from_bytes size included bytes ≡ ok v
  read_links-memory size included bytes stop v e = elim (Line-cases (read_line bytes stop)) [
    | inr (inr (x, l)) ↦ cc (read_links_broken size included bytes stop l)
    | inr (inl (s, l)) ↦
        let (c, p) = read_line-last bytes stop s l in
        let (tree, t, tail) =
          >>=-eq-ok (tree_header from_bytes size s) (λ tree. ok (tree, []))
            (sym (read_links_last size included bytes stop l) ∙ e) in
        write_links_cut size included bytes (omega arith) c t
          (write_parents_done size (suc (length bytes)) (omega arith))
        ∙ ap (λ hs. ok (tree, hs)) (keep_none included)
        ∙ tail
    | inl (s, rest, l) ↦
        let (c, p) = read_line-line bytes stop s rest l in
        let (tree, t, more) =
          >>=-eq-ok (tree_header from_bytes size s)
            (λ tree. read_parents from_bytes size (suc (length rest)) rest stop >>= λ hs.
              ok (tree, keep included hs))
            (sym (read_links_more size included bytes stop l) ∙ e) in
        let (hs, found, tail) =
          >>=-eq-ok (read_parents from_bytes size (suc (length rest)) rest stop)
            (λ hs. ok (tree, keep included hs)) more in
        write_links_cut size included bytes (omega arith) c t (
          read_parents-memory size (suc (length rest)) (suc (length bytes)) rest stop hs
            (omega arith) found)
        ∙ tail
  ]

  close_links-ok :
      (closing : Option Error) (r : Result (Hash × List Hash)) (v : Hash × List Hash)
      → close_links closing r ≡ ok v
      → r ≡ ok v
  unfolding close_links
  close_links-ok closing (err x) v e = cc
  close_links-ok none (ok w) v e = e
  close_links-ok (some x) (ok w) v e = cc

  object_links-memory :
      (size : ℕ) (included : Bool) (o : Object) (v : Hash × List Hash)
      → object_links from_bytes size included o ≡ ok v
      → object_links from_bytes size included (as_memory o) ≡ ok v
  unfolding object_links
  object_links-memory size included o v e = ground (
    arith,
    read_links-memory size included o.content o.stop v,
    close_links-ok o.close_error (read_links from_bytes size included o.content o.stop) v,
  )

-- A commit that is read is read the same if every object is held in memory: the two ways to read a
-- commit agree.
pub read_commit-memory :
    {Hash : Type 0} (g : Library Hash) (h : Hash) (included : Bool) (v : Hash × List Hash)
    → read_commit g h included ≡ ok v
    → read_commit (in_memory_library g) h included ≡ ok v
unfolding read_commit
read_commit-memory g h included v e = elim (Result-cases (g.load h)) [
  | inr (x, l) ↦ ground arith
  | inl (o, l) ↦ ground (arith, object_links-memory g.from_bytes (g.size h) included o v)
]
