-- ===== src/Collect/Safe.antt =====
-- Parallel collections over trees that can be read.
use git_spdx.Common.{
  ℕ, ◌<◌, ◌≡◌, inl, inr, ◌↔◌, refl, sym, Bool, true, false, Option, none, some, List, [], ◌∷◌, ◌++◌,
  Bytes, bytes_eq, Eq, Error, Result, ok, err, Bool-cases,
}
use git_spdx.Common.Member.{Member, Member-append}
use git_spdx.Tree.{
  FileMode, dir, regular, deprecated, executable, symlink, submodule, other_mode, Library,
  Collector, claim, is_claimed,
}
use git_spdx.Collect.{
  Entry, entries_of, Todo, tree, entries, work_entry, claimed_tasks, work, Worker, idle, busy, gone,
  State, start, Step, take_tree, fill_batch, walk_fails, end_batch, end_empty, send_batch,
  stop_sending, receive, do_task, fail_task, finish_batch, leave_closed, leave_cancelled, Run, here,
  next, outcome,
}
use git_spdx.Collect.Cover.{Stored, claim-old, claim-new}
use git_spdx.Collect.Blobs.{Key, at_top, below, IsLegalBlob}
use git_spdx.Collect.Held.{
  InWorker, HeldIn, HeldBy, Held-take, Held-send, Held-receive, Held-replace, Held-worker,
}
use git_spdx.Collect.Invariant.{calls-origin, idle-InWorkers}
use git_spdx.Collect.Ends.{IsDone, Run-IsLegalBlob}
use mathlib.Core.Path.{subst}

abbrev pub is_known : FileMode → Bool
is_known (other_mode m) = false
is_known _ = true

module _ {Hash : Type 0} ⦃e : Eq Hash⦄ (g : Library Hash) where
  -- The tree can be read to its end, and its modes are known.
  pub record IsReadable (h : Hash) : Type 0 where
    pub no_error : (entries_of g h).1 ≡ none
    pub known : (x : Entry Hash) → Member x (entries_of g h).0 → is_known x.mode ≡ true

module _ {Hash : Type 0} ⦃e : Eq Hash⦄ (g : Library Hash) (Top : Hash → Type 0)
    (readable : (h : Hash) (b : Bool) → Key g Top h b → IsReadable g h) where
  abbrev IsFine : Todo Hash → Type 0
  IsFine (tree h b) = Key g Top h b
  IsFine (entries b xs stop) =
      (h : Hash) × Key g Top h b
      × (stop ≡ none)
      × ((x : Entry Hash) → Member x xs → Member x (entries_of g h).0)

  -- No error, and the new tasks are as good.
  abbrev Succeeds : Collector Hash × Result (List (Todo Hash)) → Type 0
  Succeeds (d, err x) = ⊥
  Succeeds (d, ok new) = (u : Todo Hash) → Member u new → IsFine u

  one-IsFine : (t : Todo Hash) → IsFine t → (u : Todo Hash) → Member u (t ∷ []) → IsFine u
  one-IsFine t i u (inl same) = subst IsFine same i
  one-IsFine t i u (inr m) = absurd m

  tree-Succeeds :
      (h : Hash) (b : Bool) (c : Collector Hash)
      → Key g Top h b
      → Succeeds ((claim h b c).0, ok (claimed_tasks g h b (claim h b c).1))
  tree-Succeeds h b c key = elim (Bool-cases (is_claimed h b c.seen)) [
    | inl old ↦
        subst (λ o. Succeeds (o.0, ok (claimed_tasks g h b o.1))) (sym (claim-old h b c old))
          (λ u m. absurd m)
    | inr fresh ↦
        subst (λ o. Succeeds (o.0, ok (claimed_tasks g h b o.1))) (sym (claim-new h b c fresh))
          (one-IsFine _ (h, key, (readable h b key).no_error, λ x m. m))
  ]

  module _ (name : Bytes) (oid h : Hash) (b : Bool) (ys : List (Entry Hash)) (c : Collector Hash)
      (key : Key g Top h b) where
    abbrev of_mode : FileMode → Entry Hash
    of_mode mode = record { mode = mode; name = name; oid = oid }

    abbrev Lists : FileMode → Type 0
    Lists mode = (x : Entry Hash) → Member x (of_mode mode ∷ ys) → Member x (entries_of g h).0

    rest-IsFine : (mode : FileMode) → Lists mode → IsFine (entries b ys none)
    rest-IsFine mode all = (h, key, refl, λ x m. all x (inr m))

    entry-Succeeds :
        (mode : FileMode)
        → Lists mode
        → is_known mode ≡ true
        → Succeeds (work_entry g mode name oid b (entries b ys none) c)
    unfolding work_entry
    entry-Succeeds dir all known = λ u m. elim m [
      | inl same ↦ subst IsFine same (below (of_mode dir) key (all _ (inl refl)) refl)
      | inr rest ↦ one-IsFine _ (rest-IsFine dir all) u rest
    ]
    entry-Succeeds symlink all known = one-IsFine _ (rest-IsFine symlink all)
    entry-Succeeds submodule all known = one-IsFine _ (rest-IsFine submodule all)
    entry-Succeeds (other_mode m) all known = cc known
    entry-Succeeds regular all known = one-IsFine _ (rest-IsFine regular all)
    entry-Succeeds deprecated all known = one-IsFine _ (rest-IsFine deprecated all)
    entry-Succeeds executable all known = one-IsFine _ (rest-IsFine executable all)

  work-Succeeds : (t : Todo Hash) (c : Collector Hash) → IsFine t → Succeeds (work g t c)
  unfolding work
  work-Succeeds (tree h b) c key = tree-Succeeds h b c key
  work-Succeeds (entries b [] none) c i = λ u m. absurd m
  work-Succeeds (entries b [] (some x)) c (h, key, no_error, all) = cc no_error
  work-Succeeds (entries b (y ∷ ys) none) c (h, key, no_error, all) =
      entry-Succeeds y.name y.oid h b ys c key y.mode all
        ((readable h b key).known y (all y (inl refl)))
  work-Succeeds (entries b (y ∷ ys) (some x)) c (h, key, no_error, all) = absurd (cc no_error)

  -- No error so far, and no task that would meet one.
  record IsSafe (walk_end : Option Error) (s : State Hash) : Type 0 where
    no_first : s.first_error ≡ none
    no_walk : walk_end ≡ none → s.walk_error ≡ none
    tasks : (u : Todo Hash) → HeldBy u s → IsFine u

  module _ (walk_end : Option Error) where
    -- A worker changes its tasks.
    turn-IsSafe :
        (s : State Hash) (front back : List (Worker Hash)) (v w : Worker Hash) (d : Collector Hash)
        → s.workers ≡ front ++ v ∷ back
        → ((u : Todo Hash) → InWorker u w → IsFine u)
        → IsSafe walk_end s
        → IsSafe walk_end (record s { workers = front ++ w ∷ back; collector = d })
    turn-IsSafe s front back v w d p fine i = record {
      no_first = i.no_first;
      no_walk = i.no_walk;
      tasks = λ u m.
          elim (Held-replace u (record s { workers = front ++ w ∷ back }) front back w v refl m) [
            | inl now ↦ fine u now
            | inr older ↦ i.tasks u (subst (HeldIn u s.upcoming s.batch s.queue) (sym p) older)
          ];
    }

    -- The task that a worker does next.
    next-IsFine :
        (s : State Hash) (t : Todo Hash) (ts : List (Todo Hash)) (front back : List (Worker Hash))
        → s.workers ≡ front ++ busy (t ∷ ts) ∷ back
        → IsSafe walk_end s
        → (u : Todo Hash) → Member u (t ∷ ts)
        → IsFine u
    next-IsFine s t ts front back p i u m = i.tasks u (
        subst (HeldIn u s.upcoming s.batch s.queue) (sym p)
          (Held-worker u s front back (busy (t ∷ ts)) m))

    Step-IsSafe : {s t : State Hash} → Step g walk_end s t → IsSafe walk_end s → IsSafe walk_end t
    Step-IsSafe {s} (take_tree h hs p r l) i = record {
      no_first = i.no_first;
      no_walk = i.no_walk;
      tasks = λ u m. i.tasks u ((Held-take u s r).1 m);
    }
    Step-IsSafe {s} (fill_batch h hs p r l) i = record {
      no_first = i.no_first;
      no_walk = i.no_walk;
      tasks = λ u m. i.tasks u ((Held-take u s r).1 m);
    }
    Step-IsSafe (walk_fails x p r w) i = record {
      no_first = i.no_first;
      no_walk = λ q. absurd (cc (q, w));
      tasks = i.tasks;
    }
    Step-IsSafe (end_batch p r w l) i = record {
      no_first = i.no_first;
      no_walk = i.no_walk;
      tasks = i.tasks;
    }
    Step-IsSafe (end_empty p r w l) i = record {
      no_first = i.no_first;
      no_walk = i.no_walk;
      tasks = i.tasks;
    }
    Step-IsSafe {s} (send_batch last p l) i = record {
      no_first = i.no_first;
      no_walk = i.no_walk;
      tasks = λ u m. i.tasks u ((Held-send u s).1 m);
    }
    Step-IsSafe (stop_sending last x p f) i = absurd (cc (f, i.no_first))
    Step-IsSafe {s} (receive b queue front back p r) i = record {
      no_first = i.no_first;
      no_walk = i.no_walk;
      tasks = λ u m. i.tasks u ((Held-receive u s front back p r).1 m);
    }
    Step-IsSafe {s} (do_task t ts new d front back p q) i =
        let fine = next-IsFine s t ts front back p i in
        let fresh = subst Succeeds q (work-Succeeds t s.collector (fine t (inl refl))) in
        turn-IsSafe s front back (busy (t ∷ ts)) (busy (new ++ ts)) d p
          (λ u m. elim (Member-append u new ts m) [ inl a ↦ fresh u a | inr b ↦ fine u (inr b) ]) i
    Step-IsSafe {s} (fail_task t ts x d front back p q) i = absurd (
        subst Succeeds q
          (work-Succeeds t s.collector (next-IsFine s t ts front back p i t (inl refl))))
    Step-IsSafe {s} (finish_batch front back p) i =
        turn-IsSafe s front back (busy []) idle s.collector p (λ u m. absurd m) i
    Step-IsSafe {s} (leave_closed front back p q r) i =
        turn-IsSafe s front back idle gone s.collector r (λ u m. absurd m) i
    Step-IsSafe {s} (leave_cancelled x front back f r) i =
        turn-IsSafe s front back idle gone s.collector r (λ u m. absurd m) i

    Run-IsSafe : {s t : State Hash} → Run g walk_end s t → IsSafe walk_end s → IsSafe walk_end t
    Run-IsSafe here i = i
    Run-IsSafe (next r step) i = Step-IsSafe step (Run-IsSafe r i)

  start-IsSafe :
      (walk_end : Option Error) (count : ℕ) (trees : List Hash)
      → ((h : Hash) → Top h ↔ Member h trees)
      → IsSafe walk_end (start count trees)
  unfolding start
  start-IsSafe walk_end count trees top = record {
    no_first = refl;
    no_walk = λ q. refl;
    tasks = λ u m. elim m [
      | inl call ↦
          let (h, m', same) = calls-origin trees u call in subst IsFine same (at_top ((top h).1 m'))
      | inr (inl z) ↦ absurd z
      | inr (inr (inl z)) ↦ absurd z
      | inr (inr (inr w)) ↦ absurd (idle-InWorkers u count w)
    ];
  }

  -- If the trees of the walk and the trees below them can be read and have known modes, and the walk
  -- has no error, then a collection that has come to its end has no error either, however its workers
  -- took turns, and holds the legal blobs of these trees and no other.
  pub Run-Stored :
      (count : ℕ) (trees : List Hash) (s : State Hash)
      → 0 < count
      → ((h : Hash) → Top h ↔ Member h trees)
      → Run g none (start count trees) s
      → IsDone s
      → (outcome s ≡ none) × ((text : Bytes) → Stored s.collector text ↔ IsLegalBlob g Top text)
  unfolding outcome
  Run-Stored count trees s l top r done =
      let safe = Run-IsSafe none r (start-IsSafe none count trees top) in
      let no_error : outcome s ≡ none = rw (safe.no_walk refl) safe.no_first in
      (no_error, (Run-IsLegalBlob g none Top count trees s l top r done no_error).1)
