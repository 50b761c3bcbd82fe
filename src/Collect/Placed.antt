-- ===== src/Collect/Placed.antt =====
-- Where the parts of the parallel collection stand: what the walk has left when `tasks` is closed, and
-- when a worker leaves.
use git_spdx.Common.{
  ℕ, zero, suc, ◌<◌, ◌≡◌, ◌≢◌, inl, inr, refl, sym, true, false, Option, none, List, [], ◌∷◌, ◌++◌,
  length, Eq, Error, replicate, arith,
}
use git_spdx.Common.Member.{Member, other-middle, middle-≢}
use git_spdx.Tree.{Library}
use git_spdx.Collect.{
  walking, sending, closed, legal_tree_batch_size, calls, Worker, idle, busy, gone, State, start,
  Step, take_tree, fill_batch, walk_fails, end_batch, end_empty, send_batch, stop_sending, receive,
  do_task, fail_task, finish_batch, leave_closed, leave_cancelled, Run, here, next,
}
use git_spdx.Collect.Invariant.{keep_first-some}
use mathlib.Core.Path.{subst}

length-snoc : {A : Type 0} (xs : List A) (x : A) → length (xs ++ (x ∷ [])) ≡ suc (length xs)
unfolding length
length-snoc [] x = refl
length-snoc (y ∷ xs) x = ground (arith, length-snoc xs x)

no_gone : (Hash : Type 0) (count : ℕ) → ¬ Member {A = Worker Hash} gone (replicate count idle)
unfolding replicate
no_gone Hash zero m = m
no_gone Hash (suc count) (inl same) = cc same
no_gone Hash (suc count) (inr m) = no_gone Hash count m

module _ {Hash : Type 0} ⦃e : Eq Hash⦄ (g : Library Hash) (walk_end : Option Error) where
  pub record Placed (s : State Hash) : Type 0 where
    pub at_close :
        s.phase ≡ closed
        → s.walk_error ≡ none
        → (s.upcoming ≡ []) × (s.batch ≡ []) × (walk_end ≡ none)
    pub at_last : s.phase ≡ sending true → (s.upcoming ≡ []) × (walk_end ≡ none)
    pub at_leave :
        s.first_error ≡ none → Member gone s.workers → (s.phase ≡ closed) × (s.queue ≡ [])
    pub some_workers : s.workers ≢ []
    pub has_room : s.phase ≡ walking → length s.batch < legal_tree_batch_size

  -- One worker is replaced, and none leaves.
  turn-Placed :
      (s : State Hash) (front back : List (Worker Hash)) (v w : Worker Hash)
      → s.workers ≡ front ++ v ∷ back
      → w ≢ gone
      → Placed s
      → Placed (record s { workers = front ++ w ∷ back })
  turn-Placed s front back v w p stays i = record {
    at_close = i.at_close;
    at_last = i.at_last;
    at_leave = λ none_yet m.
        i.at_leave none_yet
          (subst (Member gone) (sym p) (other-middle gone front v w back stays m));
    some_workers = middle-≢ front w back;
    has_room = i.has_room;
  }

  Step-Placed : {s t : State Hash} → Step g walk_end s t → Placed s → Placed t
  Step-Placed {s} (take_tree h hs p r l) i = record {
    at_close = λ q. absurd (cc (p, q));
    at_last = λ q. absurd (cc (p, q));
    at_leave = λ none_yet m. absurd (cc (p, (i.at_leave none_yet m).0));
    some_workers = i.some_workers;
    has_room = λ q. ground (arith, length-snoc s.batch h, l);
  }
  Step-Placed {s} (fill_batch h hs p r l) i = record {
    at_close = λ q. absurd (cc q);
    at_last = λ q. absurd (cc q);
    at_leave = λ none_yet m. absurd (cc (p, (i.at_leave none_yet m).0));
    some_workers = i.some_workers;
    has_room = λ q. absurd (cc q);
  }
  Step-Placed (walk_fails x p r w) i = record {
    at_close = λ q none_yet. absurd (cc none_yet);
    at_last = λ q. absurd (cc q);
    at_leave = λ none_yet m. absurd (cc (p, (i.at_leave none_yet m).0));
    some_workers = i.some_workers;
    has_room = λ q. absurd (cc q);
  }
  Step-Placed (end_batch p r w l) i = record {
    at_close = λ q. absurd (cc q);
    at_last = λ q. (r, w);
    at_leave = λ none_yet m. absurd (cc (p, (i.at_leave none_yet m).0));
    some_workers = i.some_workers;
    has_room = λ q. absurd (cc q);
  }
  Step-Placed (end_empty p r w l) i = record {
    at_close = λ q none_yet. (r, l, w);
    at_last = λ q. absurd (cc q);
    at_leave = λ none_yet m. absurd (cc (p, (i.at_leave none_yet m).0));
    some_workers = i.some_workers;
    has_room = λ q. absurd (cc q);
  }
  Step-Placed {s} (send_batch false p l) i = record {
    at_close = λ q. absurd (cc q);
    at_last = λ q. absurd (cc q);
    at_leave = λ none_yet m. absurd (cc (p, (i.at_leave none_yet m).0));
    some_workers = i.some_workers;
    has_room = λ q. unfold length in omega arith;
  }
  Step-Placed {s} (send_batch true p l) i = record {
    at_close = λ q none_yet. let (r, w) = i.at_last p in (r, refl, w);
    at_last = λ q. absurd (cc q);
    at_leave = λ none_yet m. absurd (cc (p, (i.at_leave none_yet m).0));
    some_workers = i.some_workers;
    has_room = λ q. absurd (cc q);
  }
  Step-Placed (stop_sending last x p f) i = record {
    at_close = λ q none_yet. absurd (cc none_yet);
    at_last = λ q. absurd (cc q);
    at_leave = λ none_yet m. absurd (cc (p, (i.at_leave none_yet m).0));
    some_workers = i.some_workers;
    has_room = λ q. absurd (cc q);
  }
  Step-Placed {s} (receive b queue front back p r) i = record {
    at_close = i.at_close;
    at_last = i.at_last;
    at_leave = λ none_yet m. absurd (
        cc (
          p,
          (i.at_leave none_yet (
              subst (Member gone) (sym r)
                (other-middle gone front idle (busy (calls b)) back (λ q. cc q) m))).1,
        ));
    some_workers = middle-≢ front _ back;
    has_room = i.has_room;
  }
  Step-Placed {s} (do_task t ts new d front back p q) i =
      let j = turn-Placed s front back _ (busy (new ++ ts)) p (λ z. cc z) i in
      record {
        at_close = j.at_close;
        at_last = j.at_last;
        at_leave = j.at_leave;
        some_workers = j.some_workers;
        has_room = j.has_room;
      }
  Step-Placed {s} (fail_task t ts x c front back p q) i = record {
    at_close = i.at_close;
    at_last = i.at_last;
    at_leave = λ none_yet m. absurd (keep_first-some s.first_error x none_yet);
    some_workers = middle-≢ front _ back;
    has_room = i.has_room;
  }
  Step-Placed {s} (finish_batch front back p) i =
      turn-Placed s front back (busy []) idle p (λ z. cc z) i
  Step-Placed {s} (leave_closed front back p q r) i = record {
    at_close = i.at_close;
    at_last = i.at_last;
    at_leave = λ none_yet m. (p, q);
    some_workers = middle-≢ front _ back;
    has_room = i.has_room;
  }
  Step-Placed {s} (leave_cancelled x front back f r) i = record {
    at_close = i.at_close;
    at_last = i.at_last;
    at_leave = λ none_yet m. absurd (cc (f, none_yet));
    some_workers = middle-≢ front _ back;
    has_room = i.has_room;
  }

  pub Run-Placed : {s t : State Hash} → Run g walk_end s t → Placed s → Placed t
  Run-Placed here i = i
  Run-Placed (next r step) i = Step-Placed step (Run-Placed r i)

  pub start-Placed : (count : ℕ) (trees : List Hash) → 0 < count → Placed (start count trees)
  unfolding start replicate length
  start-Placed zero trees l = absurd (omega arith)
  start-Placed (suc count) trees l = record {
    at_close = λ q. absurd (cc q);
    at_last = λ q. absurd (cc q);
    at_leave = λ none_yet m. absurd (no_gone Hash (suc count) m);
    some_workers = λ p. cc p;
    has_room = λ q. omega arith;
  }
