-- ===== src/Collect/Invariant.antt =====
-- What every state of the parallel collection keeps as long as no worker has failed: what the collector
-- holds comes from the walk, and with what is still to be done it covers the trees of the walk.
use git_spdx.Common.{
  ℕ, zero, suc, ◌≡◌, ◌≢◌, ◌⊎◌, inl, inr, ◌↔◌, refl, sym, false, Option, none, some, List, [], ◌∷◌,
  ◌++◌, Eq, Error, ok, replicate,
}
use git_spdx.Common.Member.{Member, Member-append, append-left, append-right}
use git_spdx.Tree.{Library, Collector}
use git_spdx.Collect.{
  Todo, tree, work, calls, Worker, idle, busy, gone, State, keep_first, start, Step, take_tree,
  fill_batch, walk_fails, end_batch, end_empty, send_batch, stop_sending, receive, do_task,
  fail_task, finish_batch, leave_closed, leave_cancelled, Run, here, next,
}
use git_spdx.Collect.Cover.{Claimed, Grows-same, Covered, Next, Covered-Next, start-Covered}
use git_spdx.Collect.Kept.{work-Next}
use git_spdx.Collect.Blobs.{IsTask, at_top, Sound, work-Sound, start-Sound}
use git_spdx.Collect.Held.{
  InWorker, InWorkers, HeldIn, HeldBy, Held-take, Held-send, Held-receive, Held-replace,
  Held-worker,
}
use mathlib.Core.Path.{subst}

-- A call is held exactly where its tree is.
calls-Member :
    {Hash : Type 0} (hs : List Hash) (h : Hash) → Member h hs → Member (tree h false) (calls hs)
calls-Member [] h m = absurd m
calls-Member (k ∷ hs) h (inl same) = inl (cc same)
calls-Member (k ∷ hs) h (inr m) = inr (calls-Member hs h m)

pub calls-origin :
    {Hash : Type 0} (hs : List Hash) (u : Todo Hash)
    → Member u (calls hs)
    → (h : Hash) × Member h hs × (tree h false ≡ u)
calls-origin [] u m = absurd m
calls-origin (k ∷ hs) u (inl same) = (k, inl refl, same)
calls-origin (k ∷ hs) u (inr m) = let (h, m', same) = calls-origin hs u m in (h, inr m', same)

pub idle-InWorkers :
    {Hash : Type 0} (u : Todo Hash) (count : ℕ) → ¬ InWorkers u (replicate count idle)
unfolding replicate
idle-InWorkers u zero m = m
idle-InWorkers u (suc count) (inl z) = z
idle-InWorkers u (suc count) (inr m) = idle-InWorkers u count m

-- Behind a failure there is a first error.
pub keep_first-some : (o : Option Error) (x : Error) → keep_first o x ≢ none
keep_first-some none x p = cc p
keep_first-some (some y) x p = cc p

module _ {Hash : Type 0} ⦃e : Eq Hash⦄ (g : Library Hash) (Top : Hash → Type 0) where
  -- The collector and what waits, where no worker has failed.
  pub record Holds (c : Collector Hash) (P : Todo Hash → Type 0) : Type 0 where
    pub sound : Sound g Top c
    pub covered : Covered g c P
    pub tasks : (u : Todo Hash) → P u → IsTask g Top u
    pub tops : (h : Hash) → Top h → Claimed c h false ⊎ P (tree h false)

  same-Next :
      (c : Collector Hash) (P Q : Todo Hash → Type 0)
      → ((u : Todo Hash) → P u → Q u)
      → Next g c P c Q
  same-Next c P Q f = record {
    grows = Grows-same c;
    new_keys = λ h b q. inl q;
    trees = λ h b p. inr (f _ p);
    waiting = λ b x (xs, stop, p, m). inl (xs, stop, f _ p, m);
  }

  -- What waits only moves.
  pub Holds-moved :
      (c : Collector Hash) (P Q : Todo Hash → Type 0)
      → ((u : Todo Hash) → P u ↔ Q u)
      → Holds c P
      → Holds c Q
  Holds-moved c P Q f i = record {
    sound = i.sound;
    covered = Covered-Next g (same-Next c P Q (λ u. (f u).0)) i.covered;
    tasks = λ u q. i.tasks u ((f u).1 q);
    tops = λ h top. elim (i.tops h top) [ inl claimed ↦ inl claimed | inr p ↦ inr ((f _).0 p) ];
  }

  module _ (s : State Hash) where
    abbrev Before : Type 0
    Before = Holds s.collector (λ u. HeldBy u s)

    -- A worker without tasks changes its state.
    turn-Holds :
        (front back : List (Worker Hash)) (v w : Worker Hash)
        → ((u : Todo Hash) → ¬ InWorker u v)
        → ((u : Todo Hash) → ¬ InWorker u w)
        → s.workers ≡ front ++ v ∷ back
        → Before
        → Holds s.collector (λ u. HeldIn u s.upcoming s.batch s.queue (front ++ w ∷ back))
    turn-Holds front back v w free still p i =
        let after = record s { workers = front ++ w ∷ back } in
        Holds-moved s.collector (λ u. HeldBy u s) (λ u. HeldBy u after)
          (λ u. (
            λ m. elim (Held-replace u s front back v w p m) [
              | inl now ↦ absurd (free u now)
              | inr later ↦ later
            ],
            λ m. elim (Held-replace u after front back w v refl m) [
              | inl now ↦ absurd (still u now)
              | inr later ↦ subst (HeldIn u s.upcoming s.batch s.queue) (sym p) later
            ],
          ))
          i

    work-Holds :
        (t : Todo Hash) (ts new : List (Todo Hash)) (d : Collector Hash)
        (front back : List (Worker Hash))
        → s.workers ≡ front ++ busy (t ∷ ts) ∷ back
        → work g t s.collector ≡ (d, ok new)
        → Before
        → Holds d (λ u. HeldIn u s.upcoming s.batch s.queue (front ++ busy (new ++ ts) ∷ back))
    work-Holds t ts new d front back p q i =
        let after = record s { workers = front ++ busy (new ++ ts) ∷ back } in
        let n =
          work-Next g (λ u. HeldBy u s) (λ u. HeldBy u after) t
            (λ u m. elim (Held-replace u s front back (busy (t ∷ ts)) (busy (new ++ ts)) p m) [
              | inl (inl same) ↦ inl same
              | inl (inr rest) ↦
                  inr (Held-worker u s front back (busy (new ++ ts)) (append-right u new ts rest))
              | inr later ↦ inr later
            ])
            s.collector q
            (λ u m. Held-worker u s front back (busy (new ++ ts)) (append-left u new ts m)) in
        let (sound, fresh) =
          work-Sound g Top t s.collector q (i.tasks t (held t (inl refl))) i.sound in
        record {
          sound = sound;
          covered = Covered-Next g n i.covered;
          tasks = λ u m.
              elim (Held-replace u after front back (busy (new ++ ts)) (busy (t ∷ ts)) refl m) [
                | inr older ↦ i.tasks u (subst (HeldIn u s.upcoming s.batch s.queue) (sym p) older)
                | inl now ↦ elim (Member-append u new ts now) [
                  | inl a ↦ fresh u a
                  | inr b ↦ i.tasks u (held u (inr b))
                ]
              ];
          tops = λ h top. elim (i.tops h top) [
            | inl claimed ↦ inl (n.grows.keys h false claimed)
            | inr m ↦ n.trees h false m
          ];
        }
      where
        held : (u : Todo Hash) → Member u (t ∷ ts) → HeldBy u s
        held u m =
            subst (HeldIn u s.upcoming s.batch s.queue) (sym p)
              (Held-worker u s front back (busy (t ∷ ts)) m)

  abbrev pub Unbroken : State Hash → Type 0
  Unbroken s = s.first_error ≡ none → Holds s.collector (λ u. HeldBy u s)

  module _ (walk_end : Option Error) where
    Step-Unbroken : {s t : State Hash} → Step g walk_end s t → Unbroken s → Unbroken t
    Step-Unbroken {s} (take_tree h hs p r l) i none_yet =
        Holds-moved s.collector _ _ (λ u. Held-take u s r) (i none_yet)
    Step-Unbroken {s} (fill_batch h hs p r l) i none_yet =
        Holds-moved s.collector _ _ (λ u. Held-take u s r) (i none_yet)
    Step-Unbroken (walk_fails x p r w) i none_yet = i none_yet
    Step-Unbroken (end_batch p r w l) i none_yet = i none_yet
    Step-Unbroken (end_empty p r w l) i none_yet = i none_yet
    Step-Unbroken {s} (send_batch last p l) i none_yet =
        Holds-moved s.collector _ _ (λ u. Held-send u s) (i none_yet)
    Step-Unbroken (stop_sending last x p q) i none_yet = i none_yet
    Step-Unbroken {s} (receive b queue front back p r) i none_yet =
        Holds-moved s.collector _ _ (λ u. Held-receive u s front back p r) (i none_yet)
    Step-Unbroken {s} (do_task t ts new d front back p q) i none_yet =
        work-Holds s t ts new d front back p q (i none_yet)
    Step-Unbroken {s} (fail_task t ts x c front back p q) i none_yet =
        absurd (keep_first-some s.first_error x none_yet)
    Step-Unbroken {s} (finish_batch front back p) i none_yet =
        turn-Holds s front back (busy []) idle (λ u m. m) (λ u m. m) p (i none_yet)
    Step-Unbroken {s} (leave_closed front back p q r) i none_yet =
        turn-Holds s front back idle gone (λ u m. m) (λ u m. m) r (i none_yet)
    Step-Unbroken {s} (leave_cancelled x front back q r) i none_yet =
        turn-Holds s front back idle gone (λ u m. m) (λ u m. m) r (i none_yet)

    pub Run-Unbroken : {s t : State Hash} → Run g walk_end s t → Unbroken s → Unbroken t
    Run-Unbroken here i = i
    Run-Unbroken (next r step) i = Step-Unbroken step (Run-Unbroken r i)

  pub start-Unbroken :
      (count : ℕ) (trees : List Hash)
      → ((h : Hash) → Top h ↔ Member h trees)
      → Unbroken (start count trees)
  unfolding start
  start-Unbroken count trees top none_yet = record {
    sound = start-Sound g Top;
    covered = start-Covered g;
    tasks = λ u m. elim m [
      | inl call ↦
          let (h, m', same) = calls-origin trees u call in
          subst (IsTask g Top) same (at_top ((top h).1 m'))
      | inr (inl z) ↦ absurd z
      | inr (inr (inl z)) ↦ absurd z
      | inr (inr (inr w)) ↦ absurd (idle-InWorkers u count w)
    ];
    tops = λ h t. inr (inl (calls-Member trees h ((top h).0 t)));
  }
