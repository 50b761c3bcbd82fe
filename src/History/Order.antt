-- ===== src/History/Order.antt =====
-- The parallel walk visits what the walk with one worker visits, in the same order.
use git_spdx.Common.{
  ℕ, ◌*◌, ◌≤◌, ◌<◌, ◌≡◌, ◌≢◌, ◌⊎◌, inl, inr, refl, sym, ap, ◌∙◌, Bool, true, false, Option, none,
  some, List, [], ◌∷◌, ◌++◌, map, append_assoc, length-append, length, All, All-append, Eq, Error,
  ok, err, arith, Result-cases,
}
use git_spdx.Stream.{is_eof}
use git_spdx.Change.{Change}
use git_spdx.History.{Node, Trees, visit_task, visit_changes, walk_nodes}
use git_spdx.History.Cache.{
  task_changes, plain_walk, IsCoherent, visit_task-IsCoherent, erase-IsCoherent, empty-IsCoherent,
  walk_nodes-plain_walk,
}
use git_spdx.History.Stream.{
  history_lookahead, Status, waiting, queued, working, ready, Task, State, start, Step, announce,
  enqueue, exhaust, iterator_fails, filled, begin, finish, take_changes, take_error, complete, Run,
  here, next,
}
use mathlib.Core.List.{foldl, map-append}
use mathlib.Core.Path.{subst}

abbrev nodes_of : {Hash : Type 0} → List (Task Hash) → List (Node Hash)
nodes_of ts = map (λ t. t.0) ts

module _ {Hash Tree S : Type 0} ⦃e : Eq Hash⦄ (g : Trees Hash Tree) (merges : Bool)
    (visit : S → Change → S) (workers : ℕ) (stop : Error) where
  -- A result is the one of its commit.
  abbrev IsRight : Task Hash → Type 0
  IsRight (n, waiting) = Unit
  IsRight (n, queued) = Unit
  IsRight (n, working) = Unit
  IsRight (n, ready r) = r ≡ task_changes g merges n

  abbrev plain : List (Node Hash) → S → S × Option Error
  plain ns s = plain_walk g merges visit ns stop s

  -- What is pending and what comes give what the whole walk gives.
  Tracks : S × Option Error → State Hash Tree S → Type 0
  Tracks whole s =
      IsCoherent g s.cache
      × All IsRight s.pending
      × (s.exhausted ≡ true → s.upcoming ≡ [])
      × (s.exhausted ≡ true → is_eof stop ≡ true)
      × (plain (nodes_of s.pending ++ s.upcoming) s.out ≡ whole)

  All-replace :
      (front : List (Task Hash)) (t t' : Task Hash) (back : List (Task Hash))
      → IsRight t'
      → All IsRight (front ++ t ∷ back)
      → All IsRight (front ++ t' ∷ back)
  All-replace [] t t' back right (_, rest) = (right, rest)
  All-replace (f ∷ front) t t' back right (now, rest) =
      (now, All-replace front t t' back right rest)

  nodes_of-replace :
      (front : List (Task Hash)) (n : Node Hash) (a b : Status) (back : List (Task Hash))
      → nodes_of (front ++ (n, b) ∷ back) ≡ nodes_of (front ++ (n, a) ∷ back)
  nodes_of-replace [] n a b back = refl
  nodes_of-replace (f ∷ front) n a b back = ap (◌∷◌ f.0) (nodes_of-replace front n a b back)

  -- One task changes its status.
  restated :
      (ts front : List (Task Hash)) (n : Node Hash) (a b : Status) (back : List (Task Hash))
      → ts ≡ front ++ (n, a) ∷ back
      → IsRight (n, b)
      → All IsRight ts
      → All IsRight (front ++ (n, b) ∷ back) × (nodes_of (front ++ (n, b) ∷ back) ≡ nodes_of ts)
  restated ts front n a b back split right all = (
    All-replace front (n, a) (n, b) back right (subst (All IsRight) split all),
    nodes_of-replace front n a b back ∙ ap nodes_of (sym split),
  )

  plain-ok :
      (n : Node Hash) (ns : List (Node Hash)) (s : S) (cs : List Change)
      → ok cs ≡ task_changes g merges n
      → plain (n ∷ ns) s ≡ plain ns (foldl visit s cs)
  unfolding plain_walk visit_changes
  plain-ok n ns s cs t = rw (plain_walk, sym t)

  plain-err :
      (n : Node Hash) (ns : List (Node Hash)) (s : S) (x : Error)
      → err x ≡ task_changes g merges n
      → plain (n ∷ ns) s ≡ (s, some x)
  unfolding plain_walk visit_changes
  plain-err n ns s x t = rw (plain_walk, sym t)

  abbrev onward : State Hash Tree S → List (Node Hash) → S × Option Error
  onward s ns = plain (ns ++ s.upcoming) s.out

  Step-Tracks :
      (whole : S × Option Error) {s t : State Hash Tree S}
      → Step g merges visit workers stop s t
      → Tracks whole s
      → Tracks whole t
  unfolding Tracks
  Step-Tracks whole {s} (announce n ns f room more up) (c, all, ends, eofs, w) = (
    c,
    All-append IsRight s.pending ((n, waiting) ∷ []) all (tt, tt),
    (λ x. cc),
    eofs,
    ap (λ k. plain k s.out)
          (ap (λ k. k ++ ns) (map-append (λ t. t.0) s.pending ((n, waiting) ∷ []))
            ∙ append_assoc (nodes_of s.pending) (n ∷ []) ns
            ∙ ap (λ k. nodes_of s.pending ++ k) (sym up))
        ∙ w,
  )
  Step-Tracks whole {s} (enqueue n front back o p room) (c, all, ends, eofs, w) =
      let (all', same) = restated s.pending front n waiting queued back p tt all in
      (c, all', ends, eofs, ap (onward s) same ∙ w)
  Step-Tracks whole {s} (exhaust f room more up e) (c, all, ends, eofs, w) =
      (c, all, (λ x. up), (λ x. e), w)
  Step-Tracks whole (iterator_fails f room more up e) inv = inv
  Step-Tracks whole (filled f enough) inv = inv
  Step-Tracks whole {s} (begin n front back o p first room) (c, all, ends, eofs, w) =
      let (all', same) = restated s.pending front n queued working back p tt all in
      (c, all', ends, eofs, ap (onward s) same ∙ w)
  Step-Tracks whole {s} (finish n front back o p) (c, all, ends, eofs, w) =
      let (cache', v, c') = visit_task-IsCoherent g merges n s.cache c in
      let (all', same) =
        restated s.pending front n working (ready (visit_task g merges n s.cache).0) back p
          (ap (λ q. q.0) v) all in
      (subst (IsCoherent g) (ap (λ q. q.1) (sym v)) c', all', ends, eofs, ap (onward s) same ∙ w)
  Step-Tracks whole {s} (take_changes n cs rest o f p) (c, all, ends, eofs, w) =
      let (right, all') = subst (All IsRight) p all in
      (
        erase-IsCoherent g n.id s.cache c,
        all',
        ends,
        eofs,
        sym (plain-ok n (nodes_of rest ++ s.upcoming) s.out cs right)
            ∙ ap (λ ts. onward s (nodes_of ts)) (sym p)
            ∙ w,
      )
  Step-Tracks whole (take_error n x rest o f p) inv = inv
  Step-Tracks whole (complete o f p) inv = inv

  -- Behind `fill` the window is full, or no commit is left.
  unfoldable pub Full : State Hash Tree S → Type 0
  Full s =
      s.filling ≡ false → (history_lookahead * workers ≤ length s.pending) ⊎ (s.exhausted ≡ true)

  pub length-restated :
      (ts front : List (Task Hash)) (t t' : Task Hash) (back : List (Task Hash))
      → ts ≡ front ++ t ∷ back
      → length (front ++ t' ∷ back) ≡ length ts
  length-restated ts front t t' back p =
      omega (arith, ap length p, length-append front (t ∷ back), length-append front (t' ∷ back))

  pub Step-Full : {s t : State Hash Tree S} → Step g merges visit workers stop s t → Full s → Full t
  unfolding Full
  Step-Full {s} (announce n ns f room more up) full x = cc (f.1)
  Step-Full {s} (enqueue n front back o p room) full x =
      ground (arith, full x, length-restated s.pending front (n, waiting) (n, queued) back p)
  Step-Full (exhaust f room more up e) full x = inr refl
  Step-Full (iterator_fails f room more up e) full x = full x
  Step-Full (filled f enough) full x = enough
  Step-Full {s} (begin n front back o p first room) full x =
      ground (arith, full x, length-restated s.pending front (n, queued) (n, working) back p)
  Step-Full {s} (finish n front back o p) full x = ground (
    arith,
    full x,
    length-restated s.pending front (n, working) (n, ready (visit_task g merges n s.cache).0) back
        p,
  )
  Step-Full (take_changes n cs rest o f p) full x = cc
  Step-Full (take_error n y rest o f p) full x = full x
  Step-Full (complete o f p) full x = full x

  pub start-Full : (ns : List (Node Hash)) (out : S) → Full (start ns out)
  unfolding Full start
  start-Full ns out x = cc

  pub Run-Full :
      {s t : State Hash Tree S} {k : ℕ} → Run g merges visit workers stop s k t → Full s → Full t
  Run-Full here full = full
  Run-Full (next r st) full = Step-Full st (Run-Full r full)

  Run-Tracks :
      (whole : S × Option Error) {s t : State Hash Tree S} {k : ℕ}
      → Run g merges visit workers stop s k t
      → Tracks whole s
      → Tracks whole t
  Run-Tracks whole here inv = inv
  Run-Tracks whole (next r st) inv = Step-Tracks whole st (Run-Tracks whole r inv)

  start-Tracks : (ns : List (Node Hash)) (out : S) → Tracks (plain ns out) (start ns out)
  unfolding Tracks start
  start-Tracks ns out = (empty-IsCoherent g, tt, (λ x. cc), (λ x. cc), refl)

  plain-eof : (s : S) → is_eof stop ≡ true → plain [] s ≡ (s, none)
  unfolding plain_walk
  plain-eof s f = rw (plain_walk, f)

  plain-stop : (s : S) → is_eof stop ≡ false → plain [] s ≡ (s, some stop)
  unfolding plain_walk
  plain-stop s f = rw (plain_walk, f)

  -- An iterator that fails makes the walk fail, if no commit does.
  plain_fails : (ns : List (Node Hash)) (s : S) → is_eof stop ≡ false → (plain ns s).1 ≢ none
  plain_fails [] s f q = cc (plain-stop s f)
  plain_fails (n ∷ ns) s f q = elim (Result-cases (task_changes g merges n)) [
    | inr (x, t) ↦ cc (plain-err n ns s x (sym t))
    | inl (cs, t) ↦
        plain_fails ns (foldl visit s cs) f (ap (λ o. o.1) (sym (plain-ok n ns s cs (sym t))) ∙ q)
  ]

  nothing_more :
      (s : State Hash Tree S)
      → s.pending ≡ []
      → 0 < workers
      → (history_lookahead * workers ≤ length s.pending) ⊎ (s.exhausted ≡ true)
      → s.exhausted ≡ true
  nothing_more s p w (inl full) = absurd (omega (arith, ap length p))
  nothing_more s p w (inr over) = over

  some-injective : {V : Type 0} {v w : V} → some v ≡ some w → v ≡ w
  some-injective q = cc q

  -- How the function may end, where the walk with one worker gives `whole`.
  unfoldable pub Agrees : S × Option Error → S → Option Error → Type 0
  Agrees whole out failure = (whole ≡ (out, failure)) ⊎ ((failure ≡ some stop) × (whole.1 ≢ none))

  Step-ends :
      (whole : S × Option Error) (failure : Option Error) {s t : State Hash Tree S}
      → Step g merges visit workers stop s t
      → 0 < workers
      → Tracks whole s
      → Full s
      → t.ended ≡ some failure
      → Agrees whole t.out failure
  unfolding Tracks Full Agrees
  Step-ends whole failure (announce n ns f room more up) w inv full q = cc (f.0)
  Step-ends whole failure (enqueue n front back o p room) w inv full q = cc
  Step-ends whole failure (exhaust f room more up e) w inv full q = cc (f.0)
  Step-ends whole failure {s} (iterator_fails f room more up e) w (c, all, ends, eofs, same) full
        q =
      inr (
        sym (some-injective q),
        λ z. plain_fails (nodes_of s.pending ++ s.upcoming) s.out e (ap (λ o. o.1) same ∙ z),
      )
  Step-ends whole failure (filled f enough) w inv full q = cc (f.0)
  Step-ends whole failure (begin n front back o p first room) w inv full q = cc
  Step-ends whole failure (finish n front back o p) w inv full q = cc
  Step-ends whole failure (take_changes n cs rest o f p) w inv full q = cc
  Step-ends whole failure {s} (take_error n x rest o f p) w (c, all, ends, eofs, same) full q =
      let (right, _) = subst (All IsRight) p all in
      inl (
        sym same
        ∙ ap (λ ts. onward s (nodes_of ts)) p
        ∙ plain-err n (nodes_of rest ++ s.upcoming) s.out x right
        ∙ ap (λ v. (s.out, v)) (some-injective q))
  Step-ends whole failure {s} (complete o f p) w (c, all, ends, eofs, same) full q =
      let over = nothing_more s p w (full f) in
      inl (
        sym same
        ∙ ap (λ ts. onward s (nodes_of ts)) p
        ∙ ap (λ ns. plain ns s.out) (ends over)
        ∙ plain-eof s.out (eofs over)
        ∙ ap (λ v. (s.out, v)) (some-injective q))

  start-ended :
      (ns : List (Node Hash)) (out : S) → (start {Hash = Hash} {Tree = Tree} ns out).ended ≡ none
  unfolding start
  start-ended ns out = refl

  -- The parallel walk ends as the walk with one worker does: with the same changes visited in the same
  -- order, and with the same error or none. Only where the iterator itself fails may it end with the
  -- iterator's error before all earlier commits are visited; then the other walk fails too.
  pub Run-Agrees :
      (ns : List (Node Hash)) (out : S) (k : ℕ) (s : State Hash Tree S) (failure : Option Error)
      → 0 < workers
      → Run g merges visit workers stop (start ns out) k s
      → s.ended ≡ some failure
      → Agrees (walk_nodes g merges visit ns stop [] out) s.out failure
  Run-Agrees ns out k s failure w r q = ends r q
    where
      whole : walk_nodes g merges visit ns stop [] out ≡ plain ns out
      whole = walk_nodes-plain_walk g merges visit ns stop [] out (empty-IsCoherent g)

      ends :
          {k : ℕ} {t : State Hash Tree S}
          → Run g merges visit workers stop (start ns out) k t
          → t.ended ≡ some failure
          → Agrees (walk_nodes g merges visit ns stop [] out) t.out failure
      ends here q = cc (start-ended ns out)
      ends {t = t} (next r st) q =
          subst (λ v. Agrees v t.out failure) (sym whole)
            (Step-ends (plain ns out) failure st w
              (Run-Tracks (plain ns out) r (start-Tracks ns out)) (Run-Full r (start-Full ns out))
              q)
