-- ===== src/History/Progress.antt =====
-- The parallel walk does not stand still before its end, its end comes, and its window is bounded.
use git_spdx.Common.{
  ℕ, ◌+◌, ◌*◌, ◌≤◌, ◌<◌, ◌≡◌, ◌⊎◌, inl, inr, ap, ◌∙◌, Bool, false, Option, none, some, List, [],
  ◌∷◌, ◌++◌, length, length-append, Eq, Error, ok, err, arith, Bool-cases, Option-cases, List-cases,
  lt_or_le,
}
use git_spdx.Common.Count.{count_if, sum_of}
use git_spdx.Stream.{is_eof}
use git_spdx.Change.{Change}
use git_spdx.History.{Node, Trees, visit_task}
use git_spdx.History.Stream.{
  history_lookahead, Status, waiting, queued, working, ready, is_waiting, is_queued, is_working,
  Task, waits, in_channel, at_work, State, start, Fills, Step, announce, enqueue, exhaust,
  iterator_fails, filled, begin, finish, take_changes, take_error, complete, Run, here, next,
}
use git_spdx.History.Order.{length-restated}
use git_spdx.History.Measure.{
  measure, first_such, working_only, queued_only, waiting_only, Step-measure,
}

module _ {Hash Tree S : Type 0} ⦃e : Eq Hash⦄ (g : Trees Hash Tree) (merges : Bool)
    (visit : S → Change → S) (workers : ℕ) (stop : Error) where
  -- Steps that keep the window.
  Step-window :
      {s t : State Hash Tree S}
      → Step g merges visit workers stop s t
      → length s.pending ≤ history_lookahead * workers
      → length t.pending ≤ history_lookahead * workers
  Step-window {s} (announce n ns f room more up) b =
      omega (arith, length-append s.pending ((n, waiting) ∷ []))
  Step-window {s} (enqueue n front back o p room) b = omega (
    arith,
    length-restated g merges visit workers stop s.pending front (n, waiting) (n, queued) back p,
  )
  Step-window (exhaust f room more up q) b = b
  Step-window (iterator_fails f room more up q) b = b
  Step-window (filled f enough) b = b
  Step-window {s} (begin n front back o p first room) b = omega (
    arith,
    length-restated g merges visit workers stop s.pending front (n, queued) (n, working) back p,
  )
  Step-window {s} (finish n front back o p) b = omega (
    arith,
    length-restated g merges visit workers stop s.pending front (n, working)
        (n, ready (visit_task g merges n s.cache).0) back p,
  )
  Step-window {s} (take_changes n cs rest o f p) b = omega (arith, ap length p)
  Step-window (take_error n x rest o f p) b = b
  Step-window (complete o f p) b = b

  abbrev Goes : State Hash Tree S → Type 0
  Goes s = (t : State Hash Tree S) × Step g merges visit workers stop s t

  -- A worker that has a task can give its result.
  working-Goes : (s : State Hash Tree S) → s.ended ≡ none → 0 < at_work s.pending → Goes s
  working-Goes s o f =
      let (front, n, st, back, p, w, _) = first_such is_working s.pending f in
      (_, finish n front back o (p ∙ ap (λ q. front ++ (n, q) ∷ back) (working_only st w)))

  -- The first task of the channel is taken, unless all workers have one.
  queued-Goes :
      (s : State Hash Tree S) → 0 < workers → s.ended ≡ none → 0 < in_channel s.pending → Goes s
  queued-Goes s w o f = elim (lt_or_le (at_work s.pending) workers) [
    | inr all_busy ↦ working-Goes s o (omega arith)
    | inl room ↦
        let (front, n, st, back, p, q, first) = first_such is_queued s.pending f in
        (
          _,
          begin n front back o (p ∙ ap (λ k. front ++ (n, k) ∷ back) (queued_only st q)) first room,
        )
  ]

  -- A send to the channel goes on, unless the channel is full.
  waiting-Goes :
      (s : State Hash Tree S) → 0 < workers → s.ended ≡ none → 0 < waits s.pending → Goes s
  waiting-Goes s w o f = elim (lt_or_le (in_channel s.pending) workers) [
    | inr full ↦ queued-Goes s w o (omega arith)
    | inl room ↦
        let (front, n, st, back, p, q, _) = first_such is_waiting s.pending f in
        (_, enqueue n front back o (p ∙ ap (λ k. front ++ (n, k) ∷ back) (waiting_only st q)) room)
  ]

  fill-Goes : (s : State Hash Tree S) → Fills g merges visit workers stop s → Goes s
  fill-Goes s f = elim (Bool-cases s.exhausted) [
    | inl over ↦ (_, filled f (inr over))
    | inr more ↦ elim (lt_or_le (length s.pending) (history_lookahead * workers)) [
      | inr full ↦ (_, filled f (inl full))
      | inl room ↦ elim (List-cases s.upcoming) [
        | inr (n, ns, up) ↦ (_, announce n ns f room more up)
        | inl up ↦ elim (Bool-cases (is_eof stop)) [
          | inl e ↦ (_, exhaust f room more up e)
          | inr e ↦ (_, iterator_fails f room more up e)
        ]
      ]
    ]
  ]

  -- The first pending task has its result, or something is done for some task.
  head-Goes :
      (s : State Hash Tree S) (n : Node Hash) (st : Status) (rest : List (Task Hash))
      → 0 < workers
      → s.ended ≡ none
      → s.filling ≡ false
      → s.pending ≡ (n, st) ∷ rest
      → Goes s
  unfolding count_if
  head-Goes s n waiting rest w o f p = waiting-Goes s w o (omega (arith, ap waits p))
  head-Goes s n queued rest w o f p = queued-Goes s w o (omega (arith, ap in_channel p))
  head-Goes s n working rest w o f p = working-Goes s o (omega (arith, ap at_work p))
  head-Goes s n (ready (ok cs)) rest w o f p = (_, take_changes n cs rest o f p)
  head-Goes s n (ready (err x)) rest w o f p = (_, take_error n x rest o f p)

  open-Goes : (s : State Hash Tree S) → 0 < workers → s.ended ≡ none → Goes s
  open-Goes s w o = elim (Bool-cases s.filling) [
    | inr f ↦ elim (List-cases s.pending) [
      | inl p ↦ (_, complete o f p)
      | inr ((n, st), rest, p) ↦ head-Goes s n st rest w o f p
    ]
    | inl f ↦ elim (lt_or_le 0 (waits s.pending)) [
      | inl stuck ↦ waiting-Goes s w o stuck
      | inr free ↦ fill-Goes s (o, f, omega arith)
    ]
  ]

  Run-measure :
      {s t : State Hash Tree S} {k : ℕ}
      → Run g merges visit workers stop s k t
      → k + measure t ≤ measure s
  Run-measure here = omega arith
  Run-measure (next r st) =
      omega (arith, Run-measure r, Step-measure g merges visit workers stop st)

  Run-keeps :
      {s t : State Hash Tree S} {k : ℕ}
      → Run g merges visit workers stop s k t
      → length s.pending ≤ history_lookahead * workers
      → length t.pending ≤ history_lookahead * workers
  Run-keeps here b = b
  Run-keeps (next r st) b = Step-window st (Run-keeps r b)

  start-measure :
      (ns : List (Node Hash)) (out : S)
      → measure (start {Hash = Hash} {Tree = Tree} ns out) ≡ 7 * length ns + 3
  unfolding start sum_of
  start-measure ns out = omega arith

  start_window :
      (ns : List (Node Hash)) (out : S)
      → length (start {Hash = Hash} {Tree = Tree} ns out).pending ≤ history_lookahead * workers
  unfolding start
  start_window ns out = omega arith

  -- The parallel walk never holds more commits than twice its workers, it does not stand still before
  -- its end, though it may wait for the channel and for results, and no run of it is longer than a
  -- bound that the commits give: so every run comes to its end.
  pub Run-bounded :
      (ns : List (Node Hash)) (out : S) (k : ℕ) (s : State Hash Tree S)
      → 0 < workers
      → Run g merges visit workers stop (start ns out) k s
      → (length s.pending ≤ history_lookahead * workers)
        × (k ≤ 7 * length ns + 3)
        × (((failure : Option Error) × (s.ended ≡ some failure)) ⊎ Goes s)
  Run-bounded ns out k s w r = (
    Run-keeps r (start_window ns out),
    omega (arith, Run-measure r, start-measure ns out),
    elim (Option-cases s.ended) [ inr done ↦ inl done | inl o ↦ inr (open-Goes s w o) ],
  )
