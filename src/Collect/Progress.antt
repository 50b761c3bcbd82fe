-- ===== src/Collect/Progress.antt =====
-- The steps that a state of the parallel collection can make.
use git_spdx.Common.{
  ℕ, suc, ◌<◌, ◌≡◌, ◌≢◌, ◌⊎◌, inl, inr, refl, sym, ap, Option-cases, List-cases, lt_or_le, Bool,
  Option, List, [], ◌∷◌, ◌++◌, length, Eq, Error, Result-cases, arith,
}
use git_spdx.Common.Member.{Member}
use git_spdx.Tree.{Library}
use git_spdx.Collect.{
  Todo, work, Phase, walking, sending, closed, legal_tree_batch_size, Worker, idle, busy, gone,
  State, start, Step, take_tree, fill_batch, walk_fails, end_batch, end_empty, send_batch,
  stop_sending, receive, do_task, fail_task, finish_batch, leave_closed, Run,
}
use git_spdx.Collect.Placed.{Placed, Run-Placed, start-Placed}
use git_spdx.Collect.Ends.{IsDone, some_gone}

module _ {Hash : Type 0} where
  abbrev HasWorker : List (Worker Hash) → Worker Hash → Type 0
  HasWorker ws w =
      (front : List (Worker Hash)) × (back : List (Worker Hash)) × (ws ≡ front ++ w ∷ back)

  abbrev AllGone : List (Worker Hash) → Type 0
  AllGone ws = (w : Worker Hash) → Member w ws → w ≡ gone

  one_further :
      (v w : Worker Hash) (ws : List (Worker Hash)) → HasWorker ws w → HasWorker (v ∷ ws) w
  one_further v w ws (front, back, p) = (v ∷ front, back, λ i. v ∷ p i)

  -- A worker is busy, or one is idle, or all are gone.
  workers-cases :
      (ws : List (Worker Hash))
      → ((ts : List (Todo Hash)) × HasWorker ws (busy ts)) ⊎ (HasWorker ws idle ⊎ AllGone ws)
  workers-cases [] = inr (inr (λ w m. absurd m))
  workers-cases (busy ts ∷ ws) = inl (ts, ([], ws, refl))
  workers-cases (idle ∷ ws) = inr (inl ([], ws, refl))
  workers-cases (gone ∷ ws) = elim (workers-cases ws) [
    | inl (ts, h) ↦ inl (ts, one_further gone (busy ts) ws h)
    | inr (inl h) ↦ inr (inl (one_further gone idle ws h))
    | inr (inr all) ↦ inr (inr (λ w m. elim m [ inl same ↦ sym same | inr later ↦ all w later ]))
  ]

Phase-cases : (p : Phase) → (p ≡ walking) ⊎ (((last : Bool) × (p ≡ sending last)) ⊎ (p ≡ closed))
Phase-cases walking = inl refl
Phase-cases (sending last) = inr (inl (last, refl))
Phase-cases closed = inr (inr refl)

length_positive : {A : Type 0} (xs : List A) → xs ≢ [] → 0 < length xs
unfolding length
length_positive [] n = absurd (n refl)
length_positive (x ∷ xs) n = omega arith

module _ {Hash : Type 0} ⦃e : Eq Hash⦄ (g : Library Hash) (walk_end : Option Error) where
  abbrev pub CanStep : State Hash → Type 0
  CanStep s = (t : State Hash) × Step g walk_end s t

  -- A busy worker.
  busy_steps : (s : State Hash) (ts : List (Todo Hash)) → HasWorker s.workers (busy ts) → CanStep s
  busy_steps s [] (front, back, p) = (_, finish_batch front back p)
  busy_steps s (t ∷ ts) (front, back, p) = elim (Result-cases (work g t s.collector).1) [
    | inl (new, r) ↦ (
      _,
      do_task t ts new (work g t s.collector).0 front back p (λ i. ((work g t s.collector).0, r i)),
    )
    | inr (x, r) ↦ (
      _,
      fail_task t ts x (work g t s.collector).0 front back p (λ i. ((work g t s.collector).0, r i)),
    )
  ]

  -- The walk.
  walk_steps : (s : State Hash) → Placed g walk_end s → s.phase ≡ walking → CanStep s
  walk_steps s i p = elim (List-cases s.upcoming) [
    | inr (h, hs, q) ↦ elim (lt_or_le (suc (length s.batch)) legal_tree_batch_size) [
      | inl l ↦ (_, take_tree h hs p q l)
      | inr full ↦ (_, fill_batch h hs p q (let room = i.has_room p in omega arith))
    ]
    | inl q ↦ elim (Option-cases walk_end) [
      | inr (x, w) ↦ (_, walk_fails x p q w)
      | inl w ↦ elim (List-cases s.batch) [
        | inl b ↦ (_, end_empty p q w b)
        | inr (h, hs, b) ↦ (_, end_batch p q w (length_positive s.batch (λ z. cc (z, b))))
      ]
    ]
  ]

  idle_steps : (s : State Hash) → Placed g walk_end s → HasWorker s.workers idle → CanStep s
  idle_steps s i (front, back, p) = elim (List-cases s.queue) [
    | inr (b, queue, q) ↦ (_, receive b queue front back q p)
    | inl empty ↦ elim (Phase-cases s.phase) [
      | inl w ↦ walk_steps s i w
      | inr (inl (last, q)) ↦ (
        _,
        send_batch last q
            (ground (arith, ap length empty, length_positive s.workers i.some_workers)),
      )
      | inr (inr q) ↦ (_, leave_closed front back q empty p)
    ]
  ]

  last_steps : (s : State Hash) → Placed g walk_end s → AllGone s.workers → IsDone s ⊎ CanStep s
  last_steps s i all = elim (Phase-cases s.phase) [
    | inl w ↦ inr (walk_steps s i w)
    | inr (inr q) ↦ inl (record { is_closed = q; all_gone = all })
    | inr (inl (last, q)) ↦ elim (Option-cases s.first_error) [
      | inr (x, f) ↦ inr (_, stop_sending last x q f)
      | inl f ↦ absurd (cc (q, (i.at_leave f (some_gone s.workers i.some_workers all)).0))
    ]
  ]

  -- Every state that a collection with a worker reaches is its end or has a next step, be there an
  -- error or not.
  pub Run-CanStep :
      (count : ℕ) (trees : List Hash) (s : State Hash)
      → 0 < count
      → Run g walk_end (start count trees) s
      → IsDone s ⊎ CanStep s
  Run-CanStep count trees s l r =
      let i = Run-Placed g walk_end r (start-Placed g walk_end count trees l) in
      elim (workers-cases s.workers) [
        | inl (ts, h) ↦ inr (busy_steps s ts h)
        | inr (inl h) ↦ inr (idle_steps s i h)
        | inr (inr all) ↦ last_steps s i all
      ]
