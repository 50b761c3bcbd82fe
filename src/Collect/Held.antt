-- ===== src/Collect/Held.antt =====
-- What is still to be done in a state of the parallel collection: the trees of the walk, of the batch
-- and of the queue, and the stacks of the workers.
use git_spdx.Common.{◌≡◌, ◌⊎◌, inl, inr, ◌↔◌, sym, false, List, [], ◌∷◌, ◌++◌}
use git_spdx.Common.Member.{Member}
use git_spdx.Collect.{Todo, tree, Worker, idle, busy, State, calls}
use mathlib.Core.Path.{subst}

module _ {Hash : Type 0} (u : Todo Hash) where
  abbrev pub InQueue : List (List Hash) → Type 0
  InQueue [] = ⊥
  InQueue (b ∷ bs) = Member u (calls b) ⊎ InQueue bs

  abbrev pub InWorker : Worker Hash → Type 0
  InWorker (busy ts) = Member u ts
  InWorker _ = ⊥

  abbrev pub InWorkers : List (Worker Hash) → Type 0
  InWorkers [] = ⊥
  InWorkers (w ∷ ws) = InWorker w ⊎ InWorkers ws

  pub InQueue-snoc :
      (bs : List (List Hash)) (b : List Hash)
      → InQueue (bs ++ (b ∷ [])) ↔ (InQueue bs ⊎ Member u (calls b))
  InQueue-snoc [] b = (
    λ q. elim q [ inl m ↦ inr m | inr z ↦ absurd z ],
    λ q. elim q [ inl z ↦ absurd z | inr m ↦ inl m ],
  )
  InQueue-snoc (x ∷ bs) b = (
    λ q. elim q [
      | inl m ↦ inl (inl m)
      | inr rest ↦ elim ((InQueue-snoc bs b).0 rest) [ inl i ↦ inl (inr i) | inr m ↦ inr m ]
    ],
    λ q. elim q [
      | inl (inl m) ↦ inl m
      | inl (inr i) ↦ inr ((InQueue-snoc bs b).1 (inl i))
      | inr m ↦ inr ((InQueue-snoc bs b).1 (inr m))
    ],
  )

  pub calls-snoc :
      (b : List Hash) (h : Hash)
      → Member u (calls (b ++ (h ∷ []))) ↔ (Member u (calls b) ⊎ (tree h false ≡ u))
  calls-snoc [] h = (
    λ q. elim q [ inl m ↦ inr m | inr z ↦ absurd z ],
    λ q. elim q [ inl z ↦ absurd z | inr m ↦ inl m ],
  )
  calls-snoc (x ∷ b) h = (
    λ q. elim q [
      | inl m ↦ inl (inl m)
      | inr rest ↦ elim ((calls-snoc b h).0 rest) [ inl i ↦ inl (inr i) | inr m ↦ inr m ]
    ],
    λ q. elim q [
      | inl (inl m) ↦ inl m
      | inl (inr i) ↦ inr ((calls-snoc b h).1 (inl i))
      | inr m ↦ inr ((calls-snoc b h).1 (inr m))
    ],
  )

  -- The worker in the middle, and the others.
  pub InWorkers-middle :
      (front : List (Worker Hash)) (w : Worker Hash) (back : List (Worker Hash))
      → InWorkers (front ++ w ∷ back) ↔ (InWorker w ⊎ InWorkers (front ++ back))
  InWorkers-middle [] w back = (λ q. q, λ q. q)
  InWorkers-middle (x ∷ front) w back = (
    λ q. elim q [
      | inl m ↦ inr (inl m)
      | inr rest ↦ elim ((InWorkers-middle front w back).0 rest) [
        | inl i ↦ inl i
        | inr m ↦ inr (inr m)
      ]
    ],
    λ q. elim q [
      | inl i ↦ inr ((InWorkers-middle front w back).1 (inl i))
      | inr (inl m) ↦ inl m
      | inr (inr m) ↦ inr ((InWorkers-middle front w back).1 (inr m))
    ],
  )

  abbrev pub HeldIn : List Hash → List Hash → List (List Hash) → List (Worker Hash) → Type 0
  HeldIn upcoming batch queue workers =
      Member u (calls upcoming) ⊎ (Member u (calls batch) ⊎ (InQueue queue ⊎ InWorkers workers))

  abbrev pub HeldBy : State Hash → Type 0
  HeldBy s = HeldIn s.upcoming s.batch s.queue s.workers

  -- A tree goes from the walk to the batch.
  pub Held-take :
      (s : State Hash) {h : Hash} {hs : List Hash}
      → s.upcoming ≡ h ∷ hs
      → HeldBy s ↔ HeldIn hs (s.batch ++ (h ∷ [])) s.queue s.workers
  Held-take s {h} {hs} p =
      subst
        (λ us.
          HeldIn us s.batch s.queue s.workers ↔ HeldIn hs (s.batch ++ (h ∷ [])) s.queue s.workers)
        (sym p)
        (
          λ i. elim i [
            | inl (inl same) ↦ inr (inl ((calls-snoc s.batch h).1 (inr same)))
            | inl (inr m) ↦ inl m
            | inr (inl m) ↦ inr (inl ((calls-snoc s.batch h).1 (inl m)))
            | inr (inr m) ↦ inr (inr m)
          ],
          λ i. elim i [
            | inl m ↦ inl (inr m)
            | inr (inl m) ↦ elim ((calls-snoc s.batch h).0 m) [
              | inl old ↦ inr (inl old)
              | inr same ↦ inl (inl same)
            ]
            | inr (inr m) ↦ inr (inr m)
          ],
        )

  -- The batch goes to the queue.
  pub Held-send :
      (s : State Hash) → HeldBy s ↔ HeldIn s.upcoming [] (s.queue ++ (s.batch ∷ [])) s.workers
  Held-send s = (
    λ i. elim i [
      | inl m ↦ inl m
      | inr (inl m) ↦ inr (inr (inl ((InQueue-snoc s.queue s.batch).1 (inr m))))
      | inr (inr (inl m)) ↦ inr (inr (inl ((InQueue-snoc s.queue s.batch).1 (inl m))))
      | inr (inr (inr m)) ↦ inr (inr (inr m))
    ],
    λ i. elim i [
      | inl m ↦ inl m
      | inr (inl z) ↦ absurd z
      | inr (inr (inl m)) ↦ elim ((InQueue-snoc s.queue s.batch).0 m) [
        | inl old ↦ inr (inr (inl old))
        | inr new ↦ inr (inl new)
      ]
      | inr (inr (inr m)) ↦ inr (inr (inr m))
    ],
  )

  -- A worker receives a batch.
  pub Held-receive :
      (s : State Hash) {x : List Hash} {q : List (List Hash)} (front back : List (Worker Hash))
      → s.queue ≡ x ∷ q
      → s.workers ≡ front ++ idle ∷ back
      → HeldBy s ↔ HeldIn s.upcoming s.batch q (front ++ busy (calls x) ∷ back)
  Held-receive s {x} {q} front back p r =
      let after = HeldIn s.upcoming s.batch q (front ++ busy (calls x) ∷ back) in
      subst (λ qs. HeldIn s.upcoming s.batch qs s.workers ↔ after) (sym p)
        (subst (λ ws. HeldIn s.upcoming s.batch (x ∷ q) ws ↔ after) (sym r)
          (
            λ i. elim i [
              | inl m ↦ inl m
              | inr (inl m) ↦ inr (inl m)
              | inr (inr (inl (inl m))) ↦
                  inr (inr (inr ((InWorkers-middle front (busy (calls x)) back).1 (inl m))))
              | inr (inr (inl (inr m))) ↦ inr (inr (inl m))
              | inr (inr (inr m)) ↦ elim ((InWorkers-middle front idle back).0 m) [
                | inl z ↦ absurd z
                | inr o ↦ inr (inr (inr ((InWorkers-middle front (busy (calls x)) back).1 (inr o))))
              ]
            ],
            λ i. elim i [
              | inl m ↦ inl m
              | inr (inl m) ↦ inr (inl m)
              | inr (inr (inl m)) ↦ inr (inr (inl (inr m)))
              | inr (inr (inr m)) ↦ elim ((InWorkers-middle front (busy (calls x)) back).0 m) [
                | inl now ↦ inr (inr (inl (inl now)))
                | inr o ↦ inr (inr (inr ((InWorkers-middle front idle back).1 (inr o))))
              ]
            ],
          ))

  -- What one worker holds is replaced.
  pub Held-replace :
      (s : State Hash) (front back : List (Worker Hash)) (v w : Worker Hash)
      → s.workers ≡ front ++ v ∷ back
      → HeldBy s
      → InWorker v ⊎ HeldIn s.upcoming s.batch s.queue (front ++ w ∷ back)
  Held-replace s front back v w p i = elim i [
    | inl m ↦ inr (inl m)
    | inr (inl m) ↦ inr (inr (inl m))
    | inr (inr (inl m)) ↦ inr (inr (inr (inl m)))
    | inr (inr (inr m)) ↦ elim ((InWorkers-middle front v back).0 (subst InWorkers p m)) [
      | inl here ↦ inl here
      | inr o ↦ inr (inr (inr (inr ((InWorkers-middle front w back).1 (inr o)))))
    ]
  ]

  pub Held-worker :
      (s : State Hash) (front back : List (Worker Hash)) (w : Worker Hash)
      → InWorker w
      → HeldIn s.upcoming s.batch s.queue (front ++ w ∷ back)
  Held-worker s front back w m = inr (inr (inr ((InWorkers-middle front w back).1 (inl m))))
