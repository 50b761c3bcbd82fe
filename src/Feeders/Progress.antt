-- ===== src/Feeders/Progress.antt =====
-- A parallel feeder does not stand still before its end, and its end comes.
use git_spdx.Common.{
  List-cases, lt_or_le, ℕ, suc, ◌+◌, ◌*◌, ◌≤◌, ◌<◌, ◌≡◌, ◌≢◌, ◌⊎◌, inl, inr, refl, ap, Bool, true,
  false, none, List, [], ◌∷◌, ◌++◌, Bytes, length, length-append, length-replicate, Error, arith,
  Bool-cases, Option-cases, Result-cases,
}
use git_spdx.Common.Count.{sum_of}
use git_spdx.Stream.{is_eof}
use git_spdx.Feeders.{
  FoundBlob, Feeding, batch_size, read_task, enumerating, sending, closed, Worker, idle, busy, gone,
  State, start, Step, skip_blob, take_blob, fill_batch, end_batch, end_empty, end_wrong, send_batch,
  hand_batch, stop_sending, receive, finish_batch, send_job, drop_job, fail_read, leave, Run, here,
  next, is_gone,
}
use git_spdx.Feeders.Sent.{sum_of-is_gone}
use git_spdx.Feeders.Ends.{Placed, Counted, Final, is_last, Run-Placed, Run-Counted, start-Placed}
use git_spdx.Feeders.Measure.{
  Phase-cases, once_both, measure-start, start_workers, Closes-none, after_stop_last,
  batch_size-pos, Run-measure,
}

module _ (c : Feeding) (limit : Bytes → ℕ) (stop : Error) where
  -- Before the last batch there is room for a blob, and only the end of the enumeration has an error.
  Ready : State → Type 0
  Ready s =
      (is_last s.phase ≡ false → length s.batch < batch_size c)
      × ((s.phase ≡ closed) ⊎ (s.enum_error ≡ none))

  Step-Ready : {s t : State} → Step c limit stop s t → Ready s → Ready t
  unfolding Ready
  Step-Ready {s} (skip_blob o os ph up large) inv = inv
  Step-Ready {s} (take_blob o os ph up small few) (room, err') =
      (λ l. omega (arith, length-append s.batch (o ∷ [])), err')
  Step-Ready {s} (fill_batch o os ph up small full) (room, err') =
      (λ l. batch_size-pos c, ground arith)
  Step-Ready {s} (end_batch ph up f some_left) (room, err') = (λ l. cc, ground arith)
  Step-Ready {s} (end_empty ph up f empty) inv = (λ l. cc, inl refl)
  Step-Ready {s} (end_wrong ph up f) inv = (λ l. cc, inl refl)
  Step-Ready {s} (send_batch true b ph room) inv = (λ l. cc, inl refl)
  Step-Ready {s} (send_batch false b ph room) (few, err') = (λ l. few (ap is_last ph), ground arith)
  Step-Ready {s} (hand_batch true b front back ph q w) inv = (λ l. cc, inl refl)
  Step-Ready {s} (hand_batch false b front back ph q w) (few, err') =
      (λ l. few (ap is_last ph), ground arith)
  Step-Ready {s} (stop_sending last b x ph r) (few, err') =
      (λ l. cc (after_stop_last c last b), ground arith)
  Step-Ready {s} (receive b queue front back q w) inv = inv
  Step-Ready {s} (finish_batch front back w) inv = inv
  Step-Ready {s} (send_job o os content front back w r) inv = inv
  Step-Ready {s} (drop_job o os content x front back w r d) inv = inv
  Step-Ready {s} (fail_read o os x front back w r) inv = inv
  Step-Ready {s} (leave x front back ph q w cl) inv = inv

  Run-Ready : {s t : State} {n : ℕ} → Run c limit stop s n t → Ready s → Ready t
  Run-Ready here inv = inv
  Run-Ready (next r st) inv = Step-Ready st (Run-Ready r inv)

  abbrev Goes : State → Type 0
  Goes s = (t : State) × Step c limit stop s t

  -- A worker that has not left can go on, if a batch waits or it has one.
  busy-Goes :
      (s : State) (front : List Worker) (b : List FoundBlob) (back : List Worker)
      → s.workers ≡ front ++ busy b ∷ back
      → Goes s
  busy-Goes s front [] back w = (_, finish_batch front back w)
  busy-Goes s front (o ∷ os) back w = elim (Result-cases (read_task c o)) [
    | inl (content, r) ↦ (_, send_job o os content front back w r)
    | inr (e, r) ↦ (_, fail_read o os e front back w r)
  ]

  -- The first worker that has not left.
  here_still :
      (ws : List Worker)
      → sum_of is_gone ws < length ws
      → (front : List Worker) × (w : Worker) × (back : List Worker) × (ws ≡ front ++ w ∷ back)
        × (is_gone w ≡ 0)
  unfolding sum_of
  here_still [] f = absurd (omega arith)
  here_still (idle ∷ ws) f = ([], idle, ws, refl, refl)
  here_still (busy b ∷ ws) f = ([], busy b, ws, refl, refl)
  here_still (gone ∷ ws) f =
      let (front, w, back, e, g) = here_still ws (omega arith) in
      (gone ∷ front, w, back, ap (◌∷◌ gone) e, g)

  closed_idle-Goes :
      (s : State) (front back : List Worker)
      → s.phase ≡ closed
      → s.workers ≡ front ++ idle ∷ back
      → Goes s
  closed_idle-Goes s front back over w = elim (List-cases s.queue) [
    | inl q ↦ (_, leave none front back over q w (Closes-none c))
    | inr (b, queue, q) ↦ (_, receive b queue front back q w)
  ]

  closed-Goes :
      (s : State) (front : List Worker) (w : Worker) (back : List Worker)
      → s.phase ≡ closed
      → s.workers ≡ front ++ w ∷ back
      → is_gone w ≡ 0
      → Goes s
  closed-Goes s front idle back over e g = closed_idle-Goes s front back over e
  closed-Goes s front (busy b) back over e g = busy-Goes s front b back e
  closed-Goes s front gone back over e g = absurd (omega arith)

  sending_idle-Goes :
      (s : State) (last : Bool) (b : List FoundBlob) (front back : List Worker)
      → s.phase ≡ sending last b
      → s.workers ≡ front ++ idle ∷ back
      → Goes s
  sending_idle-Goes s last b front back ph w = elim (List-cases s.queue) [
    | inl q ↦ (_, hand_batch last b front back ph q w)
    | inr (b', queue, q) ↦ (_, receive b' queue front back q w)
  ]

  sending-Goes :
      (s : State) (last : Bool) (b : List FoundBlob) (front : List Worker) (w : Worker)
      (back : List Worker)
      → s.phase ≡ sending last b
      → s.workers ≡ front ++ w ∷ back
      → is_gone w ≡ 0
      → Goes s
  sending-Goes s last b front idle back ph e g = sending_idle-Goes s last b front back ph e
  sending-Goes s last b front (busy b') back ph e g = busy-Goes s front b' back e
  sending-Goes s last b front gone back ph e g = absurd (omega arith)

  enumerating-Goes : (s : State) → s.phase ≡ enumerating → Ready s → Goes s
  unfolding Ready
  enumerating-Goes s ph (few, _) = elim (List-cases s.upcoming) [
    | inl up ↦ elim (Bool-cases (is_eof stop)) [
      | inr f ↦ (_, end_wrong ph up f)
      | inl f ↦ elim (List-cases s.batch) [
        | inl b ↦ (_, end_empty ph up f (ap length b))
        | inr (o, b, q) ↦ (_, end_batch ph up f (omega (arith, ap length q)))
      ]
    ]
    | inr (o, os, up) ↦ elim (lt_or_le (limit (o.blob).oid) (o.blob).size) [
      | inl large ↦ (_, skip_blob o os ph up large)
      | inr small ↦ elim (lt_or_le (suc (length s.batch)) (batch_size c)) [
        | inl room ↦ (_, take_blob o os ph up small room)
        | inr full ↦
            let below = few (ap is_last ph) in (_, fill_batch o os ph up small (omega arith))
      ]
    ]
  ]

  Sound : State → Type 0
  Sound s = Placed s × Ready s × (0 < length s.workers)

  sending-ne-closed :
      (s : State) (last : Bool) (b : List FoundBlob) → s.phase ≡ sending last b → s.phase ≢ closed
  sending-ne-closed s last b ph over = cc

  open_workers :
      (s : State) (last : Bool) (b : List FoundBlob)
      → s.phase ≡ sending last b
      → s.read_error ≡ none
      → Sound s
      → sum_of is_gone s.workers < length s.workers
  unfolding Sound Placed Ready
  open_workers s last b ph r (placed, (few, err'), some_worker) =
      elim (lt_or_le 0 (sum_of is_gone s.workers)) [
        | inr zero_gone ↦ omega arith
        | inl departed ↦ elim err' [
          | inl over ↦ absurd (sending-ne-closed s last b ph over)
          | inr quiet ↦ absurd (
              sending-ne-closed s last b ph
                ((placed (once_both s.read_error s.enum_error r quiet)).1 departed).1)
        ]
      ]

  Sound-Goes : (s : State) → Sound s → Final s ⊎ Goes s
  unfolding Sound Final
  Sound-Goes s (placed, ready, some_worker) = elim (Phase-cases s.phase) [
    | inl ph ↦ inr (enumerating-Goes s ph ready)
    | inr (inl ((last, b), ph)) ↦ elim (Option-cases s.read_error) [
      | inr (e, r) ↦ inr (_, stop_sending last b e ph r)
      | inl r ↦
          let (front, w, back, e, g) =
            here_still s.workers (open_workers s last b ph r (placed, ready, some_worker)) in
          inr (sending-Goes s last b front w back ph e g)
    ]
    | inr (inr ph) ↦ elim (lt_or_le (sum_of is_gone s.workers) (length s.workers)) [
      | inl f ↦
          let (front, w, back, e, g) = here_still s.workers f in
          inr (closed-Goes s front w back ph e g)
      | inr all_gone ↦ inl (ph, omega (arith, sum_of-is_gone s.workers))
    ]
  ]

  start-Ready : (n : ℕ) (os : List FoundBlob) → Ready (start n os)
  unfolding Ready start
  start-Ready n os = (λ l. batch_size-pos c, inr refl)

  -- A feeder with a worker never stands still before its end, and no run of it is longer than a bound
  -- that its objects and its workers give: so every run comes to its end.
  pub Run-advances :
      (workers n : ℕ) (os : List FoundBlob) (s : State)
      → 0 < workers
      → Run c limit stop (start workers os) n s
      → (n ≤ 8 + 9 * length os + workers) × (Final s ⊎ Goes s)
  unfolding Sound Counted
  Run-advances workers n os s some_worker r = (
    omega (arith, Run-measure c limit stop r, measure-start workers os),
    Sound-Goes s (
      Run-Placed c limit stop r (start-Placed c limit stop workers os),
      Run-Ready r (start-Ready workers os),
      omega (
        arith,
        (Run-Counted c limit stop r).2,
        length-replicate workers idle,
        ap length (start_workers workers os),
      ),
    ),
  )
