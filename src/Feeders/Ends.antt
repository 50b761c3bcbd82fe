-- ===== src/Feeders/Ends.antt =====
-- A parallel feeder that has come to its end: what it has sent, skipped and counted.
use git_spdx.Common.{
  ℕ, ◌+◌, ◌≤◌, ◌<◌, ◌≡◌, refl, sym, ap, ◌∙◌, Bool, true, false, none, List, [], ◌∷◌, ◌++◌, Bytes,
  length, Error, arith, append_assoc, append-nil, length-append, lt→ltb, length-replicate,
}
use git_spdx.Common.Count.{count_if, sum_of}
use git_spdx.Scan.{Job}
use git_spdx.Scan.Feed.{accepted, rejected}
use git_spdx.Feeders.{
  FoundBlob, Feeding, Phase, enumerating, sending, closed, Worker, idle, busy, gone, State, once,
  start, Step, skip_blob, take_blob, fill_batch, end_batch, end_empty, end_wrong, send_batch,
  hand_batch, stop_sending, receive, finish_batch, send_job, drop_job, fail_read, leave, Run, here,
  next, is_gone, outcome,
}
use git_spdx.Feeders.Sent.{
  blobs_of, replaced, once-none, Balances, Step-Balances, sum_of-idle, left-start, left_end,
}

abbrev pub is_last : Phase → Bool
is_last enumerating = false
is_last (sending last b) = last
is_last closed = true

-- Where no error is met: the last batch is sent when nothing is left, and a worker leaves when nothing
-- can come any more.
unfoldable pub Placed : State → Type 0
Placed s =
    once s.read_error s.enum_error ≡ none
    → (is_last s.phase ≡ true → (s.upcoming ≡ []) × (length s.batch ≡ 0))
      × (0 < sum_of is_gone s.workers → (s.queue ≡ []) × (s.phase ≡ closed))

-- Everything is over.
unfoldable pub Final : State → Type 0
Final s = (s.phase ≡ closed) × (sum_of is_gone s.workers ≡ length s.workers)

module _ (c : Feeding) (limit : Bytes → ℕ) (stop : Error) where
  Step-Placed : {s t : State} → Step c limit stop s t → Placed s → Placed t
  unfolding Placed
  Step-Placed {s} (skip_blob o os ph up large) inv e =
      (λ l. cc (ap is_last ph), λ g. ground (arith, (inv e).1 g))
  Step-Placed {s} (take_blob o os ph up small few) inv e =
      (λ l. cc (ap is_last ph), λ g. ground (arith, (inv e).1 g))
  Step-Placed {s} (fill_batch o os ph up small full) inv e =
      (λ l. cc, λ g. ground (arith, (inv e).1 g))
  Step-Placed {s} (end_batch ph up f some_left) inv e =
      (λ l. (up, omega arith), λ g. ground (arith, (inv e).1 g))
  Step-Placed {s} (end_empty ph up f empty) inv e =
      (λ l. (up, empty), λ g. ground (arith, (inv e).1 g))
  Step-Placed {s} (end_wrong ph up f) inv e = ground arith
  Step-Placed {s} (send_batch true b ph room) inv e =
      (λ l. (inv e).0 (ap is_last ph), λ g. ground (arith, (inv e).1 g))
  Step-Placed {s} (send_batch false b ph room) inv e = (λ l. cc, λ g. ground (arith, (inv e).1 g))
  Step-Placed {s} (hand_batch true b front back ph q w) inv e = (
    λ l. (inv e).0 (ap is_last ph),
    λ g. ground (arith, (inv e).1, replaced is_gone s.workers front idle (busy b) back w),
  )
  Step-Placed {s} (hand_batch false b front back ph q w) inv e = (
    λ l. cc,
    λ g. ground (arith, (inv e).1, replaced is_gone s.workers front idle (busy b) back w),
  )
  Step-Placed {s} (stop_sending last b x ph r) inv e = ground arith
  Step-Placed {s} (receive b queue front back q w) inv e = (
    (inv e).0,
    λ g. ground (arith, (inv e).1, replaced is_gone s.workers front idle (busy b) back w),
  )
  Step-Placed {s} (finish_batch front back w) inv e = (
    (inv e).0,
    λ g. (inv e).1 (omega (arith, replaced is_gone s.workers front (busy []) idle back w)),
  )
  Step-Placed {s} (send_job o os content front back w r) inv e = (
    (inv e).0,
    λ g.
        (inv e).1
          (omega (arith, replaced is_gone s.workers front (busy (o ∷ os)) (busy os) back w)),
  )
  Step-Placed {s} (drop_job o os content x front back w r d) inv e = ground arith
  Step-Placed {s} (fail_read o os x front back w r) inv e = ground arith
  Step-Placed {s} (leave x front back ph q w cl) inv e =
      ((inv (once-none s.read_error x s.enum_error e)).0, λ g. (q, ph))

  -- What is skipped and counted, whatever happens.
  unfoldable pub Counted : State → State → Type 0
  Counted s t =
      (t.skipped ++ rejected limit (blobs_of t.upcoming)
        ≡ s.skipped ++ rejected limit (blobs_of s.upcoming))
      × (t.total + length t.upcoming ≡ s.total + length s.upcoming)
      × (length t.workers ≡ length s.workers)

  length_replaced :
      (ws front : List Worker) (w w' : Worker) (back : List Worker)
      → ws ≡ front ++ w ∷ back
      → length (front ++ w' ∷ back) ≡ length ws
  length_replaced ws front w w' back e =
      omega (arith, ap length e, length-append front (w ∷ back), length-append front (w' ∷ back))

  rejected_large :
      (s : List Bytes) (o : FoundBlob) (os : List FoundBlob)
      → limit (o.blob).oid < (o.blob).size
      → (s ++ ((o.blob).oid ∷ [])) ++ rejected limit (blobs_of os)
        ≡ s ++ rejected limit (blobs_of (o ∷ os))
  unfolding rejected
  rejected_large s o os large =
      rw (lt→ltb (limit (o.blob).oid) (o.blob).size large)
        (append_assoc s ((o.blob).oid ∷ []) (rejected limit (blobs_of os)))

  rejected_small :
      (s : List Bytes) (o : FoundBlob) (os : List FoundBlob)
      → (o.blob).size ≤ limit (o.blob).oid
      → s ++ rejected limit (blobs_of os) ≡ s ++ rejected limit (blobs_of (o ∷ os))
  unfolding rejected
  rejected_small s o os small = ground arith

  abbrev skips_of : List Bytes → List FoundBlob → List Bytes
  skips_of s os = s ++ rejected limit (blobs_of os)

  Step-Counted : {s t : State} → Step c limit stop s t → Counted s t
  unfolding Counted
  Step-Counted {s} (skip_blob o os ph up large) = (
    rejected_large s.skipped o os large ∙ ap (skips_of s.skipped) (sym up),
    omega (arith, ap length up),
    refl,
  )
  Step-Counted {s} (take_blob o os ph up small few) = (
    rejected_small s.skipped o os small ∙ ap (skips_of s.skipped) (sym up),
    omega (arith, ap length up),
    refl,
  )
  Step-Counted {s} (fill_batch o os ph up small full) = (
    rejected_small s.skipped o os small ∙ ap (skips_of s.skipped) (sym up),
    omega (arith, ap length up),
    refl,
  )
  Step-Counted (end_batch ph up f some_left) = (refl, refl, refl)
  Step-Counted (end_empty ph up f empty) = (refl, refl, refl)
  Step-Counted (end_wrong ph up f) = (refl, refl, refl)
  Step-Counted (send_batch last b ph room) = (refl, refl, refl)
  Step-Counted {s} (hand_batch last b front back ph q w) =
      (refl, refl, length_replaced s.workers front idle (busy b) back w)
  Step-Counted (stop_sending last b x ph r) = (refl, refl, refl)
  Step-Counted {s} (receive b queue front back q w) =
      (refl, refl, length_replaced s.workers front idle (busy b) back w)
  Step-Counted {s} (finish_batch front back w) =
      (refl, refl, length_replaced s.workers front (busy []) idle back w)
  Step-Counted {s} (send_job o os content front back w r) =
      (refl, refl, length_replaced s.workers front (busy (o ∷ os)) (busy os) back w)
  Step-Counted {s} (drop_job o os content x front back w r d) =
      (refl, refl, length_replaced s.workers front (busy (o ∷ os)) gone back w)
  Step-Counted {s} (fail_read o os x front back w r) =
      (refl, refl, length_replaced s.workers front (busy (o ∷ os)) gone back w)
  Step-Counted {s} (leave x front back ph q w cl) =
      (refl, refl, length_replaced s.workers front idle gone back w)

  pub Run-Placed : {s t : State} {n : ℕ} → Run c limit stop s n t → Placed s → Placed t
  Run-Placed here inv = inv
  Run-Placed (next r st) inv = Step-Placed st (Run-Placed r inv)

  pub Run-Counted : {s t : State} {n : ℕ} → Run c limit stop s n t → Counted s t
  unfolding Counted
  Run-Counted here = (refl, refl, refl)
  Run-Counted (next r st) =
      let (a, b, l) = Step-Counted st in
      let (a', b', l') = Run-Counted r in (a ∙ a', b ∙ b', l ∙ l')

  Run-Balances :
      {s t : State} {n : ℕ} (p : Job → Bool) → Run c limit stop s n t → Balances c limit stop p s t
  unfolding Balances
  Run-Balances p here e = (e, refl)
  Run-Balances p (next r st) e =
      let (mid, a) = Step-Balances c limit stop p st e in
      let (first, b) = Run-Balances p r mid in (first, a ∙ b)

  pub start-Placed : (n : ℕ) (os : List FoundBlob) → Placed (start n os)
  unfolding Placed start
  start-Placed n os e = (λ l. cc, λ g. absurd (omega (arith, sum_of-idle n)))

  no_events : (p : Job → Bool) → count_if p [] ≡ 0
  unfolding count_if
  no_events p = refl

  -- A parallel feeder that has come to its end without an error has sent each job of the serial feeder
  -- as often, in some order, has skipped the blobs that the serial feeder skips, in its order, and has
  -- counted all.
  pub Run-Final :
      (workers n : ℕ) (os : List FoundBlob) (s : State)
      → 0 < workers
      → Run c limit stop (start workers os) n s
      → Final s
      → (outcome s).1 ≡ none
      → ((p : Job → Bool) → count_if p s.jobs ≡ count_if p (accepted limit (blobs_of os)))
        × (s.skipped ≡ rejected limit (blobs_of os))
        × ((outcome s).0 ≡ length os)
  unfolding Final outcome start Placed Counted Balances rejected
  Run-Final workers n os s some_worker r (over, left_all) good =
      let (skips, counted, same) = Run-Counted r in
      let (at_end, departed) = Run-Placed r (start-Placed workers os) good in
      let (up, few) = at_end (ap is_last over) in
      let (q, _) = departed (omega (arith, length-replicate workers idle)) in
      (
        λ p.
            let (_, kept) = Run-Balances p r good in
            omega (
              arith,
              kept,
              left-start c limit stop p workers os,
              left_end c limit stop p s up few over q left_all,
              no_events p,
            ),
        sym (append-nil s.skipped) ∙ ap (skips_of s.skipped) (sym up) ∙ skips,
        omega (arith, counted, ap length up),
      )
