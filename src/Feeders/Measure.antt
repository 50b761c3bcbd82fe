-- ===== src/Feeders/Measure.antt =====
-- What a parallel feeder has still to do gets less with every step.
use git_spdx.Common.{
  ℕ, zero, suc, ◌+◌, ◌*◌, ◌≤◌, ◌<◌, ◌≡◌, ◌⊎◌, inl, inr, refl, ap, Bool, true, false, Option, none,
  List, [], ◌∷◌, Bytes, length, length-append, Error, arith, replicate,
}
use git_spdx.Common.Count.{sum_of, sum_of-append}
use git_spdx.Feeders.{
  FoundBlob, Feeding, object_infos, objects, batch_size, Closes, Phase, enumerating, sending,
  closed, after_stop, Worker, idle, busy, gone, State, once, start, Step, skip_blob, take_blob,
  fill_batch, end_batch, end_empty, end_wrong, send_batch, hand_batch, stop_sending, receive,
  finish_batch, send_job, drop_job, fail_read, leave, Run, here, next,
}
use git_spdx.Feeders.Sent.{replaced}
use git_spdx.Feeders.Ends.{is_last}

-- Steps that may still come.
abbrev batch_weight : List FoundBlob → ℕ
batch_weight b = 4 + 2 * length b

abbrev worker_weight : Worker → ℕ
worker_weight idle = 1
worker_weight (busy b) = 4 + 2 * length b
worker_weight gone = 0

abbrev phase_weight : Phase → ℕ
phase_weight enumerating = 8
phase_weight (sending false b) = 14 + 2 * length b
phase_weight (sending true b) = 6 + 2 * length b
phase_weight closed = 0

abbrev measure : State → ℕ
measure s =
    9 * length s.upcoming
    + 2 * length s.batch
    + phase_weight s.phase
    + sum_of batch_weight s.queue
    + sum_of worker_weight s.workers

queue_weight_single : (b : List FoundBlob) → sum_of batch_weight (b ∷ []) ≡ batch_weight b
unfolding sum_of
queue_weight_single b = omega arith

queue_weight_cons :
    (b : List FoundBlob) (q : List (List FoundBlob))
    → sum_of batch_weight (b ∷ q) ≡ batch_weight b + sum_of batch_weight q
unfolding sum_of
queue_weight_cons b q = refl

pub Phase-cases :
    (p : Phase)
    → (p ≡ enumerating) ⊎ ((q : Bool × List FoundBlob) × (p ≡ sending q.0 q.1)) ⊎ (p ≡ closed)
Phase-cases enumerating = inl refl
Phase-cases (sending last b) = inr (inl ((last, b), refl))
Phase-cases closed = inr (inr refl)

pub once_both : (r x : Option Error) → r ≡ none → x ≡ none → once r x ≡ none
once_both r x a b = ground arith

idle_weight : (n : ℕ) → sum_of worker_weight (replicate n idle) ≡ n
unfolding sum_of
idle_weight zero = refl
idle_weight (suc n) = omega (arith, idle_weight n)

pub measure-start : (n : ℕ) (os : List FoundBlob) → measure (start n os) ≡ 8 + 9 * length os + n
unfolding start sum_of
measure-start n os = omega (arith, idle_weight n)

pub start_workers : (n : ℕ) (os : List FoundBlob) → (start n os).workers ≡ replicate n idle
unfolding start
start_workers n os = refl

pub Closes-none : (c : Feeding) → Closes c none
unfolding Closes
Closes-none (object_infos n k) = tt
Closes-none objects = refl

after_stop_weight :
    (c : Feeding) (last : Bool) (b : List FoundBlob)
    → phase_weight (after_stop c last b) < phase_weight (sending last b)
after_stop_weight (object_infos n k) true b = omega arith
after_stop_weight (object_infos n k) false b = omega arith
after_stop_weight objects true b = omega arith
after_stop_weight objects false b = omega arith

pub after_stop_last :
    (c : Feeding) (last : Bool) (b : List FoundBlob) → is_last (after_stop c last b) ≡ true
after_stop_last (object_infos n k) true b = refl
after_stop_last (object_infos n k) false b = refl
after_stop_last objects last b = refl

pub batch_size-pos : (c : Feeding) → 0 < batch_size c
unfolding batch_size
batch_size-pos (object_infos n k) = omega arith
batch_size-pos objects = omega arith

module _ (c : Feeding) (limit : Bytes → ℕ) (stop : Error) where
  Step-measure : {s t : State} → Step c limit stop s t → measure t < measure s
  Step-measure {s} (skip_blob o os ph up large) = omega (arith, ap length up)
  Step-measure {s} (take_blob o os ph up small few) =
      omega (arith, ap length up, length-append s.batch (o ∷ []))
  Step-measure {s} (fill_batch o os ph up small full) =
      omega (arith, ap length up, length-append s.batch (o ∷ []), ap phase_weight ph)
  Step-measure {s} (end_batch ph up f some_left) = omega (arith, ap phase_weight ph)
  Step-measure {s} (end_empty ph up f empty) = omega (arith, ap phase_weight ph)
  Step-measure {s} (end_wrong ph up f) = omega (arith, ap phase_weight ph)
  Step-measure {s} (send_batch true b ph room) = omega (
    arith,
    ap phase_weight ph,
    sum_of-append batch_weight s.queue (b ∷ []),
    queue_weight_single b,
  )
  Step-measure {s} (send_batch false b ph room) = omega (
    arith,
    ap phase_weight ph,
    sum_of-append batch_weight s.queue (b ∷ []),
    queue_weight_single b,
  )
  Step-measure {s} (hand_batch true b front back ph q w) =
      omega (arith, ap phase_weight ph, replaced worker_weight s.workers front idle (busy b) back w)
  Step-measure {s} (hand_batch false b front back ph q w) =
      omega (arith, ap phase_weight ph, replaced worker_weight s.workers front idle (busy b) back w)
  Step-measure {s} (stop_sending last b x ph r) =
      omega (arith, ap phase_weight ph, after_stop_weight c last b)
  Step-measure {s} (receive b queue front back q w) = omega (
    arith,
    ap (sum_of batch_weight) q,
    queue_weight_cons b queue,
    replaced worker_weight s.workers front idle (busy b) back w,
  )
  Step-measure {s} (finish_batch front back w) =
      omega (arith, replaced worker_weight s.workers front (busy []) idle back w)
  Step-measure {s} (send_job o os content front back w r) =
      omega (arith, replaced worker_weight s.workers front (busy (o ∷ os)) (busy os) back w)
  Step-measure {s} (drop_job o os content x front back w r d) =
      omega (arith, replaced worker_weight s.workers front (busy (o ∷ os)) gone back w)
  Step-measure {s} (fail_read o os x front back w r) =
      omega (arith, replaced worker_weight s.workers front (busy (o ∷ os)) gone back w)
  Step-measure {s} (leave x front back ph q w cl) =
      omega (arith, replaced worker_weight s.workers front idle gone back w)

  pub Run-measure : {s t : State} {n : ℕ} → Run c limit stop s n t → n + measure t ≤ measure s
  Run-measure here = omega arith
  Run-measure (next r st) = omega (arith, Run-measure r, Step-measure st)
