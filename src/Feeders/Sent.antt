-- ===== src/Feeders/Sent.antt =====
-- What the parallel feeders send: the jobs of the serial feeder, each as often.
use git_spdx.Common.{
  ℕ, zero, suc, ◌+◌, ◌≤◌, ◌<◌, ◌≡◌, refl, ap, Bool, true, false, Option, none, List, [], ◌∷◌, ◌++◌,
  map, Bytes, length, replicate, Error, ok, arith,
}
use git_spdx.Common.Count.{count_if, sum_of, count_if-append, sum_of-append, sum_of-middle}
use git_spdx.Scan.{Job, StoredBlob, read_blob}
use git_spdx.Scan.Feed.{accepted, job_of}
use git_spdx.Feeders.{
  FoundBlob, Feeding, object_infos, objects, read_gogit_blob, read_info, read_task, Phase, sending,
  closed, Worker, idle, busy, gone, State, once, start, Step, skip_blob, take_blob, fill_batch,
  end_batch, end_empty, end_wrong, send_batch, hand_batch, stop_sending, receive, finish_batch,
  send_job, drop_job, fail_read, leave, is_gone,
}

abbrev pub blobs_of : List FoundBlob → List StoredBlob
blobs_of os = map (λ o. o.blob) os

read_blob-content : (o : StoredBlob) (d : Bytes) → read_blob o ≡ ok d → d ≡ o.content
unfolding read_blob
read_blob-content o d e = ground arith

-- A job carries the content of its blob.
read_task-content :
    (c : Feeding) (o : FoundBlob) (d : Bytes) → read_task c o ≡ ok d → d ≡ (o.blob).content
unfolding read_task read_info read_gogit_blob
read_task-content (object_infos batch buffer) o d e = ground (arith, read_blob-content o.blob d)
read_task-content objects o d e = ground (arith, read_blob-content o.blob d)

pub once-none : (r x e : Option Error) → once (once r x) e ≡ none → once r e ≡ none
once-none r x e h = ground arith

pub sum_of-is_gone : (ws : List Worker) → sum_of is_gone ws ≤ length ws
unfolding sum_of
sum_of-is_gone [] = omega arith
sum_of-is_gone (w ∷ ws) = ground (arith, sum_of-is_gone ws)

pub sum_of-idle : (n : ℕ) → sum_of is_gone (replicate n idle) ≡ 0
unfolding sum_of
sum_of-idle zero = refl
sum_of-idle (suc n) = omega (arith, sum_of-idle n)

-- One worker changes.
pub replaced :
    (f : Worker → ℕ) (ws front : List Worker) (w w' : Worker) (back : List Worker)
    → ws ≡ front ++ w ∷ back
    → sum_of f (front ++ w' ∷ back) + f w ≡ sum_of f ws + f w'
replaced f ws front w w' back e =
    omega (arith, ap (sum_of f) e, sum_of-middle f front w back, sum_of-middle f front w' back)

module _ (c : Feeding) (limit : Bytes → ℕ) (stop : Error) (p : Job → Bool) where
  abbrev held : List FoundBlob → ℕ
  held b = count_if p (map job_of (blobs_of b))

  abbrev held_by : Worker → ℕ
  held_by (busy b) = held b
  held_by _ = 0

  abbrev held_in : Phase → ℕ
  held_in (sending last b) = held b
  held_in _ = 0

  abbrev announced : List FoundBlob → ℕ
  announced os = count_if p (accepted limit (blobs_of os))

  -- The jobs that are still to be sent and pass the test.
  abbrev left : State → ℕ
  left s =
      announced s.upcoming
      + held s.batch
      + held_in s.phase
      + sum_of held s.queue
      + sum_of held_by s.workers

  announced_large :
      (o : FoundBlob) (os : List FoundBlob)
      → limit (o.blob).oid < (o.blob).size
      → announced (o ∷ os) ≡ announced os
  unfolding accepted count_if
  announced_large o os large = ground arith

  announced_small :
      (o : FoundBlob) (os : List FoundBlob)
      → (o.blob).size ≤ limit (o.blob).oid
      → announced (o ∷ os) ≡ held (o ∷ []) + announced os
  unfolding accepted count_if
  announced_small o os small = ground arith

  held-append : (b b' : List FoundBlob) → held (b ++ b') ≡ held b + held b'
  unfolding count_if
  held-append [] b' = omega arith
  held-append (o ∷ b) b' = omega (arith, held-append b b')

  held-cons : (o : FoundBlob) (b : List FoundBlob) → held (o ∷ b) ≡ held (o ∷ []) + held b
  unfolding count_if
  held-cons o b = omega arith

  held_none : held [] ≡ 0
  unfolding count_if
  held_none = refl

  held_empty : (b : List FoundBlob) → length b ≡ 0 → held b ≡ 0
  unfolding count_if
  held_empty [] e = refl
  held_empty (o ∷ b) e = absurd (omega arith)

  queue_single : (b : List FoundBlob) → sum_of held (b ∷ []) ≡ held b
  unfolding sum_of
  queue_single b = omega arith

  queue_cons :
      (b : List FoundBlob) (q : List (List FoundBlob))
      → sum_of held (b ∷ q) ≡ held b + sum_of held q
  unfolding sum_of
  queue_cons b q = refl

  -- Nothing is lost while no error is met.
  unfoldable pub Balances : State → State → Type 0
  Balances s t =
      once t.read_error t.enum_error ≡ none
      → (once s.read_error s.enum_error ≡ none)
        × (count_if p t.jobs + left t ≡ count_if p s.jobs + left s)

  pub Step-Balances : {s t : State} → Step c limit stop s t → Balances s t
  unfolding Balances
  Step-Balances {s} (skip_blob o os ph up large) e =
      (e, omega (arith, ap announced up, announced_large o os large))
  Step-Balances {s} (take_blob o os ph up small few) e =
      (e, omega (arith, ap announced up, announced_small o os small, held-append s.batch (o ∷ [])))
  Step-Balances {s} (fill_batch o os ph up small full) e = (
    e,
    omega (
      arith,
      ap announced up,
      announced_small o os small,
      held-append s.batch (o ∷ []),
      ap held_in ph,
      held_none,
    ),
  )
  Step-Balances {s} (end_batch ph up f some_left) e = (e, omega (arith, ap held_in ph, held_none))
  Step-Balances {s} (end_empty ph up f empty) e = (e, omega (arith, ap held_in ph))
  Step-Balances {s} (end_wrong ph up f) e = ground arith
  Step-Balances {s} (send_batch true b ph room) e =
      (e, omega (arith, ap held_in ph, sum_of-append held s.queue (b ∷ []), queue_single b))
  Step-Balances {s} (send_batch false b ph room) e =
      (e, omega (arith, ap held_in ph, sum_of-append held s.queue (b ∷ []), queue_single b))
  Step-Balances {s} (hand_batch true b front back ph q w) e =
      (e, omega (arith, ap held_in ph, replaced held_by s.workers front idle (busy b) back w))
  Step-Balances {s} (hand_batch false b front back ph q w) e =
      (e, omega (arith, ap held_in ph, replaced held_by s.workers front idle (busy b) back w))
  Step-Balances {s} (stop_sending last b x ph r) e = ground arith
  Step-Balances {s} (receive b queue front back q w) e = (
    e,
    omega (
      arith,
      ap (sum_of held) q,
      queue_cons b queue,
      replaced held_by s.workers front idle (busy b) back w,
    ),
  )
  Step-Balances {s} (finish_batch front back w) e =
      (e, omega (arith, held_none, replaced held_by s.workers front (busy []) idle back w))
  Step-Balances {s} (send_job o os content front back w r) e = (
    e,
    omega (
      arith,
      replaced held_by s.workers front (busy (o ∷ os)) (busy os) back w,
      count_if-append p s.jobs (record { oid = (o.blob).oid; content = content } ∷ []),
      held-cons o os,
      ap (λ d. count_if p (record { oid = (o.blob).oid; content = d } ∷ []))
          (read_task-content c o content r),
    ),
  )
  Step-Balances {s} (drop_job o os content x front back w r d) e = ground arith
  Step-Balances {s} (fail_read o os x front back w r) e = ground arith
  Step-Balances {s} (leave x front back ph q w cl) e = (
    once-none s.read_error x s.enum_error e,
    omega (arith, replaced held_by s.workers front idle gone back w),
  )

  idle_only : (n : ℕ) → sum_of held_by (replicate n idle) ≡ 0
  unfolding sum_of
  idle_only zero = refl
  idle_only (suc n) = omega (arith, idle_only n)

  gone_only : (ws : List Worker) → sum_of is_gone ws ≡ length ws → sum_of held_by ws ≡ 0
  unfolding sum_of
  gone_only [] e = refl
  gone_only (idle ∷ ws) e = absurd (omega (arith, sum_of-is_gone ws))
  gone_only (busy b ∷ ws) e = absurd (omega (arith, sum_of-is_gone ws))
  gone_only (gone ∷ ws) e = omega (arith, gone_only ws (omega arith))

  queue_none : sum_of held [] ≡ 0
  unfolding sum_of
  queue_none = refl

  announced_none : announced [] ≡ 0
  unfolding accepted count_if
  announced_none = refl

  -- At the start everything is announced, and at the end nothing is left.
  pub left-start : (n : ℕ) (os : List FoundBlob) → left (start n os) ≡ announced os
  unfolding start
  left-start n os = omega (arith, idle_only n, queue_none, held_none)

  pub left_end :
      (s : State)
      → s.upcoming ≡ []
      → length s.batch ≡ 0
      → s.phase ≡ closed
      → s.queue ≡ []
      → sum_of is_gone s.workers ≡ length s.workers
      → left s ≡ 0
  left_end s up few over q all_gone = omega (
    arith,
    ap announced up,
    announced_none,
    held_empty s.batch few,
    ap held_in over,
    ap (sum_of held) q,
    queue_none,
    gone_only s.workers all_gone,
  )
