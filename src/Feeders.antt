-- ===== src/Feeders.antt =====
-- The feeders that read blobs in parallel: `feedBlobsGoGitParallelObjectInfos`,
-- `feedBlobsGoGitParallelObjects` and `readGoGitBlob` of gogit_tuning.go.
--
-- Both are one system: the function itself enumerates objects and sends them in batches through a
-- channel, and workers receive, read and pass on jobs. A constructor of `Step` is what one of them
-- does between two points at which it may wait; the runs of `Step` are all interleavings. The second
-- feeder sends objects singly, which are batches of one. `cancel` runs with `once`, so the context is
-- cancelled exactly when there is a read error. The receivers of the jobs take every job.
pub mod Sent
pub mod Ends
pub mod Measure
pub mod Progress
use git_spdx.Common.{
  ℕ, suc, ◌+◌, ◌-◌, ◌/◌, ◌≤◌, ◌<◌, max, ◌≡◌, ◌⊎◌, Bool, true, false, not, Option, none, some, List,
  [], ◌∷◌, ◌++◌, ◌==◌, if◌then◌else◌, Bytes, length, replicate, Error, size_changed, size_mismatch,
  Result, ok, err,
}
use git_spdx.Stream.{is_eof}
use git_spdx.Scan.{Job, StoredBlob, read_blob}

-- A blob as the iterator announces it, with what reading it finds: the error of looking it up again,
-- the size that it then has, and whether it is held in memory.
pub record FoundBlob : Type 0 where
  pub blob : StoredBlob
  pub find_error : Option Error
  pub found_size : ℕ
  pub in_memory : Bool

-- `readGoGitBlob`
unfoldable pub read_gogit_blob : FoundBlob → Result Bytes
read_gogit_blob o =
    if o.in_memory
    then (if not (length (o.blob).content == o.found_size)
        then err size_mismatch
        else ok (o.blob).content)
    else read_blob o.blob

-- What a worker does with an object info before it sends the job.
unfoldable pub read_info : FoundBlob → Result Bytes
read_info o = elim o.find_error [
  | some e ↦ err e
  | none ↦ if not (o.found_size == (o.blob).size) then err size_changed else read_gogit_blob o
]

-- The two feeders. `object_infos` has the values of `goGitObjectBatch` and `goGitObjectBuffer`.
pub data Feeding : Type 0 where
  object_infos : ℕ → ℕ → Feeding
  objects : Feeding

-- `feedBlobsGoGitParallel`: `goGitObjectInfos` chooses.
unfoldable pub parallel_feeding : Bool → ℕ → ℕ → Feeding
parallel_feeding by_infos batch buffer = if by_infos then object_infos batch buffer else objects

-- `batchSize`
unfoldable pub batch_size : Feeding → ℕ
batch_size (object_infos batch buffer) = max 1 batch
batch_size objects = 1

-- `bufferedBatches`, where the sum of buffer and batch is an `int`; the channel of the second feeder
-- has no buffer.
unfoldable pub capacity : Feeding → ℕ
capacity (object_infos batch buffer) = (buffer + max 1 batch - 1) / max 1 batch
capacity objects = 0

unfoldable pub read_task : Feeding → FoundBlob → Result Bytes
read_task (object_infos batch buffer) o = read_info o
read_task objects o = read_gogit_blob (record o { found_size = (o.blob).size })

-- The error of a worker's reader when it is closed; the second feeder's workers have no reader.
unfoldable pub Closes : Feeding → Option Error → Type 0
Closes (object_infos batch buffer) x = Unit
Closes objects x = x ≡ none

-- Where the enumeration stands: in its loop, at a `select` that sends a batch, the last one or
-- another, or behind `close(objects)`.
pub data Phase : Type 0 where
  enumerating : Phase
  sending : Bool → List FoundBlob → Phase
  closed : Phase

-- Behind a batch that is sent.
abbrev pub after_send : Bool → Phase
after_send last = if last then closed else enumerating

-- Behind a send that is given up: `break enumerate` leaves a full batch, which the first feeder tries
-- to send once more.
abbrev pub after_stop : Feeding → Bool → List FoundBlob → Phase
after_stop (object_infos batch buffer) false b = sending true b
after_stop (object_infos batch buffer) true b = closed
after_stop objects last b = closed

pub data Worker : Type 0 where
  idle : Worker
  busy : List FoundBlob → Worker
  gone : Worker

-- `stop` is the error with which the iterator ends. Only the first error is kept.
pub record State : Type 0 where
  pub upcoming : List FoundBlob
  pub total : ℕ
  pub batch : List FoundBlob
  pub phase : Phase
  pub queue : List (List FoundBlob)
  pub workers : List Worker
  pub skipped : List Bytes
  pub jobs : List Job
  pub enum_error : Option Error
  pub read_error : Option Error

-- `once.Do(func() { readErr = err; cancel() })`
abbrev pub once : Option Error → Option Error → Option Error
once (some e) x = some e
once none x = x

unfoldable pub start : ℕ → List FoundBlob → State
start count os = record {
  upcoming = os;
  total = 0;
  batch = [];
  phase = enumerating;
  queue = [];
  workers = replicate count idle;
  skipped = [];
  jobs = [];
  enum_error = none;
  read_error = none;
}

module _ (c : Feeding) (limit : Bytes → ℕ) (stop : Error) where
  pub data Step (s : State) : State → Type 0 where
    -- The enumeration.
    skip_blob :
        (o : FoundBlob) (os : List FoundBlob)
        → s.phase ≡ enumerating
        → s.upcoming ≡ o ∷ os
        → limit (o.blob).oid < (o.blob).size
        → Step s (record s {
          upcoming = os;
          total = s.total + 1;
          skipped = s.skipped ++ ((o.blob).oid ∷ []);
        })
    take_blob :
        (o : FoundBlob) (os : List FoundBlob)
        → s.phase ≡ enumerating
        → s.upcoming ≡ o ∷ os
        → (o.blob).size ≤ limit (o.blob).oid
        → suc (length s.batch) < batch_size c
        → Step s (record s { upcoming = os; total = s.total + 1; batch = s.batch ++ (o ∷ []) })
    fill_batch :
        (o : FoundBlob) (os : List FoundBlob)
        → s.phase ≡ enumerating
        → s.upcoming ≡ o ∷ os
        → (o.blob).size ≤ limit (o.blob).oid
        → suc (length s.batch) ≡ batch_size c
        → Step s (record s {
          upcoming = os;
          total = s.total + 1;
          batch = [];
          phase = sending false (s.batch ++ (o ∷ []));
        })
    end_batch :
        s.phase ≡ enumerating
        → s.upcoming ≡ []
        → is_eof stop ≡ true
        → 0 < length s.batch
        → Step s (record s { batch = []; phase = sending true s.batch })
    end_empty :
        s.phase ≡ enumerating
        → s.upcoming ≡ []
        → is_eof stop ≡ true
        → length s.batch ≡ 0
        → Step s (record s { phase = closed })
    end_wrong :
        s.phase ≡ enumerating
        → s.upcoming ≡ []
        → is_eof stop ≡ false
        → Step s (record s { phase = closed; enum_error = some stop })
    -- The `select` that sends a batch: into the buffer, to a worker that waits, or not at all.
    send_batch :
        (last : Bool) (b : List FoundBlob)
        → s.phase ≡ sending last b
        → length s.queue < capacity c
        → Step s (record s { queue = s.queue ++ (b ∷ []); phase = after_send last })
    hand_batch :
        (last : Bool) (b : List FoundBlob) (front back : List Worker)
        → s.phase ≡ sending last b
        → s.queue ≡ []
        → s.workers ≡ front ++ idle ∷ back
        → Step s (record s { workers = front ++ busy b ∷ back; phase = after_send last })
    stop_sending :
        (last : Bool) (b : List FoundBlob) (e : Error)
        → s.phase ≡ sending last b
        → s.read_error ≡ some e
        → Step s (record s { phase = after_stop c last b })
    -- A worker.
    receive :
        (b : List FoundBlob) (queue : List (List FoundBlob)) (front back : List Worker)
        → s.queue ≡ b ∷ queue
        → s.workers ≡ front ++ idle ∷ back
        → Step s (record s { queue = queue; workers = front ++ busy b ∷ back })
    finish_batch :
        (front back : List Worker)
        → s.workers ≡ front ++ busy [] ∷ back
        → Step s (record s { workers = front ++ idle ∷ back })
    send_job :
        (o : FoundBlob) (os : List FoundBlob) (content : Bytes) (front back : List Worker)
        → s.workers ≡ front ++ busy (o ∷ os) ∷ back
        → read_task c o ≡ ok content
        → Step s (record s {
          workers = front ++ busy os ∷ back;
          jobs = s.jobs ++ (record { oid = (o.blob).oid; content = content } ∷ []);
        })
    drop_job :
        (o : FoundBlob) (os : List FoundBlob) (content : Bytes) (e : Error)
        (front back : List Worker)
        → s.workers ≡ front ++ busy (o ∷ os) ∷ back
        → read_task c o ≡ ok content
        → s.read_error ≡ some e
        → Step s (record s { workers = front ++ gone ∷ back })
    fail_read :
        (o : FoundBlob) (os : List FoundBlob) (e : Error) (front back : List Worker)
        → s.workers ≡ front ++ busy (o ∷ os) ∷ back
        → read_task c o ≡ err e
        → Step s
            (record s { workers = front ++ gone ∷ back; read_error = once s.read_error (some e) })
    leave :
        (x : Option Error) (front back : List Worker)
        → s.phase ≡ closed
        → s.queue ≡ []
        → s.workers ≡ front ++ idle ∷ back
        → Closes c x
        → Step s (record s { workers = front ++ gone ∷ back; read_error = once s.read_error x })

  -- Runs, with the number of their steps.
  pub data Run (s : State) : ℕ → State → Type 0 where
    here : Run s 0 s
    next : {n : ℕ} {t u : State} → Run s n t → Step t u → Run s (suc n) u

-- The workers that have left.
abbrev pub is_gone : Worker → ℕ
is_gone gone = 1
is_gone _ = 0

-- The feeder's results: the total, and the read error before the one of the enumeration.
unfoldable pub outcome : State → ℕ × Option Error
outcome s = (s.total, once s.read_error s.enum_error)
