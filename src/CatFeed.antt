-- ===== src/CatFeed.antt =====
-- The feeder of the git backend: `feedBlobsCatFile` of main.go, as a step relation of `listBlobs` and
-- the readers, each with a process of its own.
--
-- `serve` is what `git cat-file --batch` writes for an object that it is asked for. The receivers of
-- the jobs take every job.
pub mod Told
pub mod Kept
pub mod Placed
pub mod Ends
pub mod Progress
use git_spdx.Common.{
  ℕ, zero, suc, ◌+◌, ◌<◌, ◌≡◌, Bool, true, false, Option, none, some, List, [], ◌∷◌, ◌++◌, ltb,
  ◌==◌, max, if◌then◌else◌, Bytes, length, replicate, Error, Result, ok, err,
}
use git_spdx.Stream.{Stream}
use git_spdx.Scan.{Event, skip}
use git_spdx.Options.{Whole, natural, negative}
use git_spdx.CatFile.{Answer, read, answer_events}
use git_spdx.CatFile.Listing.{ListedBlob, list_blobs}

-- The number of the readers: the option, or else the number of processors, and one at least.
abbrev pub shard_count : ℕ → ℕ → ℕ
shard_count readers processors = max 1 (if readers == 0 then processors else readers)

-- `jobQueueSize`
abbrev pub job_queue_size : ℕ
job_queue_size = 256

-- `size > limit`
abbrev pub is_larger : Whole → ℕ → Bool
is_larger (natural n) limit = ltb limit n
is_larger (negative n) limit = false

-- What `listBlobs` calls back for and ends with, as long as the callback has no error.
unfoldable pub listing : Stream → Option Error → List ListedBlob × Option Error
listing r wait_error =
    let out = list_blobs (λ bs b. (bs ++ (b ∷ []), none)) [] r wait_error in ((out.0).0, out.1)

-- Where `listBlobs` stands: between two callbacks, in the `select` of one, or behind `close(blobs)`.
pub data Phase : Type 0 where
  listed : Phase
  offering : ListedBlob → Phase
  closed : Phase

-- A goroutine: in front of `newCatFile`, at the channel, at `read`, or behind its end. Its stream is
-- what its process has written and it has not read.
pub data Reader : Type 0 where
  opening : Reader
  waiting : Stream → Reader
  asking : ListedBlob → Stream → Reader
  gone : Reader

-- `failures` are the errors in `errs`: the context is cancelled exactly if there is one.
pub record State : Type 0 where
  pub upcoming : List ListedBlob
  pub list_end : Option Error
  pub phase : Phase
  pub queue : List ListedBlob
  pub readers : List Reader
  pub events : List Event
  pub total : ℕ
  pub failures : List Error
  pub list_error : Option Error

unfoldable pub start : ℕ → List ListedBlob × Option Error → State
start shards (blobs, list_end) = record {
  upcoming = blobs;
  list_end = list_end;
  phase = listed;
  queue = [];
  readers = replicate shards opening;
  events = [];
  total = 0;
  failures = [];
  list_error = none;
}

module _ (serve : Bytes → Bytes) (limit : Bytes → ℕ) where
  -- `cat.read`: the request, which may fail, and what the process writes for it.
  unfoldable pub ask : Option Error → ListedBlob → Stream → Result (Answer × Stream)
  ask asked b r =
      read asked (limit b.oid) (record { bytes = r.bytes ++ serve b.oid; stop = r.stop })

  pub data Step (s : State) : State → Type 0 where
    -- The callback of `listBlobs`.
    skip_large :
        (b : ListedBlob) (bs : List ListedBlob)
        → s.phase ≡ listed
        → s.upcoming ≡ b ∷ bs
        → is_larger b.size (limit b.oid) ≡ true
        → Step s (record s {
          upcoming = bs;
          total = s.total + 1;
          events = s.events ++ (skip b.oid ∷ []);
        })
    offer_blob :
        (b : ListedBlob) (bs : List ListedBlob)
        → s.phase ≡ listed
        → s.upcoming ≡ b ∷ bs
        → is_larger b.size (limit b.oid) ≡ false
        → Step s (record s { upcoming = bs; total = s.total + 1; phase = offering b })
    send_blob :
        (b : ListedBlob)
        → s.phase ≡ offering b
        → length s.queue < job_queue_size
        → Step s (record s { queue = s.queue ++ (b ∷ []); phase = listed })
    -- `ctx.Err()` is an error.
    give_up :
        (b : ListedBlob) (x f : Error) (fs : List Error)
        → s.phase ≡ offering b
        → s.failures ≡ f ∷ fs
        → Step s (record s { phase = closed; list_error = some x })
    end_list :
        s.phase ≡ listed
        → s.upcoming ≡ []
        → Step s (record s { phase = closed; list_error = s.list_end })
    -- The process that lists is killed: some of its lines come yet, of which the last may be cut.
    kill_list :
        (bs : List ListedBlob) (x f : Error) (fs : List Error)
        → s.phase ≡ listed
        → s.failures ≡ f ∷ fs
        → Step s (record s { upcoming = bs; list_end = some x })
    -- A reader.
    open_process :
        (stop : Error) (front back : List Reader)
        → s.readers ≡ front ++ opening ∷ back
        → Step s
            (record s { readers = front ++ waiting (record { bytes = []; stop = stop }) ∷ back })
    fail_open :
        (x : Error) (front back : List Reader)
        → s.readers ≡ front ++ opening ∷ back
        → Step s (record s { readers = front ++ gone ∷ back; failures = s.failures ++ (x ∷ []) })
    receive :
        (b : ListedBlob) (queue : List ListedBlob) (r : Stream) (front back : List Reader)
        → s.queue ≡ b ∷ queue
        → s.readers ≡ front ++ waiting r ∷ back
        → Step s (record s { queue = queue; readers = front ++ asking b r ∷ back })
    take_answer :
        (b : ListedBlob) (r r' : Stream) (asked : Option Error) (a : Answer)
        (front back : List Reader)
        → s.readers ≡ front ++ asking b r ∷ back
        → ask asked b r ≡ ok (a, r')
        → Step s (record s {
          readers = front ++ waiting r' ∷ back;
          events = s.events ++ answer_events (limit b.oid) b.oid a;
        })
    fail_read :
        (b : ListedBlob) (r : Stream) (asked : Option Error) (x : Error) (front back : List Reader)
        → s.readers ≡ front ++ asking b r ∷ back
        → ask asked b r ≡ err x
        → Step s (record s { readers = front ++ gone ∷ back; failures = s.failures ++ (x ∷ []) })
    leave :
        (r : Stream) (front back : List Reader)
        → s.phase ≡ closed
        → s.queue ≡ []
        → s.readers ≡ front ++ waiting r ∷ back
        → Step s (record s { readers = front ++ gone ∷ back })

  pub data Run (s : State) : State → Type 0 where
    here : Run s s
    next : {t u : State} → Run s t → Step t u → Run s u

-- The error of `feedBlobsCatFile`: the first one in `errs`, or else the one of `listBlobs`.
unfoldable pub outcome : State → Option Error
outcome s = elim s.failures [ [] ↦ s.list_error | x ∷ xs ↦ some x ]
