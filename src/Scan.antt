-- ===== src/Scan.antt =====
-- Blobs on their way from the object database to the index: `feedBlobsGoGitSerial`, `matchBlob` and
-- `scanBlobsWithLegal` of main.go. The channel hands jobs to workers; what a worker does for a job is
-- one event here, and the order of the events is the one in which the critical sections run. A
-- worker's `put` and its counting are two critical sections on separate state, taken together here.
pub mod Feed
pub mod Batch
pub mod Balance
pub mod Total
use git_spdx.Common.{
  ◌||◌, ℕ, ◌+◌, max, Bool, true, false, not, ◌||◌, ◌&&◌, Option, none, some, List, [], ◌∷◌, ◌++◌,
  map, ltb, leb, ◌==◌, if◌then◌else◌, Bytes, has_byte, bytes_eq, length, Error, Result, ok, err,
}
use git_spdx.Common.Sort.{sort_by}
use git_spdx.Common.Dict
use git_spdx.Common.Dict.{Dict}
use git_spdx.Stream.{is_eof}
use git_spdx.Index.{
  Index, new_index, put, BlobResult, skipped_result, SkipReason, not_skipped, skipped_size,
  skipped_binary, skipped_error,
}
use git_spdx.Tree.{and_then}
use mathlib.Core.List.{foldl}

pub record Job : Type 0 where
  pub oid : Bytes
  pub content : Bytes

-- What the matcher finds in a blob: the expressions, and how many declarations.
pub record Match : Type 0 where
  pub expressions : List Bytes
  pub declarations : ℕ

-- The order of strings.
unfoldable pub is_before : Bytes → Bytes → Bool
is_before a [] = false
is_before [] (c ∷ b) = true
is_before (x ∷ a) (y ∷ b) = ltb x y || x == y && is_before a b

-- `sort.Strings`
unfoldable pub sort_strings : List Bytes → List Bytes
sort_strings ss = sort_by is_before ss

-- `matchBlob`
unfoldable pub match_blob : (Bytes → Result Match) → Bytes → BlobResult
match_blob matcher content =
    if has_byte 0 content then skipped_result skipped_binary else elim (matcher content) [
      | err e ↦ skipped_result skipped_error
      | ok m ↦ record {
        expressions = sort_strings m.expressions;
        skipped = not_skipped;
        spdx = ltb 0 m.declarations;
      }
    ]

-- `limit`: legal blobs may be larger.
unfoldable pub blob_limit : ℕ → ℕ → Dict Bytes Bool → Bytes → ℕ
blob_limit max_size legal_size legal oid = elim (Dict.lookup oid legal) [
  | some true ↦ max max_size legal_size
  | _ ↦ max_size
]

-- The counters of `scanStats` that the workers and `skip` keep.
pub record ScanStats : Type 0 where
  pub matched : ℕ
  pub hits : ℕ
  pub skip_size : ℕ
  pub skip_binary : ℕ
  pub skip_error : ℕ
  pub bytes : ℕ

abbrev pub no_stats : ScanStats
no_stats = record {
  matched = 0;
  hits = 0;
  skip_size = 0;
  skip_binary = 0;
  skip_error = 0;
  bytes = 0;
}

abbrev pub is_binary : SkipReason → Bool
is_binary skipped_binary = true
is_binary _ = false

abbrev pub is_error : SkipReason → Bool
is_error skipped_error = true
is_error _ = false

-- What the feeder tells: a blob is skipped, or it is sent to the workers.
pub data Event : Type 0 where
  skip : Bytes → Event
  send : Job → Event

-- The counters behind the match of a blob.
unfoldable pub count_match : BlobResult → ℕ → ScanStats → ScanStats
count_match r size t = record t {
  matched = t.matched + 1;
  bytes = t.bytes + size;
  hits = t.hits + (if ltb 0 (length r.expressions) then 1 else 0);
  skip_binary = t.skip_binary + (if is_binary r.skipped then 1 else 0);
  skip_error = t.skip_error + (if is_error r.skipped then 1 else 0);
}

-- `skip`, and the body of a worker's loop.
unfoldable pub handle : (Bytes → BlobResult) → Index × ScanStats → Event → Index × ScanStats
handle find (x, t) (skip oid) =
    (put x oid (skipped_result skipped_size), record t { skip_size = t.skip_size + 1 })
handle find (x, t) (send job) =
    let r = find job.content in (put x job.oid r, count_match r (length job.content) t)

-- `jobBatchSize` and `jobBatchBytes`.
abbrev pub job_batch_size : ℕ
job_batch_size = 64

abbrev pub job_batch_bytes : ℕ
job_batch_bytes = 8388608

-- An object of the iterator: what it says of its size, and what reading it gives.
pub record StoredBlob : Type 0 where
  pub oid : Bytes
  pub size : ℕ
  pub content : Bytes
  pub open_error : Option Error
  pub read_error : Option Error
  pub close_error : Option Error

-- The events so far, and the batch that is not sent yet.
pub record Feeder : Type 0 where
  pub events : List Event
  pub total : ℕ
  pub batch : List Job
  pub batch_bytes : ℕ

abbrev pub new_feeder : Feeder
new_feeder = record { events = []; total = 0; batch = []; batch_bytes = 0 }

unfoldable pub flush : Feeder → Feeder
flush s = record s { events = s.events ++ map send s.batch; batch = []; batch_bytes = 0 }

-- A batch that would get too large is sent first.
unfoldable pub make_room : Job → Feeder → Feeder
make_room job s =
    if ltb 0 (length s.batch) && ltb job_batch_bytes (s.batch_bytes + length job.content)
    then flush s
    else s

unfoldable pub put_in : Job → Feeder → Feeder
put_in job s = record s {
  batch = s.batch ++ (job ∷ []);
  batch_bytes = s.batch_bytes + length job.content;
}

-- A full batch is sent.
unfoldable pub flush_full : Feeder → Feeder
flush_full s = if length s.batch == job_batch_size then flush s else s

unfoldable pub append_job : Job → Feeder → Feeder
append_job job s = flush_full (put_in job (make_room job s))

-- The reading of a blob, with its first error.
unfoldable pub read_blob : StoredBlob → Result Bytes
read_blob o = elim o.open_error [
  | some e ↦ err e
  | none ↦ elim o.read_error [
    | some e ↦ err e
    | none ↦ elim o.close_error [ some e ↦ err e | none ↦ ok o.content ]
  ]
]

-- A round of the loop.
unfoldable pub feed_one : (Bytes → ℕ) → StoredBlob → Feeder → Feeder × Option Error
feed_one limit o s =
    let s' = record s { total = s.total + 1 } in
    if ltb (limit o.oid) o.size
    then (record s' { events = s'.events ++ (skip o.oid ∷ []) }, none)
    else elim (read_blob o) [
      | err e ↦ (s', some e)
      | ok content ↦ (append_job (record { oid = o.oid; content = content }) s', none)
    ]

-- `feedBlobsGoGitSerial` on an iterator that gives the objects and ends with `stop`.
unfoldable pub feed_serial : (Bytes → ℕ) → List StoredBlob → Error → Feeder → Feeder × Option Error
feed_serial limit [] stop s = if is_eof stop then (flush s, none) else (s, some stop)
feed_serial limit (o ∷ os) stop s =
    and_then (feed_one limit o s) (λ s'. feed_serial limit os stop s')

-- `scanBlobsWithLegal` behind the feed: the feed's error comes first, then the index's.
unfoldable pub finish_scan :
    (Bytes → BlobResult) → Feeder × Option Error → (Index × ScanStats × ℕ) × Option Error
finish_scan find (s, failure) =
    let (x, t) = foldl (handle find) (new_index, no_stats) s.events in
    ((x, t, s.total), elim failure [ some e ↦ some e | none ↦ x.failure ])

unfoldable pub scan_blobs :
    (Bytes → BlobResult)
    → (Bytes → ℕ)
    → List StoredBlob
    → Error
    → (Index × ScanStats × ℕ) × Option Error
scan_blobs find limit os stop = finish_scan find (feed_serial limit os stop new_feeder)
