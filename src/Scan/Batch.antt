-- ===== src/Scan/Batch.antt =====
-- How large the batch of the feeder gets.
use git_spdx.Common.{
  ℕ, ◌+◌, ◌≤◌, ◌<◌, ◌≡◌, ◌⊎◌, inl, inr, Option, none, some, List, [], ◌∷◌, ltb, Bytes, length,
  length-append, Error, arith, Bool-cases, Result-cases,
}
use git_spdx.Common.Count.{sum_of, sum_of-append}
use git_spdx.Stream.{is_eof}
use git_spdx.Tree.{and_then}
use git_spdx.Scan.{
  Job, StoredBlob, Feeder, job_batch_size, job_batch_bytes, flush, make_room, put_in, flush_full,
  append_job, read_blob, feed_one, feed_serial,
}

abbrev job_bytes : Job → ℕ
job_bytes j = length j.content

-- Fewer than 64 jobs wait, whose bytes are counted, and more than 8 MiB only in a job of its own.
unfoldable pub IsBounded : Feeder → Type 0
IsBounded s =
    (length s.batch < job_batch_size)
    × (s.batch_bytes ≡ sum_of job_bytes s.batch)
    × ((length s.batch ≤ 1) ⊎ (s.batch_bytes ≤ job_batch_bytes))

-- There is room for the job, or the batch is empty.
HasRoom : Job → Feeder → Type 0
HasRoom job s =
    (length s.batch < job_batch_size)
    × (s.batch_bytes ≡ sum_of job_bytes s.batch)
    × ((length s.batch ≡ 0) ⊎ (s.batch_bytes + job_bytes job ≤ job_batch_bytes))

make_room-HasRoom : (job : Job) (s : Feeder) → IsBounded s → HasRoom job (make_room job s)
unfolding IsBounded HasRoom make_room flush sum_of
make_room-HasRoom job s (few, counted, _) = ground arith

put_in-append_job : (job : Job) (s : Feeder) → HasRoom job s → IsBounded (flush_full (put_in job s))
unfolding IsBounded HasRoom put_in flush_full flush sum_of
put_in-append_job job s (few, counted, room) =
    ground (arith, length-append s.batch (job ∷ []), sum_of-append job_bytes s.batch (job ∷ []))

append_job-IsBounded : (job : Job) (s : Feeder) → IsBounded s → IsBounded (append_job job s)
unfolding append_job
append_job-IsBounded job s b = put_in-append_job job (make_room job s) (make_room-HasRoom job s b)

feed_one-IsBounded :
    (limit : Bytes → ℕ) (o : StoredBlob) (s : Feeder)
    → IsBounded s
    → IsBounded (feed_one limit o s).0
unfolding feed_one
feed_one-IsBounded limit o s b = elim (Bool-cases (ltb (limit o.oid) o.size)) [
  | inl large ↦ rw large (unfold IsBounded in b)
  | inr small ↦ elim (Result-cases (read_blob o)) [
    | inl (content, r) ↦
        rw (small, r)
          (append_job-IsBounded (record { oid = o.oid; content = content })
            (record s { total = s.total + 1 }) (unfold IsBounded in b))
    | inr (x, r) ↦ rw (small, r) (unfold IsBounded in b)
  ]
]

and_then-IsBounded :
    (o : Feeder × Option Error) (next : Feeder → Feeder × Option Error)
    → IsBounded o.0
    → ((s : Feeder) → IsBounded s → IsBounded (next s).0)
    → IsBounded (and_then o next).0
unfolding and_then
and_then-IsBounded (s, none) next b f = f s b
and_then-IsBounded (s, some e) next b f = b

flush-IsBounded : (s : Feeder) → IsBounded (flush s)
unfolding IsBounded flush sum_of
flush-IsBounded s = ground arith

-- Whatever objects come, and wherever the feeder stops, fewer than 64 jobs wait in its batch, and more
-- than 8 MiB wait only in a job of its own.
pub feed_serial-IsBounded :
    (limit : Bytes → ℕ) (os : List StoredBlob) (stop : Error) (s : Feeder)
    → IsBounded s
    → IsBounded (feed_serial limit os stop s).0
unfolding feed_serial
feed_serial-IsBounded limit [] stop s b = elim (Bool-cases (is_eof stop)) [
  | inl f ↦ rw f (flush-IsBounded s)
  | inr f ↦ rw f b
]
feed_serial-IsBounded limit (o ∷ os) stop s b =
    and_then-IsBounded (feed_one limit o s) (λ s'. feed_serial limit os stop s')
      (feed_one-IsBounded limit o s b) (λ s' b'. feed_serial-IsBounded limit os stop s' b')
