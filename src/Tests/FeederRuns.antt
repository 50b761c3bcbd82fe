-- ===== src/Tests/FeederRuns.antt =====
-- A feeder with one worker on two blobs, one of which is too large.
use git_spdx.Common.{
  ℕ, ◌+◌, ◌*◌, ◌≤◌, ◌≡◌, ◌⊎◌, refl, Bool, false, none, List, [], ◌∷◌, Bytes, codes, replicate,
  length, eof, arith,
}
use git_spdx.Common.Count.{count_if, sum_of}
use git_spdx.Stream.{is_eof}
use git_spdx.Scan.{Job, read_blob}
use git_spdx.Scan.Feed.{accepted, rejected}
use git_spdx.Feeders.{
  FoundBlob, objects, batch_size, read_task, read_gogit_blob, Closes, closed, gone, State, start,
  Step, skip_blob, fill_batch, end_empty, hand_batch, send_job, finish_batch, leave, Run, here,
  next, outcome,
}
use git_spdx.Feeders.Sent.{blobs_of}
use git_spdx.Feeders.Ends.{Final, Run-Final}
use git_spdx.Feeders.Progress.{Run-advances}
use git_spdx.Tests.Data.{oid_a}

abbrev limit : Bytes → ℕ
limit oid = 10

abbrev oid_c : Bytes
oid_c = replicate 40 b'c'

abbrev found : Bytes → ℕ → Bytes → FoundBlob
found oid size content = record {
  blob = record {
    oid = oid;
    size = size;
    content = content;
    open_error = none;
    read_error = none;
    close_error = none;
  };
  find_error = none;
  found_size = size;
  in_memory = false;
}

abbrev small : FoundBlob
small = found oid_a 3 (codes "MIT")

abbrev large : FoundBlob
large = found oid_c 11 []

abbrev announced : List FoundBlob
announced = small ∷ large ∷ []

abbrev last_state : State
last_state = record {
  upcoming = [];
  total = 2;
  batch = [];
  phase = closed;
  queue = [];
  workers = gone ∷ [];
  skipped = oid_c ∷ [];
  jobs = record { oid = oid_a; content = codes "MIT" } ∷ [];
  enum_error = none;
  read_error = none;
}

feeder-Run : Run objects limit eof (start 1 announced) 7 last_state
unfolding start batch_size read_task read_gogit_blob read_blob Closes is_eof
feeder-Run =
    next
      (next
        (next
          (next
            (next
              (next (next here (fill_batch small (large ∷ []) refl refl (omega arith) refl))
                (hand_batch false (small ∷ []) [] [] refl refl refl))
              (skip_blob large [] refl refl (omega arith)))
            (end_empty refl refl refl refl))
          (send_job small [] (codes "MIT") [] [] refl refl))
        (finish_batch [] [] refl))
      (leave none [] [] refl refl refl refl)

all_over : Final last_state
unfolding Final sum_of
all_over = (refl, refl)

no_error : (outcome last_state).1 ≡ none
unfolding outcome
no_error = refl

Run-Final_example :
    ((p : Job → Bool)
      → count_if p last_state.jobs ≡ count_if p (accepted limit (blobs_of announced)))
    × (last_state.skipped ≡ rejected limit (blobs_of announced))
    × ((outcome last_state).0 ≡ length announced)
Run-Final_example =
    Run-Final objects limit eof 1 7 announced last_state (omega arith) feeder-Run all_over no_error

Run-advances_example :
    (7 ≤ 8 + 9 * length announced + 1)
    × (Final last_state ⊎ ((t : State) × Step objects limit eof last_state t))
Run-advances_example =
    Run-advances objects limit eof 1 7 announced last_state (omega arith) feeder-Run
