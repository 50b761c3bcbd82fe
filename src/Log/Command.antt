-- ===== src/Log/Command.antt =====
-- `logCmd` of history.go: the spool, the scan and the replay, put together.
use git_spdx.Common.{ℕ, Bool, Option, none, some, Bytes, Error, eof, Result, ok, err, ◌>>=◌}
use git_spdx.Common.Dict.{Dict}
use git_spdx.Change.{Change}
use git_spdx.Index.{Index}
use git_spdx.Spool.{Device, SpoolState, replay, spool_log_history}
use git_spdx.Scan.{Match, Feeder, ScanStats, match_blob, blob_limit, finish_scan}
use git_spdx.Log.{LogOptions, LogState, start, log_visit}

-- What the command is given from outside: the errors of `licenses.New` and `os.CreateTemp`, the walk
-- over the history, the backend's feeder with the limit, and the answer of `isShallow`.
pub record Surroundings : Type 1 where
  pub matcher_error : Option Error
  pub matcher : Bytes → Result Match
  pub create_error : Option Error
  pub device : Device
  pub walk : (SpoolState → Change → SpoolState) → SpoolState → SpoolState × Option Error
  pub feed : (Bytes → ℕ) → Feeder × Option Error
  pub shallow : Result Bool

-- The index of a scan that succeeds.
abbrev pub scanned_index : (Index × ScanStats × ℕ) × Option Error → Result Index
scanned_index (result, some e) = err e
scanned_index ((x, t, total), none) = ok x

-- A panic of the visitor comes before any error of the replay.
abbrev pub replayed : Result LogState × Option Error → Result LogState
replayed (err e, failure) = err e
replayed (ok s, some e) = err e
replayed (ok s, none) = ok s

module _ (is_legal_path : Bytes → Bool) (o : LogOptions) (max_size legal_size : ℕ)
    (w : Surroundings) where
  -- The scan, with the legal blobs in mind.
  unfoldable pub scan_history : Dict Bytes Bool → Result Index
  scan_history legal =
      scanned_index
        (finish_scan (match_blob w.matcher) (w.feed (blob_limit max_size legal_size legal)))

  -- The command up to the last lines; a shallow clone gets a warning and is replayed all the same.
  unfoldable pub log_cmd : Result LogState
  log_cmd = elim w.matcher_error [
    | some e ↦ err e
    | none ↦ do
      (contents, legal) ← spool_log_history is_legal_path w.device w.create_error w.walk
      idx ← scan_history legal
      is_shallow ← w.shallow
      replayed (
          replay (log_visit is_legal_path o idx) (ok start)
            (record { bytes = contents; stop = eof }))
  ]
