-- ===== src/Spool.antt =====
-- The temporary file of `git-spdx log`: history_spool.go. The history is walked once; the changes
-- of commits that are no merges are written down and read again when all blobs are matched.
pub mod RoundTrip
pub mod Ends
pub mod LogHistory
use git_spdx.Common.{
  ℕ, zero, suc, ◌+◌, ◌-◌, ◌^◌, Bool, true, false, not, Option, none, some, List, [], ◌∷◌, ◌++◌, ltb,
  if◌then◌else◌, Bytes, length, Error, eof, out_of_fuel, field_too_large, Result, ok, err, ◌>>=◌,
}
use git_spdx.Common.Dict.{Dict}
use git_spdx.Stream.{Stream, is_eof, read_uvarint, read_full, put_uvarint}
use git_spdx.Change.{Change, record_legal_change}

-- What the operating system answers: to a write that makes the file's contents these bytes, to the
-- flush and to the seek behind it.
pub record Device : Type 0 where
  pub write_error : Bytes → Option Error
  pub flush_error : Bytes → Option Error
  pub seek_error : Bytes → Option Error

-- `written` is what the buffered writer was given; `err` is the first error of a write.
pub record HistorySpool : Type 0 where
  pub written : Bytes
  pub failure : Option Error

abbrev pub fresh : HistorySpool
fresh = record { written = []; failure = none }

-- `int(^uint(0)>>1)` on a 64-bit machine.
abbrev pub max_int : ℕ
max_int = 2 ^ 63 - 1

abbrev pub spool_fields : Change → List Bytes
spool_fields c =
    c.commit ∷ c.date ∷ c.subject ∷ c.old_oid ∷ c.new_oid ∷ c.path ∷ c.old_mode ∷ c.new_mode ∷ []

module _ (d : Device) where
  unfoldable pub write_spool_string : Bytes → Bytes → Bytes × Option Error
  write_spool_string out value =
      let sized = out ++ put_uvarint (length value) in
      elim (d.write_error sized) [
        | some e ↦ (sized, some e)
        | none ↦ (sized ++ value, d.write_error (sized ++ value))
      ]

  unfoldable pub write_fields : Bytes → List Bytes → Bytes × Option Error
  unfolding write_spool_string
  write_fields out [] = (out, none)
  write_fields out (f ∷ fs) =
      let (out', e) = write_spool_string out f in
      elim e [ some x ↦ (out', some x) | none ↦ write_fields out' fs ]

  unfoldable pub write : HistorySpool → Change → HistorySpool
  unfolding write_fields
  write s c = elim s.failure [
    | some e ↦ s
    | none ↦
        let (out, e) = write_fields s.written (spool_fields c) in
        record { written = out; failure = e }
  ]

  -- The contents that `replay` will read from the start of the file.
  unfoldable pub ready : HistorySpool → Result Bytes
  ready s = elim s.failure [
    | some e ↦ err e
    | none ↦ elim (d.flush_error s.written) [
      | some e ↦ err e
      | none ↦ elim (d.seek_error s.written) [ some e ↦ err e | none ↦ ok s.written ]
    ]
  ]

-- `make([]byte, size)` is taken to find its memory.
unfoldable pub read_spool_string : Stream → Result (Bytes × Stream)
read_spool_string r = do
  (size, r') ← read_uvarint r
  let taken = read_full size r'
  if ltb max_int size then err (field_too_large size) else taken

unfoldable pub read_fields : ℕ → Stream → Result (List Bytes × Stream)
unfolding read_spool_string
read_fields zero r = ok ([], r)
read_fields (suc n) r = do
  (f, r') ← read_spool_string r
  (fs, r'') ← read_fields n r'
  ok (f ∷ fs, r'')

-- `change{commit: commit, date: fields[0], …}`; the seven fields are there, or the read failed.
unfoldable pub spooled_change : Bytes → List Bytes → Change
spooled_change commit (date ∷ subject ∷ old ∷ new ∷ path ∷ old_mode ∷ new_mode ∷ []) = record {
  commit = commit;
  date = date;
  subject = subject;
  old_oid = old;
  new_oid = new;
  path = path;
  old_mode = old_mode;
  new_mode = new_mode;
  merge = false;
}
spooled_change commit fields = record {
  commit = commit;
  date = [];
  subject = [];
  old_oid = [];
  new_oid = [];
  path = [];
  old_mode = [];
  new_mode = [];
  merge = false;
}

-- `visit` is a callback that changes the state `s`. The answer is the last state and the error.
module _ {ℓ} {S : Type ℓ} (visit : S → Change → S) where
  unfoldable pub replay_loop : ℕ → S → Stream → S × Option Error
  unfolding spooled_change
  replay_loop zero s r = (s, some out_of_fuel)
  replay_loop (suc fuel) s r = elim (read_spool_string r) [
    | err e ↦ if is_eof e then (s, none) else (s, some e)
    | ok (commit, r') ↦ elim (read_fields 7 r') [
      | err e ↦ (s, some e)
      | ok (fields, r'') ↦ replay_loop fuel (visit s (spooled_change commit fields)) r''
    ]
  ]

  -- Each round takes a byte at least.
  unfoldable pub replay : S → Stream → S × Option Error
  unfolding replay_loop read_spool_string read_fields
  replay s r = replay_loop (suc (length r.bytes)) s r

abbrev pub SpoolState : Type 0
SpoolState = HistorySpool × Dict Bytes Bool

module _ (is_legal_path : Bytes → Bool) (d : Device) where
  -- The closure that `spoolLogHistory` hands to `walkChanges`.
  unfoldable pub spool_visit : SpoolState → Change → SpoolState
  spool_visit (s, legal) c =
      let legal' = record_legal_change is_legal_path legal c in
      if not c.merge then (write d s c, legal') else (s, legal')

  -- What `spoolLogHistory` makes of the walk's outcome.
  unfoldable pub spooled : SpoolState × Option Error → Result (Bytes × Dict Bytes Bool)
  spooled (state, some e) = err e
  spooled ((s, legal), none) = do contents ← ready d s; ok (contents, legal)

  -- `walk visit state` is `walkChanges`, and the first argument the error of `os.CreateTemp`.
  unfoldable pub spool_log_history :
      Option Error
      → ((SpoolState → Change → SpoolState) → SpoolState → SpoolState × Option Error)
      → Result (Bytes × Dict Bytes Bool)
  unfolding spooled
  spool_log_history (some e) walk = err e
  spool_log_history none walk = spooled (walk spool_visit (fresh, []))
