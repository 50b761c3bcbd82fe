-- ===== src/Log/Whole.antt =====
-- `git-spdx log` from the history and the blobs to the totals.
use git_spdx.Common.{
  ℕ, ◌≡◌, refl, sym, ap, ◌∙◌, Bool, Option, none, some, Option-cases, inl, inr, List, [], ◌∷◌, map,
  if◌then◌else◌, Bytes, All, Error, eof, Result, ok, err, ◌>>=◌, >>=-eq-ok, arith,
}
use git_spdx.Common.Count.{HasCount}
use git_spdx.Common.Dict
use git_spdx.Common.Dict.{Dict}
use git_spdx.Change.{Change, record_legal_change}
use git_spdx.Oid.{ObjectId}
use git_spdx.Index.{
  Index, BlobResult, new_index, lookup, skipped_result, skipped_size, empty_result,
}
use git_spdx.Index.Lookup.{Names, any_names, IsByObject, put_all, lookup-put_all}
use git_spdx.Spool.{fresh, spool_visit, replay, spool_log_history}
use git_spdx.Spool.RoundTrip.{FitsInt}
use git_spdx.Spool.LogHistory.{plain, spool_log_history_lem}
use git_spdx.Scan.{
  Event, skip, send, Feeder, ScanStats, no_stats, handle, match_blob, blob_limit, finish_scan,
}
use git_spdx.Log.{LogOptions, LogState, no_totals, entry, start, log_visit}
use git_spdx.Log.Totals.{Counter, counter}
use git_spdx.Log.Report.{counter-log_visit}
use git_spdx.Log.Due.{Part, name_of, CountsFor, counts_in-HasCount}
use git_spdx.Log.Command.{Surroundings, scanned_index, replayed, scan_history, log_cmd}
use mathlib.Core.List.{foldl}
use mathlib.Core.Path.{subst}

abbrev pub event_oid : Event → Bytes
event_oid (skip oid) = oid
event_oid (send job) = job.oid

-- What the scan finds out by an event.
abbrev pub finding : (Bytes → BlobResult) → Event → BlobResult
finding find (skip oid) = skipped_result skipped_size
finding find (send job) = find job.content

-- The events tell of each object what `f` says.
abbrev pub TellsOf : (Bytes → BlobResult) → (Bytes → BlobResult) → List Event → Type 0
TellsOf find f es = All (λ ev. finding find ev ≡ f (event_oid ev)) es

-- The index answers what `f` says of the blobs of the events, and nothing of others.
abbrev pub IndexOf : (Bytes → BlobResult) → List Event → Index → Type 0
IndexOf f es idx =
    (oid : Bytes) (key : ObjectId)
    → Names oid key
    → lookup idx oid ≡ (if any_names key (map event_oid es) then f oid else empty_result)

foldl-handle :
    (find f : Bytes → BlobResult) (es : List Event) (x : Index) (t : ScanStats)
    → TellsOf find f es
    → (foldl (handle find) (x, t) es).0 ≡ put_all f x (map event_oid es)
unfolding handle
foldl-handle find f [] x t h = refl
foldl-handle find f (skip oid ∷ es) x t (e, h) = foldl-handle find f es _ _ h ∙ rw e refl
foldl-handle find f (send job ∷ es) x t (e, h) = foldl-handle find f es _ _ h ∙ rw e refl

scanned_index-eq :
    (y : Index × ScanStats × ℕ) (failure : Option Error) {idx : Index}
    → scanned_index (y, failure) ≡ ok idx
    → idx ≡ y.0
scanned_index-eq y (some e) h = cc
scanned_index-eq (x, t, total) none h = cc

-- A scan that succeeds had a feeder without an error, and its index is that of the events.
scanned_index-ok :
    (find : Bytes → BlobResult) (fed : Feeder × Option Error) {idx : Index}
    → scanned_index (finish_scan find fed) ≡ ok idx
    → idx ≡ (foldl (handle find) (new_index, no_stats) fed.0.events).0
unfolding finish_scan
scanned_index-ok find (s, some e) h = cc
scanned_index-ok find (s, none) h =
    let (x, t) = foldl (handle find) (new_index, no_stats) s.events in
    scanned_index-eq (x, t, s.total) x.failure h

replayed-ok :
    (r : Result LogState) (failure : Option Error) {s : LogState}
    → replayed (r, failure) ≡ ok s
    → r ≡ ok s
replayed-ok (err e) failure h = cc
replayed-ok (ok x) (some e) h = cc
replayed-ok (ok x) none h = h

counter-none : (k : Counter) → counter k no_totals ≡ 0
counter-none Counter.expressions = refl
counter-none Counter.additions = refl
counter-none Counter.deletions = refl
counter-none Counter.incompletes = refl
counter-none Counter.spdx_added = refl
counter-none Counter.spdx_removed = refl

entry-start : (role : Bytes) → entry role start.totals ≡ no_totals
unfolding Dict.lookup
entry-start role = ground arith

counter-start : (role : Bytes) (k : Counter) → counter k (entry role start.totals) ≡ 0
counter-start role k = ap (counter k) (entry-start role) ∙ counter-none k

-- The limits that the scan has behind a history.
abbrev pub history_limit : (Bytes → Bool) → ℕ → ℕ → List Change → Bytes → ℕ
history_limit is_legal_path max_size legal_size cs =
    blob_limit max_size legal_size (foldl (record_legal_change is_legal_path) [] cs)

module _ (is_legal_path : Bytes → Bool) (o : LogOptions) (max_size legal_size : ℕ)
    (w : Surroundings) (cs : List Change)
    (walked : w.walk (spool_visit is_legal_path w.device) (fresh, [])
      ≡ (foldl (spool_visit is_legal_path w.device) (fresh, []) cs, none)) where
  abbrev limit : Bytes → ℕ
  limit = history_limit is_legal_path max_size legal_size cs

  abbrev spooling : Result (Bytes × Dict Bytes Bool)
  spooling = spool_log_history is_legal_path w.device w.create_error w.walk

  -- The command behind its matcher.
  abbrev behind_matcher : Result LogState
  behind_matcher = spooling >>= λ p.
      scan_history is_legal_path o max_size legal_size w p.1 >>= λ idx. w.shallow >>= λ is_shallow.
      replayed
        (replay (log_visit is_legal_path o idx) (ok start) (record { bytes = p.0; stop = eof }))

  log_cmd-matcher :
      {s : LogState} → log_cmd is_legal_path o max_size legal_size w ≡ ok s → behind_matcher ≡ ok s
  unfolding log_cmd scan_history
  log_cmd-matcher {s} e = elim (Option-cases w.matcher_error) [
    | inl nothing ↦ rw nothing at e
    | inr (x, failed) ↦ absurd (cc (rw failed at e))
  ]

  spool_created :
      (created : Option Error) {v : Bytes × Dict Bytes Bool}
      → spool_log_history is_legal_path w.device created w.walk ≡ ok v
      → spool_log_history is_legal_path w.device none w.walk ≡ ok v
  unfolding spool_log_history
  spool_created none e = e
  spool_created (some x) e = absurd (cc e)

  -- What a run that succeeds has made of the history: an index and the last state.
  abbrev Ran : LogState → Index → Type 0
  Ran s idx =
      (idx
        ≡ (foldl (handle (match_blob w.matcher)) (new_index, no_stats) (w.feed limit).0.events).0)
      × (foldl (log_visit is_legal_path o idx) (ok start) (plain cs) ≡ ok s)

  spooled-Ran :
      (contents : Bytes) (legal : Dict Bytes Bool) (idx : Index) {s : LogState}
      → All FitsInt cs
      → spooling ≡ ok (contents, legal)
      → scan_history is_legal_path o max_size legal_size w legal ≡ ok idx
      → replayed (
          replay
            (log_visit is_legal_path o idx)
            (ok start)
            (record { bytes = contents; stop = eof }))
        ≡ ok s
      → Ran s idx
  unfolding scan_history
  spooled-Ran contents legal idx {s} fits is_spooled is_scanned is_replayed =
      let (same, of_history) =
        spool_log_history_lem is_legal_path w.device w.walk cs walked
          (log_visit is_legal_path o idx) (ok start) contents legal fits
          (spool_created w.create_error is_spooled) in
      (
        scanned_index-ok (match_blob w.matcher) (w.feed limit) (
            ap (λ l. scan_history is_legal_path o max_size legal_size w l) (sym of_history)
            ∙ is_scanned),
        replayed-ok _ none (ap replayed (sym same) ∙ is_replayed),
      )

  -- A run that succeeds has spooled the history, scanned the blobs and replayed the changes.
  log_cmd-Ran :
      {s : LogState}
      → All FitsInt cs
      → log_cmd is_legal_path o max_size legal_size w ≡ ok s
      → (idx : Index) × Ran s idx
  log_cmd-Ran {s} fits e =
      let ((contents, legal), is_spooled, e1) = >>=-eq-ok spooling _ (log_cmd-matcher e) in
      let (idx, is_scanned, e2) =
        >>=-eq-ok (scan_history is_legal_path o max_size legal_size w legal) _ e1 in
      let (is_shallow, answered, e3) = >>=-eq-ok w.shallow _ e2 in
      (idx, spooled-Ran contents legal idx fits is_spooled is_scanned e3)

  -- If the history is walked and the feeder's events tell what `f` says of the blobs, by object, then
  -- a run that succeeds has an index that answers what `f` says of each blob that the feeder told of,
  -- and nothing of the others. Each counter of each group but the commits is the number of the
  -- changes of commits that are no merges which count for it: the group is selected, the path is in
  -- it, no side is a submodule, and by that index a side was skipped or the sides differ.
  pub log_cmd_lem :
      (f : Bytes → BlobResult) {s : LogState}
      → IsByObject f
      → All FitsInt cs
      → TellsOf (match_blob w.matcher) f (w.feed limit).0.events
      → log_cmd is_legal_path o max_size legal_size w ≡ ok s
      → (idx : Index) × IndexOf f (w.feed limit).0.events idx
        × ((part : Part) (k : Counter)
            → HasCount
                (CountsFor is_legal_path o idx part k)
                (plain cs)
                (counter k (entry (name_of part) s.totals)))
  log_cmd_lem f {s} same fits tells e =
      let (idx, by_history) = log_cmd-Ran fits e in
      let told : idx ≡ put_all f new_index (map event_oid (w.feed limit).0.events) =
        by_history.0
        ∙ foldl-handle (match_blob w.matcher) f (w.feed limit).0.events new_index no_stats tells in
      (
        idx,
        λ oid key n. ap (λ x. lookup x oid) told ∙ lookup-put_all f same oid key n _,
        λ part k.
            subst (HasCount (CountsFor is_legal_path o idx part k) (plain cs))
              (omega (
                arith,
                counter-log_visit is_legal_path o idx (name_of part) k (plain cs) start
                    by_history.1,
                counter-start (name_of part) k,
              ))
              (counts_in-HasCount is_legal_path o idx part k (plain cs)),
      )
