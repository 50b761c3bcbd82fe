-- ===== src/Scan/Total.antt =====
-- The total of a scan.
use git_spdx.Common.{
  ℕ, suc, ◌+◌, ◌≡◌, ap, ◌∙◌, true, List, [], ◌∷◌, Bytes, length, All, Error, arith,
}
use git_spdx.Stream.{is_eof}
use git_spdx.Index.{Index, BlobResult, new_index}
use git_spdx.Scan.{
  StoredBlob, ScanStats, Event, skip, send, count_match, handle, no_stats, finish_scan, scan_blobs,
}
use git_spdx.Scan.Feed.{IsReadable, feed_serial_lem, length-sent, length-accepted}
use mathlib.Core.List.{foldl}

abbrev handled : Index × ScanStats → ℕ
handled (x, t) = t.matched + t.skip_size

handled-handle :
    (find : Bytes → BlobResult) (s : Index × ScanStats) (ev : Event)
    → handled (handle find s ev) ≡ suc (handled s)
unfolding handle count_match
handled-handle find (x, t) (skip oid) = omega arith
handled-handle find (x, t) (send job) = omega arith

handled-run :
    (find : Bytes → BlobResult) (es : List Event) (s : Index × ScanStats)
    → handled (foldl (handle find) s es) ≡ handled s + length es
handled-run find [] s = omega arith
handled-run find (ev ∷ es) s =
    omega (arith, handled-run find es (handle find s ev), handled-handle find s ev)

-- If every blob is too large or can be read, a scan counts them all, each as matched or as skipped for
-- its size, and the error that is left is the one of the index.
pub scan_blobs_total :
    (find : Bytes → BlobResult) (limit : Bytes → ℕ) (os : List StoredBlob) (stop : Error)
    → All (IsReadable limit) os
    → is_eof stop ≡ true
    → (x : Index) × (t : ScanStats) × (scan_blobs find limit os stop
        ≡ ((x, t, length os), x.failure))
      × (t.matched + t.skip_size ≡ length os)
unfolding scan_blobs finish_scan
scan_blobs_total find limit os stop r f =
    let (s, run, jobs, skipped, total) = feed_serial_lem limit os stop r f in
    let out = foldl (handle find) (new_index, no_stats) s.events in
    (
      out.0,
      out.1,
      ap (finish_scan find) run ∙ ap (λ n. ((out.0, out.1, n), (out.0).failure)) total,
      omega (
        arith,
        handled-run find s.events (new_index, no_stats),
        length-sent s.events,
        length-accepted limit os,
        ap length jobs,
        ap length skipped,
      ),
    )
