-- ===== src/Tests/ScanRuns.antt =====
-- A scan of three blobs: one that matches, a binary one and one that is too large.
use git_spdx.Common.{
  ℕ, ◌+◌, ◌≡◌, inl, inr, refl, true, none, List, [], ◌∷◌, Bytes, codes, replicate, length, All, eof,
  Result, ok, arith,
}
use git_spdx.Common.Count.{sum_of}
use git_spdx.Stream.{is_eof}
use git_spdx.Oid.{parse_oid, hex_decode, hex_digit}
use git_spdx.Index.{Index, new_index}
use git_spdx.Scan.{
  Match, StoredBlob, Feeder, ScanStats, Event, skip, send, handle, match_blob, no_stats, new_feeder,
  feed_serial, scan_blobs,
}
use git_spdx.Scan.Feed.{sent, skips, accepted, rejected, IsReadable, feed_serial_lem}
use git_spdx.Scan.Batch.{IsBounded, feed_serial-IsBounded}
use git_spdx.Scan.Balance.{IsNamed, IsBalanced, scan-IsBalanced}
use git_spdx.Scan.Total.{scan_blobs_total}
use git_spdx.Tests.Data.{oid_a, oid_b}
use mathlib.Core.List.{foldl}

abbrev matcher : Bytes → Result Match
matcher content = ok (record { expressions = codes "MIT" ∷ []; declarations = 1 })

abbrev limit : Bytes → ℕ
limit oid = 10

abbrev stored : Bytes → ℕ → Bytes → StoredBlob
stored oid size content = record {
  oid = oid;
  size = size;
  content = content;
  open_error = none;
  read_error = none;
  close_error = none;
}

abbrev blobs : List StoredBlob
blobs =
    stored oid_a 3 (codes "MIT") ∷ stored oid_b 1 (0 ∷ []) ∷ stored (replicate 40 b'c') 11 [] ∷ []

blobs-IsReadable : All (IsReadable limit) blobs
unfolding IsReadable
blobs-IsReadable = (inr (refl, refl, refl), (inr (refl, refl, refl), (inl (omega arith), tt)))

eof_runs : is_eof eof ≡ true
unfolding is_eof
eof_runs = refl

feed_serial_lem_example :
    (s : Feeder) × (feed_serial limit blobs eof new_feeder ≡ (s, none))
    × (sent s.events ≡ accepted limit blobs)
    × (skips s.events ≡ rejected limit blobs)
    × (s.total ≡ length blobs)
feed_serial_lem_example = feed_serial_lem limit blobs eof blobs-IsReadable eof_runs

empty-IsBounded : IsBounded new_feeder
unfolding IsBounded sum_of
empty-IsBounded = omega arith

feed_serial-IsBounded_example : IsBounded (feed_serial limit blobs eof new_feeder).0
feed_serial-IsBounded_example = feed_serial-IsBounded limit blobs eof new_feeder empty-IsBounded

-- The binary blob is done first.
abbrev finished_events : List Event
finished_events =
    send (record { oid = oid_b; content = 0 ∷ [] })
    ∷ skip (replicate 40 b'c')
    ∷ send (record { oid = oid_a; content = codes "MIT" })
    ∷ []

events-IsNamed : All IsNamed finished_events
unfolding IsNamed parse_oid hex_decode hex_digit
events-IsNamed = ((_, refl), ((_, refl), ((_, refl), tt)))

scan-IsBalanced_example :
    IsBalanced 3 (foldl (handle (match_blob matcher)) (new_index, no_stats) finished_events)
scan-IsBalanced_example = scan-IsBalanced matcher finished_events events-IsNamed

scan_blobs_total_example :
    (x : Index) × (t : ScanStats) × (scan_blobs (match_blob matcher) limit blobs eof
      ≡ ((x, t, 3), x.failure))
    × (t.matched + t.skip_size ≡ 3)
scan_blobs_total_example =
    scan_blobs_total (match_blob matcher) limit blobs eof blobs-IsReadable eof_runs
