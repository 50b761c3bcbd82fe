-- ===== src/Scan/Balance.antt =====
-- The counters of a scan, in any order of the events.
use git_spdx.Common.{
  has_byte, ℕ, suc, ◌+◌, ◌≤◌, ◌≡◌, ◌⊎◌, inl, inr, refl, List, [], ◌∷◌, if◌then◌else◌, Bytes, length,
  All, Result, ok, arith, Bool-cases, Result-cases,
}
use git_spdx.Oid.{parse_oid}
use git_spdx.Index.{
  Index, put, BlobResult, skipped_result, not_skipped, skipped_size, skipped_binary, skipped_error,
  is_skipped, is_implicit,
}
use git_spdx.Scan.{Match, ScanStats, Event, skip, send, match_blob, count_match, handle, no_stats}
use git_spdx.Index.{new_index}
use mathlib.Core.List.{foldl}
use mathlib.Core.Path.{subst}

-- Each event is counted, each match at most once as a hit or as one of the reasons, and the index has
-- counted what the scan has.
unfoldable pub IsBalanced : ℕ → Index × ScanStats → Type 0
IsBalanced n (x, t) =
    (t.matched + t.skip_size ≡ n)
    × (t.hits + t.skip_binary + t.skip_error ≤ t.matched)
    × (x.skipped ≡ t.skip_size + t.skip_binary + t.skip_error)

-- A result that matchBlob can give: no expressions where the blob is skipped, and not for its size.
unfoldable IsMatch : BlobResult → Type 0
IsMatch r =
    (r.skipped ≡ not_skipped)
    ⊎ ((length r.expressions ≡ 0) × ((r.skipped ≡ skipped_binary) ⊎ (r.skipped ≡ skipped_error)))

match_blob-IsMatch :
    (matcher : Bytes → Result Match) (content : Bytes) → IsMatch (match_blob matcher content)
unfolding IsMatch match_blob
match_blob-IsMatch matcher content = elim (Bool-cases (has_byte 0 content)) [
  | inl b ↦ rw b (inr (refl, inl refl))
  | inr b ↦ elim (Result-cases (matcher content)) [
    | inl (m, e) ↦ rw (b, e) (inl refl)
    | inr (x, e) ↦ rw (b, e) (inr (refl, inr refl))
  ]
]

-- The name of a blob is an object ID.
unfoldable pub IsNamed : Event → Type 0
IsNamed (skip oid) = (key : Bytes) × (parse_oid oid ≡ ok key)
IsNamed (send job) = (key : Bytes) × (parse_oid job.oid ≡ ok key)

skipped-put :
    (x : Index) (oid : Bytes) (r : BlobResult) (key : Bytes)
    → parse_oid oid ≡ ok key
    → (put x oid r).skipped ≡ x.skipped + (if is_skipped r.skipped then 1 else 0)
unfolding put is_implicit
skipped-put x oid r key p = ground (arith, p)

handle-IsBalanced :
    (find : Bytes → BlobResult) (n : ℕ) (x : Index) (t : ScanStats) (ev : Event)
    → ((content : Bytes) → IsMatch (find content))
    → IsNamed ev
    → IsBalanced n (x, t)
    → IsBalanced (suc n) (handle find (x, t) ev)
unfolding IsBalanced handle count_match IsNamed IsMatch
handle-IsBalanced find n x t (skip oid) good (key, p) b =
    ground (arith, skipped-put x oid (skipped_result skipped_size) key p)
handle-IsBalanced find n x t (send job) good (key, p) b =
    ground (arith, skipped-put x job.oid (find job.content) key p, good job.content)

run-IsBalanced :
    (find : Bytes → BlobResult) (n : ℕ) (es : List Event) (s : Index × ScanStats)
    → ((content : Bytes) → IsMatch (find content))
    → All IsNamed es
    → IsBalanced n s
    → IsBalanced (n + length es) (foldl (handle find) s es)
run-IsBalanced find n [] s good named b = subst (λ k. IsBalanced k s) (omega arith) b
run-IsBalanced find n (ev ∷ es) (x, t) good (now, named) b =
    subst (λ k. IsBalanced k (foldl (handle find) (handle find (x, t) ev) es)) (omega arith)
      (run-IsBalanced find (suc n) es (handle find (x, t) ev) good named
        (handle-IsBalanced find n x t ev good now b))

start-IsBalanced : IsBalanced 0 (new_index, no_stats)
unfolding IsBalanced
start-IsBalanced = omega arith

-- Whatever the order in which the workers finish, if each blob has an object ID: matches and skipped
-- sizes make up the events, a match counts once at most as a hit, as binary or as an error, and the
-- index has counted the skipped blobs that the scan counts.
pub scan-IsBalanced :
    (matcher : Bytes → Result Match) (es : List Event)
    → All IsNamed es
    → IsBalanced (length es) (foldl (handle (match_blob matcher)) (new_index, no_stats) es)
scan-IsBalanced matcher es named =
    subst (λ n. IsBalanced n (foldl (handle (match_blob matcher)) (new_index, no_stats) es))
      (omega arith)
      (run-IsBalanced (match_blob matcher) 0 es (new_index, no_stats) (match_blob-IsMatch matcher)
        named start-IsBalanced)
