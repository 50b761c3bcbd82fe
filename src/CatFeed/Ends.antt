-- ===== src/CatFeed/Ends.antt =====
-- How a feeder of the git backend ends, next to the serial feeder of the other backend.
use git_spdx.Common.{
  ℕ, suc, ◌+◌, ◌≡◌, ◌≢◌, inl, inr, refl, sym, ap, ◌∙◌, Bool, true, Option, none, some, List, [],
  ◌∷◌, ◌++◌, map, ltb, append-nil, append_assoc, Bytes, length, All, Error, eof, arith, Bool-cases,
}
use git_spdx.Common.Member.{Member}
use git_spdx.Common.Count.{count_if, sum_of}
use git_spdx.Stream.{is_eof}
use git_spdx.Scan.{Event, skip, send, StoredBlob, Feeder, new_feeder, feed_serial}
use git_spdx.Scan.Feed.{sent, skips, accepted, rejected, IsReadable, feed_serial_lem}
use git_spdx.CatFile.Listing.{ListedBlob}
use git_spdx.CatFile.Listed.{
  Entry, IsEntry, print_entries, blobs_of, visit_each, list_blobs-visit_each,
}
use git_spdx.CatFile.Blobs.{stored_blob}
use git_spdx.CatFeed.{shard_count, listing, closed, Reader, gone, State, start, Run, outcome}
use git_spdx.CatFeed.Told.{object_of, event_of, IsServedBy}
use git_spdx.CatFeed.Kept.{Holds, in_phase, in_reader, Run-Unbroken, start-Unbroken}
use git_spdx.CatFeed.Placed.{Placed, Run-Placed, start-Placed, shard_count_positive}
use mathlib.Core.Path.{subst}

-- `wg.Wait()` has returned.
pub record IsDone (s : State) : Type 0 where
  pub is_closed : s.phase ≡ closed
  pub all_gone : (r : Reader) → Member r s.readers → r ≡ gone

outcome-none : (s : State) → outcome s ≡ none → (s.failures ≡ []) × (s.list_error ≡ none)
unfolding outcome
outcome-none s p = of_failures s.failures refl
  where
    of_failures : (fs : List Error) → s.failures ≡ fs → (s.failures ≡ []) × (s.list_error ≡ none)
    of_failures [] q = (q, sym (rw q refl) ∙ p)
    of_failures (x ∷ fs) q = absurd (cc (q, p))

pub some_gone :
    (rs : List Reader) → rs ≢ [] → ((r : Reader) → Member r rs → r ≡ gone) → Member gone rs
some_gone [] some_readers all = absurd (some_readers refl)
some_gone (r ∷ rs) some_readers all = inl (all r (inl refl))

-- Events are jobs and skips.
count_if-events :
    (p : Event → Bool) (es : List Event)
    → count_if p es
      ≡ count_if (λ j. p (send j)) (sent es) + count_if (λ oid. p (skip oid)) (skips es)
unfolding count_if sent skips
count_if-events p [] = refl
count_if-events p (skip oid ∷ es) = omega (arith, count_if-events p es)
count_if-events p (send job ∷ es) = omega (arith, count_if-events p es)

-- `listBlobs` on the lines that git writes, where the callback only remembers.
remembered :
    (bs seen : List ListedBlob) (n : ℕ)
    → visit_each (λ known b. (known ++ (b ∷ []), none)) bs (seen, n)
      ≡ ((seen ++ bs, n + length bs), none)
unfolding visit_each git_spdx.CatFile.Listing.counted git_spdx.Tree.and_then length
remembered [] seen n = ground (arith, append-nil seen)
remembered (b ∷ bs) seen n =
    remembered bs (seen ++ (b ∷ [])) (n + 1) ∙ ground (arith, append_assoc seen (b ∷ []) bs)

pub listing-print :
    (xs : List Entry) (wait_error : Option Error)
    → All IsEntry xs
    → listing (record { bytes = print_entries xs; stop = eof }) wait_error
      ≡ (blobs_of xs, wait_error)
unfolding listing
listing-print xs none h = ground (
  arith,
  list_blobs-visit_each (λ known b. (known ++ (b ∷ []), none)) xs [] none h,
  remembered (blobs_of xs) [] 0,
)
listing-print xs (some x) h = ground (
  arith,
  list_blobs-visit_each (λ known b. (known ++ (b ∷ []), none)) xs [] (some x) h,
  remembered (blobs_of xs) [] 0,
)

-- The blobs as the iterator of the other backend gives them.
abbrev pub stored_of : (Bytes → Bytes) → List ListedBlob → List StoredBlob
stored_of content_of bs = map (λ b. stored_blob (object_of content_of b.oid)) bs

stored_of-IsReadable :
    (limit : Bytes → ℕ) (content_of : Bytes → Bytes) (bs : List ListedBlob)
    → All (IsReadable limit) (stored_of content_of bs)
unfolding IsReadable
stored_of-IsReadable limit content_of [] = tt
stored_of-IsReadable limit content_of (b ∷ bs) =
    (inr (refl, refl, refl), stored_of-IsReadable limit content_of bs)

length-stored_of :
    (content_of : Bytes → Bytes) (bs : List ListedBlob)
    → length (stored_of content_of bs) ≡ length bs
unfolding length
length-stored_of content_of [] = refl
length-stored_of content_of (b ∷ bs) = ap suc (length-stored_of content_of bs)

count_if-event_of :
    (limit : Bytes → ℕ) (content_of : Bytes → Bytes) (p : Event → Bool) (bs : List ListedBlob)
    → count_if (λ b. p (event_of limit content_of b.oid)) bs
      ≡ count_if (λ j. p (send j)) (accepted limit (stored_of content_of bs))
        + count_if (λ oid. p (skip oid)) (rejected limit (stored_of content_of bs))
unfolding count_if accepted rejected
count_if-event_of limit content_of p [] = refl
count_if-event_of limit content_of p (b ∷ bs) =
    elim (Bool-cases (ltb (limit b.oid) (length (content_of b.oid)))) [
      | inl large ↦ rw large (omega (arith, count_if-event_of limit content_of p bs))
      | inr small ↦ rw small (omega (arith, count_if-event_of limit content_of p bs))
    ]

-- What the feeder of the other backend does with the blobs.
abbrev pub serial : (Bytes → ℕ) → (Bytes → Bytes) → List ListedBlob → Feeder × Option Error
serial limit content_of bs = feed_serial limit (stored_of content_of bs) eof new_feeder

serial-agrees :
    (limit : Bytes → ℕ) (content_of : Bytes → Bytes) (bs : List ListedBlob)
    → ((serial limit content_of bs).1 ≡ none)
      × (((serial limit content_of bs).0).total ≡ length bs)
      × ((p : Event → Bool)
          → count_if p ((serial limit content_of bs).0).events
            ≡ count_if (λ b. p (event_of limit content_of b.oid)) bs)
unfolding is_eof
serial-agrees limit content_of bs =
    let (f, run, jobs, large, total) =
      feed_serial_lem limit (stored_of content_of bs) eof (stored_of-IsReadable limit content_of bs)
        refl in
    (
      ap (λ o. o.1) run,
      ap (λ o. (o.0).total) run ∙ total ∙ length-stored_of content_of bs,
      λ p.
          ap (λ o. count_if p (o.0).events) run
          ∙ count_if-events p f.events
          ∙ ap
              (λ js.
                count_if (λ j. p (send j)) js + count_if (λ oid. p (skip oid)) (skips f.events))
              jobs
          ∙ ap
              (λ os.
                count_if (λ j. p (send j)) (accepted limit (stored_of content_of bs))
                + count_if (λ oid. p (skip oid)) os)
              large
          ∙ sym (count_if-event_of limit content_of p bs),
    )

module _ (serve : Bytes → Bytes) (limit : Bytes → ℕ) (content_of : Bytes → Bytes) where
  gone_told :
      (p : Event → Bool) (rs : List Reader)
      → ((r : Reader) → Member r rs → r ≡ gone)
      → sum_of (in_reader serve limit content_of p) rs ≡ 0
  unfolding sum_of
  gone_told p [] all = refl
  gone_told p (r ∷ rs) all = omega (
    arith,
    ap (in_reader serve limit content_of p) (all r (inl refl)),
    gone_told p rs (λ q m. all q (inr m)),
  )

  -- Nothing is left to be told at an end without an error.
  told_at_end :
      (p : Event → Bool) (bs : List ListedBlob) (ending : Option Error) (s : State)
      → Placed s
      → Holds serve limit content_of p bs ending s
      → IsDone s
      → s.failures ≡ []
      → count_if p s.events ≡ count_if (λ b. p (event_of limit content_of b.oid)) bs
  unfolding count_if
  told_at_end p bs ending s placed h done none_yet =
      let (closed_too, empty) =
        placed.at_leave none_yet (some_gone s.readers placed.some_readers done.all_gone) in
      let (listed_all, _) = h.at_close done.is_closed in
      omega (
        arith,
        h.agrees,
        ap (count_if (λ b. p (event_of limit content_of b.oid))) listed_all,
        ap (in_phase serve limit content_of p) done.is_closed,
        ap (count_if (λ b. p (event_of limit content_of b.oid))) empty,
        gone_told p s.readers done.all_gone,
      )

  -- If git lists the blobs of a store and writes what it is asked for, a feeder that ends without an
  -- error has told of the blobs as the serial feeder of the other backend does, which ends without an
  -- error too: it has counted as many, and each event that is sent or skipped comes as often.
  pub Run-serial :
      (readers processors : ℕ) (xs : List Entry) (wait_error : Option Error) (s : State)
      → All IsEntry xs
      → All (IsServedBy serve content_of) (blobs_of xs)
      → Run serve limit
          (start
            (shard_count readers processors)
            (listing (record { bytes = print_entries xs; stop = eof }) wait_error))
          s
      → IsDone s
      → outcome s ≡ none
      → let (f, failure) = serial limit content_of (blobs_of xs) in
        (failure ≡ none)
        × (wait_error ≡ none)
        × (s.total ≡ f.total)
        × ((p : Event → Bool) → count_if p s.events ≡ count_if p f.events)
  Run-serial readers processors xs wait_error s is_entry served run done p =
      let bs = blobs_of xs in
      let r =
        subst (λ o. Run serve limit (start (shard_count readers processors) o) s)
          (listing-print xs wait_error is_entry) run in
      let placed = Run-Placed serve limit r (
        start-Placed (shard_count readers processors) _
          (shard_count_positive readers processors)) in
      let (none_yet, no_list_error) = outcome-none s p in
      let holds = λ (q : Event → Bool).
        Run-Unbroken serve limit content_of q bs wait_error r
          (start-Unbroken serve limit content_of q (shard_count readers processors) bs wait_error
            served)
          none_yet in
      let (no_failure, total, events) = serial-agrees limit content_of bs in
      let any = holds (λ e. true) in
      let (listed_all, ended) = any.at_close done.is_closed in
      (
        no_failure,
        sym ended ∙ no_list_error,
        omega (arith, any.counts, ap length listed_all, total),
        λ q. told_at_end q bs wait_error s placed (holds q) done none_yet ∙ sym (events q),
      )
