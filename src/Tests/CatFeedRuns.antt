-- ===== src/Tests/CatFeedRuns.antt =====
-- A feeder with one reader on the store of `CatRuns`, one of whose blobs is too large.
use git_spdx.Common.{
  ◌≡◌, ◌⊎◌, inl, inr, refl, sym, Bool, none, Option, List, [], ◌∷◌, if◌then◌else◌, Bytes, equal,
  length, All, Error, eof, ok, arith, replicate,
}
use git_spdx.Common.Count.{count_if}
use git_spdx.Stream.{Stream}
use git_spdx.Scan.{Event, skip, send}
use git_spdx.Options.{natural}
use git_spdx.CatFile.{answer_events}
use git_spdx.CatFile.Blobs.{IsObject, print_object, answer_of, read-print}
use git_spdx.CatFile.Listing.{ListedBlob}
use git_spdx.CatFile.Listed.{print_entries, blobs_of}
use git_spdx.CatFeed.{
  shard_count, Phase, listed, offering, closed, Reader, opening, waiting, asking, gone, State,
  start, ask, Step, skip_large, offer_blob, send_blob, end_list, open_process, receive, take_answer,
  leave, Run, here, next, outcome,
}
use git_spdx.CatFeed.Told.{object_of, IsServedBy}
use git_spdx.CatFeed.Ends.{IsDone, listing-print, serial, Run-serial}
use git_spdx.CatFeed.Progress.{Moves, Run-Moves}
use git_spdx.Tests.CatRuns.{small, large, ten, listing, listing-IsEntry}
use mathlib.Core.Path.{subst}

abbrev content_of : Bytes → Bytes
content_of oid = if equal oid small.oid then small.content else large.content

abbrev serve : Bytes → Bytes
serve oid = print_object (object_of content_of oid) []

abbrev listed_small : ListedBlob
listed_small = record { oid = small.oid; size = natural 3 }

abbrev listed_large : ListedBlob
listed_large = record { oid = large.oid; size = natural 13 }

abbrev blobs : List ListedBlob
blobs = listed_small ∷ listed_large ∷ []

abbrev final : State
final = record {
  upcoming = [];
  list_end = none;
  phase = closed;
  queue = [];
  readers = gone ∷ [];
  events = send (record { oid = small.oid; content = small.content }) ∷ skip large.oid ∷ [];
  total = 2;
  failures = [];
  list_error = none;
}

small-IsObject : IsObject (object_of content_of small.oid)
unfolding equal
small-IsObject = omega arith

large-IsObject : IsObject (object_of content_of large.oid)
unfolding equal
large-IsObject = omega arith

asked_small :
    ask serve ten none listed_small (record { bytes = []; stop = eof })
    ≡ ok (answer_of 10 (object_of content_of small.oid), record { bytes = []; stop = eof })
unfolding ask
asked_small = read-print (object_of content_of small.oid) 10 [] eof small-IsObject

run_feeds : Run serve ten (start (shard_count 1 4) (blobs, none)) final
unfolding start length replicate equal answer_events
run_feeds =
    next
      (next
        (next
          (next
            (next
              (next
                (next (next here (offer_blob listed_small (listed_large ∷ []) refl refl refl))
                  (send_blob listed_small refl (omega arith)))
                (open_process eof [] [] refl))
              (receive listed_small [] (record { bytes = []; stop = eof }) [] [] refl refl))
            (take_answer listed_small _ _ none _ [] [] refl asked_small))
          (skip_large listed_large [] refl refl refl))
        (end_list refl refl))
      (leave (record { bytes = []; stop = eof }) [] [] refl refl refl)

abbrev listing_stream : Stream
listing_stream = record { bytes = print_entries listing; stop = eof }

run_from_listing :
    Run serve ten (start (shard_count 1 4) (git_spdx.CatFeed.listing listing_stream none)) final
unfolding equal
run_from_listing =
    subst (λ o. Run serve ten (start (shard_count 1 4) o) final)
      (sym (listing-print listing none listing-IsEntry)) run_feeds

is_done : IsDone final
is_done = record {
  is_closed = refl;
  all_gone = λ r m. elim m [ inl same ↦ sym same | inr end ↦ absurd end ];
}

served : All (IsServedBy serve content_of) (blobs_of listing)
unfolding equal
served = (
  record { written = refl; is_object = small-IsObject; is_size = refl },
  (record { written = refl; is_object = large-IsObject; is_size = refl }, tt),
)

Run-serial_example :
    let (f, failure) = serial ten content_of (blobs_of listing) in
    (failure ≡ none)
    × (◌≡◌ {A = Option Error} none none)
    × (final.total ≡ f.total)
    × ((p : Event → Bool) → count_if p final.events ≡ count_if p f.events)
unfolding outcome
Run-serial_example =
    Run-serial serve ten content_of 1 4 listing none final listing-IsEntry served run_from_listing
      is_done refl

Run-Moves_example :
    IsDone (start (shard_count 1 4) (blobs, none))
    ⊎ Moves serve ten (start (shard_count 1 4) (blobs, none))
Run-Moves_example =
    Run-Moves serve ten 1 4 (blobs, none) (start (shard_count 1 4) (blobs, none)) here
