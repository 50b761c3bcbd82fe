-- ===== src/CatFeed/Kept.antt =====
-- The blobs that are listed against what is told and what is still to be told, as long as no reader of
-- the git backend has failed.
use git_spdx.Common.{
  ℕ, zero, suc, ◌+◌, ◌≡◌, refl, ap, Bool, true, Option, List, [], ◌∷◌, ◌++◌, if◌then◌else◌, Bytes,
  length, replicate, All, All-append, Error, arith,
}
use git_spdx.Common.Count.{count_if, sum_of, count_if-append, sum_of-middle}
use git_spdx.Scan.{Event, skip}
use git_spdx.CatFile.{answer_events}
use git_spdx.CatFile.Listing.{ListedBlob}
use git_spdx.CatFeed.{
  is_larger, Phase, listed, offering, closed, Reader, opening, waiting, asking, gone, State, start,
  Step, skip_large, offer_blob, send_blob, give_up, end_list, kill_list, open_process, fail_open,
  receive, take_answer, fail_read, leave, Run, here, next,
}
use mathlib.Core.Path.{subst}
use git_spdx.Common.Member.{middle-≢}
use git_spdx.CatFeed.Told.{event_of, IsServedBy, told_large, ask-answer}

All-middle :
    {A : Type 0} (P : A → Type 0) (front : List A) (x : A) (back : List A)
    → All P (front ++ x ∷ back)
    → P x × ((y : A) → P y → All P (front ++ y ∷ back))
All-middle P [] x back (now, later) = (now, λ y q. (q, later))
All-middle P (z ∷ front) x back (now, later) =
    let (found, others) = All-middle P front x back later in (found, λ y q. (now, others y q))

abbrev weight_of : Bool → ℕ
weight_of b = if b then 1 else 0

same_weight : (b c : Bool) → b ≡ c → weight_of b ≡ weight_of c
same_weight b c e = ap weight_of e

module _ (serve : Bytes → Bytes) (limit : Bytes → ℕ) (content_of : Bytes → Bytes) where
  abbrev IsServed : ListedBlob → Type 0
  IsServed = IsServedBy serve content_of

  abbrev IsCalm : Reader → Type 0
  IsCalm (waiting r) = r.bytes ≡ []
  IsCalm (asking b r) = IsServed b × (r.bytes ≡ [])
  IsCalm _ = Unit

  abbrev IsOffered : Phase → Type 0
  IsOffered (offering b) = IsServed b
  IsOffered _ = Unit

  All-opening : (n : ℕ) → All IsCalm (replicate n opening)
  All-opening zero = tt
  All-opening (suc n) = (tt, All-opening n)

  module _ (p : Event → Bool) where
    abbrev passes : ListedBlob → Bool
    passes b = p (event_of limit content_of b.oid)

    abbrev weight : ListedBlob → ℕ
    weight b = if passes b then 1 else 0

    abbrev pub in_phase : Phase → ℕ
    in_phase (offering b) = weight b
    in_phase _ = 0

    abbrev pub in_reader : Reader → ℕ
    in_reader (asking b r) = weight b
    in_reader _ = 0

    -- The events that pass the test, made or still to be made.
    abbrev pub told : State → ℕ
    told s =
        count_if p s.events
        + count_if passes s.upcoming
        + in_phase s.phase
        + count_if passes s.queue
        + sum_of in_reader s.readers

    pub record Holds (bs : List ListedBlob) (ending : Option Error) (s : State) : Type 0 where
      pub agrees : told s ≡ count_if passes bs
      pub counts : s.total + length s.upcoming ≡ length bs
      pub ends : s.list_end ≡ ending
      pub at_close : s.phase ≡ closed → (s.upcoming ≡ []) × (s.list_error ≡ ending)
      pub served : All IsServed s.upcoming
      pub offered : IsOffered s.phase
      pub queued : All IsServed s.queue
      pub calm : All IsCalm s.readers

    sum_of-opening : (n : ℕ) → sum_of in_reader (replicate n opening) ≡ 0
    unfolding sum_of
    sum_of-opening zero = refl
    sum_of-opening (suc n) = omega (arith, sum_of-opening n)

    -- One reader changes.
    replaced :
        (rs front : List Reader) (v w : Reader) (back : List Reader)
        → rs ≡ front ++ v ∷ back
        → sum_of in_reader (front ++ w ∷ back) + in_reader v ≡ sum_of in_reader rs + in_reader w
    replaced rs front v w back e = omega (
      arith,
      ap (sum_of in_reader) e,
      sum_of-middle in_reader front v back,
      sum_of-middle in_reader front w back,
    )

    module _ (bs : List ListedBlob) (ending : Option Error) where
      abbrev pub Unbroken : State → Type 0
      Unbroken s = s.failures ≡ [] → Holds bs ending s

      -- A reader moves, and with it the queue or the events.
      turned :
          (s : State) (queue : List ListedBlob) (events : List Event) (front : List Reader)
          (v w : Reader) (back : List Reader)
          → s.readers ≡ front ++ v ∷ back
          → (count_if p s.events + count_if passes s.queue + in_reader v
              ≡ count_if p events + count_if passes queue + in_reader w)
          → (All IsServed s.queue → IsCalm v → All IsServed queue × IsCalm w)
          → Holds bs ending s
          → Holds bs ending
              (record s { queue = queue; events = events; readers = front ++ w ∷ back })
      turned s queue events front v w back e balance kept h =
          let (was, others) = All-middle IsCalm front v back (subst (All IsCalm) e h.calm) in
          let (served, calm) = kept h.queued was in
          record {
            agrees = omega (arith, h.agrees, balance, replaced s.readers front v w back e);
            counts = h.counts;
            ends = h.ends;
            at_close = h.at_close;
            served = h.served;
            offered = h.offered;
            queued = served;
            calm = others w calm;
          }

      -- `listBlobs` moves.
      skipped :
          (s : State) (b : ListedBlob) (rest : List ListedBlob)
          → s.phase ≡ listed
          → s.upcoming ≡ b ∷ rest
          → is_larger b.size (limit b.oid) ≡ true
          → Holds bs ending s
          → Holds bs ending (record s {
            upcoming = rest;
            total = s.total + 1;
            events = s.events ++ (skip b.oid ∷ []);
          })
      unfolding count_if length
      skipped s b rest ph up l h =
          let (now, later) = subst (All IsServed) up h.served in
          record {
            agrees = omega (
              arith,
              h.agrees,
              ap (count_if passes) up,
              count_if-append p s.events (skip b.oid ∷ []),
              same_weight (p (event_of limit content_of b.oid)) (p (skip b.oid))
                  (ap p (told_large serve limit content_of b now l)),
            );
            counts = omega (arith, h.counts, ap length up);
            ends = h.ends;
            at_close = λ q. absurd (cc (ph, q));
            served = later;
            offered = h.offered;
            queued = h.queued;
            calm = h.calm;
          }

      offers :
          (s : State) (b : ListedBlob) (rest : List ListedBlob)
          → s.phase ≡ listed
          → s.upcoming ≡ b ∷ rest
          → Holds bs ending s
          → Holds bs ending (record s { upcoming = rest; total = s.total + 1; phase = offering b })
      unfolding count_if length
      offers s b rest ph up h =
          let (now, later) = subst (All IsServed) up h.served in
          record {
            agrees = omega (arith, h.agrees, ap (count_if passes) up, ap in_phase ph);
            counts = omega (arith, h.counts, ap length up);
            ends = h.ends;
            at_close = λ q. absurd (cc q);
            served = later;
            offered = now;
            queued = h.queued;
            calm = h.calm;
          }

      sends :
          (s : State) (b : ListedBlob)
          → s.phase ≡ offering b
          → Holds bs ending s
          → Holds bs ending (record s { queue = s.queue ++ (b ∷ []); phase = listed })
      unfolding count_if
      sends s b ph h = record {
        agrees = omega (arith, h.agrees, count_if-append passes s.queue (b ∷ []), ap in_phase ph);
        counts = h.counts;
        ends = h.ends;
        at_close = λ q. absurd (cc q);
        served = h.served;
        offered = tt;
        queued = All-append IsServed s.queue (b ∷ []) h.queued (subst IsOffered ph h.offered, tt);
        calm = h.calm;
      }

      closes :
          (s : State)
          → s.phase ≡ listed
          → s.upcoming ≡ []
          → Holds bs ending s
          → Holds bs ending (record s { phase = closed; list_error = s.list_end })
      closes s ph up h = record {
        agrees = omega (arith, h.agrees, ap in_phase ph);
        counts = h.counts;
        ends = h.ends;
        at_close = λ q. (up, h.ends);
        served = h.served;
        offered = tt;
        queued = h.queued;
        calm = h.calm;
      }

      Step-Unbroken : {s t : State} → Step serve limit s t → Unbroken s → Unbroken t
      unfolding count_if
      Step-Unbroken {s} (skip_large b rest ph up l) i none_yet =
          skipped s b rest ph up l (i none_yet)
      Step-Unbroken {s} (offer_blob b rest ph up l) i none_yet = offers s b rest ph up (i none_yet)
      Step-Unbroken {s} (send_blob b ph l) i none_yet = sends s b ph (i none_yet)
      Step-Unbroken (give_up b x f fs ph fails) i none_yet = absurd (cc (fails, none_yet))
      Step-Unbroken {s} (end_list ph up) i none_yet = closes s ph up (i none_yet)
      Step-Unbroken (kill_list rest x f fs ph fails) i none_yet = absurd (cc (fails, none_yet))
      Step-Unbroken {s} (open_process stop front back e) i none_yet =
          turned s s.queue s.events front opening (waiting (record { bytes = []; stop = stop }))
            back e refl (λ queued was. (queued, refl)) (i none_yet)
      Step-Unbroken {s} (fail_open x front back e) i none_yet =
          absurd (middle-≢ s.failures x [] none_yet)
      Step-Unbroken {s} (receive b queue r front back q e) i none_yet =
          turned s queue s.events front (waiting r) (asking b r) back e
            (omega (arith, ap (count_if passes) q))
            (λ queued was. let (now, later) = subst (All IsServed) q queued in (later, (now, was)))
            (i none_yet)
      Step-Unbroken {s} (take_answer b r r' asked a front back e q) i none_yet =
          let h = i none_yet in
          let (served, empty) =
            (All-middle IsCalm front (asking b r) back (subst (All IsCalm) e h.calm)).0 in
          let (answer, left) = ask-answer serve limit content_of b r asked served empty q in
          turned s s.queue (s.events ++ answer_events (limit b.oid) b.oid a) front (asking b r)
            (waiting r') back e
            (omega (
              arith,
              count_if-append p s.events (answer_events (limit b.oid) b.oid a),
              ap (count_if p) answer,
            ))
            (λ queued was. (queued, left)) h
      Step-Unbroken {s} (fail_read b r asked x front back e q) i none_yet =
          absurd (middle-≢ s.failures x [] none_yet)
      Step-Unbroken {s} (leave r front back ph q e) i none_yet =
          turned s s.queue s.events front (waiting r) gone back e refl (λ queued was. (queued, tt))
            (i none_yet)

      pub Run-Unbroken : {s t : State} → Run serve limit s t → Unbroken s → Unbroken t
      Run-Unbroken here i = i
      Run-Unbroken (next r step) i = Step-Unbroken step (Run-Unbroken r i)

    -- At the start nothing is told.
    pub start-Unbroken :
        (n : ℕ) (bs : List ListedBlob) (ending : Option Error)
        → All IsServed bs
        → Unbroken bs ending (start n (bs, ending))
    unfolding start count_if length
    start-Unbroken n bs ending served none_yet = record {
      agrees = omega (arith, sum_of-opening n);
      counts = omega arith;
      ends = refl;
      at_close = λ q. absurd (cc q);
      served = served;
      offered = tt;
      queued = tt;
      calm = All-opening n;
    }
