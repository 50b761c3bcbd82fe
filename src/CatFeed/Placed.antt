-- ===== src/CatFeed/Placed.antt =====
-- When a reader of the git backend leaves.
use git_spdx.Common.{
  ℕ, zero, suc, ◌<◌, ◌≡◌, ◌≢◌, inl, inr, sym, Option, List, [], Bytes, replicate, Error, arith,
}
use git_spdx.Common.Member.{Member, other-middle, middle-≢}
use git_spdx.CatFile.Listing.{ListedBlob}
use git_spdx.CatFeed.{
  shard_count, closed, opening, waiting, asking, gone, State, start, Step, skip_large, offer_blob,
  send_blob, give_up, end_list, kill_list, open_process, fail_open, receive, take_answer, fail_read,
  leave, Run, here, next,
}
use mathlib.Core.Path.{subst}

pub shard_count_positive : (readers processors : ℕ) → 0 < shard_count readers processors
shard_count_positive readers processors = omega arith

no_gone : (n : ℕ) → ¬ Member gone (replicate n opening)
no_gone zero m = m
no_gone (suc n) (inl same) = cc same
no_gone (suc n) (inr m) = no_gone n m

-- No reader leaves by itself before the channel is closed and empty.
pub record Placed (s : State) : Type 0 where
  pub at_leave : s.failures ≡ [] → Member gone s.readers → (s.phase ≡ closed) × (s.queue ≡ [])
  pub some_readers : s.readers ≢ []

module _ (serve : Bytes → Bytes) (limit : Bytes → ℕ) where
  Step-Placed : {s t : State} → Step serve limit s t → Placed s → Placed t
  Step-Placed (skip_large b rest ph up l) i = record {
    at_leave = i.at_leave;
    some_readers = i.some_readers;
  }
  Step-Placed (offer_blob b rest ph up l) i = record {
    at_leave = λ none_yet m. absurd (cc (ph, (i.at_leave none_yet m).0));
    some_readers = i.some_readers;
  }
  Step-Placed (send_blob b ph l) i = record {
    at_leave = λ none_yet m. absurd (cc (ph, (i.at_leave none_yet m).0));
    some_readers = i.some_readers;
  }
  Step-Placed (give_up b x f fs ph fails) i = record {
    at_leave = λ none_yet m. absurd (cc (fails, none_yet));
    some_readers = i.some_readers;
  }
  Step-Placed (end_list ph up) i = record {
    at_leave = λ none_yet m. absurd (cc (ph, (i.at_leave none_yet m).0));
    some_readers = i.some_readers;
  }
  Step-Placed (kill_list rest x f fs ph fails) i = record {
    at_leave = i.at_leave;
    some_readers = i.some_readers;
  }
  Step-Placed (open_process stop front back e) i = record {
    at_leave = λ none_yet m.
        i.at_leave none_yet
          (subst (Member gone) (sym e) (other-middle gone front opening _ back (λ z. cc z) m));
    some_readers = middle-≢ front _ back;
  }
  Step-Placed {s} (fail_open x front back e) i = record {
    at_leave = λ none_yet m. absurd (middle-≢ s.failures x [] none_yet);
    some_readers = middle-≢ front _ back;
  }
  Step-Placed (receive b queue r front back q e) i = record {
    at_leave = λ none_yet m. absurd (
        cc (
          q,
          (i.at_leave none_yet (
              subst (Member gone) (sym e)
                (other-middle gone front (waiting r) _ back (λ z. cc z) m))).1,
        ));
    some_readers = middle-≢ front _ back;
  }
  Step-Placed (take_answer b r r' asked a front back e q) i = record {
    at_leave = λ none_yet m.
        i.at_leave none_yet
          (subst (Member gone) (sym e) (other-middle gone front (asking b r) _ back (λ z. cc z) m));
    some_readers = middle-≢ front _ back;
  }
  Step-Placed {s} (fail_read b r asked x front back e q) i = record {
    at_leave = λ none_yet m. absurd (middle-≢ s.failures x [] none_yet);
    some_readers = middle-≢ front _ back;
  }
  Step-Placed (leave r front back ph q e) i = record {
    at_leave = λ none_yet m. (ph, q);
    some_readers = middle-≢ front _ back;
  }

  pub Run-Placed : {s t : State} → Run serve limit s t → Placed s → Placed t
  Run-Placed here i = i
  Run-Placed (next r step) i = Step-Placed step (Run-Placed r i)

pub start-Placed : (n : ℕ) (list : List ListedBlob × Option Error) → 0 < n → Placed (start n list)
unfolding start
start-Placed zero list l = absurd (omega arith)
start-Placed (suc n) list l = record {
  at_leave = λ none_yet m. absurd (no_gone (suc n) m);
  some_readers = λ p. cc p;
}
