-- ===== src/History/Stream.antt =====
-- `visitHistoryStreamParallel`: a window of pending commits, which workers visit in any order, and
-- whose changes are visited in the order of the commits. A constructor of `Step` is what the function
-- or a worker does between two points at which it may wait.
use git_spdx.Common.{
  ℕ, suc, ◌*◌, ◌≤◌, ◌<◌, ◌≡◌, ◌⊎◌, Bool, true, false, Option, none, some, List, [], ◌∷◌, ◌++◌,
  length, Eq, Error, Result, ok, err,
}
use git_spdx.Common.Count.{count_if}
use git_spdx.Common.Dict.{erase}
use git_spdx.Stream.{is_eof}
use git_spdx.Change.{Change}
use git_spdx.History.{Node, Trees, Cache, visit_task}
use mathlib.Core.List.{foldl}

-- `historyLookahead`
abbrev pub history_lookahead : ℕ
history_lookahead = 2

-- A pending commit: at the send to the channel, in the channel, with a worker, or with its result.
pub data Status : Type 0 where
  waiting queued working : Status
  ready : Result (List Change) → Status

abbrev pub is_waiting : Status → Bool
is_waiting waiting = true
is_waiting _ = false

abbrev pub is_queued : Status → Bool
is_queued queued = true
is_queued _ = false

abbrev pub is_working : Status → Bool
is_working working = true
is_working _ = false

-- `historyStreamTask`, with the state of its result.
abbrev pub Task : Type 0 → Type 0
Task Hash = Node Hash × Status

abbrev pub waits : {Hash : Type 0} → List (Task Hash) → ℕ
waits ts = count_if (λ t. is_waiting t.1) ts

abbrev pub in_channel : {Hash : Type 0} → List (Task Hash) → ℕ
in_channel ts = count_if (λ t. is_queued t.1) ts

abbrev pub at_work : {Hash : Type 0} → List (Task Hash) → ℕ
at_work ts = count_if (λ t. is_working t.1) ts

-- `exhausted` is `done`; `filling` tells the calls of `fill` from the loop around them; `ended` is the
-- function's error behind its return.
pub record State (Hash Tree S : Type 0) : Type 0 where
  pub upcoming : List (Node Hash)
  pub exhausted : Bool
  pub pending : List (Task Hash)
  pub filling : Bool
  pub cache : Cache Hash Tree
  pub out : S
  pub ended : Option (Option Error)

unfoldable pub start : {Hash Tree S : Type 0} → List (Node Hash) → S → State Hash Tree S
start ns out = record {
  upcoming = ns;
  exhausted = false;
  pending = [];
  filling = true;
  cache = [];
  out = out;
  ended = none;
}

module _ {Hash Tree S : Type 0} ⦃e : Eq Hash⦄ (g : Trees Hash Tree) (merges : Bool)
    (visit : S → Change → S) (workers : ℕ) (stop : Error) where
  -- `fill` has sent what it appended, and is at the head of its loop.
  abbrev pub Fills : State Hash Tree S → Type 0
  Fills s = (s.ended ≡ none) × (s.filling ≡ true) × (waits s.pending ≡ 0)

  pub data Step (s : State Hash Tree S) : State Hash Tree S → Type 0 where
    -- `fill`
    announce :
        (n : Node Hash) (ns : List (Node Hash))
        → Fills s
        → length s.pending < history_lookahead * workers
        → s.exhausted ≡ false
        → s.upcoming ≡ n ∷ ns
        → Step s (record s { upcoming = ns; pending = s.pending ++ ((n, waiting) ∷ []) })
    enqueue :
        (n : Node Hash) (front back : List (Task Hash))
        → s.ended ≡ none
        → s.pending ≡ front ++ (n, waiting) ∷ back
        → in_channel s.pending < workers
        → Step s (record s { pending = front ++ (n, queued) ∷ back })
    exhaust :
        Fills s
        → length s.pending < history_lookahead * workers
        → s.exhausted ≡ false
        → s.upcoming ≡ []
        → is_eof stop ≡ true
        → Step s (record s { exhausted = true })
    iterator_fails :
        Fills s
        → length s.pending < history_lookahead * workers
        → s.exhausted ≡ false
        → s.upcoming ≡ []
        → is_eof stop ≡ false
        → Step s (record s { ended = some (some stop) })
    filled :
        Fills s
        → (history_lookahead * workers ≤ length s.pending) ⊎ (s.exhausted ≡ true)
        → Step s (record s { filling = false })
    -- A worker takes the first task of the channel, and gives its result.
    begin :
        (n : Node Hash) (front back : List (Task Hash))
        → s.ended ≡ none
        → s.pending ≡ front ++ (n, queued) ∷ back
        → in_channel front ≡ 0
        → at_work s.pending < workers
        → Step s (record s { pending = front ++ (n, working) ∷ back })
    finish :
        (n : Node Hash) (front back : List (Task Hash))
        → s.ended ≡ none
        → s.pending ≡ front ++ (n, working) ∷ back
        → Step s (record s {
          pending = front ++ (n, ready (visit_task g merges n s.cache).0) ∷ back;
          cache = (visit_task g merges n s.cache).1;
        })
    -- The loop over the pending tasks.
    take_changes :
        (n : Node Hash) (cs : List Change) (rest : List (Task Hash))
        → s.ended ≡ none
        → s.filling ≡ false
        → s.pending ≡ (n, ready (ok cs)) ∷ rest
        → Step s (record s {
          pending = rest;
          filling = true;
          cache = erase n.id s.cache;
          out = foldl visit s.out cs;
        })
    take_error :
        (n : Node Hash) (x : Error) (rest : List (Task Hash))
        → s.ended ≡ none
        → s.filling ≡ false
        → s.pending ≡ (n, ready (err x)) ∷ rest
        → Step s (record s { ended = some (some x) })
    complete :
        s.ended ≡ none
        → s.filling ≡ false
        → s.pending ≡ []
        → Step s (record s { ended = some none })

  pub data Run (s : State Hash Tree S) : ℕ → State Hash Tree S → Type 0 where
    here : Run s 0 s
    next : {k : ℕ} {t u : State Hash Tree S} → Run s k t → Step t u → Run s (suc k) u
