-- ===== src/Collect.antt =====
-- The collection of legal blobs by several workers: `collectLegalTreesParallel` of
-- gogit_history_stream.go, and `collectLegalTreeRaw` as the steps that its workers interleave.
--
-- What a worker has to do is a stack of tasks; one step is what it does between two uses of the shared
-- collector. The trees that `visitCommitTrees` visits do not depend on the workers: they are the list
-- `upcoming`, and `walk_end` is the error with which the walk over the commits ends.
pub mod Works
pub mod Cover
pub mod Kept
pub mod Blobs
pub mod Serial
pub mod Held
pub mod Invariant
pub mod Placed
pub mod Ends
pub mod Safe
pub mod Agree
pub mod Whole
pub mod Progress
use git_spdx.Common.{
  ℕ, zero, suc, ◌+◌, ◌*◌, ◌<◌, ◌≡◌, Bool, true, false, not, ◌&&◌, ◌||◌, Option, none, some, List,
  [], ◌∷◌, ◌++◌, map, if◌then◌else◌, Bytes, length, replicate, Eq, Error, wrong_kind,
  unsupported_mode, out_of_fuel, Result, ok, err,
}
use git_spdx.Stream.{Stream}
use git_spdx.Names.{is_legal_directory, is_legal_file_name}
use git_spdx.Tree.{
  FileMode, dir, regular, deprecated, executable, symlink, submodule, other_mode, Item, entry,
  finished, failed, next_in_memory, next_in_stream, Object, Library, Collector, new_collector,
  claim, add,
}

-- An entry of a tree.
pub record Entry (Hash : Type 0) : Type 0 where
  pub mode : FileMode
  pub name : Bytes
  pub oid : Hash

-- The entries of a tree up to its end or its first error.
abbrev pub Entries : Type 0 → Type 0
Entries Hash = List (Entry Hash) × Option Error

abbrev pub put_entry : {Hash : Type 0} → FileMode → Bytes → Hash → Entries Hash → Entries Hash
put_entry mode name oid (es, stop) = (record { mode = mode; name = name; oid = oid } ∷ es, stop)

-- The error of closing the reader counts if there is no other.
abbrev pub close_entries : {Hash : Type 0} → Option Error → Entries Hash → Entries Hash
close_entries closing (es, some x) = (es, some x)
close_entries closing (es, none) = (es, closing)

module _ {Hash : Type 0} (g : Library Hash) where
  unfoldable pub memory_entries : ℕ → ℕ → Bytes → Entries Hash
  memory_entries size zero data' = ([], some out_of_fuel)
  memory_entries size (suc fuel) data' = elim (next_in_memory g size data') [
    | finished ↦ ([], none)
    | failed x ↦ ([], some x)
    | entry mode name oid rest ↦ put_entry mode name oid (memory_entries size fuel rest)
  ]

  unfoldable pub stream_entries : ℕ → Error → ℕ → Bytes → Entries Hash
  stream_entries size stop zero data' = ([], some out_of_fuel)
  stream_entries size stop (suc fuel) data' =
      elim (next_in_stream g size (record { bytes = data'; stop = stop })) [
        | finished ↦ ([], none)
        | failed x ↦ ([], some x)
        | entry mode name oid rest ↦ put_entry mode name oid (stream_entries size stop fuel rest)
      ]

  unfoldable pub object_entries : ℕ → Object → Entries Hash
  object_entries size o =
      if not o.is_tree
      then ([], some wrong_kind)
      else if o.in_memory
      then memory_entries size (suc (length o.content)) o.content
      else elim o.open_error [
        | some x ↦ ([], some x)
        | none ↦
            close_entries o.close_error
              (stream_entries size o.stop (suc (length o.content)) o.content)
      ]

  -- What `collectLegalTreeRaw` reads of a tree.
  unfoldable pub entries_of : Hash → Entries Hash
  entries_of h = elim (g.load h) [ err x ↦ ([], some x) | ok o ↦ object_entries (g.size h) o ]

-- A call of `collectLegalTreeRaw`, or the entries that are left of a tree.
pub data Todo (Hash : Type 0) : Type 0 where
  tree : Hash → Bool → Todo Hash
  entries : Bool → List (Entry Hash) → Option Error → Todo Hash

module _ {Hash : Type 0} ⦃e : Eq Hash⦄ (g : Library Hash) where
  -- The `switch` on the mode of an entry, with what is left of the tree.
  unfoldable pub work_entry :
      FileMode
      → Bytes
      → Hash
      → Bool
      → Todo Hash
      → Collector Hash
      → Collector Hash × Result (List (Todo Hash))
  work_entry dir name oid inherited rest c =
      (c, ok (tree oid (inherited || is_legal_directory name) ∷ rest ∷ []))
  work_entry symlink name oid inherited rest c = (c, ok (rest ∷ []))
  work_entry submodule name oid inherited rest c = (c, ok (rest ∷ []))
  work_entry (other_mode m) name oid inherited rest c = (c, err unsupported_mode)
  work_entry _ name oid inherited rest c =
      (if inherited || is_legal_file_name name then add g oid c else c, ok (rest ∷ []))

  -- The tasks for a tree whose key is new.
  abbrev pub claimed_tasks : Hash → Bool → Bool → List (Todo Hash)
  claimed_tasks h inherited false = []
  claimed_tasks h inherited true = entries inherited (entries_of g h).0 (entries_of g h).1 ∷ []

  -- One step of a worker: the collector, and the tasks in the place of the one that is done.
  unfoldable pub work : Todo Hash → Collector Hash → Collector Hash × Result (List (Todo Hash))
  work (tree h inherited) c =
      let (c', new) = claim h inherited c in (c', ok (claimed_tasks h inherited new))
  work (entries inherited [] none) c = (c, ok [])
  work (entries inherited [] (some x)) c = (c, err x)
  work (entries inherited (x ∷ xs) stop) c =
      work_entry x.mode x.name x.oid inherited (entries inherited xs stop) c

-- `legalTreeBatchSize`
abbrev pub legal_tree_batch_size : ℕ
legal_tree_batch_size = 48

-- The capacity of `tasks`.
abbrev pub capacity : ℕ → ℕ
capacity workers = workers * 2

-- Where the walk over the commits stands: in its loop, in `enqueue` for the last batch or another, or
-- behind `close(tasks)`.
pub data Phase : Type 0 where
  walking : Phase
  sending : Bool → Phase
  closed : Phase

abbrev pub after_send : Bool → Phase
after_send last = if last then closed else walking

pub data Worker (Hash : Type 0) : Type 0 where
  idle : Worker Hash
  busy : List (Todo Hash) → Worker Hash
  gone : Worker Hash

-- `walk_error` is the `err` of the function itself, `first_error` the one of the workers; the context
-- is cancelled exactly when there is a first error.
pub record State (Hash : Type 0) : Type 0 where
  pub upcoming : List Hash
  pub batch : List Hash
  pub phase : Phase
  pub queue : List (List Hash)
  pub workers : List (Worker Hash)
  pub collector : Collector Hash
  pub walk_error : Option Error
  pub first_error : Option Error

-- `if firstErr == nil { firstErr = err; cancel() }`
abbrev pub keep_first : Option Error → Error → Option Error
keep_first (some x) y = some x
keep_first none y = some y

-- The calls of a batch.
abbrev pub calls : {Hash : Type 0} → List Hash → List (Todo Hash)
calls hs = map (λ h. tree h false) hs

unfoldable pub start : {Hash : Type 0} → ℕ → List Hash → State Hash
start count trees = record {
  upcoming = trees;
  batch = [];
  phase = walking;
  queue = [];
  workers = replicate count idle;
  collector = new_collector;
  walk_error = none;
  first_error = none;
}

module _ {Hash : Type 0} ⦃e : Eq Hash⦄ (g : Library Hash) (walk_end : Option Error) where
  pub data Step (s : State Hash) : State Hash → Type 0 where
    -- The walk: a tree for the batch, which may fill it, or the end.
    take_tree :
        (h : Hash) (hs : List Hash)
        → s.phase ≡ walking
        → s.upcoming ≡ h ∷ hs
        → suc (length s.batch) < legal_tree_batch_size
        → Step s (record s { upcoming = hs; batch = s.batch ++ (h ∷ []) })
    fill_batch :
        (h : Hash) (hs : List Hash)
        → s.phase ≡ walking
        → s.upcoming ≡ h ∷ hs
        → suc (length s.batch) ≡ legal_tree_batch_size
        → Step s (record s { upcoming = hs; batch = s.batch ++ (h ∷ []); phase = sending false })
    walk_fails :
        (x : Error)
        → s.phase ≡ walking
        → s.upcoming ≡ []
        → walk_end ≡ some x
        → Step s (record s { phase = closed; walk_error = some x })
    end_batch :
        s.phase ≡ walking
        → s.upcoming ≡ []
        → walk_end ≡ none
        → 0 < length s.batch
        → Step s (record s { phase = sending true })
    end_empty :
        s.phase ≡ walking
        → s.upcoming ≡ []
        → walk_end ≡ none
        → s.batch ≡ []
        → Step s (record s { phase = closed })
    -- `enqueue`
    send_batch :
        (last : Bool)
        → s.phase ≡ sending last
        → length s.queue < capacity (length s.workers)
        → Step s
            (record s { queue = s.queue ++ (s.batch ∷ []); batch = []; phase = after_send last })
    stop_sending :
        (last : Bool) (x : Error)
        → s.phase ≡ sending last
        → s.first_error ≡ some x
        → Step s (record s { phase = closed; walk_error = some x })
    -- A worker.
    receive :
        (b : List Hash) (queue : List (List Hash)) (front back : List (Worker Hash))
        → s.queue ≡ b ∷ queue
        → s.workers ≡ front ++ idle ∷ back
        → Step s (record s { queue = queue; workers = front ++ busy (calls b) ∷ back })
    do_task :
        (t : Todo Hash) (ts new : List (Todo Hash)) (c : Collector Hash)
        (front back : List (Worker Hash))
        → s.workers ≡ front ++ busy (t ∷ ts) ∷ back
        → work g t s.collector ≡ (c, ok new)
        → Step s (record s { workers = front ++ busy (new ++ ts) ∷ back; collector = c })
    fail_task :
        (t : Todo Hash) (ts : List (Todo Hash)) (x : Error) (c : Collector Hash)
        (front back : List (Worker Hash))
        → s.workers ≡ front ++ busy (t ∷ ts) ∷ back
        → work g t s.collector ≡ (c, err x)
        → Step s (record s {
          workers = front ++ gone ∷ back;
          collector = c;
          first_error = keep_first s.first_error x;
        })
    finish_batch :
        (front back : List (Worker Hash))
        → s.workers ≡ front ++ busy [] ∷ back
        → Step s (record s { workers = front ++ idle ∷ back })
    leave_closed :
        (front back : List (Worker Hash))
        → s.phase ≡ closed
        → s.queue ≡ []
        → s.workers ≡ front ++ idle ∷ back
        → Step s (record s { workers = front ++ gone ∷ back })
    leave_cancelled :
        (x : Error) (front back : List (Worker Hash))
        → s.first_error ≡ some x
        → s.workers ≡ front ++ idle ∷ back
        → Step s (record s { workers = front ++ gone ∷ back })

  pub data Run (s : State Hash) : State Hash → Type 0 where
    here : Run s s
    next : {t u : State Hash} → Run s t → Step t u → Run s u

-- The error of `collectLegalTreesParallel`.
unfoldable pub outcome : {Hash : Type 0} → State Hash → Option Error
outcome s = elim s.walk_error [ some x ↦ some x | none ↦ s.first_error ]
