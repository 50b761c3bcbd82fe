-- ===== src/History.antt =====
-- The changes of a history through go-git: `visitCommitNodeChanges`, `historyTreeCache` and the loops
-- of `walkChangesGoGitStream` in gogit_history_stream.go, and `commitSubject` of gogit_history.go.
--
-- go-git is a parameter. `tree_at` is the tree of the commit with a hash, by whichever node it is asked
-- for; `diff` is `DiffTreeContext`; `text` is a hash in hexadecimal digits. The commit-graph iterator
-- is the list of nodes that it gives and the error with which it ends.
pub mod Cache
pub mod Stream
pub mod Order
pub mod Measure
pub mod Progress
use git_spdx.Common.{
  ℕ, zero, suc, ◌+◌, ◌-◌, ◌/◌, ◌%◌, Bool, true, false, not, ◌||◌, Option, none, some, List, [], ◌∷◌,
  ◌++◌, map, ltb, ◌==◌, if◌then◌else◌, Bytes, codes, length, replicate, Eq, Error, Result, ok, err,
}
use git_spdx.Common.Dict.{Dict, lookup, insert, erase}
use git_spdx.Stream.{is_eof}
use git_spdx.Text.{is_blank, trim_space}
use git_spdx.Change.{Change}
use mathlib.Core.List.{foldl}

-- `strings.Split` at one byte.
unfoldable pub split : ℕ → Bytes → List Bytes
split d [] = [] ∷ []
split d (b ∷ bs) = elim (split d bs) [
  | [] ↦ []
  | line ∷ lines ↦ if b == d then [] ∷ line ∷ lines else (b ∷ line) ∷ lines
]

-- `strings.Join` with a space.
unfoldable pub join_lines : List Bytes → Bytes
join_lines [] = []
join_lines (line ∷ []) = line
join_lines (line ∷ next ∷ lines) = line ++ b' ' ∷ join_lines (next ∷ lines)

-- The loop of `commitSubject`: the lines in front of the first blank one.
unfoldable pub subject_lines : List Bytes → List Bytes
subject_lines [] = []
subject_lines (line ∷ lines) =
    let rest = subject_lines lines in if is_blank line then [] else trim_space line ∷ rest

unfoldable pub commit_subject : Bytes → Bytes
commit_subject message = join_lines (subject_lines (split b'\n' (trim_space message)))

-- `%06o`: octal digits, six at least. A mode has 32 bits, so eleven digits are enough.
unfoldable pub octal : ℕ → ℕ → Bytes
octal zero n = []
octal (suc digits) n = octal digits (n / 8) ++ (b'0' + n % 8) ∷ []

-- Leading zeros beyond the sixth digit from the right.
unfoldable pub strip_zeros : ℕ → Bytes → Bytes
strip_zeros zero s = s
strip_zeros (suc more) [] = []
strip_zeros (suc more) (b ∷ bs) =
    let rest = strip_zeros more bs in if b == b'0' then rest else b ∷ bs

unfoldable pub mode_text : ℕ → Bytes
mode_text mode = strip_zeros 5 (octal 11 mode)

-- A side of an entry of a tree difference; `mode` is 0 where the side has no entry.
pub record DiffSide (Hash : Type 0) : Type 0 where
  pub name : Bytes
  pub mode : ℕ
  pub hash : Hash

pub record DiffEntry (Hash : Type 0) : Type 0 where
  pub before : DiffSide Hash
  pub after : DiffSide Hash

-- A commit node: its parents as the shallow boundary leaves them, what `Commit` answers (the date in
-- RFC 3339 and the message), and the error of `ParentNode(0)`.
pub record Node (Hash : Type 0) : Type 0 where
  pub id : Hash
  pub parents : List Hash
  pub commit : Result (Bytes × Bytes)
  pub parent_error : Option Error

pub record Trees (Hash Tree : Type 0) : Type 0 where
  pub tree_at : Hash → Result Tree
  pub diff : Option Tree → Tree → Result (List (DiffEntry Hash))
  pub text : Hash → Bytes

-- `historyTreeCache`: each key is loaded once; who asks meanwhile waits for that load.
abbrev pub Cache : Type 0 → Type 0 → Type 0
Cache Hash Tree = Dict Hash (Result Tree)

module _ {Hash Tree : Type 0} (g : Trees Hash Tree) where
  -- The text of a side's hash; zeros where the side has no entry.
  unfoldable pub side_oid : Bytes → DiffSide Hash → Bytes
  side_oid hash side = if side.mode == 0 then replicate (length hash) b'0' else g.text side.hash

  unfoldable pub entry_change : Node Hash → Bytes → Bytes → DiffEntry Hash → Change
  entry_change n date message entry =
      let hash = g.text n.id in
      record {
        commit = hash;
        date = date;
        subject = commit_subject message;
        old_oid = side_oid hash entry.before;
        new_oid = side_oid hash entry.after;
        path = if length (entry.after).name == 0 then (entry.before).name else (entry.after).name;
        old_mode = mode_text (entry.before).mode;
        new_mode = mode_text (entry.after).mode;
        merge = ltb 1 (length n.parents);
      }

  -- The part of `visitCommitNodeChanges` behind the trees.
  unfoldable pub tree_changes :
      Node Hash → Bytes × Bytes → Option Tree → Tree → Result (List Change)
  tree_changes n (date, message) from to = elim (g.diff from to) [
    | err e ↦ err e
    | ok entries ↦ ok (map (entry_change n date message) entries)
  ]

-- A step that may fail, and what follows it, on a cache that each leaves behind.
unfoldable pub chain : {A B C : Type 0} → Result A × C → (A → C → Result B × C) → Result B × C
chain (err x, cache) next = (err x, cache)
chain (ok a, cache) next = next a cache

-- The changes of a commit are visited, unless it failed.
unfoldable pub visit_changes :
    {S C : Type 0}
    → (S → Change → S)
    → Result (List Change) × C
    → S
    → (S → C → S × Option Error)
    → S × Option Error
visit_changes visit (err x, cache) s next = (s, some x)
visit_changes visit (ok cs, cache) s next = next (foldl visit s cs) cache

module _ {Hash Tree : Type 0} ⦃e : Eq Hash⦄ (g : Trees Hash Tree) where
  unfoldable pub load : Hash → Cache Hash Tree → Result Tree × Cache Hash Tree
  load h cache = elim (lookup h cache) [
    | some r ↦ (r, cache)
    | none ↦ (g.tree_at h, insert h (g.tree_at h) cache)
  ]

  -- The tree of the first parent, if the commit has one.
  unfoldable pub load_parent : Node Hash → Cache Hash Tree → Result (Option Tree) × Cache Hash Tree
  load_parent n cache = elim n.parents [
    | [] ↦ (ok none, cache)
    | p ∷ ps ↦ elim n.parent_error [
      | some x ↦ (err x, cache)
      | none ↦ chain (load p cache) (λ from cache'. (ok (some from), cache'))
    ]
  ]

  -- `visitCommitNodeChanges`: it visits no change before the last point where it can fail.
  unfoldable pub visit_node : Node Hash → Cache Hash Tree → Result (List Change) × Cache Hash Tree
  visit_node n cache =
      chain (n.commit, cache)
        λ info cache. chain (load n.id cache) λ to cache'.
          chain (load_parent n cache') λ from cache''. (tree_changes g n info from to, cache'')

  -- A merge is passed over where merges are not wanted.
  unfoldable pub visit_task :
      Bool → Node Hash → Cache Hash Tree → Result (List Change) × Cache Hash Tree
  visit_task merges n cache =
      if merges || ltb (length n.parents) 2 then visit_node n cache else (ok [], cache)

  -- The loop of `walkChangesGoGitStream` with one worker.
  unfoldable pub walk_nodes :
      {S : Type 0}
      → Bool
      → (S → Change → S)
      → List (Node Hash)
      → Error
      → Cache Hash Tree
      → S
      → S × Option Error
  walk_nodes merges visit [] stop cache s = (s, if is_eof stop then none else some stop)
  walk_nodes merges visit (n ∷ ns) stop cache s =
      visit_changes visit (visit_task merges n cache) s
        (λ s' cache'. walk_nodes merges visit ns stop (erase n.id cache') s')
