-- ===== src/Refs/Roots.antt =====
-- Where a walk starts: `historyRoots` of gogit_history.go, and the set-up of `walkChangesGoGitStream`
-- with `shallowCommitNodeIndex` in gogit_history_stream.go.
--
-- go-git is a parameter: the references that its iterator gives and the error with which it ends, what
-- `Head` and `Reference` answer, the commit nodes, and the order of the commit-graph iterator.
use git_spdx.Common.{
  Bool, true, false, not, Option, none, some, List, [], ◌∷◌, ◌++◌, if◌then◌else◌, Bytes, codes,
  cut_prefix, Eq, Error, wrapped, reference_not_found, replacement_ref, Result, ok, err, ◌>>=◌,
}
use git_spdx.Stream.{is_eof}
use git_spdx.Change.{Change}
use git_spdx.Walk.{is_seen}
use git_spdx.History.{Node, Trees, walk_nodes}

-- A reference, and what `Reference(name, true)` answers for it.
pub record Reference (Hash : Type 0) : Type 0 where
  pub name : Bytes
  pub resolved : Result Hash

-- `errors.Is(err, plumbing.ErrReferenceNotFound)`
unfoldable pub is_missing : Error → Bool
is_missing reference_not_found = true
is_missing (wrapped x) = is_missing x
is_missing _ = false

-- `strings.HasPrefix`
unfoldable pub has_prefix : Bytes → Bytes → Bool
has_prefix p s = elim (cut_prefix p s) [ none ↦ false | some rest ↦ true ]

-- `if ok { roots = append(roots, h) }`
abbrev pub roots_of {ℓ} : {A : Type ℓ} → Option A → List A
roots_of none = []
roots_of (some h) = h ∷ []

-- `peel` is `commitAtReference`.
module _ {Hash : Type 0} (peel : Hash → Result (Option Hash)) where
  unfoldable pub head_roots : Result Hash → Result (List Hash)
  head_roots (ok h) = do found ← peel h; ok (roots_of found)
  head_roots (err x) = if is_missing x then ok [] else err x

  unfoldable pub peeled_roots : Hash → Result (List Hash)
  peeled_roots h = elim (peel h) [ err x ↦ err (wrapped x) | ok found ↦ ok (roots_of found) ]

  -- A round of the loop.
  unfoldable pub reference_roots : Reference Hash → Result (List Hash)
  reference_roots r =
      if not (has_prefix (codes "refs/") r.name)
      then ok []
      else if has_prefix (codes "refs/replace/") r.name
      then err replacement_ref
      else r.resolved >>= peeled_roots

  unfoldable pub roots_loop : List (Reference Hash) → Error → List Hash → Result (List Hash)
  roots_loop [] stop roots = if is_eof stop then ok roots else err stop
  roots_loop (r ∷ rs) stop roots =
      reference_roots r >>= λ found. roots_loop rs stop (roots ++ found)

  unfoldable pub history_roots :
      Result (List (Reference Hash) × Error) → Result Hash → Result (List Hash)
  history_roots refs head = do (rs, stop) ← refs; roots ← head_roots head; roots_loop rs stop roots

-- `shallowCommitNode`: a commit at the boundary has no parents.
unfoldable pub shallow_node : {Hash : Type 0} → (Hash → Bool) → Node Hash → Node Hash
shallow_node boundary n = if boundary n.id then record n { parents = [] } else n

module _ {Hash : Type 0} ⦃e : Eq Hash⦄ where
  -- The nodes of the root: each hash once. `get` is the index below the shallow one.
  unfoldable pub root_nodes :
      (Hash → Result (Node Hash))
      → (Hash → Bool)
      → List Hash
      → List Hash
      → Result (List (Node Hash))
  root_nodes get boundary seen [] = ok []
  root_nodes get boundary seen (h ∷ hs) = elim (is_seen h seen) [
    | true ↦ root_nodes get boundary seen hs
    | false ↦ do
      n ← get h
      ns ← root_nodes get boundary (h ∷ seen) hs
      ok (shallow_node boundary n ∷ ns)
  ]

  -- The nodes in their order, with the error at the end, where the roots could be read. `order` is the
  -- iterator behind its first step, which gives the root itself.
  unfoldable pub stream_nodes :
      Result (List Hash)
      → Result (List Hash)
      → (Hash → Result (Node Hash))
      → (List (Node Hash) → Result (List (Node Hash) × Error))
      → Result (Option (List (Node Hash) × Error))
  stream_nodes roots shallow get order = roots >>= λ hashes. elim hashes [
    | [] ↦ ok none
    | h ∷ hs ↦ do
      boundary ← shallow
      nodes ← root_nodes get (λ k. is_seen k boundary) [] (h ∷ hs)
      walked ← order nodes
      ok (some walked)
  ]

  -- `walkChangesGoGitStream` with one worker.
  unfoldable pub walk_stream :
      {Tree S : Type 0}
      → Trees Hash Tree
      → Bool
      → (S → Change → S)
      → Result (Option (List (Node Hash) × Error))
      → S
      → S × Option Error
  walk_stream g merges visit (err x) s = (s, some x)
  walk_stream g merges visit (ok none) s = (s, none)
  walk_stream g merges visit (ok (some (ns, stop))) s = walk_nodes g merges visit ns stop [] s
