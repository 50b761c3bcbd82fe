-- ===== src/Links.antt =====
-- The tree and the parents of a raw commit: `parseCommitObjectID`, `commitLinksWriter.Write` and
-- `readCommitTreeAndParents` of gogit_history_stream.go. go-git's objects are the parameter of `Tree`;
-- the field `is_tree` is the answer to the question for the kind that is wanted, here a commit.
pub mod Streamed
use git_spdx.Common.{
  ℕ, zero, suc, ◌+◌, Bool, true, false, not, ◌&&◌, ◌||◌, Option, none, some, List, [], ◌∷◌, ltb,
  ◌==◌, if◌then◌else◌, Bytes, codes, cut, cut_prefix, length, Error, eof, buffer_full,
  no_tree_header, invalid_oid, invalid_hex, wrong_kind, out_of_fuel, wrapped, Result, ok, err,
  ◌>>=◌,
}
use git_spdx.Stream.{Stream, is_eof}
use git_spdx.Oid.{hex_decode, encoded_len}
use git_spdx.Tree.{Object, Library, buffer_size}

-- A line as `ReadSlice('\n')` gives it, without the newline: with what follows, as a last line that
-- the end of the stream cuts off, or not at all.
pub data Line : Type 0 where
  line : Bytes → Bytes → Line
  last : Bytes → Line
  broken : Error → Line

unfoldable pub read_line : Bytes → Error → Line
read_line bytes stop = elim (cut b'\n' bytes) [
  | some (s, rest) ↦ if ltb (length s) buffer_size then line s rest else broken buffer_full
  | none ↦
      if not (ltb (length bytes) buffer_size)
      then broken buffer_full
      else if is_eof stop && not (length bytes == 0)
      then last bytes
      else broken stop
]

-- `bytes.Cut(data, "\n")`: all of it and nothing, where there is no newline.
unfoldable pub cut_line : Bytes → Bytes × Bytes
cut_line bytes = elim (cut b'\n' bytes) [ some (s, rest) ↦ (s, rest) | none ↦ (bytes, []) ]

-- `includeParents` keeps the parents or drops them.
abbrev pub keep : {Hash : Type 0} → Bool → List Hash → List Hash
keep included hs = if included then hs else []

-- The deferred `Close`.
unfoldable pub close_links {ℓ} : {V : Type ℓ} → Option Error → Result V → Result V
close_links closing (err x) = err x
close_links none (ok v) = ok v
close_links (some x) (ok v) = err x

-- `from_bytes` is `plumbing.FromBytes`.
module _ {Hash : Type 0} (from_bytes : Bytes → Option Hash) where
  unfoldable pub parse_commit_oid : ℕ → Bytes → Result Hash
  parse_commit_oid size value =
      if not (length value == encoded_len size)
      then err (invalid_oid value)
      else elim (hex_decode value) [
        | none ↦ err (invalid_hex value)
        | some decoded ↦ elim (from_bytes decoded) [
          | none ↦ err (invalid_oid value)
          | some h ↦ ok h
        ]
      ]

  -- The tree header, on its line.
  unfoldable pub tree_header : ℕ → Bytes → Result Hash
  tree_header size s = elim (cut_prefix (codes "tree ") s) [
    | none ↦ err no_tree_header
    | some value ↦ elim (parse_commit_oid size value) [ err x ↦ err (wrapped x) | ok h ↦ ok h ]
  ]

  -- A line behind the tree header: no parent, or a parent that may be wrong.
  unfoldable pub parent_header : ℕ → Bytes → Option (Result Hash)
  parent_header size s = elim (cut_prefix (codes "parent ") s) [
    | none ↦ none
    | some value ↦
        some (elim (parse_commit_oid size value) [ err x ↦ err (wrapped x) | ok h ↦ ok h ])
  ]

  -- The loop of `Write` over the parents.
  unfoldable pub write_parents : ℕ → ℕ → Bytes → Result (List Hash)
  write_parents size zero rest = err out_of_fuel
  write_parents size (suc fuel) [] = ok []
  write_parents size (suc fuel) (b ∷ bs) =
      let (s, next) = cut_line (b ∷ bs) in
      elim (parent_header size s) [
        | none ↦ ok []
        | some (err x) ↦ err x
        | some (ok h) ↦ do hs ← write_parents size fuel next; ok (h ∷ hs)
      ]

  -- `commitLinksWriter.Write`: the tree and the parents.
  unfoldable pub write_links : ℕ → Bool → Bytes → Result (Hash × List Hash)
  write_links size included content = do
    tree ← tree_header size (cut_line content).0
    parents ← write_parents size (suc (length content)) (cut_line content).1
    ok (tree, keep included parents)

  -- The loop of `readCommitTreeAndParents` over the parents.
  unfoldable pub read_parents : ℕ → ℕ → Bytes → Error → Result (List Hash)
  read_parents size zero bytes stop = err out_of_fuel
  read_parents size (suc fuel) bytes stop = elim (read_line bytes stop) [
    | broken x ↦ err (wrapped x)
    | last s ↦ elim (parent_header size s) [
      | none ↦ ok []
      | some (err x) ↦ err x
      | some (ok h) ↦ ok (h ∷ [])
    ]
    | line s rest ↦ elim (parent_header size s) [
      | none ↦ ok []
      | some (err x) ↦ err x
      | some (ok h) ↦ do hs ← read_parents size fuel rest stop; ok (h ∷ hs)
    ]
  ]

  unfoldable pub read_links : ℕ → Bool → Bytes → Error → Result (Hash × List Hash)
  read_links size included bytes stop = elim (read_line bytes stop) [
    | broken x ↦ err (wrapped x)
    | last s ↦ do tree ← tree_header size s; ok (tree, [])
    | line s rest ↦ do
      tree ← tree_header size s
      parents ← read_parents size (suc (length rest)) rest stop
      ok (tree, keep included parents)
  ]

  unfoldable pub object_links : ℕ → Bool → Object → Result (Hash × List Hash)
  object_links size included o =
      if not o.is_tree
      then err wrong_kind
      else if o.in_memory
      then write_links size included o.content
      else elim o.open_error [
        | some x ↦ err x
        | none ↦ close_links o.close_error (read_links size included o.content o.stop)
      ]

-- `readCommitTreeAndParents`: the tree, and the parents that it appends.
unfoldable pub read_commit :
    {Hash : Type 0} → Library Hash → Hash → Bool → Result (Hash × List Hash)
read_commit g h included = do o ← g.load h; object_links g.from_bytes (g.size h) included o
