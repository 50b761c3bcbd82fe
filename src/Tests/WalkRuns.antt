-- ===== src/Tests/WalkRuns.antt =====
-- Two commits and their trees, some of which come from a reader.
use git_spdx.Common.{
  ℕ, ◌≡◌, refl, ◌↔◌, inl, inr, ==_iff, ap, sym, ◌++◌, Bool, true, false, Option, none, some, List,
  [], ◌∷◌, Bytes, codes, equal, Eq, eof, invalid_oid, Result, ok, err, if◌then◌else◌, ◌==◌, arith,
  cut, cut_prefix, bytes_eq,
}
use git_spdx.Stream.{is_eof}
use git_spdx.Common.Dict.{insert, Dict}
use git_spdx.Oid.{hex_decode, hex_digit}
use git_spdx.Names.{
  is_legal_directory, is_legal_file_name, any_legal_prefix, has_legal_prefix, equal_fold_ascii,
  same_folded, ends_stem,
}
use git_spdx.Tree.{
  Object, Library, Collector, new_collector, collect_legal_tree, collect_object, read_tree,
  write_tree, next_in_stream, next_in_memory, entry_in_stream, entry_in_memory, read_slice,
  visit_entry, and_then, add, close_reader, claim, is_claimed, canonical_mode,
}
use git_spdx.Tree.Streamed.{in_memory_library}
use git_spdx.Links.{
  read_commit, object_links, close_links, read_links, read_line, tree_header, parent_header,
  parse_commit_oid, read_parents, write_links, write_parents, cut_line,
}
use git_spdx.Walk.{is_seen, push_all, visit_loop, visit_commit_trees, legal_blobs_gogit}
use git_spdx.Walk.Reach.{record_tree, Member, IsTree, visit_commit_trees_lem}
use git_spdx.Walk.Fuel.{IsListed, pending, parent_count, visit_commit_trees_total}
use git_spdx.Walk.Streamed.{legal_blobs_gogit-memory}

instance abbrev pub number_eq : Eq ℕ
number_eq = record { beq = ◌==◌; beq_iff = ==_iff }

abbrev from_disk : Bytes → Object
from_disk bytes = record {
  is_tree = true;
  in_memory = false;
  content = bytes;
  open_error = none;
  stop = eof;
  close_error = none;
}

abbrev only_byte : Bytes → Option ℕ
only_byte (b ∷ []) = some b
only_byte bytes = none

abbrev object : ℕ → Result Object
object h =
    if h == 1
    then ok (from_disk (codes "tree 05\nparent 02\n\n"))
    else if h == 2
    then ok (record (from_disk (codes "tree 06\n\n")) { in_memory = true })
    else if h == 5
    then ok (from_disk (codes "100644 LICENSE" ++ 0 ∷ 7 ∷ codes "40000 src" ++ 0 ∷ 6 ∷ []))
    else if h == 6
    then ok (record (from_disk (codes "100644 a.c" ++ 0 ∷ 8 ∷ [])) { in_memory = true })
    else err (invalid_oid (h ∷ []))

abbrev pub repo : Library ℕ
repo = record {
  size = λ h. 1;
  hex = λ h. h ∷ [];
  from_bytes = only_byte;
  mode_of = λ m. ok (if equal m (codes "40000") then 0o040000 else 0o100644);
  load = object;
}

read_runs : read_commit repo 1 true ≡ ok (5, 2 ∷ [])
unfolding read_commit object_links close_links read_links read_line tree_header parent_header
    parse_commit_oid read_parents cut cut_prefix hex_decode hex_digit is_eof
read_runs = refl

abbrev collected : Collector ℕ
collected = record { seen = (6, false) ∷ (5, false) ∷ []; legal = ((7 ∷ []), true) ∷ [] }

collect_runs : collect_legal_tree repo 3 5 false new_collector ≡ (collected, none)
unfolding collect_legal_tree collect_object read_tree write_tree next_in_stream next_in_memory
    entry_in_stream entry_in_memory read_slice visit_entry and_then add close_reader claim
    is_claimed canonical_mode cut is_eof insert is_legal_directory is_legal_file_name equal
    any_legal_prefix has_legal_prefix equal_fold_ascii same_folded ends_stem
collect_runs = refl

-- No commit is at a boundary.
abbrev pub inside : ℕ → Bool
inside h = false

abbrev pub history_read : ℕ → Bool → Result (ℕ × List ℕ)
history_read = read_commit repo

pub visit_runs :
    visit_commit_trees history_read inside record_tree 4 (1 ∷ []) [] ≡ (6 ∷ 5 ∷ [], none)
unfolding visit_commit_trees visit_loop push_all is_seen and_then read_commit object_links
    close_links read_links read_line tree_header parent_header parse_commit_oid read_parents
    cut_prefix hex_decode hex_digit write_links write_parents cut_line cut is_eof
visit_runs = refl

visit_commit_trees_lem_example :
    Member {A = ℕ} 6 (6 ∷ 5 ∷ []) ↔ IsTree history_read inside (1 ∷ []) 6
visit_commit_trees_lem_example =
    visit_commit_trees_lem history_read inside (1 ∷ []) 4 (6 ∷ 5 ∷ []) visit_runs 6

IsListed-runs : (h : ℕ) → Member h (1 ∷ 2 ∷ []) → IsListed history_read inside (1 ∷ 2 ∷ []) h
unfolding IsListed read_commit object_links close_links read_links read_line tree_header
    parent_header parse_commit_oid read_parents cut_prefix hex_decode hex_digit write_links
    write_parents cut_line cut is_eof
IsListed-runs h (inl one) =
    (5, 2 ∷ [], ap (λ q. history_read q true) (sym one), (inr (inl refl), tt))
IsListed-runs h (inr (inl two)) = (6, [], ap (λ q. history_read q true) (sym two), tt)
IsListed-runs h (inr (inr end)) = absurd end

visit_commit_trees_total_example :
    (visit_commit_trees history_read inside record_tree 4 (1 ∷ []) []).1 ≡ none
unfolding pending parent_count is_seen read_commit object_links close_links read_links read_line
    tree_header parent_header parse_commit_oid read_parents cut_prefix hex_decode hex_digit
    write_links write_parents cut_line cut is_eof
visit_commit_trees_total_example =
    visit_commit_trees_total history_read inside record_tree (λ tree c. refl) (1 ∷ 2 ∷ [])
      IsListed-runs 4 (1 ∷ []) [] (inl refl, tt) (omega arith)

abbrev pub legal_runs_map : Dict Bytes Bool
legal_runs_map = ((7 ∷ []), true) ∷ []

pub legal_runs : legal_blobs_gogit repo inside 3 4 (1 ∷ []) ≡ (legal_runs_map, none)
unfolding legal_blobs_gogit visit_commit_trees visit_loop push_all is_seen collect_legal_tree
    collect_object read_tree write_tree next_in_stream next_in_memory entry_in_stream
    entry_in_memory read_slice visit_entry and_then add close_reader claim is_claimed canonical_mode
    cut is_eof insert is_legal_directory is_legal_file_name equal any_legal_prefix has_legal_prefix
    equal_fold_ascii same_folded ends_stem read_commit object_links close_links read_links read_line
    tree_header parent_header parse_commit_oid read_parents cut_prefix hex_decode hex_digit
    write_links write_parents cut_line
legal_runs = refl

legal_blobs_gogit-memory_example :
    legal_blobs_gogit (in_memory_library repo) inside 3 4 (1 ∷ []) ≡ (legal_runs_map, none)
legal_blobs_gogit-memory_example =
    legal_blobs_gogit-memory repo inside 3 4 (1 ∷ []) legal_runs_map legal_runs
