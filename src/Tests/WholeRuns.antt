-- ===== src/Tests/WholeRuns.antt =====
-- A search for legal blobs from the opening of the repository on, in the history of `WalkRuns`.
use git_spdx.Common.{
  ℕ, ◌≡◌, ◌↔◌, refl, true, Option, none, some, [], ◌∷◌, if◌then◌else◌, codes, equal, eof, ok, cut,
  cut_prefix,
}
use git_spdx.Stream.{is_eof}
use git_spdx.Common.Dict.{insert}
use git_spdx.Text.{trim_space}
use git_spdx.Oid.{hex_decode, hex_digit}
use git_spdx.Names.{
  is_legal_directory, is_legal_file_name, any_legal_prefix, has_legal_prefix, equal_fold_ascii,
  same_folded, ends_stem,
}
use git_spdx.Tree.{
  collect_legal_tree, collect_object, read_tree, write_tree, next_in_stream, next_in_memory,
  entry_in_stream, entry_in_memory, read_slice, visit_entry, and_then, add, close_reader, claim,
  is_claimed, canonical_mode,
}
use git_spdx.Links.{
  read_commit, object_links, close_links, read_links, read_line, tree_header, parent_header,
  parse_commit_oid, read_parents, write_links, write_parents, cut_line,
}
use git_spdx.Walk.{is_seen, push_all, visit_loop, visit_commit_trees, legal_blobs_gogit}
use git_spdx.Open.{
  missing, opened, Clone, GoGitOptions, Storage, live, open_gogit, check_variables, check_files,
  check_file, unless_error, configure_gogit, check_clone, handle_of,
}
use git_spdx.Options.{natural}
use git_spdx.Open.Checked.{IsUsable, open_gogit_lem}
use git_spdx.Refs.Roots.{
  has_prefix, head_roots, peeled_roots, reference_roots, roots_loop, history_roots,
}
use git_spdx.Collect.Whole.{History, legal_blobs_of, Finds, legal_blobs_of-Finds}
use git_spdx.Tests.WalkRuns.{number_eq, repo, legal_runs_map}

-- There are no alternates, and the file of grafts is empty.
abbrev clone : Clone
clone = record {
  environment = λ name. [];
  open_error = none;
  file = λ name. if equal name (codes "info/grafts") then opened (ok []) none else missing;
  chroot_error = none;
  close_error = none;
}

abbrev mapped : GoGitOptions
mapped = record { memory_index = true; mmap = true; cache_bytes = 96; cache_shards = 4 }

abbrev storage : Storage
storage = record { maps_files = true; keeps_index = true; cache_size = natural 96; shards = some 4 }

open_gogit_lem_example :
    (((open_gogit 100 mapped clone).1 ≡ ok (some storage))
      ↔ IsUsable 100 mapped clone (some storage))
    × (((open_gogit 100 mapped clone).0 ≡ live)
        ↔ ((v : Option Storage) × ((open_gogit 100 mapped clone).1 ≡ ok v)))
open_gogit_lem_example = open_gogit_lem 100 mapped clone (some storage)

open_runs : open_gogit 100 mapped clone ≡ (live, ok (some storage))
unfolding open_gogit check_variables check_files check_file unless_error configure_gogit check_clone
    git_spdx.Open.file_size handle_of equal trim_space git_spdx.Text.trim_left
    git_spdx.Text.trim_right
open_runs = refl

-- A branch and `HEAD` stand for the commit.
abbrev history : History ℕ
history = record {
  references = (record { name = codes "refs/heads/main"; resolved = ok 1 } ∷ [], eof);
  head = ok 1;
  shallow = ok [];
  peel = λ h. ok (some h);
}

whole_runs : legal_blobs_of 100 mapped clone repo history 3 5 ≡ (legal_runs_map, none)
unfolding legal_blobs_of open_gogit check_variables check_files check_file unless_error
    configure_gogit check_clone handle_of trim_space history_roots head_roots peeled_roots
    reference_roots roots_loop has_prefix legal_blobs_gogit visit_commit_trees visit_loop push_all
    is_seen collect_legal_tree collect_object read_tree write_tree next_in_stream next_in_memory
    entry_in_stream entry_in_memory read_slice visit_entry and_then add close_reader claim
    is_claimed canonical_mode cut is_eof insert is_legal_directory is_legal_file_name equal
    any_legal_prefix has_legal_prefix equal_fold_ascii same_folded ends_stem read_commit
    object_links close_links read_links read_line tree_header parent_header parse_commit_oid
    read_parents cut_prefix hex_decode hex_digit write_links write_parents cut_line
    git_spdx.Text.trim_left git_spdx.Text.trim_right
whole_runs = refl

legal_blobs_of-Finds_example : Finds 100 mapped clone repo history 3 5 legal_runs_map
legal_blobs_of-Finds_example =
    legal_blobs_of-Finds 100 mapped clone repo history 3 5 legal_runs_map whole_runs
