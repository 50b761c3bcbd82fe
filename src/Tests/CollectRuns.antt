-- ===== src/Tests/CollectRuns.antt =====
-- A collection with two workers, of which one does the work.
use git_spdx.Common.{
  ℕ, Bool, true, ap, ◌≡◌, ◌⊎◌, inl, inr, ◌↔◌, refl, sym, false, Bytes, bytes_eq, Option, none, some,
  List, [], ◌∷◌, ◌++◌, Error, ok, arith, length, replicate, equal, cut,
}
use git_spdx.Common.Member.{Member}
use git_spdx.Stream.{is_eof}
use git_spdx.Common.Dict.{insert, lookup}
use git_spdx.Names.{
  is_legal_directory, is_legal_file_name, any_legal_prefix, has_legal_prefix, equal_fold_ascii,
  same_folded, ends_stem,
}
use git_spdx.Tree.{
  Collector, next_in_stream, next_in_memory, entry_in_stream, entry_in_memory, read_slice, add,
  claim, is_claimed, canonical_mode,
}
use git_spdx.Walk.{push_all}
use git_spdx.Collect.{
  Todo, calls, work, work_entry, memory_entries, stream_entries, object_entries, entries_of, closed,
  idle, busy, gone, State, start, take_tree, end_batch, send_batch, receive, do_task, finish_batch,
  leave_closed, Run, here, next, outcome,
}
use git_spdx.Collect.Cover.{Stored}
use git_spdx.Collect.Blobs.{Key, at_top, below, IsLegalBlob}
use git_spdx.Collect.Safe.{is_known, IsReadable, Run-Stored}
use git_spdx.Collect.Ends.{IsDone, Run-IsLegalBlob}
use git_spdx.Collect.Progress.{CanStep, Run-CanStep}
use git_spdx.Collect.Agree.{walked, parallel-serial}
use git_spdx.Tests.WalkRuns.{number_eq, repo, inside, legal_runs_map, legal_runs, visit_runs}
use mathlib.Core.Path.{subst}

abbrev final : State ℕ
final = record {
  upcoming = [];
  batch = [];
  phase = closed;
  queue = [];
  workers = gone ∷ gone ∷ [];
  collector = record { seen = (6, false) ∷ (5, false) ∷ []; legal = legal_runs_map };
  walk_error = none;
  first_error = none;
}

-- The first worker does its next task.
works :
    {s t : State ℕ} (c : Collector ℕ) (todo : Todo ℕ) (ts new : List (Todo ℕ))
    → Run repo none s t
    → t.workers ≡ busy (todo ∷ ts) ∷ idle ∷ []
    → work repo todo t.collector ≡ (c, ok new)
    → Run repo none s (record t { workers = busy (new ++ ts) ∷ idle ∷ []; collector = c })
works c todo ts new r p q = next r (do_task todo ts new c [] (idle ∷ []) p q)

sent :
    Run repo none
      (start 2 (5 ∷ 6 ∷ []))
      (record (start 2 []) { phase = closed; workers = busy (calls (5 ∷ 6 ∷ [])) ∷ idle ∷ [] })
unfolding start replicate length
sent =
    next
      (next
        (next
          (next (next here (take_tree 5 (6 ∷ []) refl refl (omega arith)))
            (take_tree 6 [] refl refl (omega arith)))
          (end_batch refl refl refl (omega arith)))
        (send_batch true refl (omega arith)))
      (receive (5 ∷ 6 ∷ []) [] [] (idle ∷ []) refl refl)

run_works : Run repo none (start 2 (5 ∷ 6 ∷ [])) final
unfolding start replicate work work_entry memory_entries stream_entries object_entries entries_of
    length next_in_stream next_in_memory entry_in_stream entry_in_memory read_slice add claim
    is_claimed canonical_mode cut is_eof insert is_legal_directory is_legal_file_name equal
    any_legal_prefix has_legal_prefix equal_fold_ascii same_folded ends_stem
run_works =
    next
      (next
        (next
          (works _ _ _ _
            (works _ _ _ _
              (works _ _ _ _
                (works _ _ _ _
                  (works _ _ _ _
                    (works _ _ _ _ (works _ _ _ _ (works _ _ _ _ sent refl refl) refl refl) refl
                      refl)
                    refl refl)
                  refl refl)
                refl refl)
              refl refl)
            refl refl)
          (finish_batch [] (idle ∷ []) refl))
        (leave_closed [] (idle ∷ []) refl refl refl))
      (leave_closed (gone ∷ []) [] refl refl refl)

is_done : IsDone final
is_done = record {
  is_closed = refl;
  all_gone = λ w m. elim m [
    | inl same ↦ sym same
    | inr (inl same) ↦ sym same
    | inr (inr end) ↦ absurd end
  ];
}

abbrev OnList : ℕ → Type 0
OnList h = Member h (5 ∷ 6 ∷ [])

Run-IsLegalBlob_example :
    (◌≡◌ {A = Option Error} none none)
    × ((text : Bytes) → Stored final.collector text ↔ IsLegalBlob repo OnList text)
unfolding outcome
Run-IsLegalBlob_example =
    Run-IsLegalBlob repo none OnList 2 (5 ∷ 6 ∷ []) final (omega arith) (λ h. (λ m. m, λ m. m))
      run_works is_done refl

Run-CanStep_example : IsDone {Hash = ℕ} (start 2 (5 ∷ [])) ⊎ CanStep repo none (start 2 (5 ∷ []))
Run-CanStep_example = Run-CanStep repo none 2 (5 ∷ []) (start 2 (5 ∷ [])) (omega arith) here

walked_works :
    Run repo
      (walked repo inside 4 (1 ∷ [])).1
      (start 2 (push_all (walked repo inside 4 (1 ∷ [])).0 []))
      final
unfolding push_all
walked_works =
    subst (λ o. Run repo o.1 (start 2 (push_all o.0 [])) final) (sym visit_runs) run_works

parallel-serial_example :
    Stored final.collector (7 ∷ []) ↔ (lookup (7 ∷ []) legal_runs_map ≡ some true)
unfolding outcome
parallel-serial_example =
    parallel-serial repo inside 4 (1 ∷ []) 3 legal_runs_map 2 final legal_runs (omega arith)
      walked_works is_done refl (7 ∷ [])

-- The trees that are reached from 5 and 6 are these two.
reached_runs : {h : ℕ} {b : Bool} → Key repo OnList h b → (h ≡ 5) ⊎ (h ≡ 6)
unfolding memory_entries stream_entries object_entries entries_of length next_in_stream
    next_in_memory entry_in_stream entry_in_memory read_slice canonical_mode cut is_eof equal
reached_runs (at_top (inl same)) = inl (sym same)
reached_runs (at_top (inr (inl same))) = inr (sym same)
reached_runs (at_top (inr (inr end))) = absurd end
reached_runs (below x key m is_dir) = elim (reached_runs key) [
  | inl five ↦ elim (subst (λ h. Member x (entries_of repo h).0) five m) [
    | inl licence ↦ absurd (cc (ap (λ y. y.mode) licence, is_dir))
    | inr (inl src) ↦ inr (sym (ap (λ y. y.oid) src))
    | inr (inr end) ↦ absurd end
  ]
  | inr six ↦ elim (subst (λ h. Member x (entries_of repo h).0) six m) [
    | inl file ↦ absurd (cc (ap (λ y. y.mode) file, is_dir))
    | inr end ↦ absurd end
  ]
]

five-IsReadable : IsReadable repo 5
unfolding memory_entries stream_entries object_entries entries_of length next_in_stream
    next_in_memory entry_in_stream entry_in_memory read_slice canonical_mode cut is_eof equal
five-IsReadable = record {
  no_error = refl;
  known = λ x m. elim m [
    | inl licence ↦ subst (λ y. is_known y.mode ≡ true) licence refl
    | inr (inl src) ↦ subst (λ y. is_known y.mode ≡ true) src refl
    | inr (inr end) ↦ absurd end
  ];
}

six-IsReadable : IsReadable repo 6
unfolding memory_entries stream_entries object_entries entries_of length next_in_stream
    next_in_memory entry_in_stream entry_in_memory read_slice canonical_mode cut is_eof equal
six-IsReadable = record {
  no_error = refl;
  known = λ x m. elim m [
    | inl file ↦ subst (λ y. is_known y.mode ≡ true) file refl
    | inr end ↦ absurd end
  ];
}

repo-IsReadable : (h : ℕ) (b : Bool) → Key repo OnList h b → IsReadable repo h
repo-IsReadable h b key = elim (reached_runs key) [
  | inl five ↦ subst (IsReadable repo) (sym five) five-IsReadable
  | inr six ↦ subst (IsReadable repo) (sym six) six-IsReadable
]

Run-Stored_example :
    (outcome final ≡ none)
    × ((text : Bytes) → Stored final.collector text ↔ IsLegalBlob repo OnList text)
Run-Stored_example =
    Run-Stored repo OnList repo-IsReadable 2 (5 ∷ 6 ∷ []) final (omega arith)
      (λ h. (λ m. m, λ m. m)) run_works is_done
