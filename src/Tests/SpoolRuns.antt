-- ===== src/Tests/SpoolRuns.antt =====
-- The spool and the reading of the log.
use git_spdx.Common.{
  ◌↔◌, ◌⊎◌, ◌≡◌, ◌≢◌, refl, ap, Bool, Option, none, some, List, [], ◌∷◌, ◌++◌, map, Bytes, codes,
  Error, eof, out_of_fuel, ok, arith, equal, has_byte, bytes_eq, true,
}
use git_spdx.Stream.{uvarint, put_uvarint}
use git_spdx.Text.{is_blank, trim_left_from, space_len}
use git_spdx.Common.Dict
use git_spdx.Common.Dict.{Dict}
use git_spdx.Change.{Change, record_legal_change, path_group, is_file_mode}
use git_spdx.Change.Legal.{AnyUse, legal_blobs_lem}
use git_spdx.Spool.{
  fresh, write_spool_string, write_fields, write, ready, replay, SpoolState, spool_visit,
  spool_log_history, spooled,
}
use git_spdx.Spool.RoundTrip.{encode_changes, without_merge, replay-write}
use git_spdx.Spool.Ends.{replay-ne-out_of_fuel, replay_dangling}
use git_spdx.Spool.LogHistory.{plain, spool_log_history_lem}
use git_spdx.GitLog.{read_changes, walk_changes}
use git_spdx.GitLog.Print.{changes_of}
use git_spdx.GitLog.RoundTrip.{read_changes-print_log, walk_changes-print_log}
use git_spdx.GitLog.Ends.{read_changes-ne-out_of_fuel}
use git_spdx.Tests.Data.{sound, legal_path, history, log_stream, oid_a, oid_b}
use mathlib.Core.List.{foldl}

-- The visitor that collects the changes.
abbrev collect : List Change → Change → List Change
collect cs c = cs ++ (c ∷ [])

read_changes-print_log_example :
    read_changes collect [] log_stream ≡ (foldl collect [] (changes_of history), none)
unfolding is_blank trim_left_from space_len
read_changes-print_log_example =
    read_changes-print_log collect history (codes "\n") [] (omega arith) (omega arith) refl

read_changes-ne-out_of_fuel_example :
    (read_changes collect [] (record { bytes = codes ":1 2"; stop = eof })).1 ≢ some out_of_fuel
read_changes-ne-out_of_fuel_example =
    read_changes-ne-out_of_fuel collect [] (record { bytes = codes ":1 2"; stop = eof }) (λ e. cc)

-- The history is walked from the log and spooled.
abbrev pub walk : (SpoolState → Change → SpoolState) → SpoolState → SpoolState × Option Error
walk = walk_changes none log_stream none

pub walked :
    walk (spool_visit legal_path sound) (fresh, [])
    ≡ (foldl (spool_visit legal_path sound) (fresh, []) (changes_of history), none)
unfolding is_blank trim_left_from space_len
walked =
    walk_changes-print_log (spool_visit legal_path sound) history (codes "\n") (fresh, [])
      (omega arith) (omega arith) refl

abbrev pub spooled_bytes : Bytes
spooled_bytes = encode_changes (plain (changes_of history))

abbrev pub legal_map : Dict Bytes Bool
legal_map = (oid_a, true) ∷ (oid_b, true) ∷ []

pub spool_runs : spool_log_history legal_path sound none walk ≡ ok (spooled_bytes, legal_map)
unfolding spool_log_history spool_visit write write_fields write_spool_string ready put_uvarint
    uvarint record_legal_change path_group is_file_mode equal has_byte Dict.insert
spool_runs = ap (spooled legal_path sound) walked

spool_log_history_lem_example :
    (replay collect [] (record { bytes = spooled_bytes; stop = eof })
      ≡ (foldl collect [] (plain (changes_of history)), none))
    × (legal_map ≡ foldl (record_legal_change legal_path) [] (changes_of history))
spool_log_history_lem_example =
    spool_log_history_lem legal_path sound walk (changes_of history) walked collect [] spooled_bytes
      legal_map (omega arith) spool_runs

replay-write_example :
    replay collect [] (record { bytes = encode_changes (changes_of history); stop = eof })
    ≡ (foldl collect [] (map without_merge (changes_of history)), none)
replay-write_example =
    replay-write collect sound (changes_of history) (encode_changes (changes_of history)) []
      (omega arith) (unfold write write_fields write_spool_string ready put_uvarint uvarint in refl)

replay-ne-out_of_fuel_example :
    (replay collect [] (record { bytes = codes "xyz"; stop = eof })).1 ≢ some out_of_fuel
replay-ne-out_of_fuel_example =
    replay-ne-out_of_fuel collect [] (record { bytes = codes "xyz"; stop = eof }) (λ e. cc)

replay_dangling_example :
    replay collect []
      (record { bytes = encode_changes (changes_of history) ++ put_uvarint 40; stop = eof })
    ≡ (foldl collect [] (map without_merge (changes_of history)), none)
replay_dangling_example =
    replay_dangling collect (changes_of history) 40 [] (omega arith) (omega arith) (omega arith)

legal_blobs_lem_example :
    (Dict.lookup oid_b (foldl (record_legal_change legal_path) [] (changes_of history)) ≡ some true)
    ↔ (AnyUse legal_path oid_b (changes_of history) ⊎ (Dict.lookup oid_b [] ≡ some true))
unfolding Dict.lookup
legal_blobs_lem_example = legal_blobs_lem legal_path (changes_of history) [] oid_b
