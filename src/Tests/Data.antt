-- ===== src/Tests/Data.antt =====
-- A small history: two commits and a merge, with a licence that changes.
use git_spdx.Common.{Bool, ◌||◌, none, List, [], ◌∷◌, Bytes, codes, equal, replicate, eof}
use git_spdx.Stream.{Stream}
use git_spdx.Spool.{Device}
use git_spdx.GitLog.Print.{Entry, Commit, print_log}

abbrev pub sound : Device
sound = record { write_error = λ b. none; flush_error = λ b. none; seek_error = λ b. none }

abbrev pub legal_path : Bytes → Bool
legal_path p = equal p (codes "LICENSE") || equal p (codes "lib/COPYING")

abbrev pub oid_a : Bytes
oid_a = replicate 40 b'a'

abbrev pub oid_b : Bytes
oid_b = replicate 40 b'b'

abbrev pub zeros : Bytes
zeros = replicate 40 b'0'

abbrev pub added : Entry
added = record {
  gap = 1;
  old_mode = codes "000000";
  new_mode = codes "100644";
  old_oid = zeros;
  new_oid = oid_a;
  status = codes "A";
  path = codes "LICENSE";
}

abbrev pub changed : Entry
changed = record {
  gap = 0;
  old_mode = codes "100644";
  new_mode = codes "100644";
  old_oid = oid_a;
  new_oid = oid_b;
  status = codes "M";
  path = codes "LICENSE";
}

abbrev pub first_id : Bytes
first_id = replicate 40 b'1'

abbrev pub second_id : Bytes
second_id = replicate 40 b'2'

abbrev pub history : List Commit
history =
    record {
      gap = 0;
      commit = second_id;
      date = codes "2026-02-03T00:00:00Z";
      parents = codes "11 22";
      subject = codes "merge";
      entries = changed ∷ [];
    }
    ∷ record {
      gap = 1;
      commit = first_id;
      date = codes "2026-01-02T00:00:00Z";
      parents = [];
      subject = codes "start";
      entries = added ∷ [];
    }
    ∷ []

abbrev pub log_stream : Stream
log_stream = record { bytes = print_log history (codes "\n"); stop = eof }
