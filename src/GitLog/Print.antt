-- ===== src/GitLog/Print.antt =====
-- The output that `git log --raw -z` writes for a list of commits, and how its parts are read.
use git_spdx.Common.{
  ℕ, zero, suc, ◌+◌, ◌≤◌, ◌<◌, ◌≡◌, ◌≢◌, List, [], ◌∷◌, ◌++◌, map, Bytes, has_byte, length,
  replicate, All, Lacks, cut-append, Error, ok, arith, length-append,
}
use git_spdx.Stream.{found, read_string}
use git_spdx.Text.{trim_newlines}
use git_spdx.Text.Words.{IsWord, spaced, fields-spaced}
use git_spdx.Change.{Change}
use git_spdx.GitLog.{field, read_header, set_fields, read_raw}

-- One raw change as git writes it; `gap` newlines stand in front.
pub record Entry : Type 0 where
  pub gap : ℕ
  pub old_mode : Bytes
  pub new_mode : Bytes
  pub old_oid : Bytes
  pub new_oid : Bytes
  pub status : Bytes
  pub path : Bytes

pub record Commit : Type 0 where
  pub gap : ℕ
  pub commit : Bytes
  pub date : Bytes
  pub parents : Bytes
  pub subject : Bytes
  pub entries : List Entry

abbrev pub words : Entry → List Bytes
words e = e.old_mode ∷ e.new_mode ∷ e.old_oid ∷ e.new_oid ∷ e.status ∷ []

abbrev pub newlines : ℕ → Bytes
newlines n = replicate n b'\n'

-- A text and the NUL behind it.
abbrev pub ending : Bytes → Bytes → Bytes
ending s rest = s ++ 0 ∷ rest

abbrev pub print_entry : Entry → Bytes → Bytes
print_entry e rest = ending (newlines e.gap ++ b':' ∷ spaced (words e)) (ending e.path rest)

abbrev pub print_header : Commit → Bytes → Bytes
print_header k rest =
    ending (newlines k.gap ++ 1 ∷ k.commit)
      (ending k.date (ending k.parents (ending k.subject rest)))

abbrev pub print_entries : List Entry → Bytes → Bytes
print_entries [] rest = rest
print_entries (e ∷ es) rest = print_entry e (print_entries es rest)

abbrev pub print_log : List Commit → Bytes → Bytes
print_log [] rest = rest
print_log (k ∷ ks) rest = print_header k (print_entries k.entries (print_log ks rest))

abbrev pub IsEntry : Entry → Type 0
IsEntry e = All IsWord (words e) × Lacks 0 e.path

abbrev pub IsCommit : Commit → Type 0
IsCommit k =
    (0 < length k.commit)
    × Lacks 0 k.commit
    × Lacks 0 k.date
    × Lacks 0 k.parents
    × Lacks 0 k.subject
    × All IsEntry k.entries

-- The changes of a commit.
abbrev pub change_of : Commit → Entry → Change
change_of k e = record {
  commit = k.commit;
  date = k.date;
  subject = k.subject;
  old_oid = e.old_oid;
  new_oid = e.new_oid;
  path = e.path;
  old_mode = e.old_mode;
  new_mode = e.new_mode;
  merge = has_byte b' ' k.parents;
}

abbrev pub changes_of : List Commit → List Change
changes_of [] = []
changes_of (k ∷ ks) = map (change_of k) k.entries ++ changes_of ks

pub read_string-ending :
    (s rest : Bytes) (stop : Error)
    → Lacks 0 s
    → read_string 0 (record { bytes = ending s rest; stop = stop })
      ≡ found s (record { bytes = rest; stop = stop })
unfolding read_string
read_string-ending s rest stop h = rw (read_string, cut-append 0 s rest h)

pub field-ending :
    (s rest : Bytes) (stop : Error)
    → Lacks 0 s
    → field (record { bytes = ending s rest; stop = stop })
      ≡ ok (s, record { bytes = rest; stop = stop })
unfolding field
field-ending s rest stop h = rw (field, read_string-ending s rest stop h)

pub trim_newlines-newlines :
    (n b : ℕ) (s : Bytes) → b ≢ b'\n' → trim_newlines (newlines n ++ b ∷ s) ≡ b ∷ s
unfolding trim_newlines
trim_newlines-newlines zero b s h = ground arith
trim_newlines-newlines (suc n) b s h = trim_newlines-newlines n b s h

pub Lacks-newlines : (n : ℕ) → Lacks 0 (newlines n)
Lacks-newlines zero = tt
Lacks-newlines (suc n) = (omega arith, Lacks-newlines n)

-- The change with an entry's fields.
abbrev pub with_entry : Change → Entry → Change
with_entry c e = record c {
  old_mode = e.old_mode;
  new_mode = e.new_mode;
  old_oid = e.old_oid;
  new_oid = e.new_oid;
  path = e.path;
}

-- The change with a header's fields.
abbrev pub with_header : Change → Commit → Change
with_header c k = record c {
  commit = k.commit;
  date = k.date;
  subject = k.subject;
  merge = has_byte b' ' k.parents;
}

-- One more round for each item.
abbrev pub rounds_entries : List Entry → ℕ → ℕ
rounds_entries [] fuel = fuel
rounds_entries (e ∷ es) fuel = suc (rounds_entries es fuel)

abbrev pub rounds : List Commit → ℕ → ℕ
rounds [] fuel = fuel
rounds (k ∷ ks) fuel = suc (rounds_entries k.entries (rounds ks fuel))

pub length-ending : (s rest : Bytes) → length (ending s rest) ≡ length s + 1 + length rest
length-ending s rest = omega (arith, length-append s (0 ∷ rest))

pub rounds_entries_lem :
    (es : List Entry) (n : ℕ) (rest : Bytes)
    → (rounds_entries es n ≡ rounds_entries es 0 + n)
      × (rounds_entries es 0 + length rest ≤ length (print_entries es rest))
rounds_entries_lem [] n rest = omega arith
rounds_entries_lem (e ∷ es) n rest =
    let more = print_entries es rest in
    omega (
      arith,
      rounds_entries_lem es n rest,
      length-ending (newlines e.gap ++ b':' ∷ spaced (words e)) (ending e.path more),
      length-ending e.path more,
    )

-- The rounds that a log takes are fewer than its bytes.
pub rounds_lem :
    (ks : List Commit) (n : ℕ) (rest : Bytes)
    → (rounds ks n ≡ rounds ks 0 + n) × (rounds ks 0 + length rest ≤ length (print_log ks rest))
rounds_lem [] n rest = omega arith
rounds_lem (k ∷ ks) n rest =
    let more = print_log ks rest in
    let entries = print_entries k.entries more in
    omega (
      arith,
      rounds_lem ks n rest,
      rounds_entries_lem k.entries (rounds ks n) more,
      rounds_entries_lem k.entries (rounds ks 0) more,
      length-ending (newlines k.gap ++ 1 ∷ k.commit)
          (ending k.date (ending k.parents (ending k.subject entries))),
      length-ending k.date (ending k.parents (ending k.subject entries)),
      length-ending k.parents (ending k.subject entries),
      length-ending k.subject entries,
    )

pub read_raw_lem :
    (token : Bytes) (e : Entry) (c : Change) (rest : Bytes) (stop : Error)
    → IsEntry e
    → 0 < length c.commit
    → read_raw token (spaced (words e)) c (record { bytes = ending e.path rest; stop = stop })
      ≡ ok (with_entry c e, record { bytes = rest; stop = stop })
unfolding read_raw set_fields
read_raw_lem token e c rest stop h ne =
    ground (arith, fields-spaced (words e) h.0, field-ending e.path rest stop h.1)

pub read_header_lem :
    (k : Commit) (c : Change) (rest : Bytes) (stop : Error)
    → IsCommit k
    → read_header k.commit c
        (record { bytes = ending k.date (ending k.parents (ending k.subject rest)); stop = stop })
      ≡ ok (with_header c k, record { bytes = rest; stop = stop })
unfolding read_header
read_header_lem k c rest stop h = ground (
  arith,
  field-ending k.date (ending k.parents (ending k.subject rest)) stop h.2,
  field-ending k.parents (ending k.subject rest) stop h.3,
  field-ending k.subject rest stop h.4,
)
