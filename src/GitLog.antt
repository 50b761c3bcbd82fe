-- ===== src/GitLog.antt =====
-- Reading the output of `git log --raw -z`: `readChanges` of history.go.
pub mod Ends
pub mod Print
pub mod RoundTrip
use git_spdx.Common.{
  ℕ, zero, suc, Bool, true, false, not, ◌&&◌, Option, none, some, List, [], ◌∷◌, ◌==◌,
  if◌then◌else◌, Bytes, has_byte, cut_prefix, length, Error, out_of_fuel, invalid_change, wrapped,
  Result, ok, err, ◌>>=◌,
}
use git_spdx.Stream.{Stream, Chunk, found, ended, read_string, is_eof}
use git_spdx.Text.{is_blank, trim_newlines, fields}
use git_spdx.Change.{Change}

-- `var c change`
abbrev pub no_change : Change
no_change = record {
  commit = [];
  date = [];
  subject = [];
  old_oid = [];
  new_oid = [];
  path = [];
  old_mode = [];
  new_mode = [];
  merge = false;
}

-- `field()`, where an error ends the reading: what stands before the next NUL.
unfoldable pub field : Stream → Result (Bytes × Stream)
field r = elim (read_string 0 r) [ found s r' ↦ ok (s, r') | ended s e ↦ err e ]

-- The header of a commit, behind its ID: date, parents, subject.
unfoldable pub read_header : Bytes → Change → Stream → Result (Change × Stream)
read_header commit c r = do
  (date, rest1) ← field r
  (parents, rest2) ← field rest1
  (subject, rest3) ← field rest2
  ok (
    record c { commit = commit; date = date; merge = has_byte b' ' parents; subject = subject },
    rest3,
  )

-- The five fields of a raw change.
unfoldable pub set_fields : Bytes → Change → List Bytes → Result Change
set_fields token c (old_mode ∷ new_mode ∷ old ∷ new ∷ status ∷ []) =
    if length c.commit == 0
    then err (invalid_change token)
    else ok (record c { old_mode = old_mode; new_mode = new_mode; old_oid = old; new_oid = new })
set_fields token c fs = err (invalid_change token)

-- A raw change, behind its colon, and the path that follows it.
unfoldable pub read_raw : Bytes → Bytes → Change → Stream → Result (Change × Stream)
read_raw token rest c r = do
  c' ← set_fields token c (fields rest)
  (path, r') ← field r
  ok (record c' { path = path }, r')

-- What a token is, once its leading newlines are off.
pub data Token : Type 0 where
  header : Bytes → Token
  raw : Bytes → Token
  none_of_these : Token

unfoldable pub token_kind : Bytes → Token
token_kind [] = none_of_these
token_kind (b ∷ rest) =
    if b == 1 then header rest else if b == b':' then raw rest else none_of_these

-- The loop, with the change `c` that it fills in and the callback's state `s`.
module _ {ℓ} {S : Type ℓ} (visit : S → Change → S) where
  unfoldable pub read_changes_loop : ℕ → Change → S → Stream → S × Option Error
  read_changes_loop zero c s r = (s, some out_of_fuel)
  read_changes_loop (suc fuel) c s r = elim (read_string 0 r) [
    | ended token e ↦ if is_eof e && is_blank token then (s, none) else (s, some e)
    | found raw_token r' ↦
        let token = trim_newlines raw_token in
        elim (token_kind token) [
          | none_of_these ↦ read_changes_loop fuel c s r'
          | header commit ↦ elim (read_header commit c r') [
            | err e ↦ (s, some e)
            | ok (c', r'') ↦ read_changes_loop fuel c' s r''
          ]
          | raw rest ↦ elim (read_raw token rest c r') [
            | err e ↦ (s, some e)
            | ok (c', r'') ↦ read_changes_loop fuel c' (visit s c') r''
          ]
        ]
  ]

  -- Each round takes the NUL of its token at least.
  unfoldable pub read_changes : S → Stream → S × Option Error
  read_changes s r = read_changes_loop (suc (length r.bytes)) no_change s r

-- The end of `walkChanges`: a reading error is wrapped, else the process's own error `wait` counts.
module _ {ℓ} {S : Type ℓ} where
  unfoldable pub end_walk : Option Error → S × Option Error → S × Option Error
  end_walk wait (s, some e) = (s, some (wrapped e))
  end_walk wait (s, none) = (s, wait)

  -- `walkChanges` on the `git` backend: the first argument is the error of starting the process, and
  -- `r` what it writes.
  unfoldable pub walk_changes :
      Option Error → Stream → Option Error → (S → Change → S) → S → S × Option Error
  unfolding end_walk
  walk_changes (some e) r wait visit s = (s, some e)
  walk_changes none r wait visit s = end_walk wait (read_changes visit s r)
