-- ===== src/GitLog/RoundTrip.antt =====
-- What `readChanges` visits on the output that git writes for a list of commits.
use git_spdx.Common.{
  ℕ, suc, ◌-◌, ◌<◌, ◌≡◌, refl, sym, ap, ◌∙◌, true, none, List, [], ◌∷◌, ◌++◌, map, Bytes, has_byte,
  length, All, All-append, Lacks, cut-Lacks, Error, eof, ok, arith,
}
use git_spdx.Stream.{Stream, found, read_string}
use git_spdx.Text.{is_blank, trim_newlines}
use git_spdx.Text.Words.{spaced, spaced-Lacks}
use git_spdx.Change.{Change}
use git_spdx.GitLog.{
  no_change, read_header, read_raw, header, raw, token_kind, read_changes_loop, read_changes,
  end_walk, walk_changes,
}
use mathlib.Core.List.{foldl}
use git_spdx.GitLog.Print.{
  Entry, Commit, words, newlines, ending, print_entry, print_header, print_entries, print_log,
  IsEntry, IsCommit, change_of, changes_of, read_string-ending, trim_newlines-newlines,
  Lacks-newlines, with_entry, with_header, rounds_entries, rounds, rounds_lem, read_raw_lem,
  read_header_lem,
}

token_kind_raw : (rest : Bytes) → token_kind (b':' ∷ rest) ≡ raw rest
unfolding token_kind
token_kind_raw rest = refl

token_kind_header : (rest : Bytes) → token_kind (1 ∷ rest) ≡ header rest
unfolding token_kind
token_kind_header rest = refl

foldl-append {ℓ κ} :
    {A : Type ℓ} {B : Type κ} (f : B → A → B) (b : B) (xs ys : List A)
    → foldl f b (xs ++ ys) ≡ foldl f (foldl f b xs) ys
foldl-append f b [] ys = refl
foldl-append f b (x ∷ xs) ys = foldl-append f (f b x) xs ys

module _ {ℓ} {S : Type ℓ} (visit : S → Change → S) (stop : Error) where
  abbrev at : Bytes → Stream
  at bytes = record { bytes = bytes; stop = stop }

  loop_raw :
      (fuel : ℕ) (c : Change) (s : S) (r : Stream) {t rest : Bytes} {r' r'' : Stream} {c' : Change}
      → read_string 0 r ≡ found t r'
      → token_kind (trim_newlines t) ≡ raw rest
      → read_raw (trim_newlines t) rest c r' ≡ ok (c', r'')
      → read_changes_loop visit (suc fuel) c s r ≡ read_changes_loop visit fuel c' (visit s c') r''
  unfolding read_changes_loop
  loop_raw fuel c s r e f g = rw (read_changes_loop, e) (rw f (rw g))

  loop_header :
      (fuel : ℕ) (c : Change) (s : S) (r : Stream) {t commit : Bytes} {r' r'' : Stream}
      {c' : Change}
      → read_string 0 r ≡ found t r'
      → token_kind (trim_newlines t) ≡ header commit
      → read_header commit c r' ≡ ok (c', r'')
      → read_changes_loop visit (suc fuel) c s r ≡ read_changes_loop visit fuel c' s r''
  unfolding read_changes_loop
  loop_header fuel c s r e f g = rw (read_changes_loop, e) (rw f (rw g))

  loop-print_entry :
      (e : Entry) (fuel : ℕ) (c : Change) (s : S) (rest : Bytes)
      → IsEntry e
      → 0 < length c.commit
      → read_changes_loop visit (suc fuel) c s (at (print_entry e rest))
        ≡ read_changes_loop visit fuel (with_entry c e) (visit s (with_entry c e)) (at rest)
  loop-print_entry e fuel c s rest h ne =
      let token = newlines e.gap ++ b':' ∷ spaced (words e) in
      let trimmed = trim_newlines-newlines e.gap b':' (spaced (words e)) (omega arith) in
      loop_raw fuel c s _
        (read_string-ending token (ending e.path rest) stop (
          All-append _ (newlines e.gap) _ (Lacks-newlines e.gap)
            (omega arith, spaced-Lacks 0 (words e) (omega arith) h.0)))
        (ap token_kind trimmed ∙ token_kind_raw (spaced (words e)))
        (read_raw_lem (trim_newlines token) e c rest stop h ne)

  loop-print_header :
      (k : Commit) (fuel : ℕ) (c : Change) (s : S) (rest : Bytes)
      → IsCommit k
      → read_changes_loop visit (suc fuel) c s (at (print_header k rest))
        ≡ read_changes_loop visit fuel (with_header c k) s (at rest)
  loop-print_header k fuel c s rest h =
      let token = newlines k.gap ++ 1 ∷ k.commit in
      let trimmed = trim_newlines-newlines k.gap 1 k.commit (omega arith) in
      loop_header fuel c s _
        (read_string-ending token (ending k.date (ending k.parents (ending k.subject rest))) stop
          (All-append _ (newlines k.gap) _ (Lacks-newlines k.gap) (omega arith, h.1)))
        (ap token_kind trimmed ∙ token_kind_header k.commit) (read_header_lem k c rest stop h)

  abbrev last_entry : Change → List Entry → Change
  last_entry c [] = c
  last_entry c (e ∷ es) = last_entry (with_entry c e) es

  abbrev last_change : Change → List Commit → Change
  last_change c [] = c
  last_change c (k ∷ ks) = last_change (last_entry (with_header c k) k.entries) ks

  -- The part of the change that a commit's header has set.
  abbrev HeaderOf : Commit → Change → Type 0
  HeaderOf k c =
      (c.commit ≡ k.commit)
      × (c.date ≡ k.date)
      × (c.subject ≡ k.subject)
      × (c.merge ≡ has_byte b' ' k.parents)

  with_entry_lem :
      (k : Commit) (c : Change) (e : Entry) → HeaderOf k c → with_entry c e ≡ change_of k e
  with_entry_lem k c e h = ground arith

  loop-print_entries :
      (es : List Entry) (k : Commit) (fuel : ℕ) (c : Change) (s : S) (rest : Bytes)
      → All IsEntry es
      → 0 < length k.commit
      → HeaderOf k c
      → read_changes_loop visit (rounds_entries es fuel) c s (at (print_entries es rest))
        ≡ read_changes_loop visit fuel
            (last_entry c es)
            (foldl visit s (map (change_of k) es))
            (at rest)
  loop-print_entries [] k fuel c s rest h ne hd = refl
  loop-print_entries (e ∷ es) k fuel c s rest h ne hd =
      loop-print_entry e (rounds_entries es fuel) c s (print_entries es rest) h.0 (ground arith)
      ∙ loop-print_entries es k fuel (with_entry c e) (visit s (with_entry c e)) rest h.1 ne hd
      ∙ rw (with_entry_lem k c e hd)

  loop-print_log :
      (ks : List Commit) (fuel : ℕ) (c : Change) (s : S) (rest : Bytes)
      → All IsCommit ks
      → read_changes_loop visit (rounds ks fuel) c s (at (print_log ks rest))
        ≡ read_changes_loop visit fuel (last_change c ks) (foldl visit s (changes_of ks)) (at rest)
  loop-print_log [] fuel c s rest h = refl
  loop-print_log (k ∷ ks) fuel c s rest (h, hs) =
      let c' = with_header c k in
      let more = print_log ks rest in
      loop-print_header k (rounds_entries k.entries (rounds ks fuel)) c s
        (print_entries k.entries more) h
      ∙ loop-print_entries k.entries k (rounds ks fuel) c' s more h.5 h.0 (refl, refl, refl, refl)
      ∙ loop-print_log ks fuel (last_entry c' k.entries)
          (foldl visit s (map (change_of k) k.entries)) rest hs
      ∙ ap (λ z. read_changes_loop visit fuel (last_change c (k ∷ ks)) z (at rest))
          (sym (foldl-append visit s (map (change_of k) k.entries) (changes_of ks)))

  loop_blank :
      (tail : Bytes) (fuel : ℕ) (c : Change) (s : S)
      → stop ≡ eof
      → Lacks 0 tail
      → is_blank tail ≡ true
      → read_changes_loop visit (suc fuel) c s (at tail) ≡ (s, none)
  unfolding read_changes_loop read_string
  loop_blank tail fuel c s e h b = rw (read_changes_loop, cut-Lacks 0 tail h) (rw (e, b))

-- `readChanges` visits the changes of every commit of a log, in order and with their commit's
-- header, and ends with no error at white space.
pub read_changes-print_log {ℓ} :
    {S : Type ℓ} (visit : S → Change → S) (ks : List Commit) (tail : Bytes) (s : S)
    → All IsCommit ks
    → Lacks 0 tail
    → is_blank tail ≡ true
    → read_changes visit s (record { bytes = print_log ks tail; stop = eof })
      ≡ (foldl visit s (changes_of ks), none)
unfolding read_changes
read_changes-print_log visit ks tail s h lacks blank =
    let left = length (print_log ks tail) - rounds ks 0 in
    let enough : suc (length (print_log ks tail)) ≡ rounds ks (suc left) =
      omega (arith, rounds_lem ks (suc left) tail) in
    rw enough (
      loop-print_log visit eof ks (suc left) no_change s tail h
      ∙ loop_blank visit eof tail left _ _ refl lacks blank)

-- The whole walk over such a log, when the process starts and ends without an error.
pub walk_changes-print_log {ℓ} :
    {S : Type ℓ} (visit : S → Change → S) (ks : List Commit) (tail : Bytes) (s : S)
    → All IsCommit ks
    → Lacks 0 tail
    → is_blank tail ≡ true
    → walk_changes none (record { bytes = print_log ks tail; stop = eof }) none visit s
      ≡ (foldl visit s (changes_of ks), none)
unfolding walk_changes
walk_changes-print_log visit ks tail s h lacks blank =
    ap (end_walk none) (read_changes-print_log visit ks tail s h lacks blank)
