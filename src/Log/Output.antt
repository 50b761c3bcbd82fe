-- ===== src/Log/Output.antt =====
-- The end of `logCmd` of history.go: the lines of the groups, or the monthly table.
use git_spdx.Common.{
  ◌≢◌, codes, arith, Result-cases, equal_iff, >>=-eq-ok, bytes_eq, ◌++◌, ℕ, ◌≡◌, ◌⊎◌, inl, inr,
  refl, sym, ◌∙◌, Bool, false, Option, none, some, List, [], ◌∷◌, map, if◌then◌else◌, Bytes, equal,
  All, Error, Result, ok, err,
}
use git_spdx.Common.Count.{HasCount}
use git_spdx.Change.{Change}
use git_spdx.Index.{Index, BlobResult}
use git_spdx.Spool.{fresh, spool_visit}
use git_spdx.Spool.RoundTrip.{FitsInt}
use git_spdx.Spool.LogHistory.{plain}
use git_spdx.Scan.{Event, match_blob}
use git_spdx.Tables.{print_monthly}
use git_spdx.Log.{LogOptions, LogState, HistoryTotals, entry, summary_line, summary}
use git_spdx.Log.Totals.{Counter, counter}
use git_spdx.Log.Due.{Part, root, legal, other, name_of, CountsFor}
use git_spdx.Log.Command.{Surroundings, log_cmd}
use git_spdx.Index.Lookup.{IsByObject}
use git_spdx.Log.Whole.{TellsOf, history_limit, IndexOf, log_cmd_lem}
use mathlib.Core.List.{foldl}
use mathlib.Core.Path.{subst}

-- A line of the summary: a group and its totals.
abbrev pub GroupLine : Type 0
GroupLine = Bytes × HistoryTotals

module _ {ℓ} {W : Type ℓ} (write : List Bytes → W → W × Option Error) (flush : W → W × Option Error)
    (o : LogOptions) where
  -- `if *monthly { return printMonthly(months) }`, or else a line for each selected group.
  unfoldable pub last_lines : LogState → W → (List GroupLine × W) × Option Error
  last_lines s w =
      let out = print_monthly write flush s.months w in
      if o.monthly
      then (([], out.0), out.1)
      else elim (summary o s) [ err x ↦ (([], w), some x) | ok lines ↦ ((lines, w), none) ]

  -- `logCmd`
  unfoldable pub log_all : Result LogState → W → (List GroupLine × W) × Option Error
  log_all (err x) w = (([], w), some x)
  log_all (ok s) w = last_lines s w

-- The groups that the option selects, by the names that `--group` takes.
pub data Selects : Bytes → List Part → Type 0 where
  all : Selects (codes "all") (root ∷ legal ∷ other ∷ [])
  one : (part : Part) → Selects (name_of part) (part ∷ [])

abbrev line_of : LogState → Part → GroupLine
line_of s part = (name_of part, entry (name_of part) s.totals)

apart : (a b : Bytes) → equal a b ≡ false → {group : Bytes} → group ≡ a → group ≢ b
apart a b e p q = cc ((equal_iff a b).1 (sym p ∙ q), e)

-- A line that is printed is the one of its group.
line-one :
    (o : LogOptions) (s : LogState) (part : Part) {ls : List GroupLine}
    → (o.group ≡ codes "all") ⊎ (o.group ≡ name_of part)
    → summary_line o s (name_of part) ≡ ok ls
    → ls ≡ line_of s part ∷ []
unfolding summary_line
line-one o s part {ls} chosen e =
    ground (arith, equal_iff o.group (codes "all"), equal_iff o.group (name_of part))

line-other :
    (o : LogOptions) (s : LogState) (part : Part) {ls : List GroupLine}
    → o.group ≢ codes "all"
    → o.group ≢ name_of part
    → summary_line o s (name_of part) ≡ ok ls
    → ls ≡ []
unfolding summary_line
line-other o s part {ls} other_group different e =
    ground (arith, equal_iff o.group (codes "all"), equal_iff o.group (name_of part))

-- The three lines of a summary that does not panic.
summary-parts :
    (o : LogOptions) (s : LogState) {lines : List GroupLine}
    → summary o s ≡ ok lines
    → (roots : List GroupLine) × (legals : List GroupLine) × (others : List GroupLine)
      × (summary_line o s (name_of root) ≡ ok roots)
      × (summary_line o s (name_of legal) ≡ ok legals)
      × (summary_line o s (name_of other) ≡ ok others)
      × (lines ≡ roots ++ legals ++ others)
unfolding summary
summary-parts o s e =
    let (roots, p, e1) = >>=-eq-ok (summary_line o s (name_of root)) _ e in
    let (legals, q, e2) = >>=-eq-ok (summary_line o s (name_of legal)) _ e1 in
    let (others, r, e3) = >>=-eq-ok (summary_line o s (name_of other)) _ e2 in
    (roots, legals, others, p, q, r, cc e3)

summary_lem :
    (o : LogOptions) (s : LogState) {group : Bytes} {parts : List Part} {lines : List GroupLine}
    → Selects group parts
    → o.group ≡ group
    → summary o s ≡ ok lines
    → lines ≡ map (line_of s) parts
unfolding equal
summary_lem o s all g e =
    let (roots, legals, others, p, q, r, same) = summary-parts o s e in
    cc (
      same,
      line-one o s root (inl g) p,
      line-one o s legal (inl g) q,
      line-one o s other (inl g) r,
    )
summary_lem o s (one root) g e =
    let (roots, legals, others, p, q, r, same) = summary-parts o s e in
    cc (
      same,
      line-one o s root (inr g) p,
      line-other o s legal (apart (name_of root) (codes "all") refl g)
          (apart (name_of root) (name_of legal) refl g) q,
      line-other o s other (apart (name_of root) (codes "all") refl g)
          (apart (name_of root) (name_of other) refl g) r,
    )
summary_lem o s (one legal) g e =
    let (roots, legals, others, p, q, r, same) = summary-parts o s e in
    cc (
      same,
      line-other o s root (apart (name_of legal) (codes "all") refl g)
          (apart (name_of legal) (name_of root) refl g) p,
      line-one o s legal (inr g) q,
      line-other o s other (apart (name_of legal) (codes "all") refl g)
          (apart (name_of legal) (name_of other) refl g) r,
    )
summary_lem o s (one other) g e =
    let (roots, legals, others, p, q, r, same) = summary-parts o s e in
    cc (
      same,
      line-other o s root (apart (name_of other) (codes "all") refl g)
          (apart (name_of other) (name_of root) refl g) p,
      line-other o s legal (apart (name_of other) (codes "all") refl g)
          (apart (name_of other) (name_of legal) refl g) q,
      line-one o s other (inr g) r,
    )

-- A run that ends without an error has a last state, and its lines are those of that state.
log_all-ok {ℓ} :
    {W : Type ℓ} (write : List Bytes → W → W × Option Error) (flush : W → W × Option Error)
    (o : LogOptions) (r : Result LogState) (out : W) {lines : List GroupLine} {out' : W}
    → o.monthly ≡ false
    → log_all write flush o r out ≡ ((lines, out'), none)
    → (s : LogState) × (r ≡ ok s) × (summary o s ≡ ok lines) × (out' ≡ out)
unfolding log_all last_lines
log_all-ok write flush o (err x) out m p = absurd (cc p)
log_all-ok write flush o (ok s) out m p = elim (Result-cases (summary o s)) [
  | inl (ls, q) ↦ (s, refl, ground (arith, p), ground (arith, p))
  | inr (x, q) ↦ absurd (ground (arith, p))
]

module _ {ℓ} {W : Type ℓ} (write : List Bytes → W → W × Option Error) (flush : W → W × Option Error)
    (is_legal_path : Bytes → Bool) (o : LogOptions) (max_size legal_size : ℕ) (w : Surroundings)
    (cs : List Change)
    (walked : w.walk (spool_visit is_legal_path w.device) (fresh, [])
      ≡ (foldl (spool_visit is_legal_path w.device) (fresh, []) cs, none)) where
  abbrev fed : List Event
  fed = (w.feed (history_limit is_legal_path max_size legal_size cs)).0.events

  -- The numbers of a line are those of its group.
  abbrev pub Counts : Index → GroupLine → Part → Type 0
  Counts idx line part =
      (line.0 ≡ name_of part)
      × ((k : Counter)
          → HasCount (CountsFor is_legal_path o idx part k) (plain cs) (counter k line.1))

  -- One line for each group of a list, in its order.
  abbrev pub Reports : Index → List GroupLine → List Part → Type 0
  Reports idx [] [] = Unit
  Reports idx (line ∷ lines) (part ∷ parts) = Counts idx line part × Reports idx lines parts
  Reports idx _ _ = ⊥

  map-Reports :
      (idx : Index) (s : LogState)
      → ((part : Part) (k : Counter)
          → HasCount
              (CountsFor is_legal_path o idx part k)
              (plain cs)
              (counter k (entry (name_of part) s.totals)))
      → (parts : List Part) → Reports idx (map (line_of s) parts) parts
  map-Reports idx s f [] = tt
  map-Reports idx s f (part ∷ parts) = ((refl, f part), map-Reports idx s f parts)

  -- If the history is walked and the feeder's events tell what `f` says of the blobs, by object, and the
  -- option selects groups and no monthly table is asked for, then a run that ends without an error
  -- prints a line for each selected group, in the order root, legal, other. There is an index that
  -- answers what `f` says of each blob that the feeder told of, and nothing of the others, and each
  -- number of a line but the commits is the number of the changes of commits that are no merges which
  -- count for it by that index. The writer of the table is left alone.
  pub log_all_lem :
      (f : Bytes → BlobResult) (out out' : W) (lines : List GroupLine) (parts : List Part)
      → Selects o.group parts
      → o.monthly ≡ false
      → IsByObject f
      → All FitsInt cs
      → TellsOf (match_blob w.matcher) f fed
      → log_all write flush o (log_cmd is_legal_path o max_size legal_size w) out
        ≡ ((lines, out'), none)
      → (idx : Index) × IndexOf f fed idx × Reports idx lines parts × (out' ≡ out)
  log_all_lem f out out' lines parts group table same fits tells p =
      let (s, ran, printed, kept) = log_all-ok write flush o _ out table p in
      let (idx, told, counted) =
        log_cmd_lem is_legal_path o max_size legal_size w cs walked f same fits tells ran in
      (
        idx,
        told,
        subst (λ ls. Reports idx ls parts) (sym (summary_lem o s group refl printed))
            (map-Reports idx s counted parts),
        kept,
      )
