-- ===== src/Log/Due.antt =====
-- Which changes of a history are to be counted, told without the code's tests.
use git_spdx.Common.{
  ◌≡◌, ◌≢◌, ◌⊎◌, inl, inr, ◌↔◌, refl, sym, ◌∙◌, Bool, true, false, ◌&&◌, Bytes, codes, equal,
  equal_iff, has_byte, bytes_eq, List, arith,
}
use git_spdx.Common.Count.{HasCount, count_if, count_if-HasCount}
use git_spdx.Change.{Change, path_group}
use git_spdx.Index.{
  Index, BlobResult, SkipReason, not_skipped, skipped_size, skipped_binary, skipped_error,
  is_skipped, lookup, equal_exprs,
}
use git_spdx.Index.Interning.{equal_exprs_iff}
use git_spdx.Log.{LogOptions}
use git_spdx.Log.Totals.{
  Counter, expressions, additions, deletions, incompletes, spdx_added, spdx_removed, Compared,
  counts_for,
}
use git_spdx.Log.Report.{compared, counts_in, is_reported_in, is_reported_iff}

-- The groups of the paths.
pub data Part : Type 0 where
  root legal other : Part

abbrev pub name_of : Part → Bytes
name_of root = codes "root"
name_of legal = codes "legal"
name_of other = codes "other"

abbrev IsIncomplete : BlobResult → BlobResult → Type 0
IsIncomplete before after = (before.skipped ≢ not_skipped) ⊎ (after.skipped ≢ not_skipped)

-- One side was skipped, or the expressions or the declarations differ.
abbrev pub Differs : BlobResult → BlobResult → Type 0
Differs before after =
    IsIncomplete before after
    ⊎ ((before.expressions ≢ after.expressions) ⊎ (before.spdx ≢ after.spdx))

both : (a b : Bool) → (a && b ≡ true) ↔ ((a ≡ true) × (b ≡ true))
both true b = (λ e. (refl, e), λ e. e.1)
both false b = (λ e. absurd (cc e), λ e. e.0)

-- What a change has to be for a counter, by its modes and the results of its two sides.
abbrev pub IsFor : Counter → Bytes → Bytes → BlobResult → BlobResult → Type 0
IsFor incompletes old new before after = IsIncomplete before after
IsFor additions old new before after = ¬ IsIncomplete before after × (old ≡ codes "000000")
IsFor deletions old new before after =
    ¬ IsIncomplete before after × (old ≢ codes "000000") × (new ≡ codes "000000")
IsFor expressions old new before after =
    ¬ IsIncomplete before after
    × (old ≢ codes "000000")
    × (new ≢ codes "000000")
    × (before.expressions ≢ after.expressions)
IsFor spdx_added old new before after =
    ¬ IsIncomplete before after × (before.spdx ≡ false) × (after.spdx ≡ true)
IsFor spdx_removed old new before after =
    ¬ IsIncomplete before after × (before.spdx ≡ true) × (after.spdx ≡ false)

skipped_iff : (r : SkipReason) → (is_skipped r ≡ true) ↔ (r ≢ not_skipped)
skipped_iff not_skipped = (λ p. absurd (cc p), λ n. absurd (n refl))
skipped_iff skipped_size = (λ p q. cc q, λ n. refl)
skipped_iff skipped_binary = (λ p q. cc q, λ n. refl)
skipped_iff skipped_error = (λ p q. cc q, λ n. refl)

-- What the code's tests say of a compared change.
sides :
    (x : Compared)
    → ((is_skipped x.before.skipped ≡ true) ↔ (x.before.skipped ≢ not_skipped))
      × ((is_skipped x.after.skipped ≡ true) ↔ (x.after.skipped ≢ not_skipped))
      × ((equal x.change.old_mode (codes "000000") ≡ true) ↔ (x.change.old_mode ≡ codes "000000"))
      × ((equal x.change.new_mode (codes "000000") ≡ true) ↔ (x.change.new_mode ≡ codes "000000"))
      × ((equal_exprs x.before.expressions x.after.expressions ≡ true)
          ↔ (x.before.expressions ≡ x.after.expressions))
sides x = (
  skipped_iff x.before.skipped,
  skipped_iff x.after.skipped,
  equal_iff x.change.old_mode (codes "000000"),
  equal_iff x.change.new_mode (codes "000000"),
  equal_exprs_iff x.before.expressions x.after.expressions,
)

counts_for_iff :
    (k : Counter) (x : Compared)
    → (counts_for k x ≡ true) ↔ IsFor k x.change.old_mode x.change.new_mode x.before x.after
counts_for_iff incompletes x = ground (arith, sides x)
counts_for_iff additions x = ground (arith, sides x)
counts_for_iff deletions x = ground (arith, sides x)
counts_for_iff expressions x = ground (arith, sides x)
counts_for_iff spdx_added x = ground (arith, sides x)
counts_for_iff spdx_removed x = ground (arith, sides x)

module _ (is_legal_path : Bytes → Bool) where
  -- A path at the root of the repository has no slash.
  abbrev pub IsIn : Part → Bytes → Type 0
  IsIn root path = (is_legal_path path ≡ true) × (has_byte b'/' path ≡ false)
  IsIn legal path = (is_legal_path path ≡ true) × (has_byte b'/' path ≡ true)
  IsIn other path = is_legal_path path ≡ false

  path_group_iff :
      (part : Part) (path : Bytes) → (path_group is_legal_path path ≡ name_of part) ↔ IsIn part path
  unfolding path_group
  path_group_iff root path = ground arith
  path_group_iff legal path = ground arith
  path_group_iff other path = ground arith

  module _ (o : LogOptions) (idx : Index) where
    -- The change is to be counted in the group: the group is selected, neither side is a submodule, and
    -- the results of the sides differ, in the expressions or in the declaration, or one was skipped.
    pub record IsDue (part : Part) (c : Change) : Type 0 where
      pub selected : (o.group ≡ codes "all") ⊎ (o.group ≡ name_of part)
      pub placed : IsIn part c.path
      pub old_side : c.old_mode ≢ codes "160000"
      pub new_side : c.new_mode ≢ codes "160000"
      pub evidence : Differs (lookup idx c.old_oid) (lookup idx c.new_oid)

    -- The change counts for the counter, in this group.
    abbrev pub CountsFor : Part → Counter → Change → Type 0
    CountsFor part k c =
        IsDue part c × IsFor k c.old_mode c.new_mode (lookup idx c.old_oid) (lookup idx c.new_oid)

    evidence_iff :
        (before after : BlobResult)
        → ((is_skipped before.skipped ≡ true)
            ⊎ (is_skipped after.skipped ≡ true)
            ⊎ (before.expressions ≢ after.expressions)
            ⊎ (before.spdx ≢ after.spdx))
          ↔ Differs before after
    evidence_iff before after =
        let first = skipped_iff before.skipped in
        let second = skipped_iff after.skipped in
        (
          λ e. elim e [
            | inl p ↦ inl (inl (first.0 p))
            | inr (inl p) ↦ inl (inr (second.0 p))
            | inr (inr p) ↦ inr p
          ],
          λ e. elim e [
            | inl (inl p) ↦ inl (first.1 p)
            | inl (inr p) ↦ inr (inl (second.1 p))
            | inr p ↦ inr (inr p)
          ],
        )

    is_reported_in_iff :
        (part : Part) (c : Change)
        → (is_reported_in is_legal_path o idx (name_of part) c ≡ true) ↔ IsDue part c
    is_reported_in_iff part c =
        let reported = is_reported_iff is_legal_path o idx c in
        let placed = path_group_iff part c.path in
        let known = equal_iff (path_group is_legal_path c.path) (name_of part) in
        let evidence = evidence_iff (lookup idx c.old_oid) (lookup idx c.new_oid) in
        (
          λ e.
              let (r, g) = (both _ _).0 e in
              let (selects, old, new, differs) = reported.0 r in
              record {
                selected = elim selects [ inl p ↦ inl p | inr q ↦ inr (q ∙ known.0 g) ];
                placed = placed.0 (known.0 g);
                old_side = old;
                new_side = new;
                evidence = evidence.0 differs;
              },
          λ d.
              let named = placed.1 d.placed in
              (both _ _).1 (
                reported.1 (
                  elim d.selected [ inl p ↦ inl p | inr q ↦ inr (q ∙ sym named) ],
                  d.old_side,
                  d.new_side,
                  evidence.1 d.evidence,
                ),
                known.1 named,
              ),
        )

    counts_in_iff :
        (part : Part) (k : Counter) (c : Change)
        → (counts_in is_legal_path o idx (name_of part) k c ≡ true) ↔ CountsFor part k c
    counts_in_iff part k c =
        let due = is_reported_in_iff part c in
        let for_counter = counts_for_iff k (compared is_legal_path o idx c) in
        (
          λ e. let (d, f) = (both _ _).0 e in (due.0 d, for_counter.0 f),
          λ (d, f). (both _ _).1 (due.1 d, for_counter.1 f),
        )

    pub counts_in-HasCount :
        (part : Part) (k : Counter) (cs : List Change)
        → HasCount
            (CountsFor part k)
            cs
            (count_if (counts_in is_legal_path o idx (name_of part) k) cs)
    counts_in-HasCount part k cs = count_if-HasCount (CountsFor part k) _ (counts_in_iff part k) cs
