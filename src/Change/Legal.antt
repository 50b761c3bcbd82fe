-- ===== src/Change/Legal.antt =====
-- Which blobs the walk over the changes collects as legal.
use git_spdx.Common.{
  ◌≡◌, refl, sym, ◌∙◌, ◌↔◌, ◌⊎◌, inl, inr, codes, equal_iff, Bool-cases, Bool, true, false, not,
  ◌&&◌, ◌||◌, some, List, [], ◌∷◌, Bytes, equal, bytes_eq, if◌then◌else◌, arith,
}
use git_spdx.Common.Dict.{Dict, insert, lookup, lookup-insert}
use git_spdx.Change.{Change, path_group, group_other, is_file_mode, record_legal_change}
use mathlib.Core.List.{foldl}

module _ (is_legal_path : Bytes → Bool) where
  -- The change has blob `oid` as a file on its old or its new side, at a legal path.
  abbrev uses_legally : Bytes → Change → Bool
  uses_legally oid c =
      is_legal_path c.path
      && (equal c.old_oid oid && is_file_mode c.old_mode
          || equal c.new_oid oid && is_file_mode c.new_mode)

  abbrev any_use : Bytes → List Change → Bool
  any_use oid [] = false
  any_use oid (c ∷ cs) = uses_legally oid c || any_use oid cs

  path_group_other :
      (path : Bytes) → equal (path_group is_legal_path path) group_other ≡ not (is_legal_path path)
  unfolding path_group equal
  path_group_other path = ground arith

  lookup-record_legal_change :
      (legal : Dict Bytes Bool) (c : Change) (oid : Bytes)
      → lookup oid (record_legal_change is_legal_path legal c)
        ≡ (if uses_legally oid c then some true else lookup oid legal)
  unfolding record_legal_change
  lookup-record_legal_change legal c oid =
      let old = insert c.old_oid true legal in
      ground (
        arith,
        path_group_other c.path,
        lookup-insert c.old_oid oid true legal,
        lookup-insert c.new_oid oid true legal,
        lookup-insert c.new_oid oid true old,
      )

  lookup-any_use :
      (cs : List Change) (legal : Dict Bytes Bool) (oid : Bytes)
      → lookup oid (foldl (record_legal_change is_legal_path) legal cs)
        ≡ (if any_use oid cs then some true else lookup oid legal)
  lookup-any_use [] legal oid = refl
  lookup-any_use (c ∷ cs) legal oid = ground (
    arith,
    lookup-any_use cs (record_legal_change is_legal_path legal c) oid,
    lookup-record_legal_change legal c oid,
  )

  -- A mode of a side that has a blob: not an absent side, a symbolic link or a submodule.
  abbrev pub HoldsFile : Bytes → Type 0
  HoldsFile mode = ¬ (mode ≡ codes "000000") × ¬ (mode ≡ codes "120000") × ¬ (mode ≡ codes "160000")

  -- The change has the blob as a file on its old or its new side, at a legal path.
  abbrev pub UsesLegally : Bytes → Change → Type 0
  UsesLegally oid c =
      (is_legal_path c.path ≡ true)
      × (((c.old_oid ≡ oid) × HoldsFile c.old_mode) ⊎ ((c.new_oid ≡ oid) × HoldsFile c.new_mode))

  is_file_mode_iff : (mode : Bytes) → (is_file_mode mode ≡ true) ↔ HoldsFile mode
  unfolding is_file_mode
  is_file_mode_iff mode = ground (
    arith,
    equal_iff mode (codes "000000"),
    equal_iff mode (codes "120000"),
    equal_iff mode (codes "160000"),
  )

  uses_legally_iff : (oid : Bytes) (c : Change) → (uses_legally oid c ≡ true) ↔ UsesLegally oid c
  uses_legally_iff oid c = ground (
    arith,
    equal_iff c.old_oid oid,
    equal_iff c.new_oid oid,
    is_file_mode_iff c.old_mode,
    is_file_mode_iff c.new_mode,
  )

  -- Some change of the list uses the blob so.
  abbrev pub AnyUse : Bytes → List Change → Type 0
  AnyUse oid [] = ⊥
  AnyUse oid (c ∷ cs) = UsesLegally oid c ⊎ AnyUse oid cs

  any_use_iff : (oid : Bytes) (cs : List Change) → (any_use oid cs ≡ true) ↔ AnyUse oid cs
  any_use_iff oid [] = (λ p. absurd (cc p), λ a. absurd a)
  any_use_iff oid (c ∷ cs) = ground (arith, uses_legally_iff oid c, any_use_iff oid cs)

  -- The legal blobs of a history are those that some change has at a legal path on a side whose mode
  -- is not 000000, 120000 or 160000, and those that were legal before.
  pub legal_blobs_lem :
      (cs : List Change) (legal : Dict Bytes Bool) (oid : Bytes)
      → (lookup oid (foldl (record_legal_change is_legal_path) legal cs) ≡ some true)
        ↔ (AnyUse oid cs ⊎ (lookup oid legal ≡ some true))
  legal_blobs_lem cs legal oid = elim (Bool-cases (any_use oid cs)) [
    | inl used ↦
        (λ p. inl ((any_use_iff oid cs).0 used), λ u. lookup-any_use cs legal oid ∙ rw used refl)
    | inr unused ↦
        let same = lookup-any_use cs legal oid ∙ rw unused refl in
        (
          λ p. inr (sym same ∙ p),
          λ u. elim u [
            | inl a ↦ absurd (cc ((any_use_iff oid cs).1 a, unused))
            | inr old ↦ same ∙ old
          ],
        )
  ]
