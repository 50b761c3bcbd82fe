-- ===== src/Refs.antt =====
-- The commit that a reference names: `commitAtReference` of gogit_history.go.
pub mod Peel
pub mod Roots
pub mod Rooted
pub mod Once
use git_spdx.Common.{
  ℕ, zero, suc, Bool, true, false, Option, none, some, List, [], ◌∷◌, Eq, Error, cyclic_tag,
  out_of_fuel, Result, ok, err,
}
use git_spdx.Walk.{is_seen}

-- The object that go-git finds: a commit with its hash, a tag with its target, or another kind.
pub data Named (Hash : Type 0) : Type 0 where
  commit : Hash → Named Hash
  tag : Hash → Named Hash
  other_kind : Named Hash

module _ {Hash : Type 0} ⦃e : Eq Hash⦄ (object_at : Hash → Result (Named Hash)) where
  -- The loop of `commitAtReference`: the commit, or none for an object of another kind.
  unfoldable pub commit_at_reference : ℕ → List Hash → Hash → Result (Option Hash)
  commit_at_reference zero seen h = err out_of_fuel
  commit_at_reference (suc fuel) seen h = elim (is_seen h seen) [
    | true ↦ err cyclic_tag
    | false ↦ elim (object_at h) [
      | err x ↦ err x
      | ok (commit c) ↦ ok (some c)
      | ok (tag target) ↦ commit_at_reference fuel (h ∷ seen) target
      | ok other_kind ↦ ok none
    ]
  ]
