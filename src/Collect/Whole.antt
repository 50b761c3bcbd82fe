-- ===== src/Collect/Whole.antt =====
-- `legalBlobsGoGit` of gogit_history_stream.go with one worker, from the opening of the repository to
-- the map: which blobs it finds in a history.
use git_spdx.Common.{
  ℕ, ◌≡◌, ◌↔◌, refl, Bool, true, false, ◌||◌, Option, none, some, List, [], Bytes, bytes_eq, Eq,
  Error, Result, ok, err, All,
}
use git_spdx.Common.Dict.{Dict, lookup}
use git_spdx.Tree.{Library}
use git_spdx.Walk.{is_seen, legal_blobs_gogit}
use git_spdx.Open.{Clone, GoGitOptions, Storage, open_gogit}
use git_spdx.Open.Checked.{IsUsable, open_gogit_lem}
use git_spdx.Refs.Roots.{Reference, history_roots}
use git_spdx.Refs.Rooted.{leads_to, is_replacement, any_names_commit, history_roots_lem}
use git_spdx.Collect.Blobs.{IsLegalBlob}
use git_spdx.Collect.Serial.{IsTop, legal_blobs_gogit_lem}

-- What go-git answers about a history: its references and the error behind them, `HEAD`, the commits at
-- the shallow boundary, and the commit that a reference leads to.
pub record History (Hash : Type 0) : Type 0 where
  pub references : List (Reference Hash) × Error
  pub head : Result Hash
  pub shallow : Result (List Hash)
  pub peel : Hash → Result (Option Hash)

-- An error with the nil map, or what is to be done with the value.
abbrev pub map_or_error {ℓ} :
    {V : Type ℓ} → Result V → (V → Dict Bytes Bool × Option Error) → Dict Bytes Bool × Option Error
map_or_error (err x) next = ([], some x)
map_or_error (ok v) next = next v

-- A search that succeeds has a value to go on with.
map_or_error-none {ℓ} :
    {V : Type ℓ} (r : Result V) (next : V → Dict Bytes Bool × Option Error)
    {legal : Dict Bytes Bool}
    → map_or_error r next ≡ (legal, none)
    → (v : V) × (r ≡ ok v) × (next v ≡ (legal, none))
map_or_error-none (err x) next p = absurd (cc p)
map_or_error-none (ok v) next p = (v, refl, p)

module _ {Hash : Type 0} ⦃e : Eq Hash⦄ (default_size : ℕ) (o : GoGitOptions) (w : Clone)
    (g : Library Hash) (h : History Hash) (depth fuel : ℕ) where
  -- `legalBlobsGoGit`
  unfoldable pub legal_blobs_of : Dict Bytes Bool × Option Error
  legal_blobs_of = map_or_error (open_gogit default_size o w).1 λ storage.
      map_or_error (history_roots h.peel (ok h.references) h.head) λ roots.
        map_or_error h.shallow
          λ boundary. legal_blobs_gogit g (λ k. is_seen k boundary) depth fuel roots

  -- What a search that succeeds has found out of a history.
  pub record Finds (legal : Dict Bytes Bool) : Type 0 where
    pub storage : Option Storage
    pub roots : List Hash
    pub boundary : List Hash
    pub is_usable : IsUsable default_size o w storage
    pub is_boundary : h.shallow ≡ ok boundary
    pub no_replacement : All (λ r. is_replacement h.peel r ≡ false) h.references.0
    pub rooted :
        (c : Hash)
        → is_seen c roots ≡ (leads_to h.peel c h.head || any_names_commit h.peel c h.references.0)
    pub found :
        (text : Bytes)
        → (lookup text legal ≡ some true)
          ↔ IsLegalBlob g (IsTop g (λ k. is_seen k boundary) roots) text

  -- A search for the legal blobs of a history that succeeds has opened a repository that can be used,
  -- without references of replacement, and finds the blobs that the trees of its commits, and the trees
  -- below them, name as files, with a legal name or under a legal directory, and no other. Its commits
  -- are the ones that `HEAD` and the references under `refs/` lead to, and their parents, up to the
  -- shallow boundary.
  pub legal_blobs_of-Finds :
      (legal : Dict Bytes Bool) → legal_blobs_of ≡ (legal, none) → Finds legal
  unfolding legal_blobs_of
  legal_blobs_of-Finds legal p =
      let (storage, opened, p1) = map_or_error-none (open_gogit default_size o w).1 _ p in
      let (roots, rooted, p2) =
        map_or_error-none (history_roots h.peel (ok h.references) h.head) _ p1 in
      let (boundary, shallow, p3) = map_or_error-none h.shallow _ p2 in
      let (ended, plain, all) =
        history_roots_lem h.peel h.references.0 h.references.1 h.head rooted in
      record {
        storage = storage;
        roots = roots;
        boundary = boundary;
        is_usable = ((open_gogit_lem default_size o w storage).0).0 opened;
        is_boundary = shallow;
        no_replacement = plain;
        rooted = all;
        found = legal_blobs_gogit_lem g (λ k. is_seen k boundary) depth fuel roots legal p3;
      }
