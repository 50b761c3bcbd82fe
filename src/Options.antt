-- ===== src/Options.antt =====
-- The checks of the command line's values: `validateOptions` and `repositoryArgument` of main.go.
use git_spdx.Common.{
  ℕ, zero, suc, refl, ap, ◌≡◌, ◌↔◌, ◌⊎◌, Bool, true, false, not, ◌&&◌, ◌||◌, Option, none, some,
  List, [], ◌∷◌, ltb, if◌then◌else◌, Bytes, codes, equal, equal_iff, Error, bad_backend, bad_limits,
  bad_buffer, bad_batch, bad_group, bad_combination, arith,
}
use git_spdx.Change.{group_all, group_root, group_legal, group_other}

-- An `int`: `negative n` is -(n + 1).
pub data Whole : Type 0 where
  natural negative : ℕ → Whole

abbrev pub is_negative : Whole → Bool
is_negative (natural n) = false
is_negative (negative n) = true

abbrev pub is_positive : Whole → Bool
is_positive (natural n) = ltb 0 n
is_positive (negative n) = false

pub record Options : Type 0 where
  pub backend : Bytes
  pub max_blob_size : Whole
  pub legal_blob_size : Whole
  pub object_buffer : Whole
  pub object_batch : Whole
  pub group : Bytes
  pub monthly : Bool
  pub details : Bool

-- `slices.Contains` on the four groups.
unfoldable pub is_group : Bytes → Bool
is_group g = equal g group_all || equal g group_root || equal g group_legal || equal g group_other

-- `zlib_error` is the answer of `configureGoGitZlib`, which sets up a third-party library.
unfoldable pub validate_options : Options → Option Error → Bool → Option Error
validate_options o zlib_error history =
    if not (equal o.backend (codes "git")) && not (equal o.backend (codes "gogit"))
    then some bad_backend
    else if is_negative o.max_blob_size || is_negative o.legal_blob_size
    then some bad_limits
    else if is_negative o.object_buffer
    then some bad_buffer
    else if not (is_positive o.object_batch)
    then some bad_batch
    else if history && not (is_group o.group)
    then some bad_group
    else if history && o.monthly && o.details
    then some bad_combination
    else zlib_error

unfoldable pub repository_argument : List Bytes → Bytes
repository_argument (path ∷ []) = path
repository_argument args = codes "."

-- No limit is negative, a batch takes an object, and a history has one of the four groups and at most
-- one of the table and the details.
unfoldable pub IsValid : Options → Bool → Type 0
IsValid o history =
    ((o.backend ≡ codes "git") ⊎ (o.backend ≡ codes "gogit"))
    × ((n : ℕ) × (o.max_blob_size ≡ natural n))
    × ((n : ℕ) × (o.legal_blob_size ≡ natural n))
    × ((n : ℕ) × (o.object_buffer ≡ natural n))
    × ((n : ℕ) × (o.object_batch ≡ natural (suc n)))
    × (history ≡ true
        → ((o.group ≡ codes "all")
            ⊎ (o.group ≡ codes "root")
            ⊎ (o.group ≡ codes "legal")
            ⊎ (o.group ≡ codes "other"))
          × ((o.monthly ≡ false) ⊎ (o.details ≡ false)))

natural_iff : (w : Whole) → (is_negative w ≡ false) ↔ ((n : ℕ) × (w ≡ natural n))
natural_iff (natural n) = (λ p. (n, refl), λ e. refl)
natural_iff (negative n) = (λ p. absurd (cc p), λ (k, e). absurd (cc e))

abbrev value : Whole → ℕ
value (natural n) = n
value (negative n) = n

positive_iff : (w : Whole) → (is_positive w ≡ true) ↔ ((n : ℕ) × (w ≡ natural (suc n)))
positive_iff (natural zero) = (λ p. absurd (cc p), λ (k, e). absurd (omega (arith, ap value e)))
positive_iff (natural (suc n)) = (λ p. (n, refl), λ e. ground arith)
positive_iff (negative n) = (λ p. absurd (cc p), λ (k, e). absurd (cc e))

-- If the library can be set up, the check passes exactly if the backend is one of the two, no limit is
-- negative, a batch takes an object, and, for a history, the group is one of the four and not both of
-- the monthly table and the details are wanted.
pub validate_options_iff :
    (o : Options) (history : Bool) → (validate_options o none history ≡ none) ↔ IsValid o history
unfolding validate_options IsValid is_group
validate_options_iff o history = ground (
  arith,
  equal_iff o.backend (codes "git"),
  equal_iff o.backend (codes "gogit"),
  natural_iff o.max_blob_size,
  natural_iff o.legal_blob_size,
  natural_iff o.object_buffer,
  positive_iff o.object_batch,
  equal_iff o.group (codes "all"),
  equal_iff o.group (codes "root"),
  equal_iff o.group (codes "legal"),
  equal_iff o.group (codes "other"),
)
