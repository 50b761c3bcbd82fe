-- ===== src/Open/Checked.antt =====
-- When a repository is opened.
use git_spdx.Common.{
  codes, ℕ, ◌≡◌, ◌⊎◌, inl, inr, ◌↔◌, refl, sym, Option, none, some, List, [], ◌∷◌, ltb, Bytes,
  length, Error, Result, ok, err, All, Option-cases, Bool-cases, arith,
}
use git_spdx.Text.{trim_space}
use git_spdx.Open.{
  FileAnswer, missing, unopened, opened, Clone, GoGitOptions, Storage, Handle, unused, live,
  variables, file_names, check_variables, check_file, check_files, configure_gogit, check_clone,
  handle_of, open_gogit,
}
use mathlib.Core.Path.{subst}
use git_spdx.Open.Configured.{unless_error-eq-ok, IsConfigured, configure_gogit_iff}

-- The file is not there, or it can be read and holds white space alone.
abbrev pub IsClear : FileAnswer → Type 0
IsClear a =
    (a ≡ missing) ⊎ ((text : Bytes) × (a ≡ opened (ok text) none) × (length (trim_space text) ≡ 0))

check_file-IsClear : (a : FileAnswer) → (check_file a ≡ none) ↔ IsClear a
unfolding check_file
check_file-IsClear missing = (λ p. inl refl, λ c. refl)
check_file-IsClear (unopened x) =
    (λ p. absurd (cc p), λ c. elim c [ inl q ↦ absurd (cc q) | inr (t, q, l) ↦ absurd (cc q) ])
check_file-IsClear (opened (err x) closing) =
    (λ p. absurd (cc p), λ c. elim c [ inl q ↦ absurd (cc q) | inr (t, q, l) ↦ absurd (cc q) ])
check_file-IsClear (opened (ok text) (some x)) =
    (λ p. absurd (cc p), λ c. elim c [ inl q ↦ absurd (cc q) | inr (t, q, l) ↦ absurd (cc q) ])
check_file-IsClear (opened (ok text) none) = (
  λ p. inr (text, refl, ground arith),
  λ c. elim c [ inl q ↦ absurd (cc q) | inr (t, q, l) ↦ ground arith ],
)

check_variables_lem :
    (environment : Bytes → Bytes) (names : List Bytes)
    → (check_variables environment names ≡ none) ↔ All (λ n. length (environment n) ≡ 0) names
unfolding check_variables
check_variables_lem environment [] = (λ p. tt, λ a. refl)
check_variables_lem environment (n ∷ names) =
    let rest = check_variables_lem environment names in
    elim (Bool-cases (ltb 0 (length (environment n)))) [
      | inl set ↦ rw set (λ p. absurd (cc p), λ (now, later). absurd (ground arith))
      | inr unset ↦ rw unset (λ p. (ground arith, rest.0 p), λ (now, later). rest.1 later)
    ]

check_files_lem :
    (file : Bytes → FileAnswer) (names : List Bytes)
    → (check_files file names ≡ none) ↔ All (λ n. IsClear (file n)) names
unfolding check_files
check_files_lem file [] = (λ p. tt, λ a. refl)
check_files_lem file (n ∷ names) =
    let rest = check_files_lem file names in
    let now = check_file-IsClear (file n) in
    elim (Option-cases (check_file (file n))) [
      | inr (x, q) ↦
          rw (check_files, q) (λ p. absurd (cc p), λ (clear, later). absurd (cc (now.1 clear, q)))
      | inl q ↦ rw (check_files, q) (λ p. (now.0 q, rest.0 p), λ (clear, later). rest.1 later)
    ]

module _ (default_size : ℕ) (o : GoGitOptions) (w : Clone) where
  -- What has to hold of a repository.
  pub record IsUsable (storage : Option Storage) : Type 0 where
    pub variables_unset :
        All
          (λ n. length (w.environment n) ≡ 0)
          (codes "GIT_OBJECT_DIRECTORY" ∷ codes "GIT_ALTERNATE_OBJECT_DIRECTORIES" ∷ [])
    pub is_repository : w.open_error ≡ none
    pub files_clear :
        All (λ n. IsClear (w.file n)) (codes "objects/info/alternates" ∷ codes "info/grafts" ∷ [])
    pub is_configured : IsConfigured default_size o w storage

  handle_of_live :
      (r : Result (Option Storage)) → (handle_of r ≡ live) ↔ ((v : Option Storage) × (r ≡ ok v))
  unfolding handle_of
  handle_of_live (err x) = (λ p. absurd (cc p), λ (v, p). absurd (cc p))
  handle_of_live (ok v) = (λ p. (v, refl), λ (u, p). refl)

  usable_lem :
      (storage : Option Storage)
      → w.open_error ≡ none
      → check_variables w.environment variables ≡ none
      → (check_clone default_size o w ≡ ok storage) ↔ IsUsable storage
  unfolding check_clone
  usable_lem storage q p =
      let both =
        unless_error-eq-ok (check_files w.file file_names) (configure_gogit default_size o w)
          storage in
      (
        λ e. record {
          variables_unset = (check_variables_lem w.environment variables).0 p;
          is_repository = q;
          files_clear = (check_files_lem w.file file_names).0 (both.0 e).0;
          is_configured = (configure_gogit_iff default_size o w storage).0 (both.0 e).1;
        },
        λ u. both.1 (
          (check_files_lem w.file file_names).1 u.files_clear,
          (configure_gogit_iff default_size o w storage).1 u.is_configured,
        ),
      )

  abbrev Tells : Option Storage → Handle × Result (Option Storage) → Type 0
  Tells storage out =
      ((out.1 ≡ ok storage) ↔ IsUsable storage)
      × ((out.0 ≡ live) ↔ ((v : Option Storage) × (out.1 ≡ ok v)))

  refused_lem :
      (storage : Option Storage) (x : Error) → ¬ IsUsable storage → Tells storage (unused, err x)
  refused_lem storage x n =
      ((λ e. absurd (cc e), λ u. absurd (n u)), (λ e. absurd (cc e), λ (v, e). absurd (cc e)))

  variable_set :
      (x : Error)
      → check_variables w.environment variables ≡ some x
      → open_gogit default_size o w ≡ (unused, err x)
  unfolding open_gogit
  variable_set x p = rw (open_gogit, p) refl

  no_repository :
      (x : Error)
      → check_variables w.environment variables ≡ none
      → w.open_error ≡ some x
      → open_gogit default_size o w ≡ (unused, err x)
  unfolding open_gogit
  no_repository x p q = rw (open_gogit, p, q) refl

  repository_checked :
      check_variables w.environment variables ≡ none
      → w.open_error ≡ none
      → open_gogit default_size o w
        ≡ (handle_of (check_clone default_size o w), check_clone default_size o w)
  unfolding open_gogit check_clone configure_gogit
  repository_checked p q = rw (open_gogit, p, q) refl

  -- `openGoGit` succeeds exactly if no variable moves the objects away, go-git opens the repository, the
  -- files of alternates and grafts are not there or hold white space alone, and either the options are
  -- the defaults, which keep the storage, or the old storage can be closed and, with mapped files, the
  -- objects' directory be opened, which gives the storage of the options, with the cache size as an
  -- `int64`. The repository is handed out open exactly if it succeeds.
  pub open_gogit_lem :
      (storage : Option Storage)
      → (((open_gogit default_size o w).1 ≡ ok storage) ↔ IsUsable storage)
        × (((open_gogit default_size o w).0 ≡ live)
            ↔ ((v : Option Storage) × ((open_gogit default_size o w).1 ≡ ok v)))
  open_gogit_lem storage = elim (Option-cases (check_variables w.environment variables)) [
    | inr (x, p) ↦ subst (Tells storage) (sym (variable_set x p)) (
        refused_lem storage x
          (λ u. cc ((check_variables_lem w.environment variables).1 u.variables_unset, p)))
    | inl p ↦ elim (Option-cases w.open_error) [
      | inr (x, q) ↦
          subst (Tells storage) (sym (no_repository x p q))
            (refused_lem storage x (λ u. cc (u.is_repository, q)))
      | inl q ↦
          subst (Tells storage) (sym (repository_checked p q))
            (usable_lem storage q p, handle_of_live (check_clone default_size o w))
    ]
  ]
