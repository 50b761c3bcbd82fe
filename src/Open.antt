-- ===== src/Open.antt =====
-- The opening of a repository for the go-git backend: `openGoGit` and `isShallowGoGit` of
-- gogit_history.go, `configureGoGit` of gogit_tuning.go.
--
-- go-git, the file system and the environment are parameters: what they answer is a `Clone`.
pub mod Configured
pub mod Checked
use git_spdx.Common.{
  ℕ, ◌-◌, ◌^◌, Bool, true, false, not, ◌&&◌, Option, none, some, List, [], ◌∷◌, ltb, leb, ◌==◌,
  if◌then◌else◌, Bytes, codes, length, Error, unsupported_environment, unsupported_file, Result, ok,
  err, ◌>>=◌,
}
use git_spdx.Text.{trim_space}
use git_spdx.Options.{Whole, natural, negative}

-- What `Open`, `ReadAll` and `Close` answer for a file; `missing` is `os.ErrNotExist`.
pub data FileAnswer : Type 0 where
  missing : FileAnswer
  unopened : Error → FileAnswer
  opened : Result Bytes → Option Error → FileAnswer

-- An unset variable is an empty one for `os.Getenv`.
pub record Clone : Type 0 where
  pub environment : Bytes → Bytes
  pub open_error : Option Error
  pub file : Bytes → FileAnswer
  pub chroot_error : Option Error
  pub close_error : Option Error

pub record GoGitOptions : Type 0 where
  pub memory_index : Bool
  pub mmap : Bool
  -- A `uint64`.
  pub cache_bytes : ℕ
  pub cache_shards : ℕ

-- The storage that takes the place of go-git's own; a cache that is not sharded has no number.
pub record Storage : Type 0 where
  pub maps_files : Bool
  pub keeps_index : Bool
  pub cache_size : Whole
  pub shards : Option ℕ

-- What has become of the repository: it was not opened, was closed again, or is handed out.
pub data Handle : Type 0 where
  unused closed live : Handle

abbrev pub variables : List Bytes
variables = codes "GIT_OBJECT_DIRECTORY" ∷ codes "GIT_ALTERNATE_OBJECT_DIRECTORIES" ∷ []

abbrev pub file_names : List Bytes
file_names = codes "objects/info/alternates" ∷ codes "info/grafts" ∷ []

unfoldable pub check_variables : (Bytes → Bytes) → List Bytes → Option Error
check_variables environment [] = none
check_variables environment (name ∷ names) =
    let rest = check_variables environment names in
    if ltb 0 (length (environment name)) then some unsupported_environment else rest

-- The error of one file: reading it comes first, then closing it, then its content.
unfoldable pub check_file : FileAnswer → Option Error
check_file missing = none
check_file (unopened x) = some x
check_file (opened (err x) closing) = some x
check_file (opened (ok text) (some x)) = some x
check_file (opened (ok text) none) =
    if ltb 0 (length (trim_space text)) then some unsupported_file else none

unfoldable pub check_files : (Bytes → FileAnswer) → List Bytes → Option Error
check_files file [] = none
check_files file (name ∷ names) =
    let rest = check_files file names in
    elim (check_file (file name)) [ some x ↦ some x | none ↦ rest ]

-- The first error, or else the value.
unfoldable pub unless_error {ℓ} : {V : Type ℓ} → Option Error → Result V → Result V
unless_error (some x) r = err x
unless_error none r = r

-- `cache.FileSize(n)`: an `int64` of the 64 bits of `n`.
unfoldable pub file_size : ℕ → Whole
file_size n = if ltb n (2 ^ 63) then natural n else negative (2 ^ 64 - n - 1)

-- `configureGoGit`; `none` leaves the storage as it is. `default_size` is `cache.DefaultMaxSize`.
unfoldable pub configure_gogit : ℕ → GoGitOptions → Clone → Result (Option Storage)
configure_gogit default_size o w =
    if not o.memory_index && not o.mmap && (o.cache_bytes == default_size) && leb o.cache_shards 1
    then ok none
    else unless_error (if o.mmap then w.chroot_error else none) (
        unless_error w.close_error (
          ok (
            some (record {
              maps_files = o.mmap;
              keeps_index = o.memory_index;
              cache_size = file_size o.cache_bytes;
              shards = if ltb 1 o.cache_shards then some o.cache_shards else none;
            }))))

-- The part behind `gogit.PlainOpen`.
unfoldable pub check_clone : ℕ → GoGitOptions → Clone → Result (Option Storage)
check_clone default_size o w =
    unless_error (check_files w.file file_names) (configure_gogit default_size o w)

unfoldable pub handle_of {ℓ} : {V : Type ℓ} → Result V → Handle
handle_of (err x) = closed
handle_of (ok v) = live

-- `openGoGit`
unfoldable pub open_gogit : ℕ → GoGitOptions → Clone → Handle × Result (Option Storage)
open_gogit default_size o w = elim (check_variables w.environment variables) [
  | some x ↦ (unused, err x)
  | none ↦ elim w.open_error [
    | some x ↦ (unused, err x)
    | none ↦ (handle_of (check_clone default_size o w), check_clone default_size o w)
  ]
]

-- `isShallowGoGit`; `shallow` is what `Shallow` answers.
unfoldable pub is_shallow_gogit :
    {Hash : Type 0} → ℕ → GoGitOptions → Clone → Result (List Hash) → Result Bool
is_shallow_gogit default_size o w shallow = do
  storage ← (open_gogit default_size o w).1
  hashes ← shallow
  ok (ltb 0 (length hashes))
