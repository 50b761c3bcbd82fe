-- ===== src/Names.antt =====
-- Which directory and file names are legal in a raw tree: `isLegalDirectoryBytes`,
-- `isLegalFileNameBytes` and `equalFoldASCII` of gogit_history_stream.go.
pub mod Fold
use git_spdx.Common.{
  ℕ, zero, suc, ◌+◌, Bool, true, false, not, ◌&&◌, ◌||◌, List, [], ◌∷◌, leb, ltb, ◌==◌,
  if◌then◌else◌, Bytes, codes, length, take, drop,
}

-- The loop of `equalFoldASCII` over `input`; the lengths are equal.
unfoldable pub same_folded : Bytes → Bytes → Bool
same_folded [] pattern = true
same_folded (c ∷ input) [] = false
same_folded (c ∷ input) (p ∷ pattern) =
    let folded = if leb b'A' c && leb c b'Z' then c + 32 else c in
    if not (folded == p) then false else same_folded input pattern

unfoldable pub equal_fold_ascii : Bytes → Bytes → Bool
equal_fold_ascii input pattern =
    if not (length input == length pattern) then false else same_folded input pattern

unfoldable pub is_legal_directory : Bytes → Bool
is_legal_directory name =
    equal_fold_ascii name (codes "license")
    || equal_fold_ascii name (codes "licenses")
    || equal_fold_ascii name (codes "licence")
    || equal_fold_ascii name (codes "licences")

-- `legalFileNamePrefixes`
abbrev pub legal_file_name_prefixes : List Bytes
legal_file_name_prefixes =
    codes "licenses"
    ∷ codes "license"
    ∷ codes "licences"
    ∷ codes "licence"
    ∷ codes "copying"
    ∷ codes "mit-license"
    ∷ codes "copyright"
    ∷ codes "unlicense"
    ∷ codes "notices"
    ∷ codes "notice"
    ∷ []

-- `name[len(prefix)]` is one of the bytes that may stand behind a prefix.
unfoldable pub ends_stem : Bytes → Bool
ends_stem [] = true
ends_stem (c ∷ rest) = c == b'.' || c == b'-' || c == b'_'

-- One round of the loop: the name is legal by this prefix.
unfoldable pub has_legal_prefix : Bytes → Bytes → Bool
has_legal_prefix name prefix =
    if ltb (length name) (length prefix)
      || not (equal_fold_ascii (take (length prefix) name) prefix)
    then false
    else ends_stem (drop (length prefix) name)

unfoldable pub any_legal_prefix : Bytes → List Bytes → Bool
any_legal_prefix name [] = false
any_legal_prefix name (prefix ∷ prefixes) =
    if has_legal_prefix name prefix then true else any_legal_prefix name prefixes

unfoldable pub is_legal_file_name : Bytes → Bool
is_legal_file_name name = any_legal_prefix name legal_file_name_prefixes
