-- ===== src/Tests/IndexRuns.antt =====
-- Object IDs, the index and the legal names.
use git_spdx.Common.{
  ◌↔◌, ◌≡◌, refl, true, false, [], ◌∷◌, Bytes, codes, equal, replicate, ok, if◌then◌else◌, bytes_eq,
}
use git_spdx.Oid.{hex_digit, hex_decode, fill, parse_oid, ObjectId}
use git_spdx.Index.{BlobResult, new_index, lookup, not_skipped, empty_result}
use git_spdx.Index.Lookup.{any_names, put_all, lookup-put_all}
use git_spdx.Names.{
  equal_fold_ascii, same_folded, is_legal_file_name, any_legal_prefix, has_legal_prefix, ends_stem,
}
use git_spdx.Names.Fold.{fold, equal_fold_ascii_iff, is_legal_file_name_iff, AnyStem, stems}
use git_spdx.Tests.Data.{oid_a, oid_b}

abbrev upper_a : Bytes
upper_a = replicate 40 b'A'

abbrev key_a : ObjectId
key_a = fill (replicate 20 0xaa)

abbrev key_b : ObjectId
key_b = fill (replicate 20 0xbb)

parse_a : parse_oid oid_a ≡ ok key_a
unfolding parse_oid hex_decode hex_digit
parse_a = refl

parse_upper_a : parse_oid upper_a ≡ ok key_a
unfolding parse_oid hex_decode hex_digit
parse_upper_a = refl

parse_b : parse_oid oid_b ≡ ok key_b
unfolding parse_oid hex_decode hex_digit
parse_b = refl

abbrev mit : BlobResult
mit = record { expressions = codes "MIT" ∷ []; skipped = not_skipped; spdx = true }

-- Each blob has the licence MIT.
lookup-put_all_example :
    lookup (put_all (λ oid. mit) new_index (oid_b ∷ oid_a ∷ oid_b ∷ [])) oid_a
    ≡ (if any_names key_a (oid_b ∷ oid_a ∷ oid_b ∷ []) then mit else empty_result)
unfolding equal
lookup-put_all_example =
    lookup-put_all (λ oid. mit) (λ a b key p q. refl) oid_a key_a (parse_a, refl, refl)
      (oid_b ∷ oid_a ∷ oid_b ∷ [])

equal_fold_ascii_iff_example :
    (equal_fold_ascii (codes "LiCense") (codes "license") ≡ true)
    ↔ (fold (codes "LiCense") ≡ codes "license")
equal_fold_ascii_iff_example = equal_fold_ascii_iff (codes "LiCense") (codes "license")

is_legal_file_name_iff_example :
    (is_legal_file_name (codes "License.txt") ≡ true) ↔ AnyStem (codes "License.txt") stems
is_legal_file_name_iff_example = is_legal_file_name_iff (codes "License.txt")

license_txt : is_legal_file_name (codes "License.txt") ≡ true
unfolding is_legal_file_name any_legal_prefix has_legal_prefix equal_fold_ascii same_folded
    ends_stem
license_txt = refl

licensee_is_none : is_legal_file_name (codes "licensee") ≡ false
unfolding is_legal_file_name any_legal_prefix has_legal_prefix equal_fold_ascii same_folded
    ends_stem
licensee_is_none = refl
