-- ===== src/Names/Fold.antt =====
-- The tests of legal names against the folding of ASCII letters to lower case.
use git_spdx.Common.{
  ℕ, suc, ◌+◌, ◌≡◌, ◌↔◌, ◌⊎◌, inl, inr, refl, sym, ap, ◌∙◌, true, ◌&&◌, List, [], ◌∷◌, ◌++◌, map,
  leb, ◌==◌, ==_iff, if◌then◌else◌, Bytes, codes, length, take, drop, arith, Bool-cases,
  take-append_length, take-append-drop, drop-append_length, length-append,
}
use git_spdx.Names.{
  same_folded, equal_fold_ascii, is_legal_directory, ends_stem, has_legal_prefix, any_legal_prefix,
  is_legal_file_name,
}

abbrev pub fold_byte : ℕ → ℕ
fold_byte c = if leb b'A' c && leb c b'Z' then c + 32 else c

abbrev pub fold : Bytes → Bytes
fold = map fold_byte

same_folded_iff : (s p : Bytes) → length s ≡ length p → (same_folded s p ≡ true) ↔ (fold s ≡ p)
unfolding same_folded
same_folded_iff [] [] h = ground arith
same_folded_iff [] (b ∷ p) h = absurd (omega arith)
same_folded_iff (c ∷ s) [] h = absurd (omega arith)
same_folded_iff (c ∷ s) (b ∷ p) h = ground (arith, same_folded_iff s p (omega arith))

length-fold : (s : Bytes) → length (fold s) ≡ length s
length-fold [] = refl
length-fold (c ∷ s) = ap suc (length-fold s)

-- `equalFoldASCII` holds exactly if the folded name is the pattern.
pub equal_fold_ascii_iff : (s p : Bytes) → (equal_fold_ascii s p ≡ true) ↔ (fold s ≡ p)
unfolding equal_fold_ascii
equal_fold_ascii_iff s p = elim (Bool-cases (length s == length p)) [
  | inl same ↦ rw same (same_folded_iff s p ((==_iff (length s) (length p)).0 same))
  | inr differ ↦ (λ e. ground arith, λ e. ground (arith, ap length e, length-fold s))
]

-- A directory is legal exactly if its folded name is one of four.
pub is_legal_directory_iff :
    (name : Bytes)
    → (is_legal_directory name ≡ true) ↔ (
        (fold name ≡ codes "license")
        ⊎ (fold name ≡ codes "licenses")
        ⊎ (fold name ≡ codes "licence")
        ⊎ (fold name ≡ codes "licences"))
unfolding is_legal_directory
is_legal_directory_iff name = ground (
  arith,
  equal_fold_ascii_iff name (codes "license"),
  equal_fold_ascii_iff name (codes "licenses"),
  equal_fold_ascii_iff name (codes "licence"),
  equal_fold_ascii_iff name (codes "licences"),
)

-- A dot, a dash or a low line, and what follows it.
abbrev pub Ending : Bytes → Type 0
Ending rest = (c : ℕ) × (more : Bytes) × (rest ≡ c ∷ more) × ((c ≡ b'.') ⊎ (c ≡ b'-') ⊎ (c ≡ b'_'))

-- `name` is, in some case, the prefix and a rest that is empty or starts with a dot, dash or low line.
abbrev pub IsStemmed : Bytes → Bytes → Type 0
IsStemmed name prefix =
    (stem : Bytes) × (rest : Bytes) × (name ≡ stem ++ rest)
    × (fold stem ≡ prefix)
    × ((rest ≡ []) ⊎ Ending rest)

abbrev pub AnyStem : Bytes → List Bytes → Type 0
AnyStem name [] = ⊥
AnyStem name (p ∷ ps) = IsStemmed name p ⊎ AnyStem name ps

ends_stem_iff : (rest : Bytes) → (ends_stem rest ≡ true) ↔ ((rest ≡ []) ⊎ Ending rest)
unfolding ends_stem
ends_stem_iff [] = (λ p. inl refl, λ e. refl)
ends_stem_iff (c ∷ more) = (
  λ p. inr (c, more, refl, ground arith),
  λ e. elim e [
    | inl none_left ↦ absurd (cc none_left)
    | inr (d, others, same, kind) ↦ ground (arith, same, kind)
  ],
)

has_legal_prefix→IsStemmed :
    (name prefix : Bytes) → has_legal_prefix name prefix ≡ true → IsStemmed name prefix
unfolding has_legal_prefix
has_legal_prefix→IsStemmed name prefix h = (
  take (length prefix) name,
  drop (length prefix) name,
  sym (take-append-drop (length prefix) name),
  (equal_fold_ascii_iff (take (length prefix) name) prefix).0 (ground arith),
  (ends_stem_iff (drop (length prefix) name)).0 (ground arith),
)

IsStemmed→has_legal_prefix :
    (name prefix : Bytes) → IsStemmed name prefix → has_legal_prefix name prefix ≡ true
unfolding has_legal_prefix
IsStemmed→has_legal_prefix name prefix (stem, rest, split, folds, ends) =
    let size : length prefix ≡ length stem = ap length (sym folds) ∙ length-fold stem in
    ground (
      arith,
      ap length split,
      length-append stem rest,
      take-append_length stem rest,
      drop-append_length stem rest,
      equal_fold_ascii_iff stem prefix,
      (ends_stem_iff rest).1 ends,
    )

any_legal_prefix_iff :
    (name : Bytes) (ps : List Bytes) → (any_legal_prefix name ps ≡ true) ↔ AnyStem name ps
unfolding any_legal_prefix
any_legal_prefix_iff name [] = (λ e. cc, λ e. absurd e)
any_legal_prefix_iff name (p ∷ ps) = elim (Bool-cases (has_legal_prefix name p)) [
  | inl hit ↦ (λ e. inl (has_legal_prefix→IsStemmed name p hit), λ e. rw hit)
  | inr miss ↦ (
    λ e. inr ((any_legal_prefix_iff name ps).0 (rw miss at e)),
    λ e. elim e [
      | inl stem ↦ cc (IsStemmed→has_legal_prefix name p stem)
      | inr more ↦ rw miss ((any_legal_prefix_iff name ps).1 more)
    ],
  )
]

-- The names of legal files.
abbrev pub stems : List Bytes
stems =
    codes "licenses"
    ∷ codes "license"
    ∷ codes "licences"
    ∷ codes "licence"
    ∷ codes "copying"
    ∷ codes "mit-license"
    ∷ codes "copyright"
    ∷ codes "unlicense"
    ∷ codes "notices"
    ∷ codes "notice"
    ∷ []

-- A file name is legal exactly if it is one of the ten stems, in any case, with nothing behind it or
-- with a dot, a dash or a low line.
pub is_legal_file_name_iff : (name : Bytes) → (is_legal_file_name name ≡ true) ↔ AnyStem name stems
unfolding is_legal_file_name
is_legal_file_name_iff name = any_legal_prefix_iff name stems
