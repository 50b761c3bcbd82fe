-- ===== src/Tables/Counted.antt =====
-- What `printExprCounts` counts, and the order of its lines.
use git_spdx.Common.{
  ℕ, ◌⊎◌, ◌+◌, ◌<◌, ◌==◌, ◌≡◌, refl, Bool, true, false, ◌&&◌, some, List, [], ◌∷◌, ltb,
  if◌then◌else◌, Bytes, equal, bytes_eq, arith, Bool-cases, inl, inr,
}
use git_spdx.Common.Count.{count_if, sum_of}
use git_spdx.Common.Dict
use git_spdx.Common.Dict.{Dict}
use git_spdx.Oid.{ObjectId}
use git_spdx.Index.{BlobResult}
use git_spdx.Scan.{is_before}
use git_spdx.Tables.{times}

pub is_before_asym : (a b : Bytes) → is_before a b ≡ true → is_before b a ≡ false
unfolding is_before
is_before_asym [] [] h = refl
is_before_asym [] (y ∷ b) h = refl
is_before_asym (x ∷ a) [] h = cc
is_before_asym (x ∷ a) (y ∷ b) h = ground (arith, is_before_asym a b)

-- One text comes before another: it ends first, or has the smaller byte where they differ first.
pub data TextBefore : Bytes → Bytes → Type 0 where
  shorter : {c : ℕ} {b : Bytes} → TextBefore [] (c ∷ b)
  smaller : {x y : ℕ} {a b : Bytes} → x < y → TextBefore (x ∷ a) (y ∷ b)
  later : {x y : ℕ} {a b : Bytes} → x ≡ y → TextBefore a b → TextBefore (x ∷ a) (y ∷ b)

-- A text that another does not come before comes before it, or is the same.
pub not_before : (a b : Bytes) → is_before b a ≡ false → (a ≡ b) ⊎ TextBefore a b
unfolding is_before
not_before [] [] h = inl refl
not_before [] (c ∷ b) h = inr shorter
not_before (x ∷ a) [] h = absurd (cc h)
not_before (x ∷ a) (y ∷ b) h = elim (Bool-cases (ltb x y)) [
  | inl less ↦ inr (smaller (ground (arith, less)))
  | inr more ↦
      let same : x ≡ y = ground (arith, more) in
      elim (not_before a b (ground (arith, more, same))) [
        | inl equal_rest ↦ inl (cc (same, equal_rest))
        | inr rest ↦ inr (later same rest)
      ]
]

-- A row does not come behind another: its count is larger, or the same and its text not behind.
abbrev pub Precedes : Bytes × ℕ → Bytes × ℕ → Type 0
Precedes r r' = (r'.1 < r.1) ⊎ ((r.1 ≡ r'.1) × ((r.0 ≡ r'.0) ⊎ TextBefore r.0 r'.0))

-- How often an expression stands in the list.
abbrev among : Bytes → List Bytes → ℕ
among e es = count_if (λ x. equal x e) es

-- How often it was found in all blobs.
abbrev pub occurrences : Bytes → Dict ObjectId BlobResult → ℕ
occurrences e blobs = sum_of (λ p. among e p.1.expressions) blobs

-- The row of an expression with its count.
abbrev pub is_row : Bytes → ℕ → Bytes × ℕ → Bool
is_row e n row = equal row.0 e && row.1 == n

-- The counts are those of a function.
abbrev Holds : (Bytes → ℕ) → Dict Bytes ℕ → Type 0
Holds occ m =
    ((e : Bytes) → times e m ≡ occ e)
    × ((e : Bytes) (n : ℕ) → Dict.lookup e m ≡ some n → 0 < n)
    × ((e : Bytes) (n : ℕ) → count_if (is_row e n) m ≡ (if ltb 0 n && occ e == n then 1 else 0))

-- One occurrence more.
abbrev more : Bytes → (Bytes → ℕ) → Bytes → ℕ
more k occ e = occ e + (if equal k e then 1 else 0)
