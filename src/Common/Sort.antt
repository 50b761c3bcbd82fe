-- ===== src/Common/Sort.antt =====
-- `sort.Strings` and `sort.Slice` for an order in which elements that cannot be told apart by it are
-- equal: every sort gives this list.
use git_spdx.Common.Tests.{if◌then◌else◌}
use git_spdx.Common.Count.{count_if}
use git_spdx.Common.Lists.{All}
use git_spdx.Common.Tests.{Bool-cases}
use mathlib.Core.Logic.{inl, inr}
use mathlib.Core.Path.{◌≡◌, refl}
use mathlib.Core.Bool.{Bool, true, false}
use mathlib.Core.List.{List, [], ◌∷◌}
use native.Mathlib.Omega.{arith}

-- Each element and the next one are related.
abbrev pub IsChain {ℓ} : {A : Type ℓ} → (A → A → Type 0) → List A → Type 0
IsChain R [] = Unit
IsChain R (a ∷ []) = Unit
IsChain R (a ∷ b ∷ bs) = R a b × IsChain R (b ∷ bs)

module _ {ℓ} {A : Type ℓ} (before : A → A → Bool) where
  unfoldable pub insert_by : A → List A → List A
  insert_by a [] = a ∷ []
  insert_by a (b ∷ bs) = let rest = insert_by a bs in if before b a then b ∷ rest else a ∷ b ∷ bs

  unfoldable pub sort_by : List A → List A
  sort_by [] = []
  sort_by (a ∷ others) = insert_by a (sort_by others)

  -- No element stands behind one that it comes before.
  abbrev pub IsOrdered : List A → Type 0
  IsOrdered [] = Unit
  IsOrdered (a ∷ []) = Unit
  IsOrdered (a ∷ b ∷ bs) = (before b a ≡ false) × IsOrdered (b ∷ bs)

  insert_by-IsOrdered :
      ((a b : A) → before a b ≡ true → before b a ≡ false)
      → (a : A) (bs : List A) → IsOrdered bs
      → IsOrdered (insert_by a bs)
  unfolding insert_by
  insert_by-IsOrdered asym a [] h = tt
  insert_by-IsOrdered asym a (b ∷ []) h = ground (arith, asym b a)
  insert_by-IsOrdered asym a (b ∷ c ∷ bs) h =
      ground (arith, asym b a, insert_by-IsOrdered asym a (c ∷ bs) h.1)

  pub sort_by-IsOrdered :
      ((a b : A) → before a b ≡ true → before b a ≡ false) → (xs : List A) → IsOrdered (sort_by xs)
  unfolding sort_by
  sort_by-IsOrdered asym [] = tt
  sort_by-IsOrdered asym (a ∷ others) =
      insert_by-IsOrdered asym a (sort_by others) (sort_by-IsOrdered asym others)

  count_if-insert_by :
      (p : A → Bool) (a : A) (bs : List A) → count_if p (insert_by a bs) ≡ count_if p (a ∷ bs)
  unfolding insert_by count_if
  count_if-insert_by p a [] = refl
  count_if-insert_by p a (b ∷ bs) = ground (arith, count_if-insert_by p a bs)

  All-insert_by {κ} :
      (P : A → Type κ) (a : A) (bs : List A) → P a → All P bs → All P (insert_by a bs)
  unfolding insert_by
  All-insert_by P a [] now h = (now, tt)
  All-insert_by P a (b ∷ bs) now h = elim (Bool-cases (before b a)) [
    | inl behind ↦ rw behind (h.0, All-insert_by P a bs now h.1)
    | inr front ↦ rw front (now, h)
  ]

  pub All-sort_by {κ} : (P : A → Type κ) (xs : List A) → All P xs → All P (sort_by xs)
  unfolding sort_by
  All-sort_by P [] h = tt
  All-sort_by P (a ∷ others) h = All-insert_by P a (sort_by others) h.0 (All-sort_by P others h.1)

  -- Sorting keeps what is there.
  pub count_if-sort_by : (p : A → Bool) (xs : List A) → count_if p (sort_by xs) ≡ count_if p xs
  unfolding sort_by count_if
  count_if-sort_by p [] = refl
  count_if-sort_by p (a ∷ others) =
      ground (arith, count_if-insert_by p a (sort_by others), count_if-sort_by p others)

  pub IsOrdered-IsChain :
      (R : A → A → Type 0)
      → ((a b : A) → before b a ≡ false → R a b)
      → (xs : List A) → IsOrdered xs
      → IsChain R xs
  IsOrdered-IsChain R related [] h = tt
  IsOrdered-IsChain R related (a ∷ []) h = tt
  IsOrdered-IsChain R related (a ∷ b ∷ bs) h =
      (related a b h.0, IsOrdered-IsChain R related (b ∷ bs) h.1)
