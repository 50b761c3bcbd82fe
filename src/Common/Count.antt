-- ===== src/Common/Count.antt =====
-- Counting the elements of a list that pass a test, and summing a measure.
use git_spdx.Common.Tests.{if◌then◌else◌, Bool-cases}
use Prim.Native.Nat.{ℕ, ◌+◌}
use mathlib.Core.Path.{◌≡◌}
use mathlib.Core.Bool.{Bool, true}
use mathlib.Core.Logic.{◌↔◌, inl, inr}
use mathlib.Core.List.{List, [], ◌∷◌, ◌++◌}
use native.Mathlib.Omega.{arith}

module _ {ℓ} {A : Type ℓ} where
  unfoldable pub count_if : (A → Bool) → List A → ℕ
  count_if p [] = 0
  count_if p (x ∷ xs) = (if p x then 1 else 0) + count_if p xs

  unfoldable pub sum_of : (A → ℕ) → List A → ℕ
  sum_of f [] = 0
  sum_of f (x ∷ xs) = f x + sum_of f xs

  pub count_if-append :
      (p : A → Bool) (xs ys : List A) → count_if p (xs ++ ys) ≡ count_if p xs + count_if p ys
  unfolding count_if
  count_if-append p [] ys = omega arith
  count_if-append p (x ∷ xs) ys = omega (arith, count_if-append p xs ys)

  pub sum_of-append : (f : A → ℕ) (xs ys : List A) → sum_of f (xs ++ ys) ≡ sum_of f xs + sum_of f ys
  unfolding sum_of
  sum_of-append f [] ys = omega arith
  sum_of-append f (x ∷ xs) ys = omega (arith, sum_of-append f xs ys)

  pub sum_of-middle :
      (f : A → ℕ) (front : List A) (x : A) (back : List A)
      → sum_of f (front ++ x ∷ back) ≡ sum_of f front + f x + sum_of f back
  unfolding sum_of
  sum_of-middle f front x back = omega (arith, sum_of-append f front (x ∷ back))

-- The number of the elements of a list that have a property.
pub data HasCount {ℓ} {A : Type 0} (P : A → Type ℓ) : List A → ℕ → Type ℓ where
  empty : HasCount P [] 0
  hit : {x : A} {xs : List A} {n : ℕ} → P x → HasCount P xs n → HasCount P (x ∷ xs) (1 + n)
  miss : {x : A} {xs : List A} {n : ℕ} → ¬ P x → HasCount P xs n → HasCount P (x ∷ xs) (0 + n)

pub count_if-HasCount {ℓ} :
    {A : Type 0} (P : A → Type ℓ) (p : A → Bool)
    → ((x : A) → (p x ≡ true) ↔ P x)
    → (xs : List A) → HasCount P xs (count_if p xs)
unfolding count_if
count_if-HasCount P p decides [] = empty
count_if-HasCount P p decides (x ∷ xs) = elim (Bool-cases (p x)) [
  | inl yes_p ↦ rw yes_p (hit ((decides x).0 yes_p) (count_if-HasCount P p decides xs))
  | inr no_p ↦ rw no_p (miss (λ h. cc ((decides x).1 h, no_p)) (count_if-HasCount P p decides xs))
]
