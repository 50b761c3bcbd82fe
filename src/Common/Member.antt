-- ===== src/Common/Member.antt =====
-- Membership in a list, with the place where the element stands.
use mathlib.Core.Path.{◌≡◌}
use mathlib.Core.Logic.{◌≢◌, ◌⊎◌, inl, inr}
use mathlib.Core.List.{List, [], ◌∷◌, ◌++◌}

abbrev pub Member : {A : Type 0} → A → List A → Type 0
Member x [] = ⊥
Member x (y ∷ ys) = (y ≡ x) ⊎ Member x ys

module _ {A : Type 0} (x : A) where
  pub Member-append : (xs ys : List A) → Member x (xs ++ ys) → Member x xs ⊎ Member x ys
  Member-append [] ys m = inr m
  Member-append (y ∷ xs) ys (inl same) = inl (inl same)
  Member-append (y ∷ xs) ys (inr m) = elim (Member-append xs ys m) [
    | inl a ↦ inl (inr a)
    | inr b ↦ inr b
  ]

  pub append-left : (xs ys : List A) → Member x xs → Member x (xs ++ ys)
  append-left [] ys m = absurd m
  append-left (y ∷ xs) ys (inl same) = inl same
  append-left (y ∷ xs) ys (inr m) = inr (append-left xs ys m)

  pub append-right : (xs ys : List A) → Member x ys → Member x (xs ++ ys)
  append-right [] ys m = m
  append-right (y ∷ xs) ys m = inr (append-right xs ys m)

-- An element is replaced that is not the one that is sought.
pub other-middle :
    {A : Type 0} (x : A) (front : List A) (v w : A) (back : List A)
    → w ≢ x
    → Member x (front ++ w ∷ back)
    → Member x (front ++ v ∷ back)
other-middle x front v w back differ m = elim (Member-append x front (w ∷ back) m) [
  | inl a ↦ append-left x front (v ∷ back) a
  | inr (inl same) ↦ absurd (differ same)
  | inr (inr b) ↦ append-right x front (v ∷ back) (inr b)
]

pub middle-≢ : {A : Type 0} (front : List A) (w : A) (back : List A) → (front ++ w ∷ back) ≢ []
middle-≢ [] w back p = cc p
middle-≢ (x ∷ front) w back p = cc p
