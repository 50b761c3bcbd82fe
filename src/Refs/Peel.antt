-- ===== src/Refs/Peel.antt =====
-- What peeling a tag gives, and that it comes to an end.
use git_spdx.Common.{
  ℕ, zero, suc, ◌+◌, ◌≤◌, ◌<◌, ◌≡◌, ◌≢◌, ◌⊎◌, inl, inr, refl, sym, ap, ◌∙◌, Bool, true, false,
  Option, none, some, List, [], ◌∷◌, length, Eq, Error, cyclic_tag, out_of_fuel, Result, ok, err,
  arith, Bool-cases,
}
use git_spdx.Walk.{is_seen}
use git_spdx.Walk.Reach.{Member}
use git_spdx.Walk.Fuel.{pending, pending-visit, parent_count}
use mathlib.Core.Path.{subst}
use git_spdx.Refs.{Named, commit, tag, other_kind, commit_at_reference}

Named-cases :
    {Hash : Type 0} (r : Result (Named Hash))
    → ((x : Error) × (r ≡ err x))
      ⊎ ((c : Hash) × (r ≡ ok (commit c)))
      ⊎ ((t : Hash) × (r ≡ ok (tag t)))
      ⊎ (r ≡ ok other_kind)
Named-cases (err x) = inl (x, refl)
Named-cases (ok (commit c)) = inr (inl (c, refl))
Named-cases (ok (tag t)) = inr (inr (inl (t, refl)))
Named-cases (ok other_kind) = inr (inr (inr refl))

module _ {Hash : Type 0} ⦃e : Eq Hash⦄ (object_at : Hash → Result (Named Hash)) where
  -- A chain of tags from an object to a commit, or to an object of another kind.
  pub data Peels : Hash → Option Hash → Type 0 where
    at_commit : {h c : Hash} → object_at h ≡ ok (commit c) → Peels h (some c)
    at_other : {h : Hash} → object_at h ≡ ok other_kind → Peels h none
    through_tag : {h t : Hash} {o : Option Hash} → object_at h ≡ ok (tag t) → Peels t o → Peels h o

  module _ (fuel : ℕ) (seen : List Hash) (h : Hash) (fresh : is_seen h seen ≡ false) where
    peel_wrong :
        {x : Error} → object_at h ≡ err x → commit_at_reference object_at (suc fuel) seen h ≡ err x
    unfolding commit_at_reference
    peel_wrong i = rw (commit_at_reference, fresh, i)

    peel_commit :
        {c : Hash}
        → object_at h ≡ ok (commit c)
        → commit_at_reference object_at (suc fuel) seen h ≡ ok (some c)
    unfolding commit_at_reference
    peel_commit i = rw (commit_at_reference, fresh, i)

    peel_other :
        object_at h ≡ ok other_kind → commit_at_reference object_at (suc fuel) seen h ≡ ok none
    unfolding commit_at_reference
    peel_other i = rw (commit_at_reference, fresh, i)

    peel_tag :
        {t : Hash}
        → object_at h ≡ ok (tag t)
        → commit_at_reference object_at (suc fuel) seen h
          ≡ commit_at_reference object_at fuel (h ∷ seen) t
    unfolding commit_at_reference
    peel_tag i = rw (commit_at_reference, fresh, i)

  peel_again :
      (fuel : ℕ) (seen : List Hash) (h : Hash)
      → is_seen h seen ≡ true
      → commit_at_reference object_at (suc fuel) seen h ≡ err cyclic_tag
  unfolding commit_at_reference
  peel_again fuel seen h s = rw (commit_at_reference, s)

  ok-injective : {V : Type 0} {v w : V} → ok v ≡ ok w → v ≡ w
  ok-injective q = cc q

  err-injective : {V : Type 0} {x y : Error} → ◌≡◌ {A = Result V} (err x) (err y) → x ≡ y
  err-injective q = cc q

  -- An answer that is no error is what the chain of tags ends in.
  pub commit_at_reference-Peels :
      (fuel : ℕ) (seen : List Hash) (h : Hash) (o : Option Hash)
      → commit_at_reference object_at fuel seen h ≡ ok o
      → Peels h o
  commit_at_reference-Peels zero seen h o r = unfold commit_at_reference in cc
  commit_at_reference-Peels (suc fuel) seen h o r = elim (Bool-cases (is_seen h seen)) [
    | inl s ↦ cc (peel_again fuel seen h s)
    | inr s ↦ elim (Named-cases (object_at h)) [
      | inl (x, i) ↦ cc (peel_wrong fuel seen h s i)
      | inr (inl (c, i)) ↦
          subst (Peels h) (ok-injective (sym (peel_commit fuel seen h s i) ∙ r)) (at_commit i)
      | inr (inr (inl (t, i))) ↦
          through_tag i
            (commit_at_reference-Peels fuel (h ∷ seen) t o (sym (peel_tag fuel seen h s i) ∙ r))
      | inr (inr (inr i)) ↦
          subst (Peels h) (ok-injective (sym (peel_other fuel seen h s i) ∙ r)) (at_other i)
    ]
  ]

  -- Each object weighs one.
  abbrev one : Hash → Bool → Result (Hash × List Hash)
  one h b = ok (h, h ∷ [])

  abbrev left : List Hash → List Hash → ℕ
  left = pending one (λ h. false)

  one_count : (h : Hash) → parent_count one (λ k. false) h ≡ 1
  unfolding parent_count
  one_count h = refl

  peel_total :
      (tags : List Hash)
      → ((h : Hash) → object_at h ≢ err out_of_fuel)
      → ((h t : Hash) → object_at h ≡ ok (tag t) → Member h tags)
      → (fuel : ℕ) (seen : List Hash) (h : Hash) → suc (left seen tags) < fuel
      → commit_at_reference object_at fuel seen h ≢ err out_of_fuel
  peel_total tags good listed zero seen h f r = absurd (omega arith)
  peel_total tags good listed (suc fuel) seen h f r = elim (Bool-cases (is_seen h seen)) [
    | inl s ↦ cc (peel_again fuel seen h s)
    | inr s ↦ elim (Named-cases (object_at h)) [
      | inl (x, i) ↦ good h (i ∙ ap err (err-injective (sym (peel_wrong fuel seen h s i) ∙ r)))
      | inr (inl (c, i)) ↦ cc (peel_commit fuel seen h s i)
      | inr (inr (inl (t, i))) ↦
          peel_total tags good listed fuel (h ∷ seen) t
            (omega
              (arith, pending-visit one (λ k. false) seen h tags (listed h t i) s, one_count h))
            (sym (peel_tag fuel seen h s i) ∙ r)
      | inr (inr (inr i)) ↦ cc (peel_other fuel seen h s i)
    ]
  ]

  left-length : (seen tags : List Hash) → left seen tags ≤ length tags
  unfolding pending parent_count
  left-length seen [] = omega arith
  left-length seen (h ∷ tags) = ground (arith, left-length seen tags)

  -- With two rounds more than there are tags peeling comes to an end, cycles or not, if go-git's own
  -- error is never the one of missing fuel.
  pub commit_at_reference-ne-out_of_fuel :
      (tags : List Hash)
      → ((h : Hash) → object_at h ≢ err out_of_fuel)
      → ((h t : Hash) → object_at h ≡ ok (tag t) → Member h tags)
      → (fuel : ℕ) (h : Hash) → length tags + 1 < fuel
      → commit_at_reference object_at fuel [] h ≢ err out_of_fuel
  commit_at_reference-ne-out_of_fuel tags good listed fuel h f =
      peel_total tags good listed fuel [] h (omega (arith, left-length [] tags))
