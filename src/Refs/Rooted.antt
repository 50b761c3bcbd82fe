-- ===== src/Refs/Rooted.antt =====
-- The roots of a history are the commits that the references name.
use git_spdx.Common.{
  ◌≡◌, inl, inr, refl, Bool, true, false, ◌&&◌, ◌||◌, Option, none, some, List, [], ◌∷◌, ◌++◌,
  codes, All, Eq, Error, Result, ok, err, ◌>>=◌, >>=-eq-ok, Result-cases, arith,
}
use git_spdx.Stream.{is_eof}
use git_spdx.Walk.{is_seen}
use git_spdx.Refs.Roots.{
  Reference, has_prefix, roots_of, head_roots, peeled_roots, reference_roots, roots_loop,
  history_roots,
}

module _ {Hash : Type 0} ⦃e : Eq Hash⦄ (peel : Hash → Result (Option Hash)) where
  -- Does the object lead to the commit?
  abbrev pub leads_to : Hash → Result Hash → Bool
  leads_to c (ok h) = elim (peel h) [ ok (some k) ↦ e.beq k c | ok none ↦ false | err x ↦ false ]
  leads_to c (err x) = false

  -- Does the reference name the commit?
  abbrev pub names_commit : Hash → Reference Hash → Bool
  names_commit c r = has_prefix (codes "refs/") r.name && leads_to c r.resolved

  abbrev pub any_names_commit : Hash → List (Reference Hash) → Bool
  any_names_commit c [] = false
  any_names_commit c (r ∷ rs) = names_commit c r || any_names_commit c rs

  abbrev pub is_replacement : Reference Hash → Bool
  is_replacement r = has_prefix (codes "refs/") r.name && has_prefix (codes "refs/replace/") r.name

  is_seen-append :
      (c : Hash) (hs ks : List Hash) → is_seen c (hs ++ ks) ≡ (is_seen c hs || is_seen c ks)
  unfolding is_seen
  is_seen-append c [] ks = refl
  is_seen-append c (h ∷ hs) ks = ground (arith, is_seen-append c hs ks)

  seen-roots_of :
      (c : Hash) (h : Hash) (found : Option Hash)
      → peel h ≡ ok found
      → is_seen c (roots_of found) ≡ leads_to c (ok h)
  unfolding is_seen
  seen-roots_of c h none q = rw (leads_to, q) refl
  seen-roots_of c h (some k) q = rw (leads_to, q) (ground arith)

  peeled_roots_lem :
      (c : Hash) (h : Hash) {hs : List Hash}
      → peeled_roots peel h ≡ ok hs
      → is_seen c hs ≡ leads_to c (ok h)
  unfolding peeled_roots
  peeled_roots_lem c h p = elim (Result-cases (peel h)) [
    | inl (found, q) ↦ cc (rw (peeled_roots, q) at p, seen-roots_of c h found q)
    | inr (x, q) ↦ absurd (cc (rw (peeled_roots, q) at p))
  ]

  resolved_roots_lem :
      (c : Hash) (resolved : Result Hash) {hs : List Hash}
      → resolved >>= peeled_roots peel ≡ ok hs
      → is_seen c hs ≡ leads_to c resolved
  resolved_roots_lem c (ok h) p = peeled_roots_lem c h p
  resolved_roots_lem c (err x) p = absurd (cc p)

  reference_roots_plain :
      (r : Reference Hash) {hs : List Hash}
      → reference_roots peel r ≡ ok hs
      → is_replacement r ≡ false
  unfolding reference_roots
  reference_roots_plain r p = ground arith

  reference_roots_lem :
      (c : Hash) (r : Reference Hash) {hs : List Hash}
      → reference_roots peel r ≡ ok hs
      → (is_seen c hs ≡ names_commit c r)
  unfolding reference_roots is_seen
  reference_roots_lem c r {hs} p = ground (arith, resolved_roots_lem c r.resolved {hs = hs})

  head_roots_lem :
      (c : Hash) (head : Result Hash) {hs : List Hash}
      → head_roots peel head ≡ ok hs
      → is_seen c hs ≡ leads_to c head
  unfolding head_roots is_seen
  head_roots_lem c (ok h) p = elim (Result-cases (peel h)) [
    | inl (found, q) ↦ cc (rw q at p, seen-roots_of c h found q)
    | inr (x, q) ↦ absurd (cc (rw q at p))
  ]
  head_roots_lem c (err x) p = ground arith

  -- What the loop returns, where it does.
  Found : List (Reference Hash) → Error → List Hash → List Hash → Type 0
  Found rs stop before roots =
      (is_eof stop ≡ true)
      × All (λ r. is_replacement r ≡ false) rs
      × ((c : Hash) → is_seen c roots ≡ (is_seen c before || any_names_commit c rs))

  roots_loop-Found :
      (rs : List (Reference Hash)) (stop : Error) (before : List Hash) {roots : List Hash}
      → roots_loop peel rs stop before ≡ ok roots
      → Found rs stop before roots
  unfolding roots_loop Found
  roots_loop-Found [] stop before p = (ground arith, tt, λ c. ground arith)
  roots_loop-Found (r ∷ rs) stop before {roots} p =
      let (found, q, more) = >>=-eq-ok (reference_roots peel r) _ p in
      let (ends, plain, all) = roots_loop-Found rs stop (before ++ found) more in
      (
        ends,
        (reference_roots_plain r q, plain),
        λ c. ground (arith, all c, reference_roots_lem c r q, is_seen-append c before found),
      )

  -- If the roots of a history are found, then the iterator of the references came to its end, none of
  -- them is a replacement, and the roots are the commits that `HEAD` or a reference under `refs/`
  -- leads to, and no other.
  pub history_roots_lem :
      (rs : List (Reference Hash)) (stop : Error) (head : Result Hash) {roots : List Hash}
      → history_roots peel (ok (rs, stop)) head ≡ ok roots
      → (is_eof stop ≡ true)
        × All (λ r. is_replacement r ≡ false) rs
        × ((c : Hash) → is_seen c roots ≡ (leads_to c head || any_names_commit c rs))
  unfolding history_roots Found
  history_roots_lem rs stop head {roots} p =
      let (first, q, more) = >>=-eq-ok (head_roots peel head) _ p in
      let (ends, plain, all) = roots_loop-Found rs stop first more in
      (ends, plain, λ c. cc (all c, head_roots_lem c head q))
