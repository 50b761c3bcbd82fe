-- ===== src/CatFile/Listed.antt =====
-- The lines that `git cat-file --batch-check` writes, and what `listBlobs` makes of them.
use git_spdx.Common.{
  ℕ, zero, suc, ◌+◌, ◌≤◌, ◌<◌, ◌≡◌, refl, sym, ap, ◌∙◌, Bool, true, false, not, Option, none, some,
  List, [], ◌∷◌, ◌++◌, if◌then◌else◌, Bytes, codes, equal, length, length-append, All, Lacks,
  cut-append, ltb, Error, eof, Result, ok, err, arith, Bool-cases, Option-cases, inl, inr,
}
use git_spdx.Stream.{Stream, line, scan, scanned, drop_return, max_line}
use git_spdx.Text.{fields}
use git_spdx.Text.Words.{IsWord, spaced, fields-spaced, spaced-Lacks}
use git_spdx.Options.{natural}
use git_spdx.CatFile.{int64_limit}
use git_spdx.CatFile.Decimal.{decimal, decimal-IsWord, parse_int-decimal}
use git_spdx.Tree.{and_then}
use git_spdx.CatFile.Listing.{
  ListedBlob, listed_fields, end_listing, counted, list_line, list_loop, list_blobs,
}

-- An object of the store, of any kind.
pub record Entry : Type 0 where
  pub kind : Bytes
  pub oid : Bytes
  pub size : ℕ

abbrev row : Entry → List Bytes
row x = x.kind ∷ x.oid ∷ decimal x.size ∷ []

abbrev pub print_entries : List Entry → Bytes
print_entries [] = []
print_entries (x ∷ xs) = spaced (row x) ++ b'\n' ∷ print_entries xs

abbrev pub IsEntry : Entry → Type 0
IsEntry x =
    IsWord x.kind × IsWord x.oid × (x.size < int64_limit) × (length (spaced (row x)) < max_line)

-- The blobs among them.
abbrev pub blobs_of : List Entry → List ListedBlob
blobs_of [] = []
blobs_of (x ∷ xs) =
    if equal x.kind (codes "blob")
    then record { oid = x.oid; size = natural x.size } ∷ blobs_of xs
    else blobs_of xs

abbrev output : Bytes → Stream
output bytes = record { bytes = bytes; stop = eof }

drop_return-Lacks : (s : Bytes) → Lacks b'\r' s → drop_return s ≡ s
unfolding drop_return
drop_return-Lacks [] h = refl
drop_return-Lacks (b ∷ []) h = ground arith
drop_return-Lacks (b ∷ c ∷ s) h = ap (◌∷◌ b) (drop_return-Lacks (c ∷ s) h.1)

scan-line :
    (s rest : Bytes)
    → Lacks b'\n' s
    → Lacks b'\r' s
    → length s < max_line
    → scan (output (s ++ b'\n' ∷ rest)) ≡ line s (output rest)
unfolding scan scanned
scan-line s rest h g f =
    rw (scan, cut-append b'\n' s rest h) (ground (arith, drop_return-Lacks s g))

row-IsWord : (x : Entry) → IsEntry x → All IsWord (row x)
row-IsWord x h = (h.0, (h.1, (decimal-IsWord x.size, tt)))

scan-row :
    (x : Entry) (rest : Bytes)
    → IsEntry x
    → scan (output (spaced (row x) ++ b'\n' ∷ rest)) ≡ line (spaced (row x)) (output rest)
scan-row x rest h =
    scan-line (spaced (row x)) rest (spaced-Lacks b'\n' (row x) (omega arith) (row-IsWord x h))
      (spaced-Lacks b'\r' (row x) (omega arith) (row-IsWord x h)) h.3

abbrev said : Entry → Option ListedBlob
said x =
    if equal x.kind (codes "blob")
    then some (record { oid = x.oid; size = natural x.size })
    else none

listed_fields-row : (x : Entry) → IsEntry x → listed_fields (fields (spaced (row x))) ≡ ok (said x)
unfolding listed_fields
listed_fields-row x h =
    rw (fields-spaced (row x) (row-IsWord x h), listed_fields, parse_int-decimal x.size h.2)
      (ground arith)

print_entries_longer : (xs : List Entry) → length xs ≤ length (print_entries xs)
print_entries_longer [] = omega arith
print_entries_longer (x ∷ xs) =
    omega
      (arith, print_entries_longer xs, length-append (spaced (row x)) (b'\n' ∷ print_entries xs))

and_then-cong {ℓ} :
    {C : Type ℓ} (p : C × Option Error) (f g : C → C × Option Error)
    → ((c : C) → f c ≡ g c)
    → and_then p f ≡ and_then p g
unfolding and_then
and_then-cong (c, some e) f g h = refl
and_then-cong (c, none) f g h = h c

module _ {ℓ} {S : Type ℓ} (visit : S → ListedBlob → S × Option Error) where
  -- The visits of blobs, up to the first error.
  unfoldable pub visit_each : List ListedBlob → S × ℕ → (S × ℕ) × Option Error
  visit_each [] q = (q, none)
  visit_each (b ∷ bs) q = and_then (counted visit b q) (visit_each bs)

  list_line-row :
      (x : Entry) (xs : List Entry) (q : S × ℕ)
      → and_then (list_line visit (ok (said x)) q) (visit_each (blobs_of xs))
        ≡ visit_each (blobs_of (x ∷ xs)) q
  unfolding list_line visit_each and_then
  list_line-row x xs q = elim (Bool-cases (equal x.kind (codes "blob"))) [
    | inl is_blob ↦ rw is_blob refl
    | inr other ↦ rw other refl
  ]

  list_loop-print :
      (xs : List Entry) (fuel : ℕ) (q : S × ℕ)
      → length xs < fuel
      → All IsEntry xs
      → list_loop visit fuel q (output (print_entries xs)) ≡ visit_each (blobs_of xs) q
  unfolding list_loop visit_each
  list_loop-print [] zero q f h = absurd (omega arith)
  list_loop-print [] (suc fuel) q f h = unfold scan git_spdx.Common.cut in refl
  list_loop-print (x ∷ xs) zero q f h = absurd (omega arith)
  list_loop-print (x ∷ xs) (suc fuel) q f h =
      rw (list_loop, scan-row x (print_entries xs) h.0, listed_fields-row x h.0)
        (and_then-cong (list_line visit (ok (said x)) q) _ _
          (λ q'. list_loop-print xs fuel q' (omega arith) h.1))
      ∙ list_line-row x xs q

  pub list_blobs-visit_each :
      (xs : List Entry) (s : S) (wait_error : Option Error)
      → All IsEntry xs
      → list_blobs visit s (output (print_entries xs)) wait_error
        ≡ end_listing wait_error (visit_each (blobs_of xs) (s, 0))
  unfolding list_blobs
  list_blobs-visit_each xs s w h =
      ap (end_listing w) (list_loop-print xs _ (s, 0) (omega (arith, print_entries_longer xs)) h)

  -- A run of the callback over a list of blobs, from a state to a state: it takes `n` of them, and all
  -- of them unless it makes an error at the last one.
  pub data Visits : List ListedBlob → S → S → ℕ → Option Error → Type ℓ where
    over : {s : S} → Visits [] s s 0 none
    next :
        {b : ListedBlob} {bs : List ListedBlob} {s s' s'' : S} {n : ℕ} {failure : Option Error}
        → visit s b ≡ (s', none)
        → Visits bs s' s'' n failure
        → Visits (b ∷ bs) s s'' (suc n) failure
    failed :
        {b : ListedBlob} {bs : List ListedBlob} {s s' : S} {e : Error}
        → visit s b ≡ (s', some e)
        → Visits (b ∷ bs) s s' 1 (some e)

  -- The error of the callback, or else that of the process.
  abbrev pub first_error : Option Error → Option Error → Option Error
  first_error none wait_error = wait_error
  first_error (some e) wait_error = some e

  end_listing_lem :
      (s : S) (n : ℕ) (wait_error failure : Option Error)
      → end_listing {V = S × ℕ} wait_error ((s, 0 + n), failure)
        ≡ ((s, n), first_error failure wait_error)
  end_listing_lem s n w none = ground arith
  end_listing_lem s n w (some e) = ground arith

  visit_each-Visits :
      (bs : List ListedBlob) (s : S) (total : ℕ)
      → (s' : S) × (n : ℕ) × (failure : Option Error) × Visits bs s s' n failure
        × (visit_each bs (s, total) ≡ ((s', total + n), failure))
  unfolding visit_each counted and_then
  visit_each-Visits [] s total = (s, 0, none, over, ground arith)
  visit_each-Visits (b ∷ bs) s total =
      let (s', failure) = visit s b in
      let same : visit s b ≡ (s', failure) = refl in
      elim (Option-cases failure) [
        | inr (e, bad) ↦ (
          s',
          1,
          some e,
          failed (same ∙ ap (λ f. (s', f)) bad),
          rw (visit_each, counted, bad) refl,
        )
        | inl good ↦
            let (s'', n, later, visits, ends) = visit_each-Visits bs s' (total + 1) in
            (
              s'',
              suc n,
              later,
              next (same ∙ ap (λ f. (s', f)) good) visits,
              rw (visit_each, counted, good) (ends ∙ ground arith),
            )
      ]

  -- On the lines that git writes for the objects of a store, `listBlobs` runs the callback on the blobs
  -- among them, in order, up to its first error, and returns how many it has run on, the one with the
  -- error included. Without such an error it ends as the process does.
  pub list_blobs-print :
      (xs : List Entry) (s : S) (wait_error : Option Error)
      → All IsEntry xs
      → (s' : S) × (n : ℕ) × (failure : Option Error) × Visits (blobs_of xs) s s' n failure
        × (list_blobs visit s (output (print_entries xs)) wait_error
            ≡ ((s', n), first_error failure wait_error))
  list_blobs-print xs s w h =
      let (s', n, failure, visits, ends) = visit_each-Visits (blobs_of xs) s 0 in
      (
        s',
        n,
        failure,
        visits,
        list_blobs-visit_each xs s w h ∙ ap (end_listing w) ends ∙ end_listing_lem s' n w failure,
      )
