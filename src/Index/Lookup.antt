-- ===== src/Index/Lookup.antt =====
-- What a lookup finds after a number of `put`s, whatever their order.
use git_spdx.Common.{
  ◌≡◌, ◌⊎◌, refl, ◌∙◌, Bool, true, false, not, ◌&&◌, ◌||◌, none, List, [], ◌∷◌, if◌then◌else◌,
  Bytes, equal, equal_iff, bytes_eq, arith, inl, inr, Bool-cases, Result-cases, Error, ok, err,
}
use git_spdx.Common.Dict
use git_spdx.Common.Dict.{Dict, lookup-insert}
use git_spdx.Oid.{ObjectId, parse_oid}
use git_spdx.Index.{
  Index, BlobResult, empty_result, new_index, is_implicit, get, put, lookup, zero_oid,
  zero_oid_sha256,
}
use git_spdx.Index.Interning.{IsInterned, intern_same, put-IsInterned}
use mathlib.Core.List.{foldl}

-- What `put` writes, where it writes.
put-blobs :
    (x : Index) (oid : Bytes) (r : BlobResult) (key : ObjectId)
    → IsInterned x.interned
    → parse_oid oid ≡ ok key
    → (put x oid r).blobs ≡ (if is_implicit r then x.blobs else Dict.insert key r x.blobs)
put-blobs x oid r key h p = elim (Bool-cases (is_implicit r)) [
  | inl i ↦ unfold put in rw (put, i)
  | inr i ↦ unfold put in rw (put, i) (rw p (rw (intern_same r.expressions x.interned h).0))
]

-- A result that is not written is the empty one.
is_implicit→eq : (r : BlobResult) → is_implicit r ≡ true → r ≡ empty_result
unfolding is_implicit
is_implicit→eq r h = ground arith

-- `get` after `put`: the stored result at the same object, the old answer elsewhere.
pub get-put :
    (x : Index) (oid oid' : Bytes) (r : BlobResult) (key key' : ObjectId)
    → IsInterned x.interned
    → parse_oid oid ≡ ok key
    → parse_oid oid' ≡ ok key'
    → get (put x oid r) oid'
      ≡ (if not (is_implicit r) && equal key key' then (r, true) else get x oid')
unfolding get
get-put x oid oid' r key key' h p q =
    ground (arith, put-blobs x oid r key h p, lookup-insert key key' r x.blobs)

-- A text names a blob: it is an object ID, and not the null ID of an absent side.
abbrev pub Names : Bytes → ObjectId → Type 0
Names oid key =
    (parse_oid oid ≡ ok key) × (equal oid zero_oid ≡ false) × (equal oid zero_oid_sha256 ≡ false)

-- `lookup` is `get` with the empty result where there is none.
lookup-Names :
    (x : Index) (oid : Bytes) (key : ObjectId)
    → Names oid key
    → lookup x oid ≡ (if (get x oid).1 then (get x oid).0 else empty_result)
unfolding lookup parse_oid
lookup-Names x oid key n = ground arith

get-put_invalid :
    (x : Index) (oid oid' : Bytes) (r : BlobResult) (e : Error)
    → parse_oid oid ≡ err e
    → get (put x oid r) oid' ≡ get x oid'
unfolding get put
get-put_invalid x oid oid' r e p = ground arith

-- The text names the object.
abbrev pub names : ObjectId → Bytes → Bool
names key oid = elim (parse_oid oid) [ ok k ↦ equal k key | err e ↦ false ]

abbrev pub any_names : ObjectId → List Bytes → Bool
any_names key [] = false
any_names key (oid ∷ oids) = names key oid || any_names key oids

-- `f` gives one result for all texts of one object.
abbrev pub IsByObject : (Bytes → BlobResult) → Type 0
IsByObject f =
    (a b : Bytes) (key : ObjectId) → parse_oid a ≡ ok key → parse_oid b ≡ ok key → f a ≡ f b

-- The workers put the results of some blobs, in some order.
abbrev pub put_all : (Bytes → BlobResult) → Index → List Bytes → Index
put_all f x oids = foldl (λ y oid. put y oid (f oid)) x oids

module _ (f : Bytes → BlobResult) (same : IsByObject f) (oid' : Bytes) (key : ObjectId)
    (n : Names oid' key) where
  -- The lookup finds nothing, or what `f` says.
  abbrev IsConsistent : Index → Type 0
  IsConsistent x = (lookup x oid' ≡ empty_result) ⊎ (lookup x oid' ≡ f oid')

  lookup-put :
      (x : Index) (oid : Bytes)
      → IsInterned x.interned
      → IsConsistent x
      → lookup (put x oid (f oid)) oid' ≡ (if names key oid then f oid' else lookup x oid')
  lookup-put x oid h c = elim (Result-cases (parse_oid oid)) [
    | inr (e, p) ↦ ground (
      arith,
      lookup-Names (put x oid (f oid)) oid' key n,
      lookup-Names x oid' key n,
      get-put_invalid x oid oid' (f oid) e p,
    )
    | inl (k, p) ↦ ground (
      arith,
      lookup-Names (put x oid (f oid)) oid' key n,
      lookup-Names x oid' key n,
      get-put x oid oid' (f oid) k key h p n.0,
      is_implicit→eq (f oid),
      equal_iff k key,
      same oid oid' key,
    )
  ]

  lookup-put_all_from :
      (oids : List Bytes) (x : Index)
      → IsInterned x.interned
      → IsConsistent x
      → lookup (put_all f x oids) oid' ≡ (if any_names key oids then f oid' else lookup x oid')
  lookup-put_all_from [] x h c = refl
  lookup-put_all_from (oid ∷ oids) x h c = ground (
    arith,
    lookup-put x oid h c,
    lookup-put_all_from oids (put x oid (f oid)) (put-IsInterned x oid (f oid) h),
  )

  -- From a new index: the result of `f` where the object was put, else the empty result. So the
  -- order of the puts, and how often one is made, cannot be seen.
  pub lookup-put_all :
      (oids : List Bytes)
      → lookup (put_all f new_index oids) oid'
        ≡ (if any_names key oids then f oid' else empty_result)
  lookup-put_all oids =
      let nothing : lookup new_index oid' ≡ empty_result =
        lookup-Names new_index oid' key n ∙ unfold get Dict.lookup in rw (get, n.0) in
      rw (← nothing)
        (lookup-put_all_from oids new_index (λ k s e. unfold Dict.lookup in cc) (inl nothing))

-- An index that has taken an invalid object ID keeps its error.
pub put_failure :
    (x : Index) (oid : Bytes) (r : BlobResult) → (put x oid r).failure ≡ none → x.failure ≡ none
unfolding put
put_failure x oid r h = ground arith
