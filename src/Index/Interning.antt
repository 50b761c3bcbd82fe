-- ===== src/Index/Interning.antt =====
-- Interning changes no text: the table maps each string to an equal one.
use git_spdx.Common.{
  ◌≡◌, ◌↔◌, refl, ap, true, some, List, [], ◌∷◌, Bytes, equal_iff, bytes_eq, arith, inl, inr,
  Option-cases, Bool-cases, Result-cases, length, ◌==◌, ==_iff,
}
use git_spdx.Common.Dict
use git_spdx.Common.Dict.{Dict, lookup-insert}
use git_spdx.Oid.{parse_oid}
use git_spdx.Index.{Index, BlobResult, is_implicit, intern, put, same_places, equal_exprs}

-- Every entry of the table stands for its own key.
abbrev pub IsInterned : Dict Bytes Bytes → Type 0
IsInterned table = (k s : Bytes) → Dict.lookup k table ≡ some s → s ≡ k

insert-IsInterned :
    (table : Dict Bytes Bytes) (e : Bytes) → IsInterned table → IsInterned (Dict.insert e e table)
insert-IsInterned table e h k s found =
    ground (arith, lookup-insert e k e table, equal_iff e k, h k s)

pub intern_same :
    (es : List Bytes) (table : Dict Bytes Bytes)
    → IsInterned table
    → ((intern table es).0 ≡ es) × IsInterned (intern table es).1
unfolding intern
intern_same [] table h = (refl, h)
intern_same (e ∷ es) table h = elim (Option-cases (Dict.lookup e table)) [
  | inl fresh ↦
      let (same, kept) = intern_same es (Dict.insert e e table) (insert-IsInterned table e h) in
      rw (intern, fresh) (ap (◌∷◌ e) same, kept)
  | inr (s, found) ↦
      let (same, kept) = intern_same es table h in
      rw (intern, found) (rw (h e s found) (ap (◌∷◌ e) same), kept)
]

-- `put` keeps the table's invariant, and a new index has it.
pub put-IsInterned :
    (x : Index) (oid : Bytes) (r : BlobResult)
    → IsInterned x.interned
    → IsInterned (put x oid r).interned
unfolding put
put-IsInterned x oid r h = elim (Bool-cases (is_implicit r)) [
  | inl i ↦ rw (put, i) h
  | inr i ↦ elim (Result-cases (parse_oid oid)) [
    | inl (key, p) ↦ rw (put, i) (rw p (intern_same r.expressions x.interned h).1)
    | inr (e, p) ↦ rw (put, i) (rw p h)
  ]
]

same_places_iff : (a b : List Bytes) → length a ≡ length b → (same_places a b ≡ true) ↔ (a ≡ b)
unfolding same_places
same_places_iff [] [] h = ground arith
same_places_iff [] (y ∷ b) h = absurd (omega arith)
same_places_iff (x ∷ a) [] h = absurd (omega arith)
same_places_iff (x ∷ a) (y ∷ b) h = ground (arith, equal_iff x y, same_places_iff a b (omega arith))

-- `equalExprs` decides the equality of the lists.
pub equal_exprs_iff : (a b : List Bytes) → (equal_exprs a b ≡ true) ↔ (a ≡ b)
unfolding equal_exprs
equal_exprs_iff a b = elim (Bool-cases (length a == length b)) [
  | inl same ↦ rw same (same_places_iff a b ((==_iff (length a) (length b)).0 same))
  | inr differ ↦ (λ e. ground arith, λ e. ground (arith, ap length e))
]
