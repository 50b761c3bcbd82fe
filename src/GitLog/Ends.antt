-- ===== src/GitLog/Ends.antt =====
-- `readChanges` comes to an end on every input.
use git_spdx.Common.{
  ℕ, zero, suc, ◌≤◌, ◌<◌, ◌≡◌, ◌≢◌, ◌⊎◌, refl, ap, some, List, [], ◌∷◌, Bytes, length, cut,
  cut_splits, Error, out_of_fuel, Result, ok, err, arith, length-append, Option-cases, Result-cases,
  inl, inr,
}
use git_spdx.Stream.{Stream, Chunk, found, ended, read_string}
use git_spdx.Text.{trim_newlines, fields}
use git_spdx.Change.{Change}
use git_spdx.GitLog.{
  no_change, field, read_header, set_fields, read_raw, Token, header, raw, none_of_these,
  token_kind, read_changes_loop, read_changes,
}

-- What is left behind a token is shorter, and ends as before; a failing read gets that end's error.
abbrev IsShorter : Stream → Chunk → Type 0
IsShorter r (found s r') = (length r'.bytes < length r.bytes) × (r'.stop ≡ r.stop)
IsShorter r (ended s e) = e ≡ r.stop

read_string-IsShorter : (d : ℕ) (r : Stream) → IsShorter r (read_string d r)
unfolding read_string
read_string-IsShorter d r = elim (Option-cases (cut d r.bytes)) [
  | inl e ↦ rw (read_string, e) refl
  | inr ((s, rest), e) ↦
      rw (read_string, e)
        (omega (arith, ap length (cut_splits d r.bytes s rest e), length-append s (d ∷ rest)), refl)
]

field_shorter :
    (r : Stream) {s : Bytes} {r' : Stream}
    → field r ≡ ok (s, r')
    → (length r'.bytes < length r.bytes) × (r'.stop ≡ r.stop)
unfolding field
field_shorter r {s} {r'} e = go (read_string 0 r) (read_string-IsShorter 0 r) e
  where
    go :
        (k : Chunk)
        → IsShorter r k
        → ◌≡◌ {A = Result (Bytes × Stream)}
            (elim k [ found t q ↦ ok (t, q) | ended t x ↦ err x ])
            (ok (s, r'))
        → (length r'.bytes < length r.bytes) × (r'.stop ≡ r.stop)
    go (found t q) h e = ground arith
    go (ended t x) h e = cc

field-ne-out_of_fuel : (r : Stream) → r.stop ≢ out_of_fuel → field r ≢ err out_of_fuel
unfolding field
field-ne-out_of_fuel r h e = go (read_string 0 r) (read_string-IsShorter 0 r) e
  where
    go :
        (k : Chunk)
        → IsShorter r k
        → ◌≡◌ {A = Result (Bytes × Stream)}
            (elim k [ found t q ↦ ok (t, q) | ended t x ↦ err x ])
            (err out_of_fuel)
        → ⊥
    go (found t q) h e = cc
    go (ended t x) k e = ground arith

-- What a step of the loop may answer, at the stream `r`.
abbrev IsStep : Stream → Result (Change × Stream) → Type 0
IsStep r (ok (c, r')) = (length r'.bytes ≤ length r.bytes) × (r'.stop ≡ r.stop)
IsStep r (err e) = e ≢ out_of_fuel

read_header-IsStep :
    (commit : Bytes) (c : Change) (r : Stream)
    → r.stop ≢ out_of_fuel
    → IsStep r (read_header commit c r)
unfolding read_header
read_header-IsStep commit c r h = elim (Result-cases (field r)) [
  | inr (x, e) ↦ rw e (λ z. ground (arith, field-ne-out_of_fuel r h))
  | inl ((date, r1), e) ↦ elim (Result-cases (field r1)) [
    | inr (x, f) ↦ rw e (rw f (λ z. ground (arith, field_shorter r e, field-ne-out_of_fuel r1)))
    | inl ((parents, r2), f) ↦ elim (Result-cases (field r2)) [
      | inr (x, g) ↦ rw e (
          rw f (
            rw g (λ z.
              ground (arith, field_shorter r e, field_shorter r1 f, field-ne-out_of_fuel r2))))
      | inl ((subject, r3), g) ↦
          rw e (
            rw f (rw g (ground (arith, field_shorter r e, field_shorter r1 f, field_shorter r2 g))))
    ]
  ]
]

set_fields-ne-out_of_fuel :
    (token : Bytes) (c : Change) (fs : List Bytes) → set_fields token c fs ≢ err out_of_fuel
unfolding set_fields
set_fields-ne-out_of_fuel token c (a ∷ b ∷ d ∷ f ∷ g ∷ []) e = ground arith
set_fields-ne-out_of_fuel token c _ e = cc

read_raw-IsStep :
    (token rest : Bytes) (c : Change) (r : Stream)
    → r.stop ≢ out_of_fuel
    → IsStep r (read_raw token rest c r)
unfolding read_raw
read_raw-IsStep token rest c r h = elim (Result-cases (set_fields token c (fields rest))) [
  | inr (x, e) ↦ rw e (λ z. ground (arith, set_fields-ne-out_of_fuel token c (fields rest)))
  | inl (c', e) ↦ elim (Result-cases (field r)) [
    | inr (x, f) ↦ rw e (rw f (λ z. ground (arith, field-ne-out_of_fuel r h)))
    | inl ((path, r'), f) ↦ rw e (rw f (ground (arith, field_shorter r f)))
  ]
]

Chunk-cases :
    (k : Chunk)
    → ((t : Bytes) × (r : Stream) × (k ≡ found t r)) ⊎ ((t : Bytes) × (e : Error) × (k ≡ ended t e))
Chunk-cases (found t r) = inl (t, r, refl)
Chunk-cases (ended t e) = inr (t, e, refl)

Token-cases :
    (t : Token) → (t ≡ none_of_these) ⊎ ((b : Bytes) × (t ≡ header b)) ⊎ ((b : Bytes) × (t ≡ raw b))
Token-cases none_of_these = inl refl
Token-cases (header b) = inr (inl (b, refl))
Token-cases (raw b) = inr (inr (b, refl))

module _ {ℓ} {S : Type ℓ} (visit : S → Change → S) where
  -- The loop ends on every stream that is shorter than its fuel.
  abbrev Ends : ℕ → Type ℓ
  Ends fuel =
      (c : Change) (s : S) (r : Stream)
      → length r.bytes < fuel
      → r.stop ≢ out_of_fuel
      → (read_changes_loop visit fuel c s r).1 ≢ some out_of_fuel

  Ends-token :
      (fuel : ℕ) (c : Change) (s : S) (r r' : Stream) (t : Bytes)
      → Ends fuel
      → read_string 0 r ≡ found t r'
      → length r'.bytes < fuel
      → r'.stop ≢ out_of_fuel
      → (read_changes_loop visit (suc fuel) c s r).1 ≢ some out_of_fuel
  unfolding read_changes_loop
  Ends-token fuel c s r r' t ih e f h = elim (Token-cases (token_kind (trim_newlines t))) [
    | inl k ↦ rw (read_changes_loop, e) (rw k (ih c s r' f h))
    | inr (inl (b, k)) ↦
        let safe = read_header-IsStep b c r' h in
        elim (Result-cases (read_header b c r')) [
          | inl ((c', q), g) ↦
              let (shorter, same) = rw g at safe in
              rw (read_changes_loop, e)
                (rw k (rw g (ih c' s q (omega (arith, shorter)) (rw same h))))
          | inr (x, g) ↦
              let bad = rw g at safe in
              rw (read_changes_loop, e) (rw k (rw g (λ z. ground (arith, bad))))
        ]
    | inr (inr (b, k)) ↦
        let safe = read_raw-IsStep (trim_newlines t) b c r' h in
        elim (Result-cases (read_raw (trim_newlines t) b c r')) [
          | inl ((c', q), g) ↦
              let (shorter, same) = rw g at safe in
              rw (read_changes_loop, e)
                (rw k (rw g (ih c' (visit s c') q (omega (arith, shorter)) (rw same h))))
          | inr (x, g) ↦
              let bad = rw g at safe in
              rw (read_changes_loop, e) (rw k (rw g (λ z. ground (arith, bad))))
        ]
  ]

  read_changes_loop-Ends : (fuel : ℕ) → Ends fuel
  unfolding read_changes_loop
  read_changes_loop-Ends zero c s r f h = absurd (omega arith)
  read_changes_loop-Ends (suc fuel) c s r f h = elim (Chunk-cases (read_string 0 r)) [
    | inl (t, r', e) ↦
        let (shorter, same) = rw e at (read_string-IsShorter 0 r) in
        Ends-token fuel c s r r' t (read_changes_loop-Ends fuel) e (omega (arith, shorter))
          (rw same h)
    | inr (t, x, e) ↦
        let stopped = rw e at (read_string-IsShorter 0 r) in
        rw (read_changes_loop, e) (ground (arith, stopped))
  ]

  -- The rounds that `readChanges` is given are enough, for every input.
  pub read_changes-ne-out_of_fuel :
      (s : S) (r : Stream) → r.stop ≢ out_of_fuel → (read_changes visit s r).1 ≢ some out_of_fuel
  unfolding read_changes
  read_changes-ne-out_of_fuel s r h =
      read_changes_loop-Ends (suc (length r.bytes)) no_change s r (omega arith) h
