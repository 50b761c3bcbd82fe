-- ===== src/Common/Errors.antt =====
-- Go's `(value, error)` results, and the errors that the program's parts tell apart.
use Prim.Native.Nat.{ℕ}
use mathlib.Core.Path.{◌≡◌, refl}
use mathlib.Core.List.{List}
use mathlib.Core.Logic.{◌⊎◌, inl, inr}

-- `other n` is an error of code outside the repository, told apart by a number. `panicked` and
-- `out_of_fuel` are no Go errors: a run-time panic, and a model's loop that used up its fuel.
pub data Error : Type 0 where
  eof unexpected_eof buffer_full line_too_long varint_overflow panicked out_of_fuel : Error
  invalid_oid invalid_hex invalid_change bad_size bad_header : List ℕ → Error
  field_too_large : ℕ → Error
  no_tree_header empty_filename not_found cyclic_tag replacement_ref : Error
  reference_not_found : Error
  wrong_kind unsupported_mode size_changed size_mismatch : Error
  unsupported_environment unsupported_file : Error
  bad_backend bad_limits bad_buffer bad_batch bad_group bad_combination : Error
  -- Go's `%w`: an error with a message in front of it.
  wrapped : Error → Error
  other : ℕ → Error

-- An error comes with no value that a caller may use.
pub data Result {κ} (V : Type κ) : Type κ where
  err : Error → Result V
  ok : V → Result V

-- `if err != nil { return …, err }`
infixl 5 ◌>>=◌
abbrev pub ◌>>=◌ {κ μ} : {V : Type κ} {W : Type μ} → Result V → (V → Result W) → Result W
◌>>=◌ r next = elim r [ err e ↦ err e | ok v ↦ next v ]

-- A chain that succeeds has a first step that succeeds.
pub >>=-eq-ok {κ μ} :
    {V : Type κ} {W : Type μ} (r : Result V) (next : V → Result W) {w : W}
    → r >>= next ≡ ok w
    → (v : V) × (r ≡ ok v) × (next v ≡ ok w)
>>=-eq-ok (err e) next chain = cc
>>=-eq-ok (ok v) next chain = (v, refl, chain)

pub Result-cases {ℓ} :
    {A : Type ℓ} (r : Result A) → ((a : A) × (r ≡ ok a)) ⊎ ((e : Error) × (r ≡ err e))
Result-cases (ok a) = inl (a, refl)
Result-cases (err e) = inr (e, refl)
