-- ===== src/Common/ByteText.antt =====
-- Go strings and byte slices as lists of byte values, with what the program uses of the packages
-- `bytes` and `strings`.
use Prim.Native.Nat.{ℕ}
use Prim.Native.Char.{code}
use Prim.Native.String.{String}
use mathlib.Core.Path.{◌≡◌, refl}
use mathlib.Core.Logic.{◌↔◌, ◌≢◌}
use mathlib.Core.Bool.{Bool, true, false, ◌&&◌, ◌||◌}
use mathlib.Core.Option.{Option, none, some}
use mathlib.Core.List.{List, [], ◌∷◌, ◌++◌}
use native.Mathlib.Omega.{arith}
use git_spdx.Common.Tests.{◌==◌, if◌then◌else◌, Eq}
use git_spdx.Common.Lists.{All}

abbrev pub Bytes : Type 0
Bytes = List ℕ

-- A text literal; the literals of the program are ASCII.
abbrev pub codes : String → Bytes
codes String.[] = []
codes (String.◌∷◌ c s) = code c ∷ codes s

-- `==` on strings, and `bytes.Equal`.
unfoldable pub equal : Bytes → Bytes → Bool
equal [] [] = true
equal [] (y ∷ ys) = false
equal (x ∷ xs) [] = false
equal (x ∷ xs) (y ∷ ys) = x == y && equal xs ys

pub equal_iff : (a b : Bytes) → (equal a b ≡ true) ↔ (a ≡ b)
unfolding equal
equal_iff [] [] = ground arith
equal_iff [] (y ∷ b) = ground arith
equal_iff (x ∷ a) [] = ground arith
equal_iff (x ∷ a) (y ∷ b) = ground (arith, equal_iff a b)

pub equal_refl : (a : Bytes) → equal a a ≡ true
equal_refl a = (equal_iff a a).1 refl

instance abbrev pub bytes_eq : Eq Bytes
bytes_eq = record { beq = equal; beq_iff = equal_iff }

-- The bytes before the first `d` and those behind it: `bytes.Cut` at one byte.
unfoldable pub cut : ℕ → Bytes → Option (Bytes × Bytes)
cut d [] = none
cut d (b ∷ bs) = elim (b == d) [
  | true ↦ some ([], bs)
  | false ↦ elim (cut d bs) [ none ↦ none | some (front, back) ↦ some (b ∷ front, back) ]
]

-- `bytes.IndexByte(s, d) >= 0`, and `strings.Contains` for a text of one byte.
unfoldable pub has_byte : ℕ → Bytes → Bool
has_byte d [] = false
has_byte d (b ∷ bs) = b == d || has_byte d bs

-- `strings.CutPrefix`: what follows the prefix, where it stands.
unfoldable pub cut_prefix : Bytes → Bytes → Option Bytes
cut_prefix [] s = some s
cut_prefix (p ∷ ps) [] = none
cut_prefix (p ∷ ps) (b ∷ bs) = let rest = cut_prefix ps bs in if p == b then rest else none

-- `d` does not stand in `s`.
abbrev pub Lacks : ℕ → Bytes → Type 0
Lacks d s = All (λ b. b ≢ d) s

pub cut-append : (d : ℕ) (s rest : Bytes) → Lacks d s → cut d (s ++ d ∷ rest) ≡ some (s, rest)
unfolding cut
cut-append d [] rest h = ground arith
cut-append d (b ∷ s) rest h = ground (arith, cut-append d s rest h.1)

pub cut-Lacks : (d : ℕ) (s : Bytes) → Lacks d s → cut d s ≡ none
unfolding cut
cut-Lacks d [] h = refl
cut-Lacks d (b ∷ s) h = ground (arith, cut-Lacks d s h.1)

-- A successful cut splits the text.
pub cut_splits :
    (d : ℕ) (s front back : Bytes) → cut d s ≡ some (front, back) → s ≡ front ++ d ∷ back
unfolding cut
cut_splits d [] front back e = cc
cut_splits d (b ∷ s) front back e = go (cut d s) refl (cut_splits d s)
  where
    go :
        (r : Option (Bytes × Bytes))
        → cut d s ≡ r
        → ((f k : Bytes) → cut d s ≡ some (f, k) → s ≡ f ++ d ∷ k)
        → b ∷ s ≡ front ++ d ∷ back
    go none r ih = ground arith
    go (some (f, k)) r ih = ground (arith, ih f k)

pub cut_prefix-append : (p s : Bytes) → cut_prefix p (p ++ s) ≡ some s
unfolding cut_prefix
cut_prefix-append [] s = refl
cut_prefix-append (b ∷ p) s = ground (arith, cut_prefix-append p s)
