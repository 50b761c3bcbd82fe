-- ===== src/CatFile/Decimal.antt =====
-- Decimal numbers, written and read.
use git_spdx.Common.{
  ℕ, zero, suc, ◌+◌, ◌-◌, ◌*◌, ◌/◌, ◌%◌, ◌<◌, ◌≤◌, ◌≡◌, refl, some, [], ◌∷◌, ◌++◌, ltb,
  if◌then◌else◌, Bytes, All, All-append, length, length-append, ok, arith,
}
use git_spdx.Text.Words.{IsPrintable, IsWord}
use git_spdx.Options.{natural}
use git_spdx.CatFile.{parse_digits, parse_natural, signed, parse_signed, parse_int, int64_limit}

-- The digits of a number, `k` more than one at most.
unfoldable pub digits : ℕ → ℕ → Bytes
digits zero n = (b'0' + n % 10) ∷ []
digits (suc k) n =
    let front = digits k (n / 10) in
    if ltb n 10 then (b'0' + n) ∷ [] else front ++ ((b'0' + n % 10) ∷ [])

-- A number of 64 bits has twenty digits at most.
unfoldable pub decimal : ℕ → Bytes
decimal n = digits 19 n

abbrev IsDigit : ℕ → Type 0
IsDigit b = (b'0' ≤ b) × (b ≤ b'9')

parse_digits-append :
    (n : ℕ) (s : Bytes) (d : ℕ) {m : ℕ}
    → parse_digits n s ≡ some m
    → d < 10
    → parse_digits n (s ++ ((b'0' + d) ∷ [])) ≡ some (m * 10 + d)
unfolding parse_digits
parse_digits-append n [] d e f = ground arith
parse_digits-append n (b ∷ s) d {m} e f =
    ground (arith, parse_digits-append (n * 10 + (b - b'0')) s d {m = m})

-- The numbers with `k` more than one digit are below it.
abbrev bound : ℕ → ℕ
bound zero = 10
bound (suc k) = 10 * bound k

parse_digits-digits : (k n : ℕ) → n < bound k → parse_digits 0 (digits k n) ≡ some n
unfolding parse_digits digits
parse_digits-digits zero n h = ground arith
parse_digits-digits (suc k) n h = ground (
  arith,
  parse_digits-digits k (n / 10),
  parse_digits-append 0 (digits k (n / 10)) (n % 10) {m = n / 10},
)

digits_end :
    (k m n : ℕ) → All IsDigit (digits k m) → All IsDigit (digits k m ++ ((b'0' + n % 10) ∷ []))
digits_end k m n h = All-append IsDigit (digits k m) _ h (omega arith)

digits_shape : (k n : ℕ) → All IsDigit (digits k n) × (0 < length (digits k n))
unfolding digits
digits_shape zero n = omega arith
digits_shape (suc k) n = ground (
  arith,
  digits_shape k (n / 10),
  digits_end k (n / 10) n,
  length-append (digits k (n / 10)) ((b'0' + n % 10) ∷ []),
)

parse_natural_digits : (s : Bytes) → 0 < length s → parse_natural s ≡ parse_digits 0 s
unfolding parse_natural
parse_natural_digits [] h = absurd (omega arith)
parse_natural_digits (b ∷ s) h = refl

parse_signed_digits :
    (s : Bytes) (n : ℕ)
    → All IsDigit s
    → 0 < length s
    → parse_digits 0 s ≡ some n
    → n < int64_limit
    → parse_signed s ≡ some (natural n)
unfolding parse_signed parse_natural signed
parse_signed_digits [] n d h e f = absurd (omega arith)
parse_signed_digits (b ∷ s) n d h e f = ground (arith, e)

-- A number of 64 bits is read from its digits.
pub parse_int-decimal : (n : ℕ) → n < int64_limit → parse_int (decimal n) ≡ ok (natural n)
unfolding parse_int decimal
parse_int-decimal n h = rw (
  parse_int,
  parse_signed_digits (digits 19 n) n (digits_shape 19 n).0 (digits_shape 19 n).1
      (parse_digits-digits 19 n (omega arith)) h,
)

IsDigit-IsPrintable : (s : Bytes) → All IsDigit s → All IsPrintable s
IsDigit-IsPrintable [] h = tt
IsDigit-IsPrintable (b ∷ s) h = (omega arith, IsDigit-IsPrintable s h.1)

pub decimal-IsWord : (n : ℕ) → IsWord (decimal n)
unfolding decimal
decimal-IsWord n = ((digits_shape 19 n).1, IsDigit-IsPrintable (digits 19 n) (digits_shape 19 n).0)
