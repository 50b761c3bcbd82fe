-- ===== src/Oid/Parse.antt =====
-- What `parseOID` accepts, and when two texts name one object.
use git_spdx.Common.{
  ℕ, zero, suc, ◌+◌, ◌-◌, ◌*◌, ◌<◌, ◌≡◌, ◌⊎◌, inl, inr, refl, sym, ap, ◌∙◌, ◌&&◌, some, List, [],
  ◌∷◌, map, leb, if◌then◌else◌, Bytes, length, All, ok, arith, Option-cases, length-append,
  length-replicate, replicate, take, take-append_length, All-append,
}
use git_spdx.Oid.{hex_digit, hex_decode, ObjectId, fill, parse_oid}

-- The digit in lower case.
abbrev pub lower : ℕ → ℕ
lower c = if leb b'A' c && leb c b'Z' then c + 32 else c

hex_digit_range : (c v : ℕ) → hex_digit c ≡ some v → v < 16
unfolding hex_digit
hex_digit_range c v e = ground arith

hex_digit-lower : (a b v : ℕ) → hex_digit a ≡ some v → hex_digit b ≡ some v → lower a ≡ lower b
unfolding hex_digit
hex_digit-lower a b v e f = ground arith

-- The parts of a successful decoding of two digits and more.
hex_decode_cons :
    (a b : ℕ) (s bs : Bytes)
    → hex_decode (a ∷ b ∷ s) ≡ some bs
    → (h l : ℕ) × (more : Bytes) × (hex_digit a ≡ some h)
      × (hex_digit b ≡ some l)
      × (hex_decode s ≡ some more)
      × (bs ≡ (h * 16 + l) ∷ more)
unfolding hex_decode
hex_decode_cons a b s bs e = elim (Option-cases (hex_digit a)) [
  | inl x ↦ ground arith
  | inr (h, x) ↦ elim (Option-cases (hex_digit b)) [
    | inl y ↦ ground arith
    | inr (l, y) ↦ elim (Option-cases (hex_decode s)) [
      | inl z ↦ ground arith
      | inr (more, z) ↦ (h, l, more, x, y, z, ground arith)
    ]
  ]
]

hex_decode_shape :
    (s bs : Bytes) → hex_decode s ≡ some bs → (length s ≡ length bs * 2) × All (λ b. b < 256) bs
unfolding hex_decode
hex_decode_shape [] bs e = ground arith
hex_decode_shape (a ∷ []) bs e = cc
hex_decode_shape (a ∷ b ∷ rest) bs e =
    let (h, l, more, x, y, z, whole) = hex_decode_cons a b rest bs e in
    ground (arith, hex_digit_range a h x, hex_digit_range b l y, hex_decode_shape rest more z)

hex_decode-lower :
    (s t bs : Bytes) → hex_decode s ≡ some bs → hex_decode t ≡ some bs → map lower s ≡ map lower t
unfolding hex_decode
hex_decode-lower [] [] bs e f = refl
hex_decode-lower [] (c ∷ []) bs e f = cc
hex_decode-lower [] (c ∷ d ∷ t) bs e f =
    absurd (omega (arith, hex_decode_shape [] bs e, hex_decode_shape (c ∷ d ∷ t) bs f))
hex_decode-lower (a ∷ []) t bs e f = cc
hex_decode-lower (a ∷ b ∷ s) [] bs e f =
    absurd (omega (arith, hex_decode_shape (a ∷ b ∷ s) bs e, hex_decode_shape [] bs f))
hex_decode-lower (a ∷ b ∷ s) (c ∷ []) bs e f = cc
hex_decode-lower (a ∷ b ∷ s) (c ∷ d ∷ t) bs e f =
    let (h, l, more, ha, lb, dec, whole) = hex_decode_cons a b s bs e in
    let (h', l', more', hc, ld, dec', whole') = hex_decode_cons c d t bs f in
    let same : ◌≡◌ {A = List ℕ} ((h * 16 + l) ∷ more) ((h' * 16 + l') ∷ more') =
      sym whole ∙ whole' in
    ground (
      arith,
      hex_digit_range a h ha,
      hex_digit_range b l lb,
      hex_digit_range c h' hc,
      hex_digit_range d l' ld,
      hex_digit-lower a c h,
      hex_digit-lower b d l,
      hex_decode-lower s t more,
    )

parse_oid_ok :
    (s : Bytes) (k : ObjectId)
    → parse_oid s ≡ ok k
    → (bs : Bytes) × (hex_decode s ≡ some bs) × (k ≡ fill bs) × ((length s ≡ 40) ⊎ (length s ≡ 64))
unfolding parse_oid
parse_oid_ok s k e = elim (Option-cases (hex_decode s)) [
  | inl x ↦ ground arith
  | inr (bs, x) ↦ (bs, x, ground arith, ground arith)
]

All-zeros : (n : ℕ) → All (λ b. b < 256) (replicate n 0)
All-zeros zero = tt
All-zeros (suc n) = (omega arith, All-zeros n)

-- An accepted text has 40 or 64 digits, and fills an array of 32 bytes.
pub parse_oid_shape :
    (s : Bytes) (k : ObjectId)
    → parse_oid s ≡ ok k
    → ((length s ≡ 40) ⊎ (length s ≡ 64)) × (length k ≡ 32) × All (λ b. b < 256) k
unfolding parse_oid
parse_oid_shape s k e =
    let (bs, decoded, filled, size) = parse_oid_ok s k e in
    let (len, bytes) = hex_decode_shape s bs decoded in
    (
      size,
      rw filled (
          omega (
            arith,
            size,
            len,
            length-append bs (replicate (32 - length bs) 0),
            length-replicate {A = ℕ} (32 - length bs) 0,
          )),
      rw filled (All-append _ bs _ bytes (All-zeros (32 - length bs))),
    )

-- Two texts of one length name one object exactly when they differ in the case of letters only.
pub parse_oid-lower :
    (s t : Bytes) (k : ObjectId)
    → parse_oid s ≡ ok k
    → parse_oid t ≡ ok k
    → length s ≡ length t
    → map lower s ≡ map lower t
unfolding parse_oid
parse_oid-lower s t k e f same =
    let (bs, decoded, filled, size) = parse_oid_ok s k e in
    let (bs', decoded', filled', size') = parse_oid_ok t k f in
    let len : length bs ≡ length bs' =
      omega (arith, hex_decode_shape s bs decoded, hex_decode_shape t bs' decoded') in
    let front : bs ≡ bs' =
      sym (take-append_length bs _)
      ∙ ap (take (length bs)) (sym filled ∙ filled')
      ∙ rw len (take-append_length bs' _) in
    hex_decode-lower s t bs decoded (rw front decoded')
