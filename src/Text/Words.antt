-- ===== src/Text/Words.antt =====
-- `Fields` on printable words.
use git_spdx.Common.{
  ℕ, ◌≤◌, ◌<◌, length, ◌≡◌, refl, sym, ap, ◌∙◌, List, [], ◌∷◌, ◌++◌, Bytes, All, All-append, Lacks,
  arith, append_assoc, append-nil,
}
use git_spdx.Text.{space_len, flush, fields_from, fields}

-- Printable ASCII bytes, no blank among them.
abbrev pub IsPrintable : ℕ → Type 0
IsPrintable b = (33 ≤ b) × (b ≤ 126)

abbrev pub IsWord : Bytes → Type 0
IsWord w = (0 < length w) × All IsPrintable w

abbrev pub spaced : List Bytes → Bytes
spaced [] = []
spaced (w ∷ []) = w
spaced (w ∷ v ∷ ws) = w ++ b' ' ∷ spaced (v ∷ ws)

pub space_len_printable : (b : ℕ) (bs : Bytes) → IsPrintable b → space_len (b ∷ bs) ≡ 0
unfolding space_len
space_len_printable b [] h = ground arith
space_len_printable b (c ∷ []) h = ground arith
space_len_printable b (c ∷ d ∷ bs) h = ground arith

pub space_len_blank : (bs : Bytes) → space_len (b' ' ∷ bs) ≡ 1
unfolding space_len
space_len_blank [] = refl
space_len_blank (c ∷ []) = refl
space_len_blank (c ∷ d ∷ bs) = refl

fields_from_word :
    (w word rest : Bytes)
    → All IsPrintable w
    → fields_from 0 word (w ++ rest) ≡ fields_from 0 (word ++ w) rest
unfolding fields_from
fields_from_word [] word rest h = ap (λ x. fields_from 0 x rest) (sym (append-nil word))
fields_from_word (b ∷ w) word rest h =
    rw (fields_from, space_len_printable b (w ++ rest) h.0)
      (fields_from_word w (word ++ (b ∷ [])) rest h.1 ∙ rw append_assoc)

fields_from_blank :
    (word rest : Bytes) → fields_from 0 word (b' ' ∷ rest) ≡ flush word (fields_from 0 [] rest)
unfolding fields_from
fields_from_blank word rest = rw (fields_from, space_len_blank rest)

flush_word : (w : Bytes) (rest : List Bytes) → 0 < length w → flush w rest ≡ w ∷ rest
flush_word [] rest h = absurd (omega arith)
flush_word (b ∷ w) rest h = refl

-- The fields of words that are set apart by blanks are the words.
pub fields-spaced : (ws : List Bytes) → All IsWord ws → fields (spaced ws) ≡ ws
unfolding fields
fields-spaced [] h = unfold fields_from in refl
fields-spaced (w ∷ []) h =
    ap (fields_from 0 []) (sym (append-nil w))
    ∙ fields_from_word w [] [] h.0.1
    ∙ unfold fields_from in flush_word w [] h.0.0
fields-spaced (w ∷ v ∷ ws) h =
    fields_from_word w [] (b' ' ∷ spaced (v ∷ ws)) h.0.1
    ∙ fields_from_blank w (spaced (v ∷ ws))
    ∙ flush_word w (fields_from 0 [] (spaced (v ∷ ws))) h.0.0
    ∙ ap (◌∷◌ w) (fields-spaced (v ∷ ws) h.1)

printable-Lacks : (d : ℕ) (w : Bytes) → d < b' ' → All IsPrintable w → Lacks d w
printable-Lacks d [] f h = tt
printable-Lacks d (b ∷ w) f h = (omega arith, printable-Lacks d w f h.1)

-- No control character stands among words.
pub spaced-Lacks : (d : ℕ) (ws : List Bytes) → d < b' ' → All IsWord ws → Lacks d (spaced ws)
spaced-Lacks d [] f h = tt
spaced-Lacks d (w ∷ []) f h = printable-Lacks d w f h.0.1
spaced-Lacks d (w ∷ v ∷ ws) f h =
    All-append _ w _ (printable-Lacks d w f h.0.1) (omega arith, spaced-Lacks d (v ∷ ws) f h.1)
