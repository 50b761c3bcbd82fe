-- ===== src/Text/Trim.antt =====
-- `strings.TrimSpace` on printable words with blanks between them.
use git_spdx.Common.{
  ℕ, ◌<◌, length, ◌≡◌, refl, ap, ◌∙◌, false, List, [], ◌∷◌, ◌++◌, Bytes, All, arith, append_assoc,
  append-nil,
}
use git_spdx.Text.{space_len, trim_left_from, trim_left, is_blank, trim_right, trim_space}
use git_spdx.Text.Words.{IsPrintable, IsWord, spaced, space_len_printable, space_len_blank}

trim_left_printable : (b : ℕ) (bs : Bytes) → IsPrintable b → trim_left (b ∷ bs) ≡ b ∷ bs
unfolding trim_left trim_left_from
trim_left_printable b bs h = rw (trim_left_from, space_len_printable b bs h)

is_blank_printable : (b : ℕ) (bs : Bytes) → IsPrintable b → is_blank (b ∷ bs) ≡ false
unfolding is_blank
is_blank_printable b bs h = rw (is_blank, trim_left_printable b bs h)

is_blank_blank : (b : ℕ) (bs : Bytes) → IsPrintable b → is_blank (b' ' ∷ b ∷ bs) ≡ false
unfolding is_blank trim_left trim_left_from
is_blank_blank b bs h =
    rw (is_blank, trim_left_from, space_len_blank (b ∷ bs), space_len_printable b bs h)

trim_right_word :
    (w rest : Bytes) → All IsPrintable w → trim_right (w ++ rest) ≡ w ++ trim_right rest
unfolding trim_right
trim_right_word [] rest h = refl
trim_right_word (b ∷ w) rest h =
    rw (trim_right, is_blank_printable b (w ++ rest) h.0, trim_right_word w rest h.1)

trim_right_blank :
    (v : Bytes) (ws : List Bytes) (rest : Bytes)
    → IsWord v
    → trim_right (b' ' ∷ spaced (v ∷ ws) ++ rest) ≡ b' ' ∷ trim_right (spaced (v ∷ ws) ++ rest)
unfolding trim_right
trim_right_blank [] ws rest h = absurd (omega arith)
trim_right_blank (b ∷ v) [] rest h = rw (trim_right, is_blank_blank b (v ++ rest) h.1.0)
trim_right_blank (b ∷ v) (u ∷ us) rest h = rw (trim_right, is_blank_blank b _ h.1.0)

trim_right_newline : trim_right (b'\n' ∷ []) ≡ []
unfolding trim_right is_blank trim_left trim_left_from space_len
trim_right_newline = refl

trim_right-spaced :
    (ws : List Bytes) → All IsWord ws → trim_right (spaced ws ++ (b'\n' ∷ [])) ≡ spaced ws
trim_right-spaced [] h = trim_right_newline
trim_right-spaced (w ∷ []) h =
    trim_right_word w (b'\n' ∷ []) h.0.1 ∙ ap (◌++◌ w) trim_right_newline ∙ append-nil w
trim_right-spaced (w ∷ v ∷ ws) h =
    ap trim_right (append_assoc w (b' ' ∷ spaced (v ∷ ws)) (b'\n' ∷ []))
    ∙ trim_right_word w _ h.0.1
    ∙ ap (◌++◌ w) (trim_right_blank v ws (b'\n' ∷ []) h.1.0)
    ∙ ap (λ s. w ++ b' ' ∷ s) (trim_right-spaced (v ∷ ws) h.1)

trim_left-spaced :
    (ws : List Bytes) (rest : Bytes)
    → All IsWord ws
    → 0 < length ws
    → trim_left (spaced ws ++ rest) ≡ spaced ws ++ rest
trim_left-spaced [] rest h f = absurd (omega arith)
trim_left-spaced ([] ∷ ws) rest h f = absurd (omega arith)
trim_left-spaced ((b ∷ w) ∷ []) rest h f = trim_left_printable b (w ++ rest) h.0.1.0
trim_left-spaced ((b ∷ w) ∷ v ∷ ws) rest h f = trim_left_printable b _ h.0.1.0

-- A line of words: the newline is trimmed off, and nothing else.
pub trim_space-spaced :
    (ws : List Bytes)
    → All IsWord ws
    → 0 < length ws
    → trim_space (spaced ws ++ (b'\n' ∷ [])) ≡ spaced ws
unfolding trim_space
trim_space-spaced ws h f =
    ap trim_right (trim_left-spaced ws (b'\n' ∷ []) h f) ∙ trim_right-spaced ws h
