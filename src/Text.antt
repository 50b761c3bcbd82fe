-- ===== src/Text.antt =====
-- White space in byte strings: what the program uses of `strings.TrimSpace`, `TrimLeft` and `Fields`.
-- Texts are UTF-8, so the white space is that of Unicode.
pub mod Words
pub mod Trim
use git_spdx.Common.{
  ℕ, zero, suc, Bool, true, false, ◌&&◌, ◌||◌, List, [], ◌∷◌, ◌++◌, leb, ◌==◌, if◌then◌else◌, Bytes,
}

-- The number of bytes of the white space character in front, 0 where none stands there.
unfoldable pub space_len : Bytes → ℕ
space_len [] = 0
space_len (a ∷ []) = if (leb 9 a && leb a 13) || a == 32 then 1 else 0
space_len (a ∷ b ∷ []) =
    if (leb 9 a && leb a 13) || a == 32
    then 1
    else if a == 0xc2 && (b == 0x85 || b == 0xa0)
    then 2
    else 0
space_len (a ∷ b ∷ c ∷ rest) =
    if (leb 9 a && leb a 13) || a == 32
    then 1
    else if a == 0xc2 && (b == 0x85 || b == 0xa0)
    then 2
    else if a == 0xe1 && b == 0x9a && c == 0x80
    then 3
    else if a == 0xe2
        && b == 0x80
        && (leb 0x80 c && leb c 0x8a || c == 0xa8 || c == 0xa9 || c == 0xaf)
    then 3
    else if a == 0xe2 && b == 0x81 && c == 0x9f
    then 3
    else if a == 0xe3 && b == 0x80 && c == 0x80
    then 3
    else 0

-- `skip` bytes of a white space character are still to be passed.
unfoldable pub trim_left_from : ℕ → Bytes → Bytes
trim_left_from skip [] = []
trim_left_from (suc skip) (b ∷ bs) = trim_left_from skip bs
trim_left_from zero (b ∷ bs) = elim (space_len (b ∷ bs)) [
  | zero ↦ b ∷ bs
  | suc k ↦ trim_left_from k bs
]

unfoldable pub trim_left : Bytes → Bytes
unfolding trim_left_from
trim_left s = trim_left_from 0 s

-- `strings.TrimSpace(s) == ""`
unfoldable pub is_blank : Bytes → Bool
unfolding trim_left
is_blank s = elim (trim_left s) [ [] ↦ true | _ ↦ false ]

-- White space stands at the end where all that is left is white space.
unfoldable pub trim_right : Bytes → Bytes
trim_right [] = []
trim_right (b ∷ bs) = let rest = trim_right bs in if is_blank (b ∷ bs) then [] else b ∷ rest

unfoldable pub trim_space : Bytes → Bytes
trim_space s = trim_right (trim_left s)

-- `TrimLeft(s, "\n")`
unfoldable pub trim_newlines : Bytes → Bytes
trim_newlines [] = []
trim_newlines (b ∷ bs) = if b == b'\n' then trim_newlines bs else b ∷ bs

abbrev pub flush : Bytes → List Bytes → List Bytes
flush [] rest = rest
flush (b ∷ bs) rest = (b ∷ bs) ∷ rest

-- `Fields`: `word` is the field that is being read.
unfoldable pub fields_from : ℕ → Bytes → Bytes → List Bytes
fields_from skip word [] = flush word []
fields_from (suc skip) word (b ∷ bs) = fields_from skip word bs
fields_from zero word (b ∷ bs) = elim (space_len (b ∷ bs)) [
  | zero ↦ fields_from 0 (word ++ (b ∷ [])) bs
  | suc k ↦ flush word (fields_from k [] bs)
]

unfoldable pub fields : Bytes → List Bytes
fields s = fields_from 0 [] s
