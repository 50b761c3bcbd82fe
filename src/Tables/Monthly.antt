-- ===== src/Tables/Monthly.antt =====
-- The rows of the monthly table: `printMonthly` of history.go with a writer that makes no error.
use git_spdx.Common.{
  ℕ, ◌≡◌, ◌⊎◌, inl, inr, refl, sym, ap, ◌∙◌, Option, none, some, List, [], ◌∷◌, ◌++◌, map, Bool,
  Bytes, codes, equal, equal_refl, bytes_eq, append-nil, Error, append_assoc, Lacks, All,
  All-weaken, All-zip, Bool-cases, arith,
}
use git_spdx.Common.Count.{count_if}
use git_spdx.Common.Sort.{
  IsChain, IsOrdered-IsChain, All-sort_by, sort_by, sort_by-IsOrdered, count_if-sort_by,
}
use git_spdx.Common.Dict
use git_spdx.Common.Dict.{Dict}
use git_spdx.CatFile.Decimal.{decimal}
use git_spdx.History.{split}
use git_spdx.Scan.{is_before, sort_strings}
use git_spdx.Tree.{and_then}
use git_spdx.Log.{HistoryTotals, entry, no_totals}
use git_spdx.Tables.{keys, month_head, month_numbers, month_row, write_rows, print_monthly}
use git_spdx.Tables.Counted.{is_before_asym, TextBefore, not_before}
use mathlib.Core.Path.{subst}

-- A writer that keeps the rows.
abbrev pub keep_row : List Bytes → List (List Bytes) → List (List Bytes) × Option Error
keep_row row rows = (rows ++ (row ∷ []), none)

abbrev pub done : List (List Bytes) → List (List Bytes) × Option Error
done rows = (rows, none)

write_rows-keep_row :
    (months : Dict Bytes HistoryTotals) (ks : List Bytes) (rows : List (List Bytes))
    → write_rows keep_row months ks rows ≡ (rows ++ map (month_row months) ks, none)
unfolding write_rows and_then
write_rows-keep_row months [] rows = ap done (sym (append-nil rows))
write_rows-keep_row months (k ∷ ks) rows =
    write_rows-keep_row months ks _
    ∙ ap done (append_assoc rows (month_row months k ∷ []) (map (month_row months) ks))

-- A line of the table: what was counted for a month and a group.
pub record MonthLine : Type 0 where
  pub month : Bytes
  pub group : Bytes
  pub totals : HistoryTotals

abbrev pub key_of : MonthLine → Bytes
key_of l = l.month ++ b',' ∷ l.group

abbrev pub title : List Bytes
title =
    codes "month"
    ∷ codes "group"
    ∷ codes "commits"
    ∷ codes "expression_changes"
    ∷ codes "file_additions"
    ∷ codes "file_deletions"
    ∷ codes "incomplete"
    ∷ codes "spdx_added"
    ∷ codes "spdx_removed"
    ∷ []

abbrev pub cells : MonthLine → List Bytes
cells l =
    l.month
    ∷ l.group
    ∷ decimal l.totals.commits
    ∷ decimal l.totals.expressions
    ∷ decimal l.totals.additions
    ∷ decimal l.totals.deletions
    ∷ decimal l.totals.incomplete
    ∷ decimal l.totals.spdx_added
    ∷ decimal l.totals.spdx_removed
    ∷ []

-- A key is a month and a group with a comma between them, and has no other comma.
abbrev pub IsKey : Bytes → Type 0
IsKey k =
    (month : Bytes) × (group : Bytes) × (k ≡ month ++ b',' ∷ group)
    × Lacks b',' month
    × Lacks b',' group

-- The line stands behind the line's key.
abbrev pub IsLine : Dict Bytes HistoryTotals → MonthLine → Type 0
IsLine months l = Dict.lookup (key_of l) months ≡ some l.totals

-- The key of a line is not behind that of the next one.
abbrev pub NotBehind : MonthLine → MonthLine → Type 0
NotBehind l l' = (key_of l ≡ key_of l') ⊎ TextBefore (key_of l) (key_of l')

split-Lacks : (d : ℕ) (s : Bytes) → Lacks d s → split d s ≡ s ∷ []
unfolding split
split-Lacks d [] h = refl
split-Lacks d (b ∷ s) h = rw (split, split-Lacks d s h.1) (ground arith)

split-append :
    (d : ℕ) (s rest : Bytes) → Lacks d s → Lacks d rest → split d (s ++ d ∷ rest) ≡ s ∷ rest ∷ []
unfolding split
split-append d [] rest h g = rw (split, split-Lacks d rest g) (ground arith)
split-append d (b ∷ s) rest h g = rw (split, split-append d s rest h.1 g) (ground arith)

month_row-cells :
    (months : Dict Bytes HistoryTotals) (l : MonthLine)
    → IsLine months l
    → Lacks b',' l.month
    → Lacks b',' l.group
    → month_row months (key_of l) ≡ cells l
unfolding month_row
month_row-cells months l found m g =
    ap (λ words. words ++ map decimal (month_numbers (entry (key_of l) months)))
      (split-append b',' l.month l.group m g)
    ∙ ap (λ t. l.month ∷ l.group ∷ map decimal (month_numbers t))
        (ap (λ o. elim o [ some t ↦ t | none ↦ no_totals ]) found)

-- What is known of a key of the map.
abbrev Known : Dict Bytes HistoryTotals → Bytes → Type 0
Known months k = (l : MonthLine) × (key_of l ≡ k) × IsLine months l × (month_row months k ≡ cells l)

IsKey→Known :
    (months : Dict Bytes HistoryTotals) (k : Bytes)
    → IsKey k
    → (t : HistoryTotals) × (Dict.lookup k months ≡ some t)
    → Known months k
IsKey→Known months k (m, g, same, no_m, no_g) (t, found) =
    let l : MonthLine = record { month = m; group = g; totals = t } in
    let is_line : IsLine months l = ap (λ x. Dict.lookup x months) (sym same) ∙ found in
    (l, sym same, is_line, ap (month_row months) same ∙ month_row-cells months l is_line no_m no_g)

keys_found :
    (months : Dict Bytes HistoryTotals)
    → All (λ k. (t : HistoryTotals) × (Dict.lookup k months ≡ some t)) (keys months)
unfolding Dict.lookup
keys_found [] = tt
keys_found ((j, t) ∷ months) = (
  (t, rw (equal_refl j) refl),
  All-weaken _ _
      (λ k (u, found). elim (Bool-cases (equal j k)) [
        | inl same ↦ (t, rw same refl)
        | inr other ↦ (u, rw other found)
      ])
      (keys months) (keys_found months),
)

-- The lines of keys.
lines_of :
    (months : Dict Bytes HistoryTotals) (ks : List Bytes)
    → All (Known months) ks
    → (ls : List MonthLine) × (map key_of ls ≡ ks)
      × All (IsLine months) ls
      × (map (month_row months) ks ≡ map cells ls)
lines_of months [] h = ([], refl, tt, refl)
lines_of months (k ∷ ks) ((l, same, is_line, row), h) =
    let (ls, sames, are_lines, rows) = lines_of months ks h in
    (l ∷ ls, cc (same, sames), (is_line, are_lines), cc (row, rows))

IsChain-map :
    (ls : List MonthLine)
    → IsChain (λ a b. (a ≡ b) ⊎ TextBefore a b) (map key_of ls)
    → IsChain NotBehind ls
IsChain-map [] h = tt
IsChain-map (l ∷ []) h = tt
IsChain-map (l ∷ l' ∷ ls) h = (h.0, IsChain-map (l' ∷ ls) h.1)

sorted_keys-IsChain :
    (ks : List Bytes) → IsChain (λ a b. (a ≡ b) ⊎ TextBefore a b) (sort_by is_before ks)
sorted_keys-IsChain ks =
    IsOrdered-IsChain is_before _ not_before _ (sort_by-IsOrdered is_before is_before_asym ks)

-- The keys of a map.
abbrev pub names : Dict Bytes HistoryTotals → List Bytes
names months = map (λ e. e.0) months

keys-names : (months : Dict Bytes HistoryTotals) → keys months ≡ names months
keys-names [] = refl
keys-names ((key, t) ∷ months) = ap (◌∷◌ key) (keys-names months)

-- Where no write fails and each key is a month and a group without a comma in them, the table has the
-- nine titles and then one line for each key of the map: the month, the group and the counts of commits,
-- expressions, additions, deletions, incomplete changes and added and removed declarations that the map
-- has for them. The keys of the lines come in the order of their texts.
pub print_monthly_lem :
    (months : Dict Bytes HistoryTotals)
    → All IsKey (names months)
    → (ls : List MonthLine) × (print_monthly keep_row done months [] ≡ (title ∷ map cells ls, none))
      × All (IsLine months) ls
      × IsChain NotBehind ls
      × ((p : Bytes → Bool) → count_if p (map key_of ls) ≡ count_if p (names months))
unfolding print_monthly and_then sort_strings
print_monthly_lem months are_keys =
    let ks = sort_by is_before (keys months) in
    let known : All (Known months) ks = All-sort_by is_before (Known months) (keys months) (
      All-zip _ _ _ (IsKey→Known months) (keys months)
        (subst (All IsKey) (sym (keys-names months)) are_keys) (keys_found months)) in
    let (ls, same, are_lines, rows) = lines_of months ks known in
    (
      ls,
      ap (λ r. and_then r done) (write_rows-keep_row months ks (month_head ∷ []))
          ∙ ap (λ rest. done (title ∷ rest)) rows,
      are_lines,
      IsChain-map ls (subst (IsChain _) (sym same) (sorted_keys-IsChain (keys months))),
      λ p.
          ap (count_if p) same
          ∙ count_if-sort_by is_before p (keys months)
          ∙ ap (count_if p) (keys-names months),
    )
