-- ===== src/Extract/Markdown.antt =====
-- A rendered table, line by line.
use safe_shield.Extract.TableLines.{
  IsTableLine, IsPlain, bars-IsTableLine, rule_row-IsTableLine, copies-All, length-padded,
  width_of-le,
}
use safe_shield.Prelude.{
  ◌∙◌, is_empty, inr, inl, ℕ-cases, not, sym, ◌⊎◌, refl, keep-All, subst, keep, true-false, ◌-◌, [],
  zero, map, ap, codes, true, arith, All-keep, join, ◌≤◌, ◌≡◌, ◌∷◌, length, Text, All, suc, List,
  ◌++◌, ℕ,
}
use safe_shield.Extract.Characters.{
  markdown_rows, cell_text, clean, markdown_of, width_of, bar_row, is_filled, copies, padded,
  rule_row, table_to_markdown, filled_rows, Row,
}
use safe_shield.Extract.Lacking.{clean-Lacks, Lacks}

filled_length : (row : List Text) → is_filled row ≡ true → 1 ≤ length row
filled_length [] h = absurd (true-false (sym h))
filled_length (t ∷ ts) h = omega arith

cells-Lacks : (row : Row) → All (Lacks 10) (map (λ cell. clean (cell_text cell)) row)
cells-Lacks [] = tt
cells-Lacks (cell ∷ row) = (clean-Lacks (cell_text cell), cells-Lacks row)

rows-Lacks :
    (table : List Row)
    → All (All (Lacks 10)) (map (λ row. map (λ cell. clean (cell_text cell)) row) table)
rows-Lacks [] = tt
rows-Lacks (row ∷ table) = (cells-Lacks row, rows-Lacks table)

filled_rows-Lacks : (table : List Row) → All (All (Lacks 10)) (filled_rows table)
unfolding filled_rows
filled_rows-Lacks table =
    All-keep (All (Lacks 10)) is_filled _ (rows-Lacks (keep (λ row. not (is_empty row)) table))

filled_rows-filled : (table : List Row) → All (λ row. is_filled row ≡ true) (filled_rows table)
unfolding filled_rows
filled_rows-filled table =
    keep-All is_filled (
      map (λ row. map (λ cell. clean (cell_text cell)) row)
        (keep (λ row. not (is_empty row)) table))

All-both :
    {A : Type 0} (P Q : A → Type 0) (xs : List A) → All P xs → All Q xs → All (λ x. P x × Q x) xs
All-both P Q [] h k = tt
All-both P Q (x ∷ xs) (p, h) (q, k) = ((p, q), All-both P Q xs h k)

-- The line of a row: its cells and blank ones up to the width, with bars between and around them.
abbrev pub IsRowLine : ℕ → List Text → Text → Type 0
IsRowLine width row line =
    (blanks : List Text) × All (λ b. b ≡ []) blanks
    × (length (row ++ blanks) ≡ width)
    × (line ≡ codes "| " ++ (join (codes " | ") (row ++ blanks) ++ codes " |"))

abbrev pub AreRowLines : ℕ → List (List Text) → List Text → Type 0
AreRowLines width [] [] = Unit {0}
AreRowLines width (row ∷ rows) (line ∷ lines) =
    IsRowLine width row line × AreRowLines width rows lines
AreRowLines width _ _ = ⊥

-- So many cells of dashes, each closed by a bar.
abbrev pub dashes : ℕ → Text
dashes zero = []
dashes (suc n) = codes "---|" ++ dashes n

-- A text that is a table of these rows: the line of the first row, the rule, and the lines of the
-- other rows in their order. Each line has the bars of so many cells and no line break.
abbrev pub IsTable : List (List Text) → Text → Type 0
IsTable [] text = ⊥
IsTable (row ∷ rows) text =
    (width : ℕ) × (head : Text) × (lines : List Text) × (text
      ≡ join (codes "\n") (head ∷ (codes "|" ++ dashes width) ∷ lines))
    × IsRowLine width row head
    × AreRowLines width rows lines
    × All (IsTableLine width) (head ∷ (codes "|" ++ dashes width) ∷ lines)

copies-blank : (n : ℕ) → All (λ (b : Text). b ≡ []) (copies n [])
copies-blank n = copies-All (λ (b : Text). b ≡ []) n [] refl

padded-IsRowLine :
    (width : ℕ) (row : List Text)
    → length row ≤ width
    → IsRowLine width row (bar_row (padded width row))
padded-IsRowLine width row fits = (
  copies (width - length row) [],
  copies-blank (width - length row),
  length-padded width row fits,
  refl,
)

padded-AreRowLines :
    (width : ℕ) (rows : List (List Text))
    → All (λ row. length row ≤ width) rows
    → AreRowLines width rows (map bar_row (map (padded width) rows))
padded-AreRowLines width [] fits = tt
padded-AreRowLines width (row ∷ rows) (fits, more) =
    (padded-IsRowLine width row fits, padded-AreRowLines width rows more)

rule_dashes :
    (n : ℕ) → join (codes "|") (copies (suc n) (codes "---")) ++ codes "|" ≡ dashes (suc n)
rule_dashes zero = refl
rule_dashes (suc n) = ap (λ rest. codes "---|" ++ rest) (rule_dashes n)

rule_row_lem : (n : ℕ) → rule_row (suc n) ≡ codes "|" ++ dashes (suc n)
rule_row_lem n = ap (λ rest. codes "|" ++ rest) (rule_dashes n)

markdown_of-IsTable :
    (row : List Text) (rows : List (List Text))
    → All (λ r. is_filled r ≡ true) (row ∷ rows)
    → All IsPlain (row ∷ rows)
    → IsTable (row ∷ rows) (markdown_of (row ∷ rows))
markdown_of-IsTable row rows filled plain =
    let all = row ∷ rows in
    let fits = width_of-le all in
    elim (ℕ-cases (width_of all)) [
      | inl e ↦ absurd (omega (arith, filled_length row filled.0, fits.0, e))
      | inr (n, e) ↦
          let at = subst (λ k. All (λ r. length r ≤ k) all) e fits in
          let bars = bars-IsTableLine n all (All-both _ IsPlain all at plain) in
          let head = bar_row (padded (suc n) row) in
          let lines = map bar_row (map (padded (suc n)) rows) in
          (
            suc n,
            head,
            lines,
            ap (λ k. join (codes "\n") (markdown_rows k (map (padded k) all))) e
                ∙ ap (λ rule. join (codes "\n") (head ∷ rule ∷ lines)) (rule_row_lem n),
            padded-IsRowLine (suc n) row at.0,
            padded-AreRowLines (suc n) rows at.1,
            (
              bars.0,
              (subst (IsTableLine (suc n)) (rule_row_lem n) (rule_row-IsTableLine n), bars.1),
            ),
          )
    ]

-- Where no cell holds a bar, a table is rendered as the line of its first row with a filled cell, a
-- rule of dashes, and the lines of the other such rows in their order: each is the cells of the row,
-- filled up with blank ones to one width, between bars, and no line has another
-- bar or a line break. A table without such a row is rendered as the empty text.
pub table_to_markdown-IsTable :
    (table : List Row)
    → All (All (Lacks b'|')) (filled_rows table)
    → ((filled_rows table ≡ []) × (table_to_markdown table ≡ []))
      ⊎ IsTable (filled_rows table) (table_to_markdown table)
unfolding table_to_markdown
table_to_markdown-IsTable table bars = rendered (filled_rows table) (filled_rows-filled table) (
    All-both (All (Lacks b'|')) (All (Lacks 10)) (filled_rows table) bars (filled_rows-Lacks table))
  where
    rendered :
        (rows : List (List Text))
        → All (λ row. is_filled row ≡ true) rows
        → All IsPlain rows
        → ((rows ≡ []) × (markdown_of rows ≡ [])) ⊎ IsTable rows (markdown_of rows)
    rendered [] filled plain = inl (refl, refl)
    rendered (row ∷ rows) filled plain = inr (markdown_of-IsTable row rows filled plain)
