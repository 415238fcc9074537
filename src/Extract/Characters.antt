-- ===== src/Extract/Characters.antt =====
-- `_clean` and `_table_to_markdown` of backend/app/rag/extract.py.
use safe_shield.Prelude.{
  length, none, ◌||◌, is_empty, zero, ◌-◌, suc, not, ◌==◌, ◌&&◌, false, some, is_space, max, [],
  join, leb, if◌then◌else◌, ◌∷◌, exists_in, map, ◌++◌, codes, keep, strip, List, Text, Option, Bool,
  ℕ,
}

-- `_CHAR_FOLD`
abbrev pub fold_char : ℕ → Text
fold_char c =
    if (c == 8216) || (c == 8217) || (c == 8218)
    then b'\'' ∷ []
    else if (c == 8220) || (c == 8221)
    then b'"' ∷ []
    else if (c == 8211) || (c == 8212) || (c == 8722)
    then b'-' ∷ []
    else if (c == 160) || (c == 61472)
    then b' ' ∷ []
    else if c == 65533
    then []
    else if (c == 61623) || (c == 61607) || (c == 61692)
    then 8226 ∷ []
    else c ∷ []

-- `text.translate(_CHAR_FOLD)`
abbrev pub translate : Text → Text
translate [] = []
translate (c ∷ s) = fold_char c ++ translate s

abbrev pub is_private : ℕ → Bool
is_private c = leb 57344 c && leb c 63743

unfoldable pub normalize_chars : Text → Text
normalize_chars text = map (λ c. if is_private c then b' ' else c) (translate text)

-- `re.sub(r"\s+", " ", text)`, where `held` is that the character before was of the run.
unfoldable pub single_spaces : Bool → Text → Text
single_spaces held [] = []
single_spaces held (c ∷ s) =
    let rest = single_spaces (is_space c) s in
    if is_space c then if held then rest else b' ' ∷ rest else c ∷ rest

unfoldable pub clean : Text → Text
unfolding normalize_chars single_spaces
clean text = strip (single_spaces false (normalize_chars text))

-- The cells of a row; pdfplumber gives None for a missing one.
abbrev pub Row : Type 0
Row = List (Option Text)

abbrev pub cell_text : Option Text → Text
cell_text none = []
cell_text (some text) = text

abbrev pub is_filled : List Text → Bool
is_filled row = exists_in (λ cell. not (is_empty cell)) row

unfoldable pub filled_rows : List Row → List (List Text)
unfolding clean
filled_rows table =
    keep is_filled (
      map (λ row. map (λ cell. clean (cell_text cell)) row)
        (keep (λ row. not (is_empty row)) table))

-- `max(len(r) for r in rows)`
abbrev pub width_of : List (List Text) → ℕ
width_of [] = 0
width_of (row ∷ rows) = max (length row) (width_of rows)

-- `[x] * n`
abbrev pub copies {ℓ} : {A : Type ℓ} → ℕ → A → List A
copies zero a = []
copies (suc n) a = a ∷ copies n a

abbrev pub padded : ℕ → List Text → List Text
padded width row = row ++ copies (width - length row) []

abbrev pub bar_row : List Text → Text
bar_row row = codes "| " ++ (join (codes " | ") row ++ codes " |")

abbrev pub rule_row : ℕ → Text
rule_row width = codes "|" ++ (join (codes "|") (copies width (codes "---")) ++ codes "|")

abbrev pub markdown_rows : ℕ → List (List Text) → List Text
markdown_rows width [] = []
markdown_rows width (header ∷ body) = bar_row header ∷ rule_row width ∷ map bar_row body

abbrev pub markdown_of : List (List Text) → Text
markdown_of rows =
    join (codes "\n") (markdown_rows (width_of rows) (map (padded (width_of rows)) rows))

-- The rows are empty exactly where the source returns "" early.
unfoldable pub table_to_markdown : List Row → Text
unfolding filled_rows
table_to_markdown table = markdown_of (filled_rows table)
