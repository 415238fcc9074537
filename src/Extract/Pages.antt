-- ===== src/Extract/Pages.antt =====
-- Running headers and footers, and the blocks of the pages, of backend/app/rag/extract.py. A page is
-- what pdfplumber reads of it, or the exception that it raises.
use safe_shield.Prelude.{
  zero, count_where, ◌-◌, leb, drop, length, is_empty, [], codes, suc, ◌&&◌, ltb, take, text_eq,
  map, exists_in, ◌++◌, false, ◌/◌, if◌then◌else◌, keep, join, not, Bool, ◌∷◌, strip, ◌*◌, Text,
  max, List, ℕ,
}
use safe_shield.Extract.Lines.{
  is_nonzero, inside_any, Word, words_to_lines, Table, median, Line, Floats, Unicode,
}
use safe_shield.Extract.Characters.{table_to_markdown}
use safe_shield.Chunker.Chunks.{heading, table, paragraph, Block}
use safe_shield.Extract.Headings.{page_marker, heading_level}
use safe_shield.Extract.Regex.{matches}
use safe_shield.Prelude.Effects.{runtime, ok, err, Result}

pub record Page (F : Type 0) : Type 0 where
  pub tables : List (Table F)
  pub words : List (Word F)

-- The file under the path: whether it exists, and what `pdfplumber.open` makes of it.
pub record Pdf (F : Type 0) : Type 0 where
  pub path : Text
  pub exists : Bool
  pub pages : Result (List (Result (Page F)))

-- `re.sub(r"\d+", "#", text)`, where `held` is that the character before was a digit.
unfoldable pub hash_numbers : Unicode → Bool → Text → Text
hash_numbers uc held [] = []
hash_numbers uc held (c ∷ s) =
    let rest = hash_numbers uc (uc.is_digit c) s in
    if uc.is_digit c then if held then rest else b'#' ∷ rest else c ∷ rest

unfoldable pub boilerplate_template : Unicode → Text → Text
unfolding hash_numbers
boilerplate_template uc text = uc.lower (strip (hash_numbers uc false text))

abbrev pub contains_text : Text → List Text → Bool
contains_text t ts = exists_in (text_eq t) ts

-- A set of texts
abbrev pub distinct : List Text → List Text
distinct [] = []
distinct (t ∷ ts) = let rest = distinct ts in if contains_text t rest then rest else t ∷ rest

-- The texts of the first and the last five lines.
abbrev pub margin : {F : Type 0} → List (Line F) → List Text
margin lines =
    distinct (map (λ l. l.text) (take 5 lines) ++ map (λ l. l.text) (drop (length lines - 5) lines))

-- `counts`, as the list of what it counts
unfoldable pub margin_templates : {F : Type 0} → Unicode → List (List (Line F)) → List Text
unfolding boilerplate_template
margin_templates uc [] = []
margin_templates uc (lines ∷ pages) =
    map (boilerplate_template uc) (margin lines) ++ margin_templates uc pages

-- `max(2, int(pages * 0.30))`
abbrev pub boilerplate_threshold : ℕ → ℕ
boilerplate_threshold pages = max 2 (pages * 3 / 10)

-- The set of templates, as a list.
unfoldable pub detect_boilerplate : {F : Type 0} → Unicode → List (List (Line F)) → List Text
unfolding margin_templates
detect_boilerplate uc pages =
    if ltb (length pages) 4
    then []
    else let counts = margin_templates uc pages in
      keep
        (λ t.
          leb (boilerplate_threshold (length pages)) (count_where (text_eq t) counts)
          && not (is_empty t))
        counts

abbrev pub text_block : ℕ → Text → Block
text_block page_no text = record { kind = paragraph; text = text; page_no = page_no; level = 0 }

abbrev pub heading_block : ℕ → ℕ → Text → Block
heading_block page_no level text = record {
  kind = heading;
  text = text;
  page_no = page_no;
  level = level;
}

abbrev pub table_block : ℕ → Text → Block
table_block page_no text = record { kind = table; text = text; page_no = page_no; level = 0 }

abbrev pub buffered : ℕ → List Text → List Block
buffered page_no [] = []
buffered page_no (t ∷ ts) = text_block page_no (join (codes " ") (t ∷ ts)) ∷ []

module _ {F : Type 0} (uc : Unicode) where
  unfoldable pub is_kept : List Text → Line F → Bool
  unfolding boilerplate_template matches
  is_kept boilerplate line =
      not (contains_text (boilerplate_template uc line.text) boilerplate)
      && not (matches uc.is_word (page_marker uc) line.text)

module _ {F : Type 0} (fl : Floats F) (uc : Unicode) where
  -- `_read_page`, of what pdfplumber finds
  unfoldable pub read_page : Page F → List (Line F) × List Text
  unfolding table_to_markdown words_to_lines inside_any
  read_page page = (
    words_to_lines fl uc (keep (λ w. not (inside_any fl w page.tables)) page.words),
    keep (λ md. not (is_empty md)) (map (λ t. table_to_markdown t.rows) page.tables),
  )

  -- An unreadable page is logged and skipped.
  unfoldable pub read_or_skip : Result (Page F) → List (Line F) × List Text
  unfolding read_page
  read_or_skip (err e) = ([], [])
  read_or_skip (ok page) = read_page page

  unfoldable pub body_size_of : List (Line F) → F
  unfolding median
  body_size_of lines = median fl (keep (is_nonzero fl) (map (λ l. l.size) lines))

  -- The loop over the kept lines, with `buffer`.
  unfoldable pub blocks_from : ℕ → F → List Text → List (Line F) → List Block
  unfolding heading_level
  blocks_from page_no body_size buffer [] = buffered page_no buffer
  blocks_from page_no body_size buffer (line ∷ lines) = elim (heading_level fl uc line body_size) [
    | zero ↦ blocks_from page_no body_size (buffer ++ (line.text ∷ [])) lines
    | suc above ↦
        buffered page_no buffer
        ++ (heading_block page_no (suc above) line.text ∷ blocks_from page_no body_size [] lines)
  ]

  unfoldable pub lines_to_blocks : List (Line F) → ℕ → List Text → List Block
  unfolding blocks_from is_kept body_size_of
  lines_to_blocks lines page_no boilerplate =
      let kept = keep (is_kept uc boilerplate) lines in
      blocks_from page_no (body_size_of kept) [] kept

  unfoldable pub page_blocks : ℕ → List Text → List (Line F) × List Text → List Block
  unfolding lines_to_blocks
  page_blocks page_no boilerplate (lines, tables) =
      map (table_block page_no) tables ++ lines_to_blocks lines page_no boilerplate

  abbrev pub blocks_of_pages : ℕ → List Text → List (List (Line F) × List Text) → List Block
  blocks_of_pages page_no boilerplate [] = []
  blocks_of_pages page_no boilerplate (page ∷ pages) =
      page_blocks page_no boilerplate page ++ blocks_of_pages (suc page_no) boilerplate pages

  unfoldable pub blocks_of : List (Result (Page F)) → List Block
  unfolding detect_boilerplate page_blocks read_or_skip
  blocks_of pages =
      let read = map read_or_skip pages in
      blocks_of_pages 1 (detect_boilerplate uc (map (λ p. p.0) read)) read

  unfoldable pub opened : Result (List (Result (Page F))) → Result (List Block)
  unfolding blocks_of
  opened (err e) = err e
  opened (ok pages) = ok (blocks_of pages)

  unfoldable pub extract_blocks : Pdf F → Result (List Block)
  unfolding opened
  extract_blocks pdf = if pdf.exists then opened pdf.pages else err (runtime pdf.path)
