-- ===== src/Extract/Tests.antt =====
-- Concrete pages. Sizes and places are whole numbers of hundredths of a point, characters ASCII.
use safe_shield.Prelude.{
  sym, subst, ◌⊎◌, not, length, keep, ◌≤◌, All, List, ◌/◌, ◌*◌, none, ◌-◌, refl, true, ◌&&◌, ◌≡◌,
  ◌++◌, ◌==◌, [], ◌+◌, false, some, leb, ◌∷◌, codes, ◌||◌, Bool, map, Text, ℕ,
}
use safe_shield.Extract.Characters.{Row, filled_rows, clean, table_to_markdown}
use safe_shield.Extract.Pages.{
  text_block, detect_boilerplate, Page, Pdf, extract_blocks, boilerplate_template,
}
use safe_shield.Extract.Lines.{Word, Line, Floats, Unicode}
use safe_shield.Extract.Headings.{page_marker, heading_level}
use safe_shield.Extract.Regex.{concat_map, matches}
use safe_shield.Documents.Files.{lower_ascii}
use safe_shield.Documents.Ingest.{claimed, ingest_document, Run}
use safe_shield.Rag.Order.{Sorted}
use safe_shield.Prelude.Effects.{runtime, err, ok, Result}
use safe_shield.Chunker.Chunks.{Block}
use safe_shield.Documents.Tests.{toy_world, toy_ingestion}
use safe_shield.Extract.Kept.{
  extract_blocks-texts, boilerplate_of, kept_texts, spaced, pages_read, is_table, texts,
}
use safe_shield.Chunker.Tests.{letters}
use safe_shield.Extract.Ingested.{ingest_document-pages, IsPageOf}
use safe_shield.Extract.Bounds.{extract_blocks-IsWithin, IsWithin, by_page}
use safe_shield.Documents.World.{set_progress, find_document, is_of}
use safe_shield.Corpus.{Document}
use safe_shield.Corpus.{ready}
use safe_shield.Rag.Tests.{stored_document}
use safe_shield.Extract.Markdown.{table_to_markdown-IsTable, IsTable}
use safe_shield.Extract.Lacking.{Lacks}

abbrev pub hundredths : Floats ℕ
hundredths = record {
  naught = 0;
  leq = leb;
  plus = λ a b. a + b;
  minus = λ a b. (a - b) + (b - a);
  times = λ a b. a * b / 100;
  halved = λ a. a / 2;
  absolute = λ a. a;
  rounded = λ a. (a + 5) / 10 * 10;
  line_gap = 250;
  heading_ratio = 115;
}

abbrev is_ascii_digit : ℕ → Bool
is_ascii_digit c = leb b'0' c && leb c b'9'

abbrev pub ascii : Unicode
ascii = record {
  is_digit = is_ascii_digit;
  is_word = λ c.
      is_ascii_digit c || (c == b'_') || (leb b'a' (lower_ascii c) && leb (lower_ascii c) b'z');
  lower = map lower_ascii;
}

abbrev pub plain_line : Text → Line ℕ
plain_line text = record { text = text; size = 1000; bold = false; top = 0 }

level : Text → ℕ
unfolding heading_level
level text = heading_level hundredths ascii (plain_line text) 1000

level_run :
    map level (
      codes "4.2 Waiting"
      ∷ codes "Clause 3. Cover"
      ∷ codes "4.2"
      ∷ codes "PART B - BENEFITS"
      ∷ codes "We pay you."
      ∷ codes "EXCLUSIONS"
      ∷ codes "call at 12 noon"
      ∷ codes "1 Acme Ltd."
      ∷ codes "1.1.1.1.1.1.1 Deep"
      ∷ [])
    ≡ 2 ∷ 1 ∷ 0 ∷ 1 ∷ 0 ∷ 2 ∷ 0 ∷ 0 ∷ 6 ∷ []
unfolding level
level_run = refl

marker_run :
    map
      (matches ascii.is_word (page_marker ascii))
      (codes "33 | P age" ∷ codes "Page 3 of 12" ∷ codes "12" ∷ codes "12 days" ∷ [])
    ≡ true ∷ true ∷ true ∷ false ∷ []
unfolding matches
marker_run = refl

clean_run : clean (8220 ∷ codes " a  b" ++ (57345 ∷ 8221 ∷ [])) ≡ codes "\" a b \""
unfolding clean
clean_run = refl

abbrev toy_table : List Row
toy_table =
    (some (codes "Age") ∷ none ∷ []) ∷ [] ∷ (none ∷ none ∷ []) ∷ (some (codes " 30 ") ∷ []) ∷ []

toy_rows : filled_rows toy_table ≡ (codes "Age" ∷ [] ∷ []) ∷ (codes "30" ∷ []) ∷ []
unfolding filled_rows
toy_rows = refl

table_to_markdown-IsTable_example :
    ((filled_rows toy_table ≡ []) × (table_to_markdown toy_table ≡ []))
    ⊎ IsTable (filled_rows toy_table) (table_to_markdown toy_table)
table_to_markdown-IsTable_example =
    table_to_markdown-IsTable toy_table
      (subst (All (All (Lacks b'|'))) (sym toy_rows) ((refl, (refl, tt)), ((refl, tt), tt)))

-- A bar in a cell makes a cell too many.
bar_run : table_to_markdown ((some (codes "a|b") ∷ []) ∷ []) ≡ codes "| a|b |\n|---|"
unfolding table_to_markdown
bar_run = refl

markdown_run :
    table_to_markdown
      ((some (codes "Age") ∷ none ∷ []) ∷ [] ∷ (none ∷ none ∷ []) ∷ (some (codes " 30 ") ∷ []) ∷ [])
    ≡ codes "| Age |  |\n|---|---|\n| 30 |  |"
unfolding table_to_markdown filled_rows clean
markdown_run = refl

template_run : boilerplate_template ascii (codes "33 | P age") ≡ codes "# | p age"
unfolding boilerplate_template
template_run = refl

abbrev word_at : ℕ → Text → Word ℕ
word_at x text = record {
  text = text;
  size = some 1000;
  fontname = codes "Arial";
  x0 = x;
  x1 = x + 90;
  top = 100;
  bottom = 110;
}

abbrev toy_page : Page ℕ
toy_page = record {
  tables = [];
  words = word_at 200 (codes "pay.") ∷ word_at 100 (codes "We") ∷ [];
}

-- The first page cannot be read.
abbrev toy_pages : List (Result (Page ℕ))
toy_pages = err (runtime (codes "bad page")) ∷ ok toy_page ∷ []

abbrev toy_pdf : Pdf ℕ
toy_pdf = record { path = codes "a.pdf"; exists = true; pages = ok toy_pages }

abbrev toy_blocks : List Block
toy_blocks = text_block 2 (codes "We pay.") ∷ []

extract_run : extract_blocks hundredths ascii toy_pdf ≡ ok toy_blocks
unfolding extract_blocks
extract_run = refl

extract_blocks-IsWithin_example :
    (read : List (Result (Page ℕ))) × (toy_pdf.pages ≡ ok read)
    × Sorted by_page toy_blocks
    × All (IsWithin 1 (1 + length read)) toy_blocks
extract_blocks-IsWithin_example =
    extract_blocks-IsWithin hundredths ascii toy_pdf toy_blocks extract_run

extract_blocks-texts_example :
    (blocks : List Block) × (extract_blocks hundredths ascii toy_pdf ≡ ok blocks)
    × (texts (keep is_table blocks) ≡ concat_map (λ p. p.1) (pages_read hundredths ascii toy_pages))
    × (spaced (texts (keep (λ b. not (is_table b)) blocks))
        ≡ spaced (
            concat_map
              (kept_texts hundredths ascii (boilerplate_of hundredths ascii toy_pages))
              (pages_read hundredths ascii toy_pages)))
extract_blocks-texts_example = extract_blocks-texts hundredths ascii toy_pdf toy_pages refl refl

abbrev amount_line : Text → List (Line ℕ)
amount_line digit = plain_line (codes "Rs " ++ digit) ∷ []

-- One page of four has two amounts in its margin, which no other page repeats.
abbrev four_pages : List (List (Line ℕ))
four_pages = (amount_line (codes "500") ++ amount_line (codes "900")) ∷ [] ∷ [] ∷ [] ∷ []

one_page_run : detect_boilerplate ascii four_pages ≡ codes "rs #" ∷ codes "rs #" ∷ []
unfolding detect_boilerplate boilerplate_template
one_page_run = refl

abbrev extracting : Run ℕ
extracting = record toy_ingestion { extracted = extract_blocks hundredths ascii toy_pdf }

ingest_works : (ingest_document letters extracting 2 toy_world).0 ≡ ok 1
unfolding ingest_document extract_blocks
ingest_works = refl

ingest_document-pages_example :
    (pages : List (Result (Page ℕ))) × (toy_pdf.pages ≡ ok pages)
    × All
        (λ c. IsPageOf (length pages) c.page_no)
        (keep (is_of 2) (ingest_document letters extracting 2 toy_world).1.tables.chunks)
    × ((e : Document)
        → find_document 2 (claimed letters extracting 2 toy_world).tables.documents ≡ some e
        → (count : ℕ) × (count ≤ length pages)
          × (find_document 2 (ingest_document letters extracting 2 toy_world).1.tables.documents
              ≡ some (set_progress ready none count 1 e)))
ingest_document-pages_example =
    ingest_document-pages letters extracting 2 hundredths ascii toy_pdf toy_world
      (stored_document 2 (some 1)) 1 refl refl ingest_works
