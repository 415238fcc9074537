-- ===== src/Documents/Files.antt =====
-- backend/app/core/files.py. A byte string is the list of its bytes; `Path.name` of the system's
-- path rules and pdfplumber are parameters.
use safe_shield.Prelude.{
  length, take, ◌/◌, ◌+◌, ltb, none, ◌==◌, ◌||◌, reverse, ◌++◌, [], map, not, some, strip_of, ◌&&◌,
  is_empty, starts_with, leb, codes, false, ◌∷◌, Text, Option, if◌then◌else◌, Bool, ℕ,
}
use safe_shield.Answer.Synthesize.{decimal}

-- `[A-Za-z0-9._-]`
abbrev pub is_safe : ℕ → Bool
is_safe c =
    (leb b'A' c && leb c b'Z')
    || (leb b'a' c && leb c b'z')
    || (leb b'0' c && leb c b'9')
    || (c == b'.')
    || (c == b'_')
    || (c == b'-')

-- `re.sub("[^A-Za-z0-9._-]+", "_", name)`, where `held` is that the run before was replaced.
unfoldable pub safe_name : Bool → Text → Text
safe_name held [] = []
safe_name held (c ∷ s) =
    let rest = safe_name (not (is_safe c)) s in
    if is_safe c then c ∷ rest else if held then rest else b'_' ∷ rest

abbrev pub or_text : Text → Text → Text
or_text [] other = other
or_text (c ∷ s) other = c ∷ s

abbrev pub given_name : Option Text → Text
given_name none = codes "document.pdf"
given_name (some name) = or_text name (codes "document.pdf")

-- `str.lower`, of the ASCII letters: the name is of safe characters here.
abbrev pub lower_ascii : ℕ → ℕ
lower_ascii c = if leb b'A' c && leb c b'Z' then c + 32 else c

abbrev pub ends_with : Text → Text → Bool
ends_with suffix name = starts_with (reverse suffix) (reverse name)

abbrev pub with_extension : Text → Text
with_extension name =
    if ends_with (codes ".pdf") (map lower_ascii name) then name else name ++ codes ".pdf"

unfoldable pub sanitize_filename : (Text → Text) → Option Text → Text
unfolding safe_name
sanitize_filename path_name filename =
    let name = safe_name false (path_name (given_name filename)) in
    let stripped = strip_of (λ c. (c == b'.') || (c == b'_')) name in
    take 255 (with_extension (or_text stripped (codes "document.pdf")))

-- `len(pdf.pages)`, or any exception of pdfplumber
abbrev pub PageCount : Type 0
PageCount = Text → Option ℕ

-- The message of `InvalidUploadError`, if there is one.
abbrev pub check_page_count : PageCount → Text → ℕ → Option Text
check_page_count pages content max_pages = elim (pages content) [
  | none ↦ some (codes "File could not be read as a PDF")
  | some n ↦
      if ltb max_pages n
      then some
          (codes "PDF has " ++ (decimal n ++ (codes " pages; the limit is " ++ decimal max_pages)))
      else none
]

abbrev pub too_large : ℕ → ℕ → Text
too_large size limit =
    codes "File is "
    ++ (decimal (size / 1024 / 1024)
        ++ (codes "MB; the limit is " ++ (decimal (limit / 1024 / 1024) ++ codes "MB")))

unfoldable pub validate_pdf_bytes : PageCount → Text → ℕ → Option ℕ → Option Text
validate_pdf_bytes pages content max_bytes max_pages =
    if is_empty content
    then some (codes "File is empty")
    else if ltb max_bytes (length content)
    then some (too_large (length content) max_bytes)
    else if not (starts_with (codes "%PDF-") content)
    then some (codes "File is not a PDF")
    else elim max_pages [ none ↦ none | some n ↦ check_page_count pages content n ]
