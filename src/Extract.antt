-- ===== src/Extract.antt =====
-- backend/app/rag/extract.py: the pages of a PDF into blocks. What pdfplumber reads of a page is
-- data; the arithmetic of floats and Unicode's tables are parameters.
pub mod Regex
pub mod Characters
pub mod Lines
pub mod Headings
pub mod Pages
pub mod Lacking
pub mod TableLines
pub mod Markdown
pub mod Bounds
pub mod Kept
pub mod Boilerplate
pub mod Ingested
pub mod Tests
