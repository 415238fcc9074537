-- ===== src/Answer/Numbering.antt =====
-- The number of an excerpt in the prompt is the number of its source.
use safe_shield.Prelude.{take, strip, ◌⊎◌, ◌++◌, codes, [], Text, ◌≡◌, List, ℕ}
use safe_shield.Answer.Synthesize.{Citation, decimal}
use safe_shield.Rag.Retrieve.{RetrievedChunk}

-- The source numbered so for a chunk.
abbrev pub source_for : ℕ → ℕ → RetrievedChunk → Citation
source_for width number c = record {
  index = number;
  document_id = c.document_id;
  filename = c.filename;
  page_no = c.page_no;
  section_path = c.section_path;
  excerpt = strip (take width c.body);
}

-- The excerpt numbered so for a chunk: the number in brackets, the file, the page, the section if
-- there is one, and on the next line the text.
abbrev pub IsExcerpt : ℕ → RetrievedChunk → Text → Type 0
IsExcerpt number c text =
    (section : Text) × (((c.section_path ≡ []) × (section ≡ []))
      ⊎ (section ≡ codes ", section: " ++ c.section_path))
    × (text
        ≡ codes "["
          ++ (decimal number
              ++ (codes "] ("
                  ++ (c.filename
                      ++ (codes ", page "
                          ++ (decimal c.page_no ++ (section ++ (codes ")\n" ++ c.body))))))))
