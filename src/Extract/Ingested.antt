-- ===== src/Extract/Ingested.antt =====
-- The pages of the chunks that an ingestion of an extracted file stores.
use safe_shield.Prelude.{
  ap, subst, inl, ◌∙◌, sym, inr, none, keep, length, some, All-map, [], ◌≡◌, suc, ◌∷◌, arith, ◌+◌,
  ◌≤◌, Option, All, List, ℕ,
}
use safe_shield.Chunker.Chunks.{Chunk, chunk_blocks, Block, Tokenizer}
use safe_shield.Documents.Ingest.{claimed, ingest_document, rows_of, last_page, Run}
use safe_shield.Extract.Lines.{Unicode, Floats}
use safe_shield.Extract.Bounds.{extract_blocks-IsWithin, IsWithin}
use safe_shield.Extract.Pages.{Page, extract_blocks, Pdf}
use safe_shield.Chunker.Shape.{chunk_blocks-IsFrom}
use safe_shield.Documents.World.{set_progress, is_of, find_document, World}
use safe_shield.Corpus.{Document}
use safe_shield.Prelude.Effects.{ok_injective, err_ok, Result, ok}
use safe_shield.Corpus.{ready}
use safe_shield.Documents.Ending.{ingest_document-Ended}

last_page-le :
    (n : ℕ) (blocks : List Block) → All (IsWithin 1 (1 + n)) blocks → last_page blocks ≤ n
last_page-le n [] h = omega arith
last_page-le n (b ∷ bs) (within, h) = omega (arith, within.1, last_page-le n bs h)

-- A page number of a file with so many pages.
abbrev pub IsPageOf : ℕ → ℕ → Type 0
IsPageOf pages n = (1 ≤ n) × (n ≤ pages)

module _ {V : Type 0} (tk : Tokenizer) (run : Run V) (i : ℕ) where
  rows_of-page :
      (P : ℕ → Type 0) (owner : Option ℕ) (n : ℕ) (cs : List Chunk) (vs : List V)
      → All (λ c. P c.page_no) cs
      → All (λ c. P c.page_no) (rows_of tk run i owner n cs vs)
  rows_of-page P owner n [] vs h = tt
  rows_of-page P owner n (c ∷ cs) [] h = tt
  rows_of-page P owner n (c ∷ cs) (v ∷ vs) (x, h) = (x, rows_of-page P owner (suc n) cs vs h)

  rows-page :
      (pages : ℕ) (owner : Option ℕ) (blocks : List Block) (vs : List V)
      → All (IsWithin 1 (1 + pages)) blocks
      → All (λ c. IsPageOf pages c.page_no) (rows_of tk run i owner 0 (chunk_blocks tk blocks) vs)
  unfolding chunk_blocks
  rows-page pages owner [] vs h = tt
  rows-page pages owner (b ∷ bs) vs h =
      let P = λ (n : ℕ). IsPageOf pages n in
      let first : IsPageOf pages 1 = (omega arith, omega (arith, h.0)) in
      rows_of-page P owner 0 (chunk_blocks tk (b ∷ bs)) vs (
        All-map (chunk_blocks tk (b ∷ bs)) (λ c from. from.1)
          (chunk_blocks-IsFrom tk P first (b ∷ bs)
            (All-map (b ∷ bs) (λ c within. (within.0, omega (arith, within.1))) h)))

  module _ {F : Type 0} (fl : Floats F) (uc : Unicode) (pdf : Pdf F) where
    -- Where an ingestion of a file's blocks returns, the file has been read, every stored chunk of
    -- the document is of a page of the file, and the document, if it is still there, is ready with
    -- the returned number of chunks and a page count that the file has.
    pub ingest_document-pages :
        (w : World V) (d : Document) (n : ℕ)
        → run.extracted ≡ extract_blocks fl uc pdf
        → find_document i w.tables.documents ≡ some d
        → (ingest_document tk run i w).0 ≡ ok n
        → (pages : List (Result (Page F))) × (pdf.pages ≡ ok pages)
          × All
              (λ c. IsPageOf (length pages) c.page_no)
              (keep (is_of i) (ingest_document tk run i w).1.tables.chunks)
          × ((e : Document)
              → find_document i (run.meanwhile (claimed tk run i w)).tables.documents ≡ some e
              → (count : ℕ) × (count ≤ length pages)
                × (find_document i (ingest_document tk run i w).1.tables.documents
                    ≡ some (set_progress ready none count n e)))
    ingest_document-pages w d n extracted found returned =
        elim (ingest_document-Ended tk run i w d found) [
          | inr (e, _, ended) ↦ absurd (err_ok (sym (ap (λ r. r.0) ended) ∙ returned))
          | inl (inr (e, raised, _)) ↦ absurd (err_ok (sym raised ∙ returned))
          | inl (inl (m, same, stored)) ↦
              let (blocks, vs, from, _, _, rows, last) = stored.from in
              let (pages, open_pages, _, within) =
                extract_blocks-IsWithin fl uc pdf blocks (sym extracted ∙ from) in
              let count : m ≡ n = ok_injective (sym same ∙ returned) in
              (
                pages,
                open_pages,
                subst (All (λ c. IsPageOf (length pages) c.page_no)) (sym (stored.here ∙ rows))
                    (rows-page (length pages) d.user_id blocks vs within),
                λ e here. (
                  stored.pages,
                  subst (λ k. k ≤ length pages) (sym last)
                      (last_page-le (length pages) blocks within),
                  stored.ready_row e here
                      ∙ ap (λ k. some (set_progress ready none stored.pages k e)) count,
                ),
              )
        ]
