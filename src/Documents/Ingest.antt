-- ===== src/Documents/Ingest.antt =====
-- backend/app/rag/ingest.py. The two transactions of an ingestion are separate; what other requests
-- commit while no transaction is open is the argument `meanwhile`. What pdfplumber makes of the file
-- is an argument too, as are the exceptions that the database may raise.
use safe_shield.Prelude.{
  ◌++◌, not, keep, none, map, ◌==◌, take, ◌||◌, is_empty, length, [], update_where, if◌then◌else◌,
  suc, Bool, max, some, codes, ◌∷◌, Option, List, Text, ℕ,
}
use safe_shield.Prelude.Effects.{ok, integrity, err, runtime, http, Error, Result}
use safe_shield.Chunker.Chunks.{Chunk, Block, chunk_blocks, Tokenizer}
use safe_shield.Corpus.{Document, ready, failed, processing, Tables, ChunkRow}
use safe_shield.Documents.World.{
  is_of, with_tables, count_success, has_id, count_failure, set_progress, find_document, on_stored,
  World,
}
use safe_shield.Rag.Retrieve.{Embed}
use safe_shield.Auth.Models.{is_some}
use safe_shield.Answer.Synthesize.{decimal}

pub record Run (V : Type 0) : Type 0 where
  -- `extract_blocks(pdf_path)`
  pub extracted : Result (List Block)
  pub embed : Embed V
  pub meanwhile : World V → World V
  -- an exception of the first transaction, of the second, and of the one that records a failure
  pub claiming : Option Error
  pub persisting : Option Error
  pub recording : Option Error
  pub str_uuid : ℕ → Text
  -- the ids that the rows get
  pub chunk_id : ℕ → ℕ

abbrev pub message_of : Error → Text
message_of (http status detail) = detail
message_of integrity = codes "IntegrityError"
message_of (runtime message) = message

abbrev pub ingestion_error : Text → Error
ingestion_error message = runtime message

-- `max((b.page_no for b in blocks), default=0)`
abbrev pub last_page : List Block → ℕ
last_page [] = 0
last_page (b ∷ bs) = max b.page_no (last_page bs)

abbrev pub mismatch : ℕ → ℕ → Error
mismatch vectors chunks = ingestion_error (
    codes "Embedding count mismatch: "
    ++ (decimal vectors ++ (codes " vectors for " ++ (decimal chunks ++ codes " chunks"))))

module _ {V : Type 0} (tk : Tokenizer) (run : Run V) (document_id : ℕ) where
  abbrev pub not_found : Error
  not_found =
      ingestion_error (codes "Document " ++ (run.str_uuid document_id ++ codes " not found"))

  -- `_mark_failed`
  unfoldable pub mark_failed : Error → World V → World V
  mark_failed e w = elim run.recording [
    | some x ↦ count_failure w
    | none ↦
        on_stored document_id
          (λ d. set_progress failed (some (take 2000 (message_of e))) d.page_count d.chunk_count d)
          (count_failure w)
  ]

  abbrev pub row_of : Option ℕ → ℕ → Chunk → V → ChunkRow V
  row_of owner_id i c vector = record {
    id = run.chunk_id i;
    document_id = document_id;
    user_id = owner_id;
    ordinal = i;
    page_no = c.page_no;
    section_path = c.section_path;
    content = c.content;
    body = c.body;
    token_count = c.token_count;
    embedding = some vector;
  }

  -- `enumerate(zip(chunks, vectors))`, from `i` on
  abbrev pub rows_of : Option ℕ → ℕ → List Chunk → List V → List (ChunkRow V)
  rows_of owner_id i [] vectors = []
  rows_of owner_id i (c ∷ cs) [] = []
  rows_of owner_id i (c ∷ cs) (v ∷ vs) = row_of owner_id i c v ∷ rows_of owner_id (suc i) cs vs

  -- The tables after the second transaction, if it commits.
  unfoldable pub replaced : List (ChunkRow V) → ℕ → Tables V → Tables V
  replaced rows page_count t = record {
    documents =
        update_where (has_id document_id) (set_progress ready none page_count (length rows))
          t.documents;
    chunks = keep (λ c. not (is_of document_id c)) t.chunks ++ rows;
  }

  -- The foreign key of a row wants its document.
  abbrev pub refers : List (ChunkRow V) → Tables V → Bool
  refers rows t = is_empty rows || is_some (find_document document_id t.documents)

  abbrev pub violation : List (ChunkRow V) → Tables V → Option Error
  violation rows t = elim run.persisting [
    | some e ↦ some e
    | none ↦ if refers rows t then none else some integrity
  ]

  unfoldable pub persisted : List (ChunkRow V) → ℕ → World V → Option Error → Result ℕ × World V
  unfolding mark_failed replaced
  persisted rows page_count w (some e) = (err e, mark_failed e w)
  persisted rows page_count w none =
      (ok (length rows), count_success (with_tables (replaced rows page_count w.tables) w))

  unfoldable pub persist : List (ChunkRow V) → ℕ → World V → Result ℕ × World V
  unfolding persisted
  persist rows page_count w = persisted rows page_count w (violation rows w.tables)

  abbrev pub embedded_rows : Option ℕ → List Chunk → Result (List V) → Result (List (ChunkRow V))
  embedded_rows owner_id chunks (err e) = err e
  embedded_rows owner_id chunks (ok vectors) =
      if length vectors == length chunks
      then ok (rows_of owner_id 0 chunks vectors)
      else err (mismatch (length vectors) (length chunks))

  abbrev pub rows_for : Option ℕ → List Chunk → Result (List (ChunkRow V))
  rows_for owner_id [] = err (ingestion_error (codes "Document produced no indexable content"))
  rows_for owner_id (c ∷ cs) =
      embedded_rows owner_id (c ∷ cs) (run.embed (map (λ x. x.content) (c ∷ cs)))

  unfoldable pub rows_from : Option ℕ → List Block → Result (List (ChunkRow V))
  unfolding chunk_blocks
  rows_from owner_id [] = err (
      ingestion_error
        (codes "No text could be extracted. The PDF may be a scan; OCR is not supported."))
  rows_from owner_id (b ∷ bs) = rows_for owner_id (chunk_blocks tk (b ∷ bs))

  abbrev pub with_pages : ℕ → Result (List (ChunkRow V)) → Result (List (ChunkRow V) × ℕ)
  with_pages page_count (err e) = err e
  with_pages page_count (ok rows) = ok (rows, page_count)

  -- The work between the transactions: rows and page count, or an exception.
  unfoldable pub slow_work : Option ℕ → Result (List Block) → Result (List (ChunkRow V) × ℕ)
  unfolding rows_from
  slow_work owner_id (err e) = err e
  slow_work owner_id (ok blocks) = with_pages (last_page blocks) (rows_from owner_id blocks)

  unfoldable pub finish_ingestion : Result (List (ChunkRow V) × ℕ) → World V → Result ℕ × World V
  unfolding mark_failed persist
  finish_ingestion (err e) w = (err e, mark_failed e w)
  finish_ingestion (ok (rows, page_count)) w = persist rows page_count w

  -- The first transaction.
  unfoldable pub claimed : World V → World V
  claimed w =
      on_stored document_id (λ d. set_progress processing d.error d.page_count d.chunk_count d) w

  -- What follows the look-up of the document in the first transaction.
  unfoldable pub ingest_found : World V → Option Document → Result ℕ × World V
  unfolding finish_ingestion slow_work claimed
  ingest_found w none = (err not_found, w)
  ingest_found w (some d) =
      finish_ingestion (slow_work d.user_id run.extracted) (run.meanwhile (claimed w))

  -- An exception of the first transaction goes to the caller, and nothing records it.
  unfoldable pub ingest_claimed : World V → Option Error → Result ℕ × World V
  unfolding ingest_found
  ingest_claimed w (some e) = (err e, w)
  ingest_claimed w none = ingest_found w (find_document document_id w.tables.documents)

  unfoldable pub ingest_document : World V → Result ℕ × World V
  unfolding ingest_claimed
  ingest_document w = ingest_claimed w run.claiming
