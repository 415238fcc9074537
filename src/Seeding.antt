-- ===== src/Seeding.antt =====
-- backend/scripts/seed_corpus.py. The files of the directory, read and sorted, are a parameter, each
-- with what the loop draws and meets for it.
use safe_shield.Prelude.{
  [], ◌+◌, length, not, ◌∷◌, if◌then◌else◌, ◌&&◌, false, find_first, some, none, List, Option,
  text_eq, true, Bool, Text, ℕ,
}
pub mod Updated
pub mod Again
pub mod Frame
pub mod Leaves
pub mod Twice
pub mod Tests
use safe_shield.Config.{Settings}
use safe_shield.Corpus.{ready, pending, is_null, Document, DocumentStatus}
use safe_shield.Documents.Routes.{storage, insert_document, to_storage, in_request, Draw}
use safe_shield.Chunker.Chunks.{Tokenizer}
use safe_shield.Prelude.Effects.{pure, follow, ◌>>◌, ◌>>=◌, ok, err, Action, Result}
use safe_shield.Documents.Ingest.{Run}
use safe_shield.Documents.World.{World}
use safe_shield.Documents.Worker.{ingest_document_task}

pub record Sample (V : Type 0) : Type 0 where
  pub name : Text
  pub stem : Text
  pub content : Text
  pub draw : Draw
  pub run : Run V

-- `Document.filename == pdf.name, Document.user_id.is_(None)`
abbrev pub is_sample : Text → Document → Bool
is_sample name d = text_eq d.filename name && is_null d.user_id

abbrev pub is_ready : DocumentStatus → Bool
is_ready ready = true
is_ready _ = false

module _ {V : Type 0} (s : Settings) (tk : Tokenizer) (force : Bool) (pdf : Sample V) where
  abbrev pub new_sample : Document
  new_sample = record {
    id = pdf.draw.new_id;
    user_id = none;
    filename = pdf.name;
    title = some pdf.stem;
    status = pending;
    error = none;
    page_count = 0;
    chunk_count = 0;
    size_bytes = length pdf.content;
    created_at = pdf.draw.now;
  }

  -- `db.add` and `db.flush`, where there is no such document, and its id
  abbrev pub flushed : Option Document → Action (World V) ℕ
  flushed none = insert_document s pdf.draw new_sample >> pure pdf.draw.new_id
  flushed (some d) = pure d.id

  -- Up to the commit; a raise ends the session, which rolls back.
  unfoldable pub stored_sample : Option Document → Action (World V) ℕ
  unfolding to_storage
  stored_sample existing = flushed existing >>= λ i.
      (storage s pdf.draw >>= λ path. to_storage s pdf.draw path i pdf.content) >> pure i

  abbrev pub ingested : Result ℕ × World V → Result ℕ × World V
  ingested (err e, w) = (err e, w)
  ingested (ok i, w) = ingest_document_task s tk pdf.run i w

  -- `existing and existing.status == READY and not force`
  abbrev pub is_skipped : Option Document → Bool
  is_skipped none = false
  is_skipped (some d) = is_ready d.status && not force

  abbrev pub chunks_of : Option Document → ℕ
  chunks_of none = 0
  chunks_of (some d) = d.chunk_count

  unfoldable pub seed_found : Option Document → World V → Result ℕ × World V
  unfolding stored_sample in_request ingest_document_task
  seed_found existing w =
      if is_skipped existing
      then (ok (chunks_of existing), w)
      else ingested (in_request (stored_sample existing) w)

  -- One round of the loop: the chunks of the file.
  unfoldable pub seed_file : World V → Result ℕ × World V
  unfolding seed_found
  seed_file w = seed_found (find_first (is_sample pdf.name) w.tables.documents) w

module _ {V : Type 0} (s : Settings) (tk : Tokenizer) (force : Bool) where
  -- `seed`, with the chunks counted so far.
  unfoldable pub seed : ℕ → List (Sample V) → World V → Result ℕ × World V
  unfolding seed_file
  seed total_chunks [] w = (ok total_chunks, w)
  seed total_chunks (pdf ∷ pdfs) w =
      follow (seed_file s tk force pdf w) (λ count. seed (total_chunks + count) pdfs)

  -- The exit code of `main`.
  unfoldable pub main : List (Sample V) → World V → Result ℕ × World V
  unfolding seed
  main [] w = (ok 1, w)
  main (pdf ∷ pdfs) w = follow (seed 0 (pdf ∷ pdfs) w) (λ total_chunks. pure 0)
