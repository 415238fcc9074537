-- ===== src/Documents/World.antt =====
-- What the operations on documents share: the database, the stored files, the job queue and the
-- counters.
use safe_shield.Prelude.{◌==◌, find_first, update_where, Option, Text, Bool, ◌++◌, List, suc, ℕ}
use safe_shield.Corpus.{Document, ChunkRow, DocumentStatus, Tables}

pub record World (V : Type 0) : Type 0 where
  pub tables : Tables V
  -- the bytes under each key
  pub files : List (Text × Text)
  -- the documents of the queued jobs, the oldest job first
  pub queue : List ℕ
  pub ingestions_succeeded : ℕ
  pub ingestions_failed : ℕ
  pub documents_pending : ℕ

abbrev pub set_progress : DocumentStatus → Option Text → ℕ → ℕ → Document → Document
set_progress status error page_count chunk_count d = record d {
  status = status;
  error = error;
  page_count = page_count;
  chunk_count = chunk_count;
}

abbrev pub has_id : ℕ → Document → Bool
has_id i d = d.id == i

abbrev pub is_of : {V : Type 0} → ℕ → ChunkRow V → Bool
is_of i c = c.document_id == i

abbrev pub find_document : ℕ → List Document → Option Document
find_document i ds = find_first (has_id i) ds

module _ {V : Type 0} where
  abbrev pub with_tables : Tables V → World V → World V
  with_tables t w = record w { tables = t }

  abbrev pub with_files : List (Text × Text) → World V → World V
  with_files files w = record w { files = files }

  abbrev pub enqueued : List ℕ → World V → World V
  enqueued jobs w = record w { queue = w.queue ++ jobs }

  abbrev pub count_success : World V → World V
  count_success w = record w { ingestions_succeeded = suc w.ingestions_succeeded }

  abbrev pub count_failure : World V → World V
  count_failure w = record w { ingestions_failed = suc w.ingestions_failed }

  abbrev pub set_pending : ℕ → World V → World V
  set_pending n w = record w { documents_pending = n }

  -- One document's row changed.
  abbrev pub on_document : ℕ → (Document → Document) → Tables V → Tables V
  on_document i f t = record {
    documents = update_where (has_id i) f t.documents;
    chunks = t.chunks;
  }

  abbrev pub on_stored : ℕ → (Document → Document) → World V → World V
  on_stored i f w = with_tables (on_document i f w.tables) w
