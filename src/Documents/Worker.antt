-- ===== src/Documents/Worker.antt =====
-- backend/app/worker/tasks.py, and the ingestion without a worker of api/documents.py.
use safe_shield.Prelude.{
  none, some, ◌++◌, codes, Option, ◌+◌, length, Text, ltb, keep, count_where, false, ◌&&◌, map,
  true, List, Bool, ℕ,
}
use safe_shield.Config.{Settings}
use safe_shield.Embed.{Provider, get_embedding_provider}
use safe_shield.Corpus.{pending, Document, DocumentStatus}
use safe_shield.Documents.World.{enqueued, set_pending, World}
use safe_shield.Chunker.Chunks.{Tokenizer}
use safe_shield.Documents.Ingest.{ingest_document, Run}
use safe_shield.Documents.Storage.{get_storage, stored}
use safe_shield.Prelude.Effects.{runtime, ok, err, Result}

module _ {V : Type 0} (s : Settings) (tk : Tokenizer) (run : Run V) where
  -- The arguments are there before the call: without a provider the ingestion is not entered.
  unfoldable pub with_provider : ℕ → World V → Result Provider → Result ℕ × World V
  unfolding ingest_document
  with_provider document_id w (err e) = (err e, w)
  with_provider document_id w (ok provider) = ingest_document tk run document_id w

  -- The body of `with get_storage().as_local_path(...)`, for a file that is there.
  unfoldable pub with_file : ℕ → World V → Text → Option Text → Result ℕ × World V
  unfolding with_provider get_embedding_provider
  with_file document_id w k none = (err (runtime (codes "No stored file " ++ k)), w)
  with_file document_id w k (some content) = with_provider document_id w (get_embedding_provider s)

  unfoldable pub with_storage : ℕ → World V → Result (ℕ → Text) → Result ℕ × World V
  unfolding with_file stored
  with_storage document_id w (err e) = (err e, w)
  with_storage document_id w (ok path) =
      with_file document_id w (path document_id) (stored (path document_id) w.files)

  unfoldable pub ingest_document_task : ℕ → World V → Result ℕ × World V
  unfolding with_storage
  ingest_document_task document_id w = with_storage document_id w (get_storage run.str_uuid s)

-- `requeue_stranded_documents` at the time `now`, in seconds.
abbrev pub is_pending : DocumentStatus → Bool
is_pending pending = true
is_pending _ = false

abbrev pub is_stranded : Settings → ℕ → Document → Bool
is_stranded s now d =
    is_pending d.status && ltb (d.created_at + s.ingest_stranded_after_seconds) now

abbrev pub stranded : Settings → ℕ → List Document → List ℕ
stranded s now ds = map (λ d. d.id) (keep (is_stranded s now) ds)

unfoldable pub requeue_stranded_documents : {V : Type 0} → Settings → ℕ → World V → ℕ × World V
requeue_stranded_documents s now w =
    let jobs = stranded s now w.tables.documents in
    let counted = set_pending (count_where (λ d. is_pending d.status) w.tables.documents) w in
    (length jobs, enqueued jobs counted)
