-- ===== src/Documents/Tests.antt =====
-- Concrete runs of the life of a document.
use safe_shield.Prelude.{
  Option, leb, arith, sym, ◌∙◌, inl, List, inr, ◌+◌, length, none, ◌⊎◌, ◌++◌, ◌↔◌, codes, ◌≡◌, ◌∷◌,
  false, [], some, Text, refl, ℕ,
}
use safe_shield.Documents.Routes.{
  to_response, list_documents, DocumentResponse, delete_document, upload_document, in_request, Draw,
}
use safe_shield.Documents.World.{find_document, with_tables, World}
use safe_shield.Documents.Upload.{upload_document-End, UploadEnd}
use safe_shield.Documents.Ending.{ingest_document-Ended, Ended}
use safe_shield.Corpus.{ChunkRow, MayRead, pending, Document}
use safe_shield.Documents.Lifetime.{
  beginning, finishing, nothing_stored, Steps, uploading, none_yet, and_then, Life,
}
use safe_shield.Rag.Order.{Sorted, In}
use safe_shield.Documents.Delete.{delete_document-End, DeleteEnd}
use safe_shield.Documents.Worker.{requeue_stranded_documents}
use safe_shield.Documents.Ingest.{slow_work, finish_ingestion, claimed, Run, ingest_document}
use safe_shield.Prelude.Effects.{err, Error, ok}
use safe_shield.Config.{default_settings}
use safe_shield.Rag.Tests.{toy_postgres, stored_document, toy_embed, toy_tables}
use safe_shield.Documents.Storage.{stored, local_key}
use safe_shield.Documents.Sweep.{requeue_stranded_documents-IsStranded, IsStranded}
use safe_shield.Chunker.Tests.{letters, two_blocks}
use safe_shield.Documents.Files.{sanitize_filename}
use safe_shield.Documents.Listing.{list_documents-MayRead}
use safe_shield.Rag.Retrieve.{both, retrieve, RetrievedChunk, Observation}
use safe_shield.Documents.Isolation.{retrieve_lifetime}
use safe_shield.Rag.Score.{reciprocal}
use safe_shield.Rag.Scope.{PrimaryKey}
use safe_shield.Chunker.Headings.{path}

abbrev pub decimal_uuid : ℕ → Text
decimal_uuid n = n ∷ []

abbrev pub toy_world : World ℕ
toy_world = record {
  tables = toy_tables;
  files = (codes "uploads/" ++ (2 ∷ codes ".pdf"), codes "%PDF-x") ∷ [];
  queue = [];
  ingestions_succeeded = 0;
  ingestions_failed = 0;
  documents_pending = 0;
}

abbrev pub toy_ingestion : Run ℕ
toy_ingestion = record {
  extracted = ok two_blocks;
  embed = toy_embed;
  meanwhile = λ w. w;
  claiming = none;
  persisting = none;
  recording = none;
  str_uuid = decimal_uuid;
  chunk_id = λ n. 100 + n;
}

abbrev pub draw : ℕ → Draw
draw i = record {
  new_id = i;
  now = 50;
  queue_up = false;
  path_name = λ t. t;
  pages = λ t. some 3;
  str_uuid = decimal_uuid;
}

ingest_works : (ingest_document letters toy_ingestion 2 toy_world).0 ≡ ok 1
unfolding ingest_document
ingest_works = refl

ingest_document-Ended_example :
    Ended letters toy_ingestion 2
      (some 1)
      (claimed letters toy_ingestion 2 toy_world)
      (ingest_document letters toy_ingestion 2 toy_world)
    ⊎ ((e : Error) × (◌≡◌ {A = Option Error} none (some e))
        × (ingest_document letters toy_ingestion 2 toy_world ≡ (err e, toy_world)))
ingest_document-Ended_example =
    ingest_document-Ended letters toy_ingestion 2 toy_world (stored_document 2 (some 1)) refl

delete_document-End_example :
    DeleteEnd default_settings
      (draw 9)
      (local_key decimal_uuid (codes "uploads"))
      refl
      2
      1
      toy_world
      (in_request (delete_document default_settings (draw 9) 2 1) toy_world)
delete_document-End_example =
    delete_document-End default_settings (draw 9) (local_key decimal_uuid (codes "uploads")) refl 2
      1 toy_world

upload_document-End_example :
    UploadEnd default_settings
      (draw 9)
      (local_key decimal_uuid (codes "uploads"))
      refl
      1
      (some (codes "a.pdf"))
      (codes "%PDF-1")
      toy_world
      (in_request
        (upload_document default_settings (draw 9) 1 (some (codes "a.pdf")) (codes "%PDF-1"))
        toy_world)
upload_document-End_example =
    upload_document-End default_settings (draw 9) (local_key decimal_uuid (codes "uploads")) refl 1
      (some (codes "a.pdf")) (codes "%PDF-1") toy_world

-- The toy world after that upload, with the queue out of reach.
abbrev pub waiting_document : Document
waiting_document = record {
  id = 9;
  user_id = some 1;
  filename = codes "a.pdf";
  title = some (codes "a");
  status = pending;
  error = none;
  page_count = 0;
  chunk_count = 0;
  size_bytes = 6;
  created_at = 50;
}

abbrev pub waiting_world : World ℕ
waiting_world = with_tables (record { documents = waiting_document ∷ []; chunks = [] }) toy_world

sweep_works : (requeue_stranded_documents default_settings 951 waiting_world).1.queue ≡ 9 ∷ []
unfolding requeue_stranded_documents
sweep_works = refl

requeue_stranded_documents-IsStranded_example :
    ((i : ℕ)
      → In i (requeue_stranded_documents default_settings 951 waiting_world).1.queue ↔ (
          In i waiting_world.queue
          ⊎ ((d : Document) × In d waiting_world.tables.documents
              × (d.id ≡ i)
              × IsStranded default_settings 951 d)))
    × (length (requeue_stranded_documents default_settings 951 waiting_world).1.queue
        ≡ length waiting_world.queue
          + (requeue_stranded_documents default_settings 951 waiting_world).0)
    × ((requeue_stranded_documents default_settings 951 waiting_world).1.tables
        ≡ waiting_world.tables)
    × ((requeue_stranded_documents default_settings 951 waiting_world).1.files
        ≡ waiting_world.files)
requeue_stranded_documents-IsStranded_example =
    requeue_stranded_documents-IsStranded default_settings 951 waiting_world

no_stored_file : stored (local_key decimal_uuid (codes "uploads") 9) waiting_world.files ≡ none
unfolding stored
no_stored_file = refl

abbrev nothing_yet : Life ℕ
nothing_yet = nothing_stored []

abbrev after_upload : Life ℕ
after_upload = record {
  world =
      (in_request
        (upload_document default_settings (draw 9) 1 (some (codes "a.pdf")) (codes "%PDF-1"))
        nothing_yet.world).1;
  running = [];
}

name_run : sanitize_filename (λ t. t) (some (codes "my policy(1)")) ≡ codes "my_policy_1.pdf"
unfolding sanitize_filename
name_run = refl

list_documents-MayRead_example :
    ((r : DocumentResponse)
      → In r (list_documents 1 toy_world) ↔ (
          (d : Document) × In d toy_world.tables.documents
          × MayRead (some 1) d.user_id
          × (r ≡ to_response d)))
    × Sorted (λ r q. leb q.created_at r.created_at) (list_documents 1 toy_world)
list_documents-MayRead_example = list_documents-MayRead 1 toy_world

abbrev after_claim : Life ℕ
after_claim = record {
  world = claimed letters toy_ingestion 9 after_upload.world;
  running = (9, some 1) ∷ [];
}

abbrev after_ingestion : Life ℕ
after_ingestion = record {
  world =
      (finish_ingestion letters toy_ingestion 9
        (slow_work letters toy_ingestion 9 (some 1) toy_ingestion.extracted) after_claim.world).1;
  running = (9, some 1) ∷ [];
}

upload_found : find_document 9 after_upload.world.tables.documents ≡ some waiting_document
unfolding in_request upload_document
upload_found = refl

abbrev ingested_row : RetrievedChunk
ingested_row = record {
  id = 100;
  document_id = 9;
  filename = codes "a.pdf";
  page_no = 4;
  section_path = codes "Cover";
  body = codes "We pay. You ask.";
  token_count = 23;
  dense_rank = some 1;
  sparse_rank = some 1;
  score = 3278688524590163934;
}

abbrev ingested_seen : Observation
ingested_seen = record { chunks = 1; top_score = 3278688524590163934; contributors = both ∷ [] }

retrieval_run :
    retrieve toy_postgres default_settings toy_embed after_ingestion.world.tables
      (codes "We")
      (some 1)
      none
      none
      none
    ≡ ok (ingested_row ∷ [], some ingested_seen)
unfolding retrieve reciprocal in_request upload_document claimed finish_ingestion slow_work path
retrieval_run = refl

one_chunk_key : (cs : List (ChunkRow ℕ)) → length cs ≡ 1 → PrimaryKey cs
one_chunk_key [] h a b i j same = absurd i
one_chunk_key (c ∷ []) h a b (inl e) (inl f) same = e ∙ sym f
one_chunk_key (c ∷ []) h a b (inl e) (inr j) same = absurd j
one_chunk_key (c ∷ []) h a b (inr i) j same = absurd i
one_chunk_key (c ∷ d ∷ cs) h a b i j same = absurd (omega arith)

one_chunk : length after_ingestion.world.tables.chunks ≡ 1
unfolding in_request upload_document claimed finish_ingestion slow_work path
one_chunk = refl

all-Steps : Steps default_settings letters nothing_yet after_ingestion
all-Steps =
    and_then nothing_yet after_claim after_ingestion
      (and_then nothing_yet after_upload after_claim
        (and_then nothing_yet nothing_yet after_upload (none_yet nothing_yet) (
          uploading nothing_yet (draw 9) 1 (some (codes "a.pdf")) (codes "%PDF-1")
            ((λ d i. absurd i), (λ o i. i))))
        (beginning after_upload toy_ingestion 9 waiting_document upload_found))
      (finishing after_claim toy_ingestion 9 (some 1) (inl refl))

retrieve_lifetime_example :
    (d : Document) × In d after_ingestion.world.tables.documents
    × (d.id ≡ ingested_row.document_id)
    × MayRead (some 1) d.user_id
retrieve_lifetime_example =
    retrieve_lifetime default_settings letters [] after_ingestion all-Steps toy_postgres toy_embed
      (codes "We") 1 none none none (ingested_row ∷ []) (some ingested_seen)
      (one_chunk_key after_ingestion.world.tables.chunks one_chunk) retrieval_run ingested_row
      (inl refl)
