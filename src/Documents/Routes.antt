-- ===== src/Documents/Routes.antt =====
-- backend/app/api/documents.py. A request works on the world; when it raises, `get_db` rolls the
-- tables back, while files and jobs stay. Rate limits stand before the handlers.
use safe_shield.Prelude.{
  [], ◌-◌, none, ◌∷◌, ◌++◌, length, leb, map, codes, take, ◌||◌, List, not, some, Option,
  if◌then◌else◌, keep, Text, Bool, ℕ,
}
use safe_shield.Prelude.Effects.{
  or_raise, http, err, ◌>>◌, raise, raise_if, ok, gets, ◌>>=◌, modify, pure, Result, Action,
}
use safe_shield.Corpus.{DocumentStatus, visible_to, pending, is_null, Document, Tables}
use safe_shield.Config.{Settings}
use safe_shield.Documents.Files.{ends_with, PageCount, validate_pdf_bytes, sanitize_filename}
use safe_shield.Documents.World.{is_of, enqueued, with_tables, with_files, has_id, World}
use safe_shield.Rag.Order.{sort_by}
use safe_shield.Documents.Storage.{get_storage, put, delete}
use safe_shield.Answer.Chat.{document_not_found, visible_document}

pub record DocumentResponse : Type 0 where
  pub id : ℕ
  pub filename : Text
  pub title : Option Text
  pub status : DocumentStatus
  pub error : Option Text
  pub page_count : ℕ
  pub chunk_count : ℕ
  pub size_bytes : ℕ
  pub created_at : ℕ
  pub is_shared : Bool

-- `model_validate`, which takes the fields of the schema from the row and leaves out the owner, and
-- then `is_shared`
abbrev pub to_response : Document → DocumentResponse
to_response d = record {
  id = d.id;
  filename = d.filename;
  title = d.title;
  status = d.status;
  error = d.error;
  page_count = d.page_count;
  chunk_count = d.chunk_count;
  size_bytes = d.size_bytes;
  created_at = d.created_at;
  is_shared = is_null d.user_id;
}

-- What a request draws and meets: the new id, the time, and whether the queue can be reached.
pub record Draw : Type 0 where
  pub new_id : ℕ
  pub now : ℕ
  pub queue_up : Bool
  pub path_name : Text → Text
  pub pages : PageCount
  pub str_uuid : ℕ → Text

abbrev pub settle : {V A : Type 0} → Tables V → Result A × World V → Result A × World V
settle t (ok a, w) = (ok a, w)
settle t (err e, w) = (err e, with_tables t w)

unfoldable pub in_request : {V A : Type 0} → Action (World V) A → Action (World V) A
in_request action w = settle w.tables (action w)

abbrev pub remove_suffix : Text → Text → Text
remove_suffix suffix name =
    if ends_with suffix name then take (length name - length suffix) name else name

unfoldable pub new_document : Settings → Draw → ℕ → Option Text → Text → Document
unfolding sanitize_filename
new_document s draw caller filename content =
    let display_name = sanitize_filename draw.path_name filename in
    record {
      id = draw.new_id;
      user_id = some caller;
      filename = display_name;
      title = some (remove_suffix (codes ".pdf") display_name);
      status = pending;
      error = none;
      page_count = 0;
      chunk_count = 0;
      size_bytes = length content;
      created_at = draw.now;
    }

module _ {V : Type 0} where
  -- `select(Document).where(id == wanted, or_(...))`
  abbrev pub get_visible : ℕ → ℕ → Action (World V) Document
  get_visible document_id caller =
      gets (λ w. visible_document w.tables.documents caller document_id) >>= λ found.
      or_raise found document_not_found

  unfoldable pub list_documents : ℕ → World V → List DocumentResponse
  unfolding sort_by
  list_documents caller w = map to_response (
      sort_by (λ a b. leb b.created_at a.created_at)
        (keep (λ d. visible_to caller d.user_id) w.tables.documents))

  unfoldable pub get_document : ℕ → ℕ → Action (World V) DocumentResponse
  get_document document_id caller = get_visible document_id caller >>= λ d. pure (to_response d)

  -- The row, and by the foreign key's cascade its chunks.
  abbrev pub delete_row : ℕ → Tables V → Tables V
  delete_row i t = record {
    documents = keep (λ d. not (has_id i d)) t.documents;
    chunks = keep (λ c. not (is_of i c)) t.chunks;
  }

module _ {V : Type 0} (s : Settings) (draw : Draw) where
  abbrev pub invalid : Option Text → Action (World V) (Unit {0})
  invalid none = pure tt
  invalid (some detail) = raise (http 422 detail)

  abbrev pub insert_document : Document → Action (World V) (Unit {0})
  insert_document d = modify λ w.
      with_tables (record { documents = w.tables.documents ++ (d ∷ []); chunks = w.tables.chunks })
        w

  unfoldable pub to_storage : (ℕ → Text) → ℕ → Text → Action (World V) (Unit {0})
  unfolding put
  to_storage path document_id content =
      modify λ w. with_files (put (path document_id) content w.files) w

  abbrev pub storage : Action (World V) (ℕ → Text)
  storage w = (get_storage draw.str_uuid s, w)

  -- With Redis the job goes to the queue, and an error is only logged. Without, the task of this
  -- process is one more waiting job.
  abbrev pub enqueue_ingestion : ℕ → Action (World V) (Unit {0})
  enqueue_ingestion document_id =
      modify λ w. if not s.redis_enabled || draw.queue_up then enqueued (document_id ∷ []) w else w

  unfoldable pub upload_document : ℕ → Option Text → Text → Action (World V) DocumentResponse
  unfolding new_document to_storage validate_pdf_bytes
  upload_document caller filename content =
      let document = new_document s draw caller filename content in
      invalid (validate_pdf_bytes draw.pages content s.max_upload_bytes (some s.max_pdf_pages))
      >> insert_document document
      >> (storage >>= λ path. to_storage path document.id content)
      >> enqueue_ingestion document.id
      >> pure (to_response document)

  unfoldable pub delete_document : ℕ → ℕ → Action (World V) (Unit {0})
  unfolding delete
  delete_document document_id caller = get_visible document_id caller >>= λ d.
      raise_if (is_null d.user_id) (http 403 (codes "Shared sample documents cannot be deleted"))
      >> modify (λ w. with_tables (delete_row document_id w.tables) w)
      >> (storage >>= λ path. modify (λ w. with_files (delete (path document_id) w.files) w))
