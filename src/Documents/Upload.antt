-- ===== src/Documents/Upload.antt =====
-- The upload request, on every branch.
use safe_shield.Documents.Files.{sanitize_filename, validate_pdf_bytes}
use safe_shield.Corpus.{Document, pending}
use safe_shield.Prelude.{
  List, length, none, ◌||◌, Bool-cases, not, inl, inr, if◌then◌else◌, ◌⊎◌, [], ◌∷◌, Option-cases,
  ◌++◌, refl, text_eq_refl, Option, some, ◌≡◌, Text, ℕ,
}
use safe_shield.Config.{Settings}
use safe_shield.Documents.Storage.{Files, get_storage, put, stored}
use safe_shield.Documents.Routes.{
  to_response, DocumentResponse, new_document, to_storage, upload_document, in_request, Draw,
}
use safe_shield.Prelude.Effects.{http, err, Result, ok}
use safe_shield.Documents.World.{World}
use safe_shield.Documents.Acceptable.{validate_pdf_bytes-Judged, IsAcceptable}

pub stored-put : (k content : Text) (files : Files) → stored k (put k content files) ≡ some content
unfolding stored put
stored-put k content files = rw (text_eq_refl k) refl

-- The row of a document that is the caller's alone and waits to be ingested.
pub record IsWaiting (draw : Draw) (caller : ℕ) (filename : Option Text) (content : Text)
    (row : Document) : Type 0 where
  pub id : row.id ≡ draw.new_id
  pub owner : row.user_id ≡ some caller
  pub named : row.filename ≡ sanitize_filename draw.path_name filename
  pub status : row.status ≡ pending
  pub error : row.error ≡ none
  pub counts : (row.page_count ≡ 0) × (row.chunk_count ≡ 0)
  pub size : row.size_bytes ≡ length content
  pub created : row.created_at ≡ draw.now

module _ {V : Type 0} (s : Settings) (draw : Draw) (path : ℕ → Text)
    (configured : get_storage draw.str_uuid s ≡ ok path) where
  -- The document is stored and waits: a row, a file, and a job if the queue took it.
  pub record Added (caller : ℕ) (filename : Option Text) (content : Text) (row : Document)
      (w w' : World V) : Type 0 where
    pub waiting : IsWaiting draw caller filename content row
    pub documents : w'.tables.documents ≡ w.tables.documents ++ (row ∷ [])
    pub chunks : w'.tables.chunks ≡ w.tables.chunks
    pub file : stored (path draw.new_id) w'.files ≡ some content
    pub queue :
        w'.queue
        ≡ (if not s.redis_enabled || draw.queue_up then w.queue ++ (draw.new_id ∷ []) else w.queue)

  abbrev pub UploadEnd :
      ℕ → Option Text → Text → World V → Result DocumentResponse × World V → Type 0
  UploadEnd caller filename content w (r, w') =
      ((detail : Text) × (r ≡ err (http 422 detail))
        × (w' ≡ w)
        × (validate_pdf_bytes draw.pages content s.max_upload_bytes (some s.max_pdf_pages)
            ≡ some detail)
        × (¬ IsAcceptable draw.pages content s.max_upload_bytes s.max_pdf_pages))
      ⊎ ((row : Document) × (r ≡ ok (to_response row))
          × Added caller filename content row w w'
          × IsAcceptable draw.pages content s.max_upload_bytes s.max_pdf_pages)

  -- An upload is refused with the reason of the validation and changes nothing, exactly if the file
  -- is empty or too large, does not begin like a PDF, cannot be read or has too many pages. Else it
  -- is accepted: whether or not the queue can be reached, a pending row of the caller's own and the
  -- file under its key are stored, no chunk changes, and the job is queued unless Redis is in use
  -- and cannot be reached.
  pub upload_document-End :
      (caller : ℕ) (filename : Option Text) (content : Text) (w : World V)
      → UploadEnd caller filename content w
          (in_request (upload_document s draw caller filename content) w)
  unfolding in_request upload_document to_storage new_document
  upload_document-End caller filename content w =
      let judged =
        validate_pdf_bytes-Judged draw.pages content s.max_upload_bytes s.max_pdf_pages in
      elim (Option-cases
        (validate_pdf_bytes draw.pages content s.max_upload_bytes (some s.max_pdf_pages))) [
          | inr (detail, e) ↦ rw e (inl (detail, refl, refl, refl, rw e at judged))
          | inl e ↦ elim (Bool-cases (not s.redis_enabled || draw.queue_up)) [
            | inl q ↦ rw e (rw configured (rw q (inr (accepted (rw q refl) (rw e at judged)))))
            | inr q ↦ rw e (rw configured (rw q (inr (accepted (rw q refl) (rw e at judged)))))
          ]
        ]
    where
      accepted :
          {queue : List ℕ}
          → queue ≡ (
              if not s.redis_enabled || draw.queue_up
              then w.queue ++ (draw.new_id ∷ [])
              else w.queue)
          → IsAcceptable draw.pages content s.max_upload_bytes s.max_pdf_pages
          → (row : Document) × (◌≡◌ {A = Result DocumentResponse}
              (ok (to_response (new_document s draw caller filename content)))
              (ok (to_response row)))
            × Added caller filename content row w (record w {
              tables = record w.tables {
                documents =
                    w.tables.documents ++ (new_document s draw caller filename content ∷ []);
              };
              files = put (path draw.new_id) content w.files;
              queue = queue;
            })
            × IsAcceptable draw.pages content s.max_upload_bytes s.max_pdf_pages
      accepted same fine = (
        new_document s draw caller filename content,
        refl,
        record {
          waiting = record {
            id = refl;
            owner = refl;
            named = refl;
            status = refl;
            error = refl;
            counts = (refl, refl);
            size = refl;
            created = refl;
          };
          documents = refl;
          chunks = refl;
          file = stored-put (path draw.new_id) content w.files;
          queue = same;
        },
        fine,
      )
