-- ===== src/Documents/Changes.antt =====
-- What an upload and a deletion may do to the tables.
use safe_shield.Prelude.{
  ◌||◌, not, Bool-cases, inr, some, inl, [], Option-cases, ◌∷◌, ◌++◌, ◌⊎◌, Text, Option, ◌≡◌, refl,
  ℕ,
}
use safe_shield.Config.{Settings}
use safe_shield.Documents.Routes.{
  delete_row, new_document, to_storage, Draw, delete_document, upload_document, in_request,
}
use safe_shield.Documents.World.{World}
use safe_shield.Answer.Chat.{visible_document}
use safe_shield.Documents.Files.{validate_pdf_bytes}
use safe_shield.Prelude.Effects.{Result-cases}
use safe_shield.Documents.Storage.{get_storage}
use safe_shield.Corpus.{is_null}

module _ {V : Type 0} (s : Settings) where
  pub upload-tables :
      (draw : Draw) (caller : ℕ) (filename : Option Text) (content : Text) (w : World V)
      → ((in_request (upload_document s draw caller filename content) w).1.tables ≡ w.tables)
        ⊎ ((in_request (upload_document s draw caller filename content) w).1.tables ≡ record {
          documents = w.tables.documents ++ (new_document s draw caller filename content ∷ []);
          chunks = w.tables.chunks;
        })
  unfolding in_request upload_document to_storage new_document
  upload-tables draw caller filename content w =
      elim (Option-cases
        (validate_pdf_bytes draw.pages content s.max_upload_bytes (some s.max_pdf_pages))) [
          | inr (detail, e) ↦ rw e (inl refl)
          | inl e ↦ elim (Result-cases (get_storage draw.str_uuid s)) [
            | inl (x, c) ↦ rw e (rw c (inl refl))
            | inr (path, c) ↦ elim (Bool-cases (not s.redis_enabled || draw.queue_up)) [
              | inl q ↦ rw e (rw c (rw q (inr refl)))
              | inr q ↦ rw e (rw c (rw q (inr refl)))
            ]
          ]
        ]

  pub delete-tables :
      (draw : Draw) (i caller : ℕ) (w : World V)
      → ((in_request (delete_document s draw i caller) w).1.tables ≡ w.tables)
        ⊎ ((in_request (delete_document s draw i caller) w).1.tables ≡ delete_row i w.tables)
  unfolding in_request delete_document
  delete-tables draw i caller w =
      elim (Option-cases (visible_document w.tables.documents caller i)) [
        | inl e ↦ rw e (inl refl)
        | inr (d, e) ↦ elim (Bool-cases (is_null d.user_id)) [
          | inl n ↦ rw e (rw n (inl refl))
          | inr n ↦ elim (Result-cases (get_storage draw.str_uuid s)) [
            | inl (x, c) ↦ rw e (rw n (rw c (inl refl)))
            | inr (path, c) ↦ rw e (rw n (rw c (inr refl)))
          ]
        ]
      ]
