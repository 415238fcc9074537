-- ===== src/Documents/Storage.antt =====
-- backend/app/core/storage.py. Both backends keep bytes under a key made from the document's id; a
-- backend that fails is not modelled.
use safe_shield.Prelude.{
  ◌==◌, strip_of, none, some, is_empty, text_eq, not, find_first, codes, Option, ◌++◌,
  if◌then◌else◌, keep, ◌∷◌, Bool, Text, List, ℕ,
}
use safe_shield.Config.{is_set, s3, local, Settings}
use safe_shield.Prelude.Effects.{runtime, err, ok, Result}

abbrev pub Files : Type 0
Files = List (Text × Text)

module _ (str_uuid : ℕ → Text) where
  abbrev pub key : ℕ → Text
  key document_id = str_uuid document_id ++ codes ".pdf"

  -- `self._dir / _key(document_id)`
  abbrev pub local_key : Text → ℕ → Text
  local_key directory document_id = directory ++ (codes "/" ++ key document_id)

  abbrev pub object_key : Text → ℕ → Text
  object_key prefix document_id =
      if is_empty prefix then key document_id else prefix ++ (codes "/" ++ key document_id)

  -- `get_storage`: the key function of the configured backend, or the error of its constructor.
  abbrev pub get_storage : Settings → Result (ℕ → Text)
  get_storage s = elim s.storage_backend [
    | s3 ↦
        if is_set s.s3_bucket
        then ok (object_key (strip_of (λ c. c == b'/') s.s3_prefix))
        else err (runtime (codes "S3_BUCKET must be set when STORAGE_BACKEND=s3"))
    | local ↦ ok (local_key s.upload_dir)
  ]

abbrev pub has_key : Text → Text × Text → Bool
has_key k e = text_eq e.0 k

unfoldable pub delete : Text → Files → Files
delete k files = keep (λ e. not (has_key k e)) files

unfoldable pub put : Text → Text → Files → Files
unfolding delete
put k content files = (k, content) ∷ delete k files

abbrev pub content_of : Option (Text × Text) → Option Text
content_of none = none
content_of (some e) = some e.1

-- The file that `as_local_path` yields, if there is one.
unfoldable pub stored : Text → Files → Option Text
stored k files = content_of (find_first (has_key k) files)
