-- ===== src/Seeding/Again.antt =====
-- What a seeded file leaves, and that the next run skips it.
use safe_shield.Seeding.Updated.{find_first-update, find_first-append, task-Updated}
use safe_shield.Prelude.{
  not, ◌&&◌, text_eq_refl, false, sym, text_eq, and_true, inr, ◌∙◌, ap, ==_refl, inl, Bool-cases,
  [], find_first-test, ◌∷◌, refl, some, ◌++◌, update_where, true, none, find_first, ◌≡◌, Text, Bool,
  Option, ℕ,
}
use safe_shield.Corpus.{failed, processing, pending, ready, Document, is_null, DocumentStatus}
use safe_shield.Config.{Settings}
use safe_shield.Chunker.Chunks.{Tokenizer}
use safe_shield.Seeding.{
  ingested, new_sample, stored_sample, seed_file, seed_found, is_sample, Sample, is_ready,
}
use safe_shield.Documents.World.{with_files, with_tables, set_progress, has_id, World}
use safe_shield.Documents.Ingest.{claimed}
use safe_shield.Documents.Worker.{ingest_document_task}
use safe_shield.Prelude.Effects.{err_ok_after, err, Result, ok}
use safe_shield.Documents.Storage.{put, get_storage}
use safe_shield.Documents.Routes.{to_storage, in_request}

null_none : (o : Option ℕ) → is_null o ≡ true → o ≡ none
null_none none h = refl
null_none (some n) h = cc

ready_status : (status : DocumentStatus) → is_ready status ≡ true → status ≡ ready
ready_status pending h = cc
ready_status processing h = cc
ready_status ready h = refl
ready_status failed h = cc

-- The first shared document of this file name is ready, with so many chunks.
pub record IsSeeded {V : Type 0} (name : Text) (n : ℕ) (w : World V) : Type 0 where
  pub document : Document
  pub found : find_first (is_sample name) w.tables.documents ≡ some document
  pub shared : document.user_id ≡ none
  pub is_ready_now : document.status ≡ ready
  pub counted : document.chunk_count ≡ n

module _ {V : Type 0} (s : Settings) (tk : Tokenizer) (pdf : Sample V)
    (alone : (w : World V) → pdf.run.meanwhile w ≡ w) where
  sample-IsSeeded :
      (d : Document) (n : ℕ) (m w : World V)
      → find_first (is_sample pdf.name) m.tables.documents ≡ some d
      → ingest_document_task s tk pdf.run d.id m ≡ (ok n, w)
      → IsSeeded pdf.name n w
  unfolding claimed
  sample-IsSeeded d n m w here h =
      let (pages, after) = task-Updated tk pdf.run d.id s n m w h in
      let test = find_first-test (is_sample pdf.name) m.tables.documents d here in
      let marked = set_progress processing d.error d.page_count d.chunk_count d in
      let before =
        find_first-update (has_id d.id) (is_sample pdf.name)
          (λ x. set_progress processing x.error x.page_count x.chunk_count x) m.tables.documents d
          (λ x. refl) (==_refl d.id) here in
      let finished =
        find_first-update (has_id d.id) (is_sample pdf.name) (set_progress ready none pages n)
          (claimed tk pdf.run d.id m).tables.documents marked (λ x. refl) (==_refl d.id) before in
      record {
        document = set_progress ready none pages n marked;
        found =
            ap (find_first (is_sample pdf.name)) (
              after
              ∙ ap
                  (λ u.
                    update_where (has_id d.id) (set_progress ready none pages n) u.tables.documents)
                  (alone (claimed tk pdf.run d.id m)))
            ∙ finished;
        shared =
            null_none d.user_id (and_true (text_eq d.filename pdf.name) (is_null d.user_id) test).1;
        is_ready_now = refl;
        counted = refl;
      }

  -- The world that the ingestion of a new sample starts with.
  unfoldable with_sample : (ℕ → Text) → World V → World V
  unfolding put
  with_sample path w = with_files (put (path pdf.draw.new_id) pdf.content w.files) (
      with_tables
        (record {
          documents = w.tables.documents ++ (new_sample s tk false pdf ∷ []);
          chunks = w.tables.chunks;
        })
        w)

  new-IsSeeded :
      (force : Bool) (path : Result (ℕ → Text)) (n : ℕ) (w v : World V)
      → get_storage pdf.draw.str_uuid s ≡ path
      → find_first (is_sample pdf.name) w.tables.documents ≡ none
      → ingested s tk force pdf (in_request (stored_sample s tk force pdf none) w) ≡ (ok n, v)
      → IsSeeded pdf.name n v
  unfolding in_request stored_sample to_storage with_sample
  new-IsSeeded force (err e) n w v same absent h = absurd (err_ok_after (rw same at h))
  new-IsSeeded force (ok path) n w v same absent h =
      sample-IsSeeded (new_sample s tk false pdf) n (with_sample path w) v
        (find_first-append (is_sample pdf.name) w.tables.documents (new_sample s tk false pdf)
          absent (rw (text_eq_refl pdf.name) refl))
        (rw same at h)

  old-IsSeeded :
      (force : Bool) (path : Result (ℕ → Text)) (n : ℕ) (w v : World V) (d : Document)
      → get_storage pdf.draw.str_uuid s ≡ path
      → find_first (is_sample pdf.name) w.tables.documents ≡ some d
      → ingested s tk force pdf (in_request (stored_sample s tk force pdf (some d)) w) ≡ (ok n, v)
      → IsSeeded pdf.name n v
  unfolding in_request stored_sample to_storage
  old-IsSeeded force (err e) n w v d same here h = absurd (err_ok_after (rw same at h))
  old-IsSeeded force (ok path) n w v d same here h =
      sample-IsSeeded d n (with_files (put (path d.id) pdf.content w.files) w) v here (rw same at h)

  skipped-IsSeeded :
      (n : ℕ) (w v : World V) (d : Document)
      → find_first (is_sample pdf.name) w.tables.documents ≡ some d
      → is_ready d.status ≡ true
      → ◌≡◌ {A = Result ℕ × World V} (ok d.chunk_count, w) (ok n, v)
      → IsSeeded pdf.name n v
  skipped-IsSeeded n w v d here done h =
      let world : w ≡ v = cc in
      let count : d.chunk_count ≡ n = cc in
      let test = find_first-test (is_sample pdf.name) w.tables.documents d here in
      record {
        document = d;
        found = ap (λ u. find_first (is_sample pdf.name) u.tables.documents) (sym world) ∙ here;
        shared =
            null_none d.user_id (and_true (text_eq d.filename pdf.name) (is_null d.user_id) test).1;
        is_ready_now = ready_status d.status done;
        counted = count;
      }

  seed_found-IsSeeded :
      (force : Bool) (existing : Option Document) (n : ℕ) (w v : World V)
      → find_first (is_sample pdf.name) w.tables.documents ≡ existing
      → seed_found s tk force pdf existing w ≡ (ok n, v)
      → IsSeeded pdf.name n v
  unfolding seed_found
  seed_found-IsSeeded force none n w v here h =
      new-IsSeeded force (get_storage pdf.draw.str_uuid s) n w v refl here h
  seed_found-IsSeeded force (some d) n w v here h =
      elim (Bool-cases (is_ready d.status && not force)) [
        | inl e ↦
            skipped-IsSeeded n w v d here (and_true (is_ready d.status) (not force) e).0 (rw e at h)
        | inr e ↦ old-IsSeeded force (get_storage pdf.draw.str_uuid s) n w v d refl here (rw e at h)
      ]

-- A seeded file is skipped without `--force`.
pub IsSeeded-skipped :
    {V : Type 0} (s : Settings) (tk : Tokenizer) (pdf : Sample V) (n : ℕ) (w : World V)
    → IsSeeded pdf.name n w
    → seed_file s tk false pdf w ≡ (ok n, w)
unfolding seed_file seed_found
IsSeeded-skipped s tk pdf n w seeded =
    rw seeded.found (rw seeded.is_ready_now (ap (λ k. (ok k, w)) seeded.counted))

-- A file that the loop ends with, with or without `--force` and with no other writer meanwhile, is
-- a shared document under its name, ready and with the returned number of chunks.
pub seed_file-IsSeeded :
    {V : Type 0} (s : Settings) (tk : Tokenizer) (force : Bool) (pdf : Sample V) (n : ℕ)
    → (w v : World V) → ((u : World V) → pdf.run.meanwhile u ≡ u)
    → seed_file s tk force pdf w ≡ (ok n, v)
    → IsSeeded pdf.name n v
unfolding seed_file
seed_file-IsSeeded s tk force pdf n w v alone h =
    seed_found-IsSeeded s tk pdf alone force (find_first (is_sample pdf.name) w.tables.documents) n
      w v refl h
