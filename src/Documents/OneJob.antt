-- ===== src/Documents/OneJob.antt =====
-- What one ingestion job leaves alone.
use safe_shield.Prelude.{
  [], ◌==◌, ap, arith, false, take, ==_iff, inl, length, Bool-cases, none, inr, sym, Text,
  Option-cases, ◌∷◌, Option, subst, update_where, refl, some, ◌≢◌, List, ◌≡◌, ◌∙◌, ℕ,
}
use safe_shield.Documents.World.{set_progress, has_id, on_stored, find_document, World}
use safe_shield.Corpus.{processing, failed, ChunkRow, ready, Document}
use safe_shield.Config.{Settings}
use safe_shield.Chunker.Chunks.{Tokenizer}
use safe_shield.Documents.Ingest.{
  ingest_claimed, message_of, violation, slow_work, persist, ingest_document, replaced, mark_failed,
  finish_ingestion, persisted, claimed, ingest_found, Run,
}
use safe_shield.Documents.Worker.{with_provider, with_storage, with_file, ingest_document_task}
use safe_shield.Prelude.Effects.{ok, err, Result, Error}
use safe_shield.Documents.Storage.{stored, get_storage}
use safe_shield.Embed.{Provider, get_embedding_provider}

-- What one job leaves alone: the files, and the rows of other documents.
pub record Only {V : Type 0} (j : ℕ) (m w : World V) : Type 0 where
  pub files : w.files ≡ m.files
  pub others :
      (k : ℕ) → k ≢ j → find_document k w.tables.documents ≡ find_document k m.tables.documents

update-others :
    (j k : ℕ) (f : Document → Document) (ds : List Document)
    → k ≢ j
    → ((x : Document) → (f x).id ≡ x.id)
    → find_document k (update_where (has_id j) f ds) ≡ find_document k ds
update-others j k f [] ne same = refl
update-others j k f (x ∷ xs) ne same = elim (Bool-cases (has_id j x)) [
  | inl e ↦
      let at : x.id ≡ j = (==_iff x.id j).0 e in
      let off : has_id k x ≡ false = ground (arith, at, ne) in
      rw e (rw (ap (λ n. n == k) (same x) ∙ off) (rw off (update-others j k f xs ne same)))
  | inr e ↦ elim (Bool-cases (has_id k x)) [
    | inl here ↦ rw e (rw here refl)
    | inr off ↦ rw e (rw off (update-others j k f xs ne same))
  ]
]

module _ {V : Type 0} (j : ℕ) where
  same-Only : (w : World V) → Only j w w
  same-Only w = record { files = refl; others = λ k ne. refl }

  then-Only : (u v w : World V) → Only j u v → Only j v w → Only j u w
  then-Only u v w a b = record {
    files = b.files ∙ a.files;
    others = λ k ne. b.others k ne ∙ a.others k ne;
  }

  -- A row of the job's document changed.
  stored-Only :
      (f : Document → Document) (w : World V)
      → ((x : Document) → (f x).id ≡ x.id)
      → Only j w (on_stored j f w)
  stored-Only f w same = record {
    files = refl;
    others = λ k ne. update-others j k f w.tables.documents ne same;
  }

module _ {V : Type 0} (s : Settings) (tk : Tokenizer) (run : Run V) (j : ℕ)
    (alone : (w : World V) → run.meanwhile w ≡ w) where
  mark_failed-Only : (e : Error) (w : World V) → Only j w (mark_failed tk run j e w)
  unfolding mark_failed
  mark_failed-Only e w = elim (Option-cases run.recording) [
    | inr (x, r) ↦ rw r (record { files = refl; others = λ k ne. refl })
    | inl r ↦ rw r (record {
      files = refl;
      others = λ k ne.
          update-others j k
            (λ d.
              set_progress failed (some (take 2000 (message_of e))) d.page_count d.chunk_count d)
            w.tables.documents ne (λ x. refl);
    })
  ]

  persisted-Only :
      (rows : List (ChunkRow V)) (pages : ℕ) (w : World V) (v : Option Error)
      → Only j w (persisted tk run j rows pages w v).1
  unfolding persisted replaced
  persisted-Only rows pages w (some e) = mark_failed-Only e w
  persisted-Only rows pages w none = record {
    files = refl;
    others = λ k ne.
        update-others j k (set_progress ready none pages (length rows)) w.tables.documents ne
          (λ x. refl);
  }

  finish-Only :
      (work : Result (List (ChunkRow V) × ℕ)) (w : World V)
      → Only j w (finish_ingestion tk run j work w).1
  unfolding finish_ingestion persist
  finish-Only (err e) w = mark_failed-Only e w
  finish-Only (ok (rows, pages)) w = persisted-Only rows pages w (violation tk run j rows w.tables)

  claimed-Only : (w : World V) → Only j w (run.meanwhile (claimed tk run j w))
  unfolding claimed
  claimed-Only w = subst (Only j w) (sym (alone (claimed tk run j w))) (
      stored-Only j (λ d. set_progress processing d.error d.page_count d.chunk_count d) w
        (λ x. refl))

  found-Only : (found : Option Document) (w : World V) → Only j w (ingest_found tk run j w found).1
  unfolding ingest_found
  found-Only none w = same-Only j w
  found-Only (some d) w =
      let m = run.meanwhile (claimed tk run j w) in
      let work = slow_work tk run j d.user_id run.extracted in
      then-Only j w m (finish_ingestion tk run j work m).1 (claimed-Only w) (finish-Only work m)

  ingest_claimed-Only :
      (claiming : Option Error) (w : World V) → Only j w (ingest_claimed tk run j w claiming).1
  unfolding ingest_claimed
  ingest_claimed-Only (some e) w = same-Only j w
  ingest_claimed-Only none w = found-Only (find_document j w.tables.documents) w

  provider-Only :
      (provider : Result Provider) (w : World V) → Only j w (with_provider s tk run j w provider).1
  unfolding with_provider ingest_document
  provider-Only (err e) w = same-Only j w
  provider-Only (ok provider) w = ingest_claimed-Only run.claiming w

  file-Only :
      (k : Text) (content : Option Text) (w : World V)
      → Only j w (with_file s tk run j w k content).1
  unfolding with_file
  file-Only k none w = same-Only j w
  file-Only k (some content) w = provider-Only (get_embedding_provider s) w

  storage-Only :
      (path : Result (ℕ → Text)) (w : World V) → Only j w (with_storage s tk run j w path).1
  unfolding with_storage
  storage-Only (err e) w = same-Only j w
  storage-Only (ok path) w = file-Only (path j) (stored (path j) w.files) w

  pub task-Only : (w : World V) → Only j w (ingest_document_task s tk run j w).1
  unfolding ingest_document_task
  task-Only w = storage-Only (get_storage run.str_uuid s) w
