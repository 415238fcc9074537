-- ===== src/Documents/Recovery.antt =====
-- A worker that runs the queued jobs, and what becomes of a stranded upload.
use safe_shield.Prelude.{
  true-false, refl, ==_iff, ◌==◌, take, Bool-cases, ap, inr, ◌∙◌, sym, inl, subst, [], ◌⊎◌, ◌≢◌,
  Option, ◌∷◌, List, none, some, Text, ◌≡◌, ℕ,
}
use safe_shield.Documents.World.{has_id, set_progress, find_document, World}
use safe_shield.Config.{Settings}
use safe_shield.Corpus.{processing, failed, ready, Document}
use safe_shield.Chunker.Chunks.{Tokenizer}
use safe_shield.Documents.Ingest.{message_of, ingest_document, claimed, Run}
use safe_shield.Documents.Worker.{
  with_provider, requeue_stranded_documents, with_file, with_storage, ingest_document_task,
}
use safe_shield.Documents.Storage.{stored, get_storage}
use safe_shield.Prelude.Effects.{Error, Result, ok}
use safe_shield.Documents.Sweep.{requeue_stranded_documents-IsStranded, IsStranded}
use safe_shield.Documents.Ending.{ingest_document-Ended, Ended}
use safe_shield.Documents.OneJob.{task-Only}
use safe_shield.Rag.Order.{find_first-In, In}
use safe_shield.Documents.Outcome.{find-update}
use safe_shield.Embed.{get_embedding_provider, Provider}

-- A document that is ready or failed.
pub data IsSettled {V : Type 0} (i : ℕ) (w : World V) : Type 0 where
  settled :
      (d : Document)
      → find_document i w.tables.documents ≡ some d
      → (d.status ≡ ready) ⊎ (d.status ≡ failed)
      → IsSettled i w

module _ {V : Type 0} (s : Settings) (tk : Tokenizer) (run : Run V) (i : ℕ)
    (alone : (w : World V) → run.meanwhile w ≡ w) (begun : run.claiming ≡ none)
    (recorded : run.recording ≡ none) where
  Ended-IsSettled :
      (owner : Option ℕ) (m : World V) (d : Document) (end : Result ℕ × World V)
      → find_document i m.tables.documents ≡ some d
      → Ended tk run i owner m end
      → IsSettled i end.1
  Ended-IsSettled owner m d (r, w) here (inl (n, _, stored)) =
      settled (set_progress ready none stored.pages n d) (stored.ready_row d here) (inl refl)
  Ended-IsSettled owner m d (r, w) here (inr (e, _, reported)) =
      settled (set_progress failed (some (take 2000 (message_of e))) d.page_count d.chunk_count d)
        (reported.failed_row d recorded here) (inr refl)

  ingest_document-IsSettled :
      (w : World V) (d : Document)
      → find_document i w.tables.documents ≡ some d
      → IsSettled i (ingest_document tk run i w).1
  unfolding claimed
  ingest_document-IsSettled w d here =
      let f : Document → Document =
        λ x. set_progress processing x.error x.page_count x.chunk_count x in
      elim (ingest_document-Ended tk run i w d here) [
        | inl ended ↦
            Ended-IsSettled d.user_id (run.meanwhile (claimed tk run i w)) (f d)
              (ingest_document tk run i w)
              (ap (λ u. find_document i u.tables.documents) (alone (claimed tk run i w))
                ∙ find-update i f w.tables.documents d (λ x. refl) here)
              ended
        | inr (e, failed_first, _) ↦ absurd (none_some (sym begun ∙ failed_first))
      ]
    where
      none_some : {e : Error} → ◌≡◌ {A = Option Error} none (some e) → ⊥
      none_some h = cc

  task-IsSettled :
      (provider : Provider) (path : ℕ → Text) (content : Text) (w : World V) (d : Document)
      → get_embedding_provider s ≡ ok provider
      → get_storage run.str_uuid s ≡ ok path
      → stored (path i) w.files ≡ some content
      → find_document i w.tables.documents ≡ some d
      → IsSettled i (ingest_document_task s tk run i w).1
  unfolding ingest_document_task with_storage with_file with_provider
  task-IsSettled provider path content w d provided configured there here =
      subst (λ storage. IsSettled i (with_storage s tk run i w storage).1) (sym configured)
        (subst (λ file. IsSettled i (with_file s tk run i w (path i) file).1) (sym there)
          (subst (λ p. IsSettled i (with_provider s tk run i w p).1) (sym provided)
            (ingest_document-IsSettled w d here)))

module _ {V : Type 0} (s : Settings) (tk : Tokenizer) (runs : ℕ → Run V) where
  -- The worker on the queued jobs, one after the other; an exception ends its job only.
  unfoldable pub run_jobs : List ℕ → World V → World V
  unfolding ingest_document_task
  run_jobs [] w = w
  run_jobs (j ∷ js) w = run_jobs js (ingest_document_task s tk (runs j) j w).1

  module _ (provider : Provider) (path : ℕ → Text) (i : ℕ) (content : Text)
      (provided : get_embedding_provider s ≡ ok provider)
      (configured : (j : ℕ) → get_storage (runs j).str_uuid s ≡ ok path)
      (alone : (j : ℕ) (w : World V) → (runs j).meanwhile w ≡ w)
      (begun : (j : ℕ) → (runs j).claiming ≡ none)
      (recorded : (j : ℕ) → (runs j).recording ≡ none) where
    still :
        (j : ℕ) (w : World V)
        → j ≢ i
        → IsSettled i w
        → IsSettled i (ingest_document_task s tk (runs j) j w).1
    still j w ne (settled d here end) =
        settled d ((task-Only s tk (runs j) j (alone j) w).others i (λ e. ne (sym e)) ∙ here) end

    -- Once its job has run, or if it had before, the document is settled.
    run_jobs-IsSettled :
        (js : List ℕ) (w : World V) (d : Document)
        → stored (path i) w.files ≡ some content
        → find_document i w.tables.documents ≡ some d
        → In i js ⊎ IsSettled i w
        → IsSettled i (run_jobs js w)
    unfolding run_jobs
    run_jobs-IsSettled [] w d there here (inl none_left) = absurd none_left
    run_jobs-IsSettled [] w d there here (inr done) = done
    run_jobs-IsSettled (j ∷ js) w d there here due =
        let w' = (ingest_document_task s tk (runs j) j w).1 in
        let only = task-Only s tk (runs j) j (alone j) w in
        let there' = ap (stored (path i)) only.files ∙ there in
        elim (Bool-cases (j == i)) [
          | inl e ↦
              let same : j ≡ i = (==_iff j i).0 e in
              let done : IsSettled i w' =
                subst (λ k. IsSettled i (ingest_document_task s tk (runs k) k w).1) (sym same)
                  (task-IsSettled s tk (runs i) i (alone i) (begun i) (recorded i) provider path
                    content w d provided (configured i) there here) in
              elim done [
                | settled x at end ↦ run_jobs-IsSettled js w' x there' at (inr (settled x at end))
              ]
          | inr e ↦
              let ne : j ≢ i = λ same. true-false (sym ((==_iff j i).1 same) ∙ e) in
              run_jobs-IsSettled js w' d there' (only.others i (λ same. ne (sym same)) ∙ here)
                (elim due [
                  | inl (inl now) ↦ absurd (ne (sym now))
                  | inl (inr later) ↦ inl later
                  | inr done ↦ inr (still j w ne done)
                ])
        ]

  -- A stranded upload whose file is stored is not lost: after a sweep and a worker that runs the
  -- queued jobs, with a storage and an embedding provider configured, no other writer meanwhile and a
  -- database that takes the claim of a job and records its failure, the document is ready or failed.
  pub requeue_stranded_documents-IsSettled :
      (provider : Provider) (path : ℕ → Text) (content : Text) (now : ℕ) (w : World V)
      (d : Document)
      → get_embedding_provider s ≡ ok provider
      → ((j : ℕ) → get_storage (runs j).str_uuid s ≡ ok path)
      → ((j : ℕ) (u : World V) → (runs j).meanwhile u ≡ u)
      → ((j : ℕ) → (runs j).claiming ≡ none)
      → ((j : ℕ) → (runs j).recording ≡ none)
      → find_document d.id w.tables.documents ≡ some d
      → IsStranded s now d
      → stored (path d.id) w.files ≡ some content
      → IsSettled d.id (
          run_jobs
            (requeue_stranded_documents s now w).1.queue
            (requeue_stranded_documents s now w).1)
  requeue_stranded_documents-IsSettled provider path content now w d provided configured alone begun
        recorded here stranded_now there =
      let (jobs, _, tables, files) = requeue_stranded_documents-IsStranded s now w in
      let due =
        (jobs d.id).1
          (inr (d, find_first-In (has_id d.id) w.tables.documents d here, refl, stranded_now)) in
      run_jobs-IsSettled provider path d.id content provided configured alone begun recorded
        (requeue_stranded_documents s now w).1.queue (requeue_stranded_documents s now w).1 d
        (ap (stored (path d.id)) files ∙ there)
        (ap (λ t. find_document d.id t.documents) tables ∙ here) (inl due)
