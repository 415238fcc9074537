-- ===== src/Documents/Sweep.antt =====
-- The sweep for stranded uploads, and the jobs that it cannot help.
use safe_shield.Prelude.{
  subst, some, Option, false, length-append, none, ◌∙◌, [], lt→ltb, refl, ap, sym, length, inl, ◌<◌,
  inr, ltb→lt, arith, ◌+◌, ◌⊎◌, keep, ◌∷◌, Text, ◌↔◌, true, ◌++◌, ◌≡◌, map, List, ℕ,
}
use safe_shield.Config.{Settings}
use safe_shield.Corpus.{
  processing, ready, failed, ready, processing, pending, Document, DocumentStatus,
}
use safe_shield.Documents.Worker.{
  with_provider, with_storage, with_file, stranded, ingest_document_task,
  requeue_stranded_documents, is_stranded, is_pending,
}
use safe_shield.Rag.Order.{keep-In, In-keep, In}
use safe_shield.Chunker.Chunks.{Tokenizer}
use safe_shield.Documents.World.{find_document, World}
use safe_shield.Documents.Ingest.{ingest_claimed, ingest_document, ingest_found, Run}
use safe_shield.Documents.Storage.{stored, get_storage}
use safe_shield.Prelude.Effects.{err, Result, Error, is_ok, ok}
use safe_shield.Embed.{get_embedding_provider, Provider}

pub In-append : {A : Type 0} (a : A) (xs ys : List A) → In a (xs ++ ys) ↔ (In a xs ⊎ In a ys)
In-append a [] ys = (inr, λ h. elim h [ inl none_here ↦ absurd none_here | inr i ↦ i ])
In-append a (x ∷ xs) ys = ground (arith, In-append a xs ys)

ids-In :
    (i : ℕ) (ds : List Document) (d : Document) → In d ds → d.id ≡ i → In i (map (λ d. d.id) ds)
ids-In i [] d k same = absurd k
ids-In i (x ∷ xs) d (inl e) same = inl (sym same ∙ ap (λ y. y.id) e)
ids-In i (x ∷ xs) d (inr k) same = inr (ids-In i xs d k same)

In-ids :
    (i : ℕ) (ds : List Document) → In i (map (λ d. d.id) ds) → (d : Document) × In d ds × (d.id ≡ i)
In-ids i [] h = absurd h
In-ids i (x ∷ xs) (inl e) = (x, inl refl, sym e)
In-ids i (x ∷ xs) (inr j) = let (d, k, e) = In-ids i xs j in (d, inr k, e)

-- A document is stranded if it is pending and older than the threshold.
pub record IsStranded (s : Settings) (now : ℕ) (d : Document) : Type 0 where
  pub status : d.status ≡ pending
  pub age : d.created_at + s.ingest_stranded_after_seconds < now

is_pending-pending : (x : DocumentStatus) → is_pending x ≡ true → x ≡ pending
is_pending-pending pending h = refl
is_pending-pending processing h = cc
is_pending-pending ready h = cc
is_pending-pending failed h = cc

is_stranded_iff :
    (s : Settings) (now : ℕ) (d : Document) → (is_stranded s now d ≡ true) ↔ IsStranded s now d
is_stranded_iff s now d = (
  λ h. record {
    status = is_pending-pending d.status (ground arith);
    age = ltb→lt (d.created_at + s.ingest_stranded_after_seconds) now (ground arith);
  },
  λ x. rw x.status (lt→ltb (d.created_at + s.ingest_stranded_after_seconds) now x.age),
)

module _ {V : Type 0} (s : Settings) (now : ℕ) (w : World V) where
  -- The sweep queues a job for exactly the documents that are pending and older than the threshold,
  -- besides the jobs that were queued, returns their number and changes no row and no file.
  pub requeue_stranded_documents-IsStranded :
      (((i : ℕ)
          → In i (requeue_stranded_documents s now w).1.queue ↔ (
              In i w.queue
              ⊎ ((d : Document) × In d w.tables.documents × (d.id ≡ i) × IsStranded s now d)))
        × (length (requeue_stranded_documents s now w).1.queue
            ≡ length w.queue + (requeue_stranded_documents s now w).0)
        × ((requeue_stranded_documents s now w).1.tables ≡ w.tables)
        × ((requeue_stranded_documents s now w).1.files ≡ w.files))
  unfolding requeue_stranded_documents
  requeue_stranded_documents-IsStranded = (
    λ i. (
      λ h. forth i ((In-append i w.queue jobs).0 h),
      λ h. (In-append i w.queue jobs).1 (back i h),
    ),
    length-append w.queue jobs,
    refl,
    refl,
  )
    where
      jobs : List ℕ
      jobs = stranded s now w.tables.documents

      forth :
          (i : ℕ)
          → In i w.queue ⊎ In i (stranded s now w.tables.documents)
          → In i w.queue
            ⊎ ((d : Document) × In d w.tables.documents × (d.id ≡ i) × IsStranded s now d)
      forth i (inl q) = inl q
      forth i (inr j) =
          let (d, k, e) = In-ids i (keep (is_stranded s now) w.tables.documents) j in
          let (here, test) = In-keep (is_stranded s now) d w.tables.documents k in
          inr (d, here, e, (is_stranded_iff s now d).0 test)

      back :
          (i : ℕ)
          → In i w.queue
            ⊎ ((d : Document) × In d w.tables.documents × (d.id ≡ i) × IsStranded s now d)
          → In i w.queue ⊎ In i (stranded s now w.tables.documents)
      back i (inl q) = inl q
      back i (inr (d, here, e, x)) = inr (
          ids-In i (keep (is_stranded s now) w.tables.documents) d
            (keep-In (is_stranded s now) d w.tables.documents here ((is_stranded_iff s now d).1 x))
            e)

module _ {V : Type 0} (s : Settings) (tk : Tokenizer) (run : Run V) (i : ℕ) (w : World V)
    (path : ℕ → Text) (configured : get_storage run.str_uuid s ≡ ok path) where
  -- A job whose document has no row yet, or no stored file, raises and leaves everything as it was:
  -- a document that is pending stays so, with no reason.
  pub ingest_document_task_lost :
      (find_document i w.tables.documents ≡ none) ⊎ (stored (path i) w.files ≡ none)
      → (is_ok (ingest_document_task s tk run i w).0 ≡ false)
        × ((ingest_document_task s tk run i w).1 ≡ w)
  unfolding ingest_document_task with_storage with_file with_provider ingest_document ingest_claimed
      ingest_found
  ingest_document_task_lost lost =
      subst
        (λ storage.
          (is_ok (with_storage s tk run i w storage).0 ≡ false)
          × ((with_storage s tk run i w storage).1 ≡ w))
        (sym configured) (on_file (stored (path i) w.files) lost)
    where
      no_row :
          (found : Option Document)
          → found ≡ none
          → (is_ok (ingest_found tk run i w found).0 ≡ false)
            × ((ingest_found tk run i w found).1 ≡ w)
      no_row none e = (refl, refl)
      no_row (some d) e = cc

      on_claim :
          (claiming : Option Error)
          → find_document i w.tables.documents ≡ none
          → (is_ok (ingest_claimed tk run i w claiming).0 ≡ false)
            × ((ingest_claimed tk run i w claiming).1 ≡ w)
      on_claim (some e) h = (refl, refl)
      on_claim none h = no_row (find_document i w.tables.documents) h

      on_provider :
          (provider : Result Provider)
          → find_document i w.tables.documents ≡ none
          → (is_ok (with_provider s tk run i w provider).0 ≡ false)
            × ((with_provider s tk run i w provider).1 ≡ w)
      on_provider (err e) h = (refl, refl)
      on_provider (ok provider) h = on_claim run.claiming h

      on_file :
          (found : Option Text)
          → (find_document i w.tables.documents ≡ none) ⊎ (found ≡ none)
          → (is_ok (with_file s tk run i w (path i) found).0 ≡ false)
            × ((with_file s tk run i w (path i) found).1 ≡ w)
      on_file none either = (refl, refl)
      on_file (some content) (inl e) = on_provider (get_embedding_provider s) e
      on_file (some content) (inr e) = cc
