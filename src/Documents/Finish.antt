-- ===== src/Documents/Finish.antt =====
-- What the two transactions of an ingestion do to the owners.
use safe_shield.Prelude.{
  All-append, length, none, ◌++◌, keep, subst, take, not, All-keep, sym, ◌∙◌, All-map,
  find_first-test, ==_iff, inr, arith, inl, Option-cases, true, [], suc, ◌∷◌, ◌||◌, some, is_empty,
  ◌≡◌, All, Text, List, Option, refl, ℕ,
}
use safe_shield.Corpus.{ready, failed, processing, Tables, Document, ChunkRow, DocumentStatus}
use safe_shield.Chunker.Chunks.{chunk_blocks, Chunk, Tokenizer}
use safe_shield.Documents.Ingest.{
  message_of, rows_of, slow_work, violation, persist, persisted, replaced, mark_failed,
  finish_ingestion, claimed, Run,
}
use safe_shield.Documents.World.{is_of, has_id, set_progress, find_document, World}
use safe_shield.Prelude.Effects.{ok, err, Result, Error}
use safe_shield.Rag.Order.{All-In, find_first-In, In}
use safe_shield.Documents.Owned.{updated-In, kept-IsOwned, IsOwned, Owner, Reads, SameDocument}
use safe_shield.Auth.Models.{is_some}
use safe_shield.Documents.Outcome.{slow_work-FromBlocks}

same_progress :
    (status : DocumentStatus) (error : Option Text) (pages chunks : ℕ) (d : Document)
    → SameDocument (set_progress status error pages chunks d) d
same_progress status error pages chunks d = record { id = refl; user_id = refl }

module _ {V : Type 0} (tk : Tokenizer) (run : Run V) (i : ℕ) where
  pub begun-IsOwned :
      (d : Document) (w : World V) (running : List (ℕ × Option ℕ))
      → find_document i w.tables.documents ≡ some d
      → IsOwned w.tables running
      → IsOwned (claimed tk run i w).tables ((i, d.user_id) ∷ running)
  unfolding claimed
  begun-IsOwned d w running found g =
      let f : Document → Document =
        λ x. set_progress processing x.error x.page_count x.chunk_count x in
      let kept =
        kept-IsOwned w.tables running (has_id i) f
          (λ x. same_progress processing x.error x.page_count x.chunk_count x) g in
      record {
        chunks = kept.chunks;
        one_owner = kept.one_owner;
        reads = (
          λ x k e.
              let (y, j, s) =
                updated-In (has_id i) f
                  (λ x. same_progress processing x.error x.page_count x.chunk_count x)
                  w.tables.documents x k in
              s.user_id
              ∙ g.one_owner y d j (find_first-In (has_id i) w.tables.documents d found) (
                  sym s.id
                  ∙ e
                  ∙ sym
                      ((==_iff d.id i).0 (find_first-test (has_id i) w.tables.documents d found))),
          kept.reads,
        );
      }

  failed-IsOwned :
      (e : Error) (w : World V) (running : List (ℕ × Option ℕ))
      → IsOwned w.tables running
      → IsOwned (mark_failed tk run i e w).tables running
  unfolding mark_failed
  failed-IsOwned e w running g = elim (Option-cases run.recording) [
    | inr (x, r) ↦ rw r g
    | inl r ↦ rw r (
        kept-IsOwned w.tables running (has_id i)
          (λ d. set_progress failed (some (take 2000 (message_of e))) d.page_count d.chunk_count d)
          (λ d. same_progress failed (some (take 2000 (message_of e))) d.page_count d.chunk_count d)
          g)
  ]

  rows_of-owner :
      (o : Option ℕ) (n : ℕ) (cs : List Chunk) (vs : List V)
      → All (λ c. (c.document_id ≡ i) × (c.user_id ≡ o)) (rows_of tk run i o n cs vs)
  rows_of-owner o n [] vs = tt
  rows_of-owner o n (c ∷ cs) [] = tt
  rows_of-owner o n (c ∷ cs) (v ∷ vs) = ((refl, refl), rows_of-owner o (suc n) cs vs)

  -- The document that the foreign key of new rows found.
  rows-Owner :
      (o : Option ℕ) (rows : List (ChunkRow V)) (ds : List Document)
      → All (λ c. (c.document_id ≡ i) × (c.user_id ≡ o)) rows
      → Reads ds (i, o)
      → (is_empty rows || is_some (find_document i ds)) ≡ true
      → All (Owner ds) rows
  rows-Owner o [] ds all reads h = tt
  rows-Owner o (c ∷ cs) ds all reads h = elim (Option-cases (find_document i ds)) [
    | inl e ↦ absurd (ground arith)
    | inr (d, e) ↦
        let here = find_first-In (has_id i) ds d e in
        let same = (==_iff d.id i).0 (find_first-test (has_id i) ds d e) in
        All-map (c ∷ cs)
          (λ x (of_document, of_owner).
            (d, here, same ∙ sym of_document, reads d here same ∙ sym of_owner))
          all
  ]

  replaced-IsOwned :
      (o : Option ℕ) (rows : List (ChunkRow V)) (pages : ℕ) (t : Tables V)
      (running : List (ℕ × Option ℕ))
      → All (λ c. (c.document_id ≡ i) × (c.user_id ≡ o)) rows
      → In (i, o) running
      → (is_empty rows || is_some (find_document i t.documents)) ≡ true
      → IsOwned t running
      → IsOwned (replaced tk run i rows pages t) running
  unfolding replaced
  replaced-IsOwned o rows pages t running all k there g =
      let old = All-keep (Owner t.documents) (λ c. not (is_of i c)) t.chunks g.chunks in
      let new =
        rows-Owner o rows t.documents all (All-In (Reads t.documents) running (i, o) g.reads k)
          there in
      kept-IsOwned
        (record { documents = t.documents; chunks = keep (λ c. not (is_of i c)) t.chunks ++ rows })
        running (has_id i) (set_progress ready none pages (length rows))
        (same_progress ready none pages (length rows))
        (record {
          chunks =
              All-append (Owner t.documents) (keep (λ c. not (is_of i c)) t.chunks) rows old new;
          one_owner = g.one_owner;
          reads = g.reads;
        })

  persisted-IsOwned :
      (o : Option ℕ) (rows : List (ChunkRow V)) (pages : ℕ) (w : World V)
      (running : List (ℕ × Option ℕ)) (v : Option Error)
      → violation tk run i rows w.tables ≡ v
      → All (λ c. (c.document_id ≡ i) × (c.user_id ≡ o)) rows
      → In (i, o) running
      → IsOwned w.tables running
      → IsOwned (persisted tk run i rows pages w v).1.tables running
  unfolding persisted
  persisted-IsOwned o rows pages w running (some e) same all k g = failed-IsOwned e w running g
  persisted-IsOwned o rows pages w running none same all k g =
      replaced-IsOwned o rows pages w.tables running all k (fits same) g
    where
      fits :
          violation tk run i rows w.tables ≡ none
          → (is_empty rows || is_some (find_document i w.tables.documents)) ≡ true
      fits h = elim (Option-cases run.persisting) [
        | inr (x, r) ↦ absurd (ground arith)
        | inl r ↦ ground arith
      ]

  finish-IsOwned :
      (o : Option ℕ) (w : World V) (running : List (ℕ × Option ℕ))
      (work : Result (List (ChunkRow V) × ℕ))
      → slow_work tk run i o run.extracted ≡ work
      → In (i, o) running
      → IsOwned w.tables running
      → IsOwned (finish_ingestion tk run i work w).1.tables running
  unfolding finish_ingestion persist
  finish-IsOwned o w running (err e) same k g = failed-IsOwned e w running g
  finish-IsOwned o w running (ok (rows, pages)) same k g =
      let (blocks, vs, _, _, _, from, _) =
        slow_work-FromBlocks tk run i o run.extracted rows pages refl same in
      persisted-IsOwned o rows pages w running (violation tk run i rows w.tables) refl
        (subst (All (λ c. (c.document_id ≡ i) × (c.user_id ≡ o))) (sym from)
          (rows_of-owner o 0 (chunk_blocks tk blocks) vs))
        k g

  pub finished-IsOwned :
      (o : Option ℕ) (w : World V) (running : List (ℕ × Option ℕ))
      → In (i, o) running
      → IsOwned w.tables running
      → IsOwned (finish_ingestion tk run i (slow_work tk run i o run.extracted) w).1.tables running
  finished-IsOwned o w running k g =
      finish-IsOwned o w running (slow_work tk run i o run.extracted) refl k g
