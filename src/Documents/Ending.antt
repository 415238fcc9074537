-- ===== src/Documents/Ending.antt =====
-- The two ends of an ingestion.
use safe_shield.Prelude.{
  none, some, refl, length, sym, inl, subst, ◌⊎◌, inr, some, ◌≡◌, List, Option, ℕ,
}
use safe_shield.Chunker.Chunks.{Tokenizer}
use safe_shield.Documents.Ingest.{
  ingest_claimed, violation, ingest_found, claimed, slow_work, persist, ingest_document, persisted,
  finish_ingestion, Run,
}
use safe_shield.Documents.World.{find_document, World}
use safe_shield.Corpus.{Document, ChunkRow}
use safe_shield.Prelude.Effects.{err, ok, Error, Result}
use safe_shield.Documents.Outcome.{
  replaced-ready, replaced-elsewhere, FromBlocks-All, replaced-here, slow_work-FromBlocks,
  mark_failed-Reported, Reported, Stored, FromBlocks,
}

module _ {V : Type 0} (tk : Tokenizer) (run : Run V) (i : ℕ) where
  -- What an ingestion of a document of this owner comes to, with the world `m` before its second
  -- transaction.
  abbrev pub Ended : Option ℕ → World V → Result ℕ × World V → Type 0
  Ended owner m (r, w) =
      ((n : ℕ) × (r ≡ ok n) × Stored tk run i owner n m w)
      ⊎ ((e : Error) × (r ≡ err e) × Reported tk run i e m w)

  persisted-Ended :
      (owner : Option ℕ) (rows : List (ChunkRow V)) (pages : ℕ) (m : World V) (v : Option Error)
      → FromBlocks tk run i owner rows pages
      → Ended owner m (persisted tk run i rows pages m v)
  unfolding persisted
  persisted-Ended owner rows pages m (some e) from =
      inr (e, refl, mark_failed-Reported tk run i e m)
  persisted-Ended owner rows pages m none from = inl (
    length rows,
    refl,
    record {
      rows = rows;
      pages = pages;
      from = from;
      counted = refl;
      here =
          replaced-here tk run i rows pages m.tables
            (FromBlocks-All tk run i owner rows pages from);
      elsewhere = λ j ne.
          replaced-elsewhere tk run i rows pages j m.tables
            (FromBlocks-All tk run i owner rows pages from) ne;
      ready_row = λ d h. replaced-ready tk run i rows pages m.tables d h;
    },
  )

  finish-Ended :
      (owner : Option ℕ) (work : Result (List (ChunkRow V) × ℕ)) (m : World V)
      → slow_work tk run i owner run.extracted ≡ work
      → Ended owner m (finish_ingestion tk run i work m)
  unfolding finish_ingestion persist
  finish-Ended owner (err e) m h = inr (e, refl, mark_failed-Reported tk run i e m)
  finish-Ended owner (ok (rows, pages)) m h =
      persisted-Ended owner rows pages m (violation tk run i rows m.tables)
        (slow_work-FromBlocks tk run i owner run.extracted rows pages refl h)

  found-Ended :
      (w : World V) (d : Document)
      → find_document i w.tables.documents ≡ some d
      → Ended d.user_id
          (run.meanwhile (claimed tk run i w))
          (ingest_found tk run i w (find_document i w.tables.documents))
  unfolding ingest_found
  found-Ended w d h =
      subst
        (λ found.
          Ended d.user_id (run.meanwhile (claimed tk run i w)) (ingest_found tk run i w found))
        (sym h)
        (finish-Ended d.user_id (slow_work tk run i d.user_id run.extracted)
          (run.meanwhile (claimed tk run i w)) refl)

  claim-Ended :
      (w : World V) (d : Document)
      → find_document i w.tables.documents ≡ some d
      → (claiming : Option Error) → run.claiming ≡ claiming
      → Ended d.user_id (run.meanwhile (claimed tk run i w)) (ingest_claimed tk run i w claiming)
        ⊎ ((e : Error) × (run.claiming ≡ some e)
            × (ingest_claimed tk run i w claiming ≡ (err e, w)))
  unfolding ingest_claimed
  claim-Ended w d h (some e) same = inr (e, same, refl)
  claim-Ended w d h none same = inl (found-Ended w d h)

  -- An ingestion of a stored document ends in one of three ways, whatever other requests committed
  -- meanwhile. It returns the number of its chunks: then the document's chunks are exactly those
  -- that its blocks give, in order, each with its vector and the owner read at the start, nothing
  -- else of the chunks changed since, and the document, if it is still there, is ready with that
  -- number and no error. Or it raises: then no chunk changed, and the document, if it is still there
  -- and the failure could be recorded, is failed with the reason. Or the first transaction raised:
  -- then the world is as it was, and nothing records the failure.
  pub ingest_document-Ended :
      (w : World V) (d : Document)
      → find_document i w.tables.documents ≡ some d
      → Ended d.user_id (run.meanwhile (claimed tk run i w)) (ingest_document tk run i w)
        ⊎ ((e : Error) × (run.claiming ≡ some e) × (ingest_document tk run i w ≡ (err e, w)))
  unfolding ingest_document
  ingest_document-Ended w d h = claim-Ended w d h run.claiming refl
