-- ===== src/Documents/Outcome.antt =====
-- How an ingestion ends, whatever other requests did meanwhile.
use mathlib.Core.List.{append-nil}
use safe_shield.Prelude.{
  take, none, Option-cases, sym, subst, keep_unchanged, keep-All, All-map, keep-keep, keep_none,
  inr, ◌++◌, false, refl, [], ◌∙◌, not, ==_iff, keep-append, ◌==◌, ap, suc, inl, ==_refl, arith,
  ◌≢◌, keep, Bool-cases, true, map, ◌∷◌, update_where, All, length, some, ◌≡◌, Option, List, ℕ,
}
use safe_shield.Corpus.{failed, ready, Tables, ChunkRow, Document}
use safe_shield.Chunker.Chunks.{chunk_blocks, Block, Chunk, Tokenizer}
use safe_shield.Documents.Ingest.{
  message_of, rows_from, slow_work, with_pages, rows_for, mark_failed, last_page, rows_of,
  embedded_rows, replaced, Run,
}
use safe_shield.Documents.World.{World, set_progress, has_id, is_of, find_document}
use safe_shield.Prelude.Effects.{Error, err, ok, Result}

pub find-update :
    (i : ℕ) (f : Document → Document) (ds : List Document) (d : Document)
    → ((x : Document) → (f x).id ≡ x.id)
    → find_document i ds ≡ some d
    → find_document i (update_where (has_id i) f ds) ≡ some (f d)
find-update i f [] d same h = cc
find-update i f (x ∷ xs) d same h = elim (Bool-cases (has_id i x)) [
  | inl e ↦
      let found : some x ≡ some d = rw e at h in
      let here : x ≡ d = cc in rw e (rw (ap (λ k. k == i) (same x) ∙ e) (ap (λ y. some (f y)) here))
  | inr e ↦ rw e (rw e (find-update i f xs d same (rw e at h)))
]

module _ {V : Type 0} (tk : Tokenizer) (run : Run V) (i : ℕ) where
  rows_of-All :
      (owner : Option ℕ) (n : ℕ) (cs : List Chunk) (vs : List V)
      → All (λ c. is_of i c ≡ true) (rows_of tk run i owner n cs vs)
  rows_of-All owner n [] vs = tt
  rows_of-All owner n (c ∷ cs) [] = tt
  rows_of-All owner n (c ∷ cs) (v ∷ vs) = (==_refl i, rows_of-All owner (suc n) cs vs)

  length-rows_of :
      (owner : Option ℕ) (n : ℕ) (cs : List Chunk) (vs : List V)
      → length vs ≡ length cs
      → length (rows_of tk run i owner n cs vs) ≡ length cs
  length-rows_of owner n [] vs h = refl
  length-rows_of owner n (c ∷ cs) [] h = absurd (omega arith)
  length-rows_of owner n (c ∷ cs) (v ∷ vs) h =
      ap suc (length-rows_of owner (suc n) cs vs (omega arith))

  pub replaced-here :
      (rows : List (ChunkRow V)) (p : ℕ) (t : Tables V)
      → All (λ c. is_of i c ≡ true) rows
      → keep (is_of i) (replaced tk run i rows p t).chunks ≡ rows
  unfolding replaced
  replaced-here rows p t all =
      keep-append (is_of i) (keep (λ c. not (is_of i c)) t.chunks) rows
      ∙ ap (λ r. r ++ keep (is_of i) rows)
          (keep_none (is_of i) (keep (λ c. not (is_of i c)) t.chunks) (
            All-map (keep (λ c. not (is_of i c)) t.chunks) (λ c h. ground arith)
              (keep-All (λ c. not (is_of i c)) t.chunks)))
      ∙ keep_unchanged (is_of i) rows all

  pub replaced-elsewhere :
      (rows : List (ChunkRow V)) (p j : ℕ) (t : Tables V)
      → All (λ c. is_of i c ≡ true) rows
      → j ≢ i
      → keep (is_of j) (replaced tk run i rows p t).chunks ≡ keep (is_of j) t.chunks
  unfolding replaced
  replaced-elsewhere rows p j t all ne =
      keep-append (is_of j) (keep (λ c. not (is_of i c)) t.chunks) rows
      ∙ ap (λ r. r ++ keep (is_of j) rows)
          (keep-keep (λ c. not (is_of i c)) (is_of j) t.chunks (λ c h. other c.document_id h))
      ∙ ap (λ r. keep (is_of j) t.chunks ++ r)
          (keep_none (is_of j) rows (All-map rows (λ c h. not_here c.document_id h) all))
      ∙ append-nil (keep (is_of j) t.chunks)
    where
      other : (k : ℕ) → (k == j) ≡ true → not (k == i) ≡ true
      other k h = ground (arith, ne)

      not_here : (k : ℕ) → (k == i) ≡ true → (k == j) ≡ false
      not_here k h = ground (arith, ne)

  pub replaced-ready :
      (rows : List (ChunkRow V)) (p : ℕ) (t : Tables V) (d : Document)
      → find_document i t.documents ≡ some d
      → find_document i (replaced tk run i rows p t).documents
        ≡ some (set_progress ready none p (length rows) d)
  unfolding replaced
  replaced-ready rows p t d h =
      find-update i (set_progress ready none p (length rows)) t.documents d (λ x. refl) h

  -- The rows that an ingestion stored come from the blocks, in their order.
  abbrev pub FromBlocks : Option ℕ → List (ChunkRow V) → ℕ → Type 0
  FromBlocks owner rows pages =
      (blocks : List Block) × (vectors : List V) × (run.extracted ≡ ok blocks)
      × (run.embed (map (λ x. x.content) (chunk_blocks tk blocks)) ≡ ok vectors)
      × (length vectors ≡ length (chunk_blocks tk blocks))
      × (rows ≡ rows_of tk run i owner 0 (chunk_blocks tk blocks) vectors)
      × (pages ≡ last_page blocks)

  embedded-rows :
      (owner : Option ℕ) (cs : List Chunk) (vectors : Result (List V)) (rows : List (ChunkRow V))
      → embedded_rows tk run i owner cs vectors ≡ ok rows
      → (vs : List V) × (vectors ≡ ok vs)
        × (length vs ≡ length cs)
        × (rows ≡ rows_of tk run i owner 0 cs vs)
  embedded-rows owner cs (err e) rows h = cc
  embedded-rows owner cs (ok vs) rows h = elim (Bool-cases (length vs == length cs)) [
    | inl e ↦ (vs, refl, (==_iff (length vs) (length cs)).0 e, ground arith)
    | inr e ↦ absurd (ground arith)
  ]

  rows_for-rows :
      (owner : Option ℕ) (cs : List Chunk) (rows : List (ChunkRow V))
      → rows_for tk run i owner cs ≡ ok rows
      → (vs : List V) × (run.embed (map (λ x. x.content) cs) ≡ ok vs)
        × (length vs ≡ length cs)
        × (rows ≡ rows_of tk run i owner 0 cs vs)
  rows_for-rows owner [] rows h = cc
  rows_for-rows owner (c ∷ cs) rows h =
      embedded-rows owner (c ∷ cs) (run.embed (map (λ x. x.content) (c ∷ cs))) rows h

  with_pages-rows :
      (p : ℕ) (r : Result (List (ChunkRow V))) (rows : List (ChunkRow V)) (pages : ℕ)
      → with_pages tk run i p r ≡ ok (rows, pages)
      → (r ≡ ok rows) × (pages ≡ p)
  with_pages-rows p (err e) rows pages h = cc
  with_pages-rows p (ok found) rows pages h = (cc, cc)

  pub slow_work-FromBlocks :
      (owner : Option ℕ) (extracted : Result (List Block)) (rows : List (ChunkRow V)) (pages : ℕ)
      → run.extracted ≡ extracted
      → slow_work tk run i owner extracted ≡ ok (rows, pages)
      → FromBlocks owner rows pages
  unfolding slow_work rows_from
  slow_work-FromBlocks owner (err e) rows pages same h = cc
  slow_work-FromBlocks owner (ok []) rows pages same h = cc
  slow_work-FromBlocks owner (ok (b ∷ bs)) rows pages same h =
      let (found, last) =
        with_pages-rows (last_page (b ∷ bs)) (rows_for tk run i owner (chunk_blocks tk (b ∷ bs)))
          rows pages h in
      let (vs, embedded, long, from) = rows_for-rows owner (chunk_blocks tk (b ∷ bs)) rows found in
      (b ∷ bs, vs, same, embedded, long, from, last)

  pub FromBlocks-All :
      (owner : Option ℕ) (rows : List (ChunkRow V)) (pages : ℕ)
      → FromBlocks owner rows pages
      → All (λ c. is_of i c ≡ true) rows
  FromBlocks-All owner rows pages (blocks, vs, _, _, _, from, _) =
      subst (All (λ c. is_of i c ≡ true)) (sym from)
        (rows_of-All owner 0 (chunk_blocks tk blocks) vs)

  -- A document that is ready with its rows in place, and no chunk of another document touched since
  -- the world `m`.
  pub record Stored (owner : Option ℕ) (n : ℕ) (m w : World V) : Type 0 where
    pub rows : List (ChunkRow V)
    pub pages : ℕ
    pub from : FromBlocks owner rows pages
    pub counted : length rows ≡ n
    pub here : keep (is_of i) w.tables.chunks ≡ rows
    pub elsewhere :
        (j : ℕ) → j ≢ i → keep (is_of j) w.tables.chunks ≡ keep (is_of j) m.tables.chunks
    pub ready_row :
        (d : Document)
        → find_document i m.tables.documents ≡ some d
        → find_document i w.tables.documents ≡ some (set_progress ready none pages n d)

  -- What a failure leaves: no chunk changed, and the document failed with the reason.
  pub record Reported (e : Error) (m w : World V) : Type 0 where
    pub chunks : w.tables.chunks ≡ m.tables.chunks
    pub failed_row :
        (d : Document)
        → run.recording ≡ none
        → find_document i m.tables.documents ≡ some d
        → find_document i w.tables.documents
          ≡ some
              (set_progress failed (some (take 2000 (message_of e))) d.page_count d.chunk_count d)

  pub mark_failed-Reported : (e : Error) (m : World V) → Reported e m (mark_failed tk run i e m)
  unfolding mark_failed
  mark_failed-Reported e m = elim (Option-cases run.recording) [
    | inr (x, r) ↦ record { chunks = rw r refl; failed_row = λ d works h. cc }
    | inl r ↦ record {
      chunks = rw r refl;
      failed_row = λ d works h. rw r (
          find-update i
            (λ x.
              set_progress failed (some (take 2000 (message_of e))) x.page_count x.chunk_count x)
            m.tables.documents d (λ x. refl) h);
    }
  ]
