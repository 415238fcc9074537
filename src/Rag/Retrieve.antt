-- ===== src/Rag/Retrieve.antt =====
-- backend/app/rag/retrieve.py: the hybrid query and `retrieve`. What Postgres and pgvector compute
-- about one row (its distance to the query vector, its match with a text query and the rank of that
-- match) is a parameter; floats are only compared, so a natural number that orders alike stands for
-- each. The approximate index is taken to be exact.
use safe_shield.Prelude.{
  is_empty, strip, length, zero, find_first, suc, ◌∷◌, keep, ◌==◌, leb, [], ◌||◌, if◌then◌else◌,
  some, none, ltb, ◌&&◌, map, true, take, Text, Option, Bool, List, ℕ,
}
use safe_shield.Corpus.{visible_to, Document, is_null, Tables, ChunkRow}
use safe_shield.Config.{Settings}
use safe_shield.Auth.Models.{is_some}
use safe_shield.Rag.Score.{fused}
use safe_shield.Rag.Order.{sort_by}
use safe_shield.Prelude.Effects.{err, ok, Result}

pub record Postgres (V : Type 0) : Type 0 where
  -- `embedding <=> vector`
  pub distance : V → V → ℕ
  -- `plainto_tsquery('english', text)::text`
  pub plainto_tsquery : Text → Text
  -- `text::tsquery`, null for none
  pub cast_tsquery : Text → Option Text
  -- `tsv @@ query` and `ts_rank_cd(tsv, query)`, with the `tsv` that the trigger keeps
  pub matches : Text → Text → Text → Bool
  pub rank_cd : Text → Text → Text → ℕ

pub record RetrievedChunk : Type 0 where
  pub id : ℕ
  pub document_id : ℕ
  pub filename : Text
  pub page_no : ℕ
  pub section_path : Text
  pub body : Text
  pub token_count : ℕ
  pub dense_rank : Option ℕ
  pub sparse_rank : Option ℕ
  pub score : ℕ

-- `replace(text, '&', '|')`
abbrev pub and_to_or : Text → Text
and_to_or = map (λ c. if c == b'&' then b'|' else c)

abbrev pub in_document : Option ℕ → ℕ → Bool
in_document none d = true
in_document (some wanted) d = d == wanted

abbrev pub owned_or_shared : Option ℕ → Option ℕ → Bool
owned_or_shared none owner = is_null owner
owned_or_shared (some caller) owner = visible_to caller owner

-- `ROW_NUMBER()`, from 1
abbrev pub numbered : {A : Type 0} → ℕ → List A → List (A × ℕ)
numbered n [] = []
numbered n (x ∷ xs) = (x, n) ∷ numbered (suc n) xs

-- `ORDER BY score DESC, token_count DESC`
abbrev pub better : RetrievedChunk → RetrievedChunk → Bool
better a b = ltb b.score a.score || ((b.score == a.score) && leb b.token_count a.token_count)

module _ {V : Type 0} where
  -- The rows that a caller's question may use at all.
  abbrev pub in_scope : Option ℕ → Option ℕ → ChunkRow V → Bool
  in_scope uid doc c = owned_or_shared uid c.user_id && in_document doc c.document_id

  abbrev pub embedded : ChunkRow V → Bool
  embedded c = is_some c.embedding

  -- `LEFT JOIN ... ON x.id = c.id`
  unfoldable pub rank_of : ℕ → List (ChunkRow V × ℕ) → Option ℕ
  rank_of i [] = none
  rank_of i ((c, rank) ∷ rest) = if c.id == i then some rank else rank_of i rest

  abbrev pub ranked :
      Settings
      → List (ChunkRow V × ℕ)
      → List (ChunkRow V × ℕ)
      → ChunkRow V
      → Document
      → RetrievedChunk
  ranked s dn sp c d =
      let dense_rank = rank_of c.id dn in
      let sparse_rank = rank_of c.id sp in
      record {
        id = c.id;
        document_id = c.document_id;
        filename = d.filename;
        page_no = c.page_no;
        section_path = c.section_path;
        body = c.body;
        token_count = c.token_count;
        dense_rank = dense_rank;
        sparse_rank = sparse_rank;
        score = fused s.rrf_k dense_rank sparse_rank;
      }

  -- One row of the join: it needs its document, and one of the two ranks.
  abbrev pub join_row :
      Settings
      → List (ChunkRow V × ℕ)
      → List (ChunkRow V × ℕ)
      → ChunkRow V
      → Option Document
      → List RetrievedChunk
      → List RetrievedChunk
  join_row s dn sp c none rest = rest
  join_row s dn sp c (some d) rest =
      if is_some (rank_of c.id dn) || is_some (rank_of c.id sp)
      then ranked s dn sp c d ∷ rest
      else rest

  -- `FROM chunks c JOIN documents d ... WHERE dn.id IS NOT NULL OR sp.id IS NOT NULL`
  unfoldable pub joined :
      Settings
      → List Document
      → List (ChunkRow V × ℕ)
      → List (ChunkRow V × ℕ)
      → List (ChunkRow V)
      → List RetrievedChunk
  unfolding rank_of fused
  joined s ds dn sp [] = []
  joined s ds dn sp (c ∷ cs) =
      join_row s dn sp c (find_first (λ d. d.id == c.document_id) ds) (joined s ds dn sp cs)

module _ {V : Type 0} (pg : Postgres V) where
  -- A row without embedding never reaches the sort.
  abbrev pub distance_of : V → ChunkRow V → ℕ
  distance_of q c = elim c.embedding [ none ↦ 0 | some v ↦ pg.distance v q ]

  unfoldable pub dense : Tables V → V → Option ℕ → Option ℕ → ℕ → List (ChunkRow V × ℕ)
  dense t qvec uid doc candidates = numbered 1 (
      take candidates (
        sort_by (λ a b. leb (distance_of qvec a) (distance_of qvec b))
          (keep (λ c. in_scope uid doc c && embedded c) t.chunks)))

  unfoldable pub sparse_for : Tables V → Text → Option ℕ → Option ℕ → ℕ → List (ChunkRow V × ℕ)
  sparse_for t query uid doc candidates = numbered 1 (
      take candidates (
        sort_by
          (λ a b.
            leb (pg.rank_cd b.section_path b.body query) (pg.rank_cd a.section_path a.body query))
          (keep (λ c. in_scope uid doc c && pg.matches c.section_path c.body query) t.chunks)))

  unfoldable pub sparse : Tables V → Text → Option ℕ → Option ℕ → ℕ → List (ChunkRow V × ℕ)
  unfolding sparse_for
  sparse t qtext uid doc candidates =
      elim (pg.cast_tsquery (and_to_or (pg.plainto_tsquery qtext))) [
        | none ↦ []
        | some query ↦ sparse_for t query uid doc candidates
      ]

  -- `_HYBRID_SQL`
  unfoldable pub hybrid_sql :
      Settings → Tables V → V → Text → Option ℕ → Option ℕ → ℕ → ℕ → List RetrievedChunk
  unfolding dense sparse joined sort_by
  hybrid_sql s t qvec qtext uid doc candidates limit = take limit (
      sort_by better (
        joined s t.documents (dense t qvec uid doc candidates) (sparse t qtext uid doc candidates)
          t.chunks))

-- What `observe_retrieval` of core/metrics.py records of one retrieval.
pub data Source : Type 0 where
  both dense_only sparse_only : Source

pub record Observation : Type 0 where
  pub chunks : ℕ
  pub top_score : ℕ
  pub contributors : List Source

-- A rank is never 0, so its truth value is that it is there.
abbrev pub source_of : RetrievedChunk → Source
source_of c =
    if is_some c.dense_rank && is_some c.sparse_rank
    then both
    else if is_some c.dense_rank
    then dense_only
    else sparse_only

unfoldable pub observe_retrieval : List RetrievedChunk → Observation
observe_retrieval [] = record { chunks = 0; top_score = 0; contributors = [] }
observe_retrieval (c ∷ cs) = record {
  chunks = length (c ∷ cs);
  top_score = c.score;
  contributors = map source_of (c ∷ cs);
}

-- `value or default`, of an optional number
abbrev pub or_default : Option ℕ → ℕ → ℕ
or_default none d = d
or_default (some zero) d = d
or_default (some (suc n)) d = suc n

-- An embedding provider: one vector for each text, or an exception.
abbrev pub Embed : Type 0 → Type 0
Embed V = List Text → Result (List V)

module _ {V : Type 0} (pg : Postgres V) (s : Settings) (embed : Embed V) (t : Tables V) where
  -- What `retrieve` does with the answer of the provider.
  abbrev pub with_vectors :
      Text
      → Option ℕ
      → Option ℕ
      → Option ℕ
      → Option ℕ
      → Result (List V)
      → Result (List RetrievedChunk × Option Observation)
  with_vectors query uid doc limit candidates (err e) = err e
  with_vectors query uid doc limit candidates (ok []) = ok ([], none)
  with_vectors query uid doc limit candidates (ok (qvec ∷ rest)) =
      let rows =
        hybrid_sql pg s t qvec query uid doc (or_default candidates s.retrieval_candidates)
          (or_default limit s.retrieval_top_k) in
      ok (rows, some (observe_retrieval rows))

  -- The chunks, and the observation if the query ran.
  unfoldable pub retrieve :
      Text
      → Option ℕ
      → Option ℕ
      → Option ℕ
      → Option ℕ
      → Result (List RetrievedChunk × Option Observation)
  unfolding hybrid_sql observe_retrieval
  retrieve text uid doc limit candidates =
      if is_empty (strip text)
      then ok ([], none)
      else with_vectors (strip text) uid doc limit candidates (embed (strip text ∷ []))
