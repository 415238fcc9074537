-- ===== src/Rag/Tests.antt =====
-- Concrete runs of the retrieval.
use safe_shield.Prelude.{
  inr, inl, refl, arith, ◌<◌, ◌≡◌, starts_with, [], length, ◌-◌, some, codes, ltb, map, ◌∷◌, Text,
  List, if◌then◌else◌, none, Option, ℕ,
}
use safe_shield.Rag.Retrieve.{
  dense_only, both, Observation, RetrievedChunk, retrieve, Embed, Postgres,
}
use safe_shield.Corpus.{ready, ChunkRow, Document, Tables}
use safe_shield.Prelude.Effects.{ok}
use safe_shield.Config.{default_settings}
use safe_shield.Rag.Scope.{retrieve-InScope, PrimaryKey, InScope}
use safe_shield.Rag.Fusion.{both-above-one}
use safe_shield.Rag.Score.{reciprocal}

-- A database whose vectors are numbers, and whose text match is that the body starts alike.
abbrev pub toy_postgres : Postgres ℕ
toy_postgres = record {
  distance = λ a b. if ltb a b then b - a else a - b;
  plainto_tsquery = λ t. t;
  cast_tsquery = some;
  matches = λ path body query. starts_with query body;
  rank_cd = λ path body query. length body;
}

abbrev pub stored_document : ℕ → Option ℕ → Document
stored_document i owner = record {
  id = i;
  user_id = owner;
  filename = codes "p.pdf";
  title = none;
  status = ready;
  error = none;
  page_count = 1;
  chunk_count = 1;
  size_bytes = 9;
  created_at = i;
}

abbrev pub stored_chunk : ℕ → ℕ → Option ℕ → Text → Option ℕ → ChunkRow ℕ
stored_chunk i d owner text vector = record {
  id = i;
  document_id = d;
  user_id = owner;
  ordinal = 0;
  page_no = 1;
  section_path = [];
  content = text;
  body = text;
  token_count = length text;
  embedding = vector;
}

-- A shared document, one of user 1 and one of user 2.
abbrev pub toy_tables : Tables ℕ
toy_tables = record {
  documents = stored_document 1 none ∷ stored_document 2 (some 1) ∷ stored_document 3 (some 2) ∷ [];
  chunks =
      stored_chunk 10 1 none (codes "room") (some 5)
      ∷ stored_chunk 20 2 (some 1) (codes "rent") (some 3)
      ∷ stored_chunk 30 3 (some 2) (codes "room") (some 4)
      ∷ [];
}

abbrev pub toy_embed : Embed ℕ
toy_embed texts = ok (map length texts)

-- What user 1 gets for "room": the shared chunk, found by both rankings, and the caller's own.
abbrev pub shared_row : RetrievedChunk
shared_row = record {
  id = 10;
  document_id = 1;
  filename = codes "p.pdf";
  page_no = 1;
  section_path = [];
  body = codes "room";
  token_count = 4;
  dense_rank = some 1;
  sparse_rank = some 1;
  score = 3278688524590163934;
}

abbrev pub own_row : RetrievedChunk
own_row = record {
  id = 20;
  document_id = 2;
  filename = codes "p.pdf";
  page_no = 1;
  section_path = [];
  body = codes "rent";
  token_count = 4;
  dense_rank = some 2;
  sparse_rank = none;
  score = 1612903225806451613;
}

abbrev pub toy_rows : List RetrievedChunk
toy_rows = shared_row ∷ own_row ∷ []

abbrev pub toy_seen : Observation
toy_seen = record {
  chunks = 2;
  top_score = 3278688524590163934;
  contributors = both ∷ dense_only ∷ [];
}

pub toy_run :
    retrieve toy_postgres default_settings toy_embed toy_tables
      (codes "room")
      (some 1)
      none
      none
      none
    ≡ ok (toy_rows, some toy_seen)
unfolding retrieve reciprocal
toy_run = refl

pub toy_key : PrimaryKey toy_tables.chunks
toy_key a b i j same = ground arith

retrieve-InScope_example : InScope toy_postgres default_settings toy_tables (some 1) none own_row
retrieve-InScope_example =
    retrieve-InScope toy_postgres default_settings toy_tables (some 1) none toy_embed (codes "room")
      none none toy_rows (some toy_seen) toy_key toy_run own_row (inr (inl refl))

both-above-one_example : own_row.score < shared_row.score
both-above-one_example =
    both-above-one toy_postgres default_settings toy_embed toy_tables (codes "room") (some 1) none
      none none toy_rows (some toy_seen) toy_run refl (omega arith) shared_row own_row (inl refl)
      (inr (inl refl)) refl refl (inr refl)
