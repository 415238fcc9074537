-- ===== src/Documents/Isolation.antt =====
-- From the upload to the answer: whose documents a question reaches.
use safe_shield.Prelude.{sym, subst, ◌∙◌, ◌≡◌, some, Option, Text, List, ℕ}
use safe_shield.Config.{Settings}
use safe_shield.Chunker.Chunks.{Tokenizer}
use safe_shield.Documents.Lifetime.{lifetime-IsOwned, nothing_stored, Steps, Life}
use safe_shield.Rag.Retrieve.{retrieve, Observation, RetrievedChunk, Embed, Postgres}
use safe_shield.Rag.Scope.{retrieve-InScope, PrimaryKey}
use safe_shield.Prelude.Effects.{ok}
use safe_shield.Rag.Order.{All-In, In}
use safe_shield.Corpus.{MayRead, Document}
use safe_shield.Documents.Owned.{Owner}

module _ {V : Type 0} (s : Settings) (tk : Tokenizer) where
  -- In every state that uploads, deletions and interleaved ingestions lead to from an empty
  -- database, with fresh ids and chunk ids that are a primary key, each chunk that a retrieval
  -- returns to a caller is of a stored document that the caller owns or that is shared.
  pub retrieve_lifetime :
      (files : List (Text × Text)) (l : Life V)
      → Steps s tk (nothing_stored files) l
      → (pg : Postgres V) (embed : Embed V) (text : Text) (caller : ℕ)
        (doc limit candidates : Option ℕ) (rows : List RetrievedChunk) (seen : Option Observation)
      → PrimaryKey l.world.tables.chunks
      → retrieve pg s embed l.world.tables text (some caller) doc limit candidates ≡ ok (rows, seen)
      → (x : RetrievedChunk) → In x rows
      → (d : Document) × In d l.world.tables.documents
        × (d.id ≡ x.document_id)
        × MayRead (some caller) d.user_id
  retrieve_lifetime files l steps pg embed text caller doc limit candidates rows seen key h x i =
      let (c, here, _, _, _, _, _, of_document, read, _) =
        retrieve-InScope pg s l.world.tables (some caller) doc embed text limit candidates rows seen
          key h x i in
      let (owned, _) = lifetime-IsOwned s tk files l steps in
      let (d, j, a, b) =
        All-In (Owner l.world.tables.documents) l.world.tables.chunks c owned here in
      (d, j, a ∙ of_document, subst (MayRead (some caller)) (sym b) read)
