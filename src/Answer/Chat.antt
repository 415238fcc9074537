-- ===== src/Answer/Chat.antt =====
-- backend/app/api/chat.py: both endpoints. An event is what `_sse` writes as text (`json.dumps` of
-- the standard library is left out). Rate limits and request validation stand before the handlers.
use safe_shield.Prelude.{
  join, ◌&&◌, true, ◌++◌, none, ◌==◌, [], if◌then◌else◌, some, ◌∷◌, find_first, Option, codes, Bool,
  List, Text, ℕ,
}
use safe_shield.Answer.Synthesize.{
  counted, yielded, Completion, Stream, has_usable_context, Citation, Step, build_citations,
  stream_answer,
}
use safe_shield.Rag.Retrieve.{Observation, retrieve, Embed, RetrievedChunk, Postgres}
use safe_shield.Prelude.Effects.{ok, err, Result, http, Error}
use safe_shield.Corpus.{visible_to, Tables, Document}
use safe_shield.Config.{Settings}
use safe_shield.Auth.Models.{is_some}

pub record ChatRequest : Type 0 where
  pub question : Text
  pub document_id : Option ℕ

pub record ChatResponse : Type 0 where
  pub answer : Text
  pub citations : List Citation
  pub grounded : Bool

pub data Event : Type 0 where
  citations_event : Bool → List Citation → Event
  token_event : Text → Event
  error_event : Text → Event
  done_event : Bool → Event

abbrev pub document_not_found : Error
document_not_found = http 404 (codes "Document not found")

abbrev pub generation_failed : Text
generation_failed = codes "Answer generation failed. Please try again."

-- `select(Document).where(id == wanted, or_(user_id == caller, user_id.is_(None)))`
abbrev pub visible_document : List Document → ℕ → ℕ → Option Document
visible_document ds caller wanted =
    find_first (λ d. (d.id == wanted) && visible_to caller d.user_id) ds

module _ {V : Type 0} (pg : Postgres V) (s : Settings) (embed : Embed V) (t : Tables V) where
  abbrev pub chunks_of :
      Result (List RetrievedChunk × Option Observation) → Result (List RetrievedChunk)
  chunks_of (ok (rows, seen)) = ok rows
  chunks_of (err e) = err e

  -- The requested document must be visible, if one was requested.
  abbrev pub may_ask : Option ℕ → ℕ → Bool
  may_ask none caller = true
  may_ask (some wanted) caller = is_some (visible_document t.documents caller wanted)

  unfoldable pub gather_context : ChatRequest → ℕ → Result (List RetrievedChunk)
  unfolding retrieve
  gather_context payload user_id =
      if may_ask payload.document_id user_id
      then chunks_of
          (retrieve pg s embed t payload.question (some user_id) payload.document_id none none)
      else err document_not_found

-- Tokens go out as they come; what is counted in between is not sent.
abbrev pub token_events : List Step → List Event
token_events [] = []
token_events (yielded token ∷ rest) = token_event token ∷ token_events rest
token_events (counted m ∷ rest) = token_events rest

abbrev pub last_event : Bool → Option Error → Event
last_event grounded none = done_event grounded
last_event grounded (some e) = error_event generation_failed

unfoldable pub cited : Bool → List RetrievedChunk → List Citation
unfolding build_citations
cited grounded chunks = if grounded then build_citations 400 chunks else []

unfoldable pub events : Settings → (Text → Completion) → Text → List RetrievedChunk → List Event
unfolding cited stream_answer has_usable_context
events s create question chunks =
    let grounded = has_usable_context s chunks in
    let answer = stream_answer s create question chunks in
    citations_event grounded (cited grounded chunks)
    ∷ (token_events answer.steps ++ (last_event grounded answer.failure ∷ []))

abbrev pub token_texts : List Step → List Text
token_texts [] = []
token_texts (yielded token ∷ rest) = token ∷ token_texts rest
token_texts (counted m ∷ rest) = token_texts rest

unfoldable pub respond : Bool → List RetrievedChunk → Stream → Result ChatResponse
unfolding cited
respond grounded chunks answer = elim answer.failure [
  | some e ↦ err (http 502 generation_failed)
  | none ↦ ok (record {
    answer = join [] (token_texts answer.steps);
    citations = cited grounded chunks;
    grounded = grounded;
  })
]

module _ {V : Type 0} (pg : Postgres V) (s : Settings) (embed : Embed V)
    (create : Text → Completion) (t : Tables V) where
  unfoldable pub stream_response : ChatRequest → Result (List RetrievedChunk) → Result (List Event)
  unfolding events
  stream_response payload (err e) = err e
  stream_response payload (ok chunks) = ok (events s create payload.question chunks)

  unfoldable pub chat : ChatRequest → ℕ → Result (List Event)
  unfolding stream_response gather_context
  chat payload user_id = stream_response payload (gather_context pg s embed t payload user_id)

  unfoldable pub sync_response : ChatRequest → Result (List RetrievedChunk) → Result ChatResponse
  unfolding respond stream_answer has_usable_context
  sync_response payload (err e) = err e
  sync_response payload (ok chunks) =
      respond (has_usable_context s chunks) chunks (stream_answer s create payload.question chunks)

  unfoldable pub chat_sync : ChatRequest → ℕ → Result ChatResponse
  unfolding sync_response gather_context
  chat_sync payload user_id = sync_response payload (gather_context pg s embed t payload user_id)
