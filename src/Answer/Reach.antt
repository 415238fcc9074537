-- ===== src/Answer/Reach.antt =====
-- What a caller can reach through the chat endpoints.
use safe_shield.Prelude.{
  take, strip, sym, ◌∙◌, ==_iff, ◌&&◌, ◌==◌, find_first-test, false, true, none, refl, Bool-cases,
  [], arith, suc, none, Option-cases, subst, inr, ap, some, inl, ◌∷◌, Option, true, ◌≡◌, map, Text,
  Bool, List, ℕ,
}
use safe_shield.Answer.Synthesize.{
  stream_answer, has_usable_context, Stream, cite, Completion, build_citations, Citation,
}
use safe_shield.Rag.Retrieve.{retrieve, Observation, numbered, Embed, RetrievedChunk, Postgres}
use safe_shield.Answer.Chat.{
  visible_document, stream_response, may_ask, chunks_of, document_not_found, chat, ChatResponse,
  ChatRequest, respond, sync_response, gather_context, chat_sync, cited,
}
use safe_shield.Config.{Settings}
use safe_shield.Rag.Order.{find_first-In, In}
use safe_shield.Corpus.{visible_to_iff, visible_to, MayRead, ChunkRow, Document, Tables}
use safe_shield.Rag.Scope.{retrieve-InScope, PrimaryKey}
use safe_shield.Prelude.Effects.{err, ok, Result}

-- What a source shows of a retrieved chunk, its excerpt cut to so many characters.
record Shows (width : ℕ) (x : Citation) (c : RetrievedChunk) : Type 0 where
  of_document : x.document_id ≡ c.document_id
  named : x.filename ≡ c.filename
  of_page : x.page_no ≡ c.page_no
  of_section : x.section_path ≡ c.section_path
  excerpt_of : x.excerpt ≡ strip (take width c.body)

In-cite :
    (width n : ℕ) (x : Citation) (chunks : List RetrievedChunk)
    → In x (map (cite width) (numbered n chunks))
    → (c : RetrievedChunk) × In c chunks × Shows width x c
In-cite width n x [] i = absurd i
In-cite width n x (c ∷ cs) (inl e) = (
  c,
  inl refl,
  record {
    of_document = ap (λ y. y.document_id) e;
    named = ap (λ y. y.filename) e;
    of_page = ap (λ y. y.page_no) e;
    of_section = ap (λ y. y.section_path) e;
    excerpt_of = ap (λ y. y.excerpt) e;
  },
)
In-cite width n x (c ∷ cs) (inr i) =
    let (d, there, same) = In-cite width (suc n) x cs i in (d, inr there, same)

In-cited :
    (grounded : Bool) (x : Citation) (chunks : List RetrievedChunk)
    → In x (cited grounded chunks)
    → (c : RetrievedChunk) × In c chunks × Shows 400 x c
unfolding cited build_citations
In-cited true x chunks i = In-cite 400 1 x chunks i
In-cited false x chunks i = absurd i

module _ {V : Type 0} (pg : Postgres V) (s : Settings) (embed : Embed V)
    (create : Text → Completion) (t : Tables V) where
  -- A stored chunk, of the shared corpus or of the caller, and of the document asked for, if one was,
  -- that the source shows: its page, its section, the first 400 characters of its text without the
  -- white space around them, and the id and the name of its document.
  abbrev pub Allowed : Option ℕ → ℕ → Citation → Type 0
  Allowed doc caller x =
      (c : ChunkRow V) × In c t.chunks
      × (x.document_id ≡ c.document_id)
      × (x.page_no ≡ c.page_no)
      × (x.section_path ≡ c.section_path)
      × (x.excerpt ≡ strip (take 400 c.body))
      × ((d : Document) × In d t.documents × (d.id ≡ c.document_id) × (x.filename ≡ d.filename))
      × MayRead (some caller) c.user_id
      × ((wanted : ℕ) → doc ≡ some wanted → c.document_id ≡ wanted)

  gathered :
      (payload : ChatRequest) (caller : ℕ) (chunks : List RetrievedChunk)
      → gather_context pg s embed t payload caller ≡ ok chunks
      → (seen : Option Observation) × (retrieve pg s embed t payload.question
            (some caller)
            payload.document_id
            none
            none
          ≡ ok (chunks, seen))
  unfolding gather_context
  gathered payload caller chunks h =
      elim (Bool-cases (may_ask pg s embed t payload.document_id caller)) [
        | inr e ↦ absurd (ground arith)
        | inl e ↦
            of_result
              (retrieve pg s embed t payload.question (some caller) payload.document_id none none)
              (rw e at h)
      ]
    where
      of_result :
          (r : Result (List RetrievedChunk × Option Observation))
          → chunks_of pg s embed t r ≡ ok chunks
          → (seen : Option Observation) × (r ≡ ok (chunks, seen))
      of_result (err x) same = cc
      of_result (ok (rows, seen)) same = (seen, cc)

  responded :
      (payload : ChatRequest) (context : Result (List RetrievedChunk)) (response : ChatResponse)
      → sync_response pg s embed create t payload context ≡ ok response
      → (chunks : List RetrievedChunk) × (g : Bool) × (context ≡ ok chunks)
        × (response.citations ≡ cited g chunks)
  unfolding sync_response respond
  responded payload (err e) response h = cc
  responded payload (ok chunks) response h =
      let g = has_usable_context s chunks in
      (chunks, g, refl, from_answer g (stream_answer s create payload.question chunks) h)
    where
      from_answer :
          (g : Bool) (answer : Stream)
          → respond g chunks answer ≡ ok response
          → response.citations ≡ cited g chunks
      from_answer g answer same = elim (Option-cases answer.failure) [
        | inl e ↦ ground arith
        | inr (x, e) ↦ absurd (ground arith)
      ]

  -- Where chunk ids are a primary key, every source of an answer shows a stored chunk that the
  -- caller may read, of the requested document if there was one: its document's id and name, its
  -- page, its section and the beginning of its text.
  pub chat_sync-Allowed :
      (payload : ChatRequest) (caller : ℕ) (response : ChatResponse)
      → PrimaryKey t.chunks
      → chat_sync pg s embed create t payload caller ≡ ok response
      → (x : Citation) → In x response.citations
      → Allowed payload.document_id caller x
  unfolding chat_sync
  chat_sync-Allowed payload caller response key h x i =
      let (chunks, g, context, sources) =
        responded payload (gather_context pg s embed t payload caller) response h in
      let (seen, returned) = gathered payload caller chunks context in
      let (r, place, shows) = In-cited g x chunks (subst (In x) sources i) in
      let (c, here, _, body, page, section, (d, stored, its, name), of_document, read, wanted) =
        retrieve-InScope pg s t (some caller) payload.document_id embed payload.question none none
          chunks seen key returned r place in
      (
        c,
        here,
        shows.of_document ∙ sym of_document,
        shows.of_page ∙ sym page,
        shows.of_section ∙ sym section,
        shows.excerpt_of ∙ ap (λ b. strip (take 400 b)) (sym body),
        (d, stored, its, shows.named ∙ sym name),
        read,
        wanted,
      )

  -- A question within a document that is not stored, or that is another user's, gets the same 404
  -- from both endpoints.
  pub chat_unreadable :
      (question : Text) (caller wanted : ℕ)
      → ((d : Document) → In d t.documents → d.id ≡ wanted → ¬ MayRead (some caller) d.user_id)
      → (chat pg s embed create t (record { question = question; document_id = some wanted }) caller
          ≡ err document_not_found)
        × (chat_sync pg s embed create t
              (record { question = question; document_id = some wanted })
              caller
            ≡ err document_not_found)
  unfolding chat chat_sync gather_context stream_response sync_response
  chat_unreadable question caller wanted hidden =
      elim (Option-cases (visible_document t.documents caller wanted)) [
        | inl e ↦ (rw e refl, rw e refl)
        | inr (d, e) ↦
            let test =
              find_first-test (λ d. (d.id == wanted) && visible_to caller d.user_id) t.documents d
                e in
            absurd (
              hidden d (find_first-In _ t.documents d e) ((==_iff d.id wanted).0 (ground arith))
                ((visible_to_iff caller d.user_id).0 (ground arith)))
      ]
