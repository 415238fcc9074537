-- ===== src/Answer/Client.antt =====
-- What a client makes of the event stream of /api/chat, and that it is what /api/chat/sync returns.
use safe_shield.Prelude.{
  false, true, inr, inl, ◌⊎◌, ◌∙◌, true, none, refl, ap, some, sym, [], ◌≡◌, join, ◌++◌, ◌∷◌,
  Option, Bool, Text, List, ℕ,
}
use safe_shield.Rag.Retrieve.{Embed, RetrievedChunk, Postgres}
use safe_shield.Answer.Chat.{
  sync_response, stream_response, token_texts, gather_context, generation_failed, ChatRequest,
  done_event, chat_sync, chat, respond, error_event, cited, last_event, token_event, token_events,
  ChatResponse, citations_event, Event, events,
}
use safe_shield.Config.{Settings}
use safe_shield.Answer.Synthesize.{
  stream_answer, yielded, has_usable_context, counted, Step, Stream, Completion, Citation,
}
use safe_shield.Prelude.Effects.{http, err, ok, Error, Result}
use safe_shield.Corpus.{Tables}
use safe_shield.Auth.Models.{}

-- A reader of the stream. It waits for the sources, collects the text, and ends.
pub data Reader : Type 0 where
  waiting : Reader
  reading : Bool → List Citation → Text → Reader
  finished : ChatResponse → Reader
  broken : Text → Reader
  out_of_order : Reader

abbrev pub finish : Bool → Bool → List Citation → Text → Reader
finish true true cs text = finished (record { answer = text; citations = cs; grounded = true })
finish false false cs text = finished (record { answer = text; citations = cs; grounded = false })
finish _ _ cs text = out_of_order

abbrev pub receive : Reader → Event → Reader
receive waiting (citations_event g cs) = reading g cs []
receive (reading g cs text) (token_event t) = reading g cs (text ++ t)
receive (reading g cs text) (error_event m) = broken m
receive (reading g cs text) (done_event h) = finish g h cs text
receive _ _ = out_of_order

abbrev pub receive_all : Reader → List Event → Reader
receive_all r [] = r
receive_all r (e ∷ es) = receive_all (receive r e) es

-- The response of the other endpoint that a reader at the end stands for.
abbrev pub reply : Reader → Option (Result ChatResponse)
reply (finished response) = some (ok response)
reply (broken message) = some (err (http 502 message))
reply _ = none

append_nil : (t : Text) → t ++ [] ≡ t
append_nil [] = refl
append_nil (c ∷ t) = ap (◌∷◌ c) (append_nil t)

append_assoc : (a b c : Text) → (a ++ b) ++ c ≡ a ++ (b ++ c)
append_assoc [] b c = refl
append_assoc (x ∷ a) b c = ap (◌∷◌ x) (append_assoc a b c)

join_cons : (t : Text) (ts : List Text) → join [] (t ∷ ts) ≡ t ++ join [] ts
join_cons t [] = sym (append_nil t)
join_cons t (u ∷ ts) = refl

collected : Bool → List Citation → Text → Option Error → Option (Result ChatResponse)
collected g cs text none = some (ok (record { answer = text; citations = cs; grounded = g }))
collected g cs text (some e) = some (err (http 502 generation_failed))

reply-last :
    (g : Bool) (cs : List Citation) (text : Text) (failure : Option Error)
    → reply (receive (reading g cs text) (last_event g failure)) ≡ collected g cs text failure
unfolding collected
reply-last true cs text none = refl
reply-last false cs text none = refl
reply-last g cs text (some e) = refl

reply-tokens :
    (g : Bool) (cs : List Citation) (text : Text) (steps : List Step) (failure : Option Error)
    → reply (receive_all (reading g cs text) (token_events steps ++ (last_event g failure ∷ [])))
      ≡ collected g cs (text ++ join [] (token_texts steps)) failure
reply-tokens g cs text [] failure = rw (append_nil text) (reply-last g cs text failure)
reply-tokens g cs text (counted m ∷ steps) failure = reply-tokens g cs text steps failure
reply-tokens g cs text (yielded t ∷ steps) failure =
    reply-tokens g cs (text ++ t) steps failure
    ∙ ap (λ whole. collected g cs whole failure)
        (append_assoc text t (join [] (token_texts steps))
          ∙ ap (λ rest. text ++ rest) (sym (join_cons t (token_texts steps))))

collected-respond :
    (g : Bool) (chunks : List RetrievedChunk) (answer : Stream) (failure : Option Error)
    → answer.failure ≡ failure
    → collected g (cited g chunks) (join [] (token_texts answer.steps)) failure
      ≡ some (respond g chunks answer)
unfolding collected respond
collected-respond g chunks answer none e = rw e refl
collected-respond g chunks answer (some x) e = rw e refl

pub reply-events :
    (s : Settings) (create : Text → Completion) (question : Text) (chunks : List RetrievedChunk)
    → reply (receive_all waiting (events s create question chunks))
      ≡ some (respond (has_usable_context s chunks) chunks (stream_answer s create question chunks))
unfolding events
reply-events s create question chunks =
    let g = has_usable_context s chunks in
    let answer = stream_answer s create question chunks in
    reply-tokens g (cited g chunks) [] answer.steps answer.failure
    ∙ collected-respond g chunks answer answer.failure refl

module _ {V : Type 0} (pg : Postgres V) (s : Settings) (embed : Embed V)
    (create : Text → Completion) (t : Tables V) where
  -- The two endpoints agree. Either both refuse the request with one error, or the stream is in
  -- order for a reader that expects the sources, then tokens, then one end, and what it ends with is
  -- what the other endpoint answers: the same text, sources and mark, or a broken stream for the 502.
  pub chat-chat_sync :
      (payload : ChatRequest) (caller : ℕ)
      → ((e : Error) × (chat pg s embed create t payload caller ≡ err e)
          × (chat_sync pg s embed create t payload caller ≡ err e))
        ⊎ ((es : List Event) × (chat pg s embed create t payload caller ≡ ok es)
            × (reply (receive_all waiting es)
                ≡ some (chat_sync pg s embed create t payload caller)))
  unfolding chat chat_sync stream_response sync_response
  chat-chat_sync payload caller = on_context (gather_context pg s embed t payload caller)
    where
      on_context :
          (context : Result (List RetrievedChunk))
          → ((e : Error) × (stream_response pg s embed create t payload context ≡ err e)
              × (sync_response pg s embed create t payload context ≡ err e))
            ⊎ ((es : List Event) × (stream_response pg s embed create t payload context ≡ ok es)
                × (reply (receive_all waiting es)
                    ≡ some (sync_response pg s embed create t payload context)))
      on_context (err e) = inl (e, refl, refl)
      on_context (ok chunks) = inr (
        events s create payload.question chunks,
        refl,
        reply-events s create payload.question chunks,
      )
