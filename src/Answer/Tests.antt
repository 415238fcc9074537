-- ===== src/Answer/Tests.antt =====
-- Concrete runs of the chat endpoints, on the tables of Rag.Tests.
use safe_shield.Prelude.{
  ap, inr, arith, false, inl, ◌⊎◌, refl, true, [], none, some, ◌≡◌, ◌∷◌, codes, Text, List,
}
use safe_shield.Config.{default_settings, Settings}
use safe_shield.Answer.Chat.{
  token_texts, Event, document_not_found, ChatResponse, chat, chat_sync, ChatRequest,
}
use safe_shield.Corpus.{MayRead, Document}
use safe_shield.Answer.Refusal.{stream_answer-outcomes, outcomes}
use safe_shield.Answer.Synthesize.{
  no_context_answer, answers_refused, answers_grounded, cite, streaming, Frame, Completion,
  has_usable_context, stream_answer,
}
use safe_shield.Prelude.Effects.{integrity, ok, err, Error}
use safe_shield.Answer.Reach.{chat_unreadable, chat_sync-Allowed, Allowed}
use safe_shield.Rag.Tests.{
  toy_key, own_row, shared_row, toy_tables, toy_embed, toy_postgres, toy_rows,
}
use safe_shield.Rag.Order.{In}
use safe_shield.Answer.Client.{chat-chat_sync, waiting, receive_all, reply}
use safe_shield.Rag.Score.{reciprocal}

abbrev live_settings : Settings
live_settings = record default_settings { openai_api_key = some (codes "key") }

abbrev frame : Text → Frame
frame content = record { usage = none; choices = some (some content) ∷ [] }

abbrev two_frames : List Frame
two_frames = frame (codes "Yes ") ∷ frame (codes "[1].") ∷ []

abbrev model : Text → Completion
model prompt = streaming two_frames none

abbrev broken_model : Text → Completion
broken_model prompt = streaming two_frames (some integrity)

abbrev question : ChatRequest
question = record { question = codes "room"; document_id = none }

abbrev answered : ChatResponse
answered = record {
  answer = codes "Yes [1].";
  citations = cite 400 (shared_row, 1) ∷ cite 400 (own_row, 2) ∷ [];
  grounded = true;
}

sync_run : chat_sync toy_postgres live_settings toy_embed model toy_tables question 1 ≡ ok answered
unfolding chat_sync reciprocal
sync_run = refl

chat-chat_sync_example :
    ((e : Error) × (chat toy_postgres live_settings toy_embed model toy_tables question 1 ≡ err e)
      × (chat_sync toy_postgres live_settings toy_embed model toy_tables question 1 ≡ err e))
    ⊎ ((es : List Event) × (chat toy_postgres live_settings toy_embed model toy_tables question 1
          ≡ ok es)
        × (reply (receive_all waiting es)
            ≡ some (chat_sync toy_postgres live_settings toy_embed model toy_tables question 1)))
chat-chat_sync_example =
    chat-chat_sync toy_postgres live_settings toy_embed model toy_tables question 1

chat_sync-Allowed_example :
    Allowed toy_postgres live_settings toy_embed model toy_tables none 1 (cite 400 (own_row, 2))
chat_sync-Allowed_example =
    chat_sync-Allowed toy_postgres live_settings toy_embed model toy_tables question 1 answered
      toy_key sync_run (cite 400 (own_row, 2)) (inr (inl refl))

hidden_3 : (d : Document) → In d toy_tables.documents → d.id ≡ 3 → ¬ MayRead (some 1) d.user_id
hidden_3 d (inl e) same read = absurd (omega (arith, ap (λ x. x.id) e))
hidden_3 d (inr (inl e)) same read = absurd (omega (arith, ap (λ x. x.id) e))
hidden_3 d (inr (inr (inl e))) same (inl shared) = ground arith
hidden_3 d (inr (inr (inl e))) same (inr (u, a, b)) = ground arith
hidden_3 d (inr (inr (inr x))) same read = absurd x

chat_unreadable_example :
    (chat toy_postgres live_settings toy_embed model toy_tables
        (record { question = codes "room"; document_id = some 3 })
        1
      ≡ err document_not_found)
    × (chat_sync toy_postgres live_settings toy_embed model toy_tables
          (record { question = codes "room"; document_id = some 3 })
          1
        ≡ err document_not_found)
chat_unreadable_example =
    chat_unreadable toy_postgres live_settings toy_embed model toy_tables (codes "room") 1 3
      hidden_3

outcomes_run : (stream_answer live_settings model (codes "room") toy_rows).failure ≡ none
unfolding stream_answer
outcomes_run = refl

stream_answer-outcomes_example :
    ((has_usable_context live_settings toy_rows ≡ true)
      × (outcomes (stream_answer live_settings model (codes "room") toy_rows).steps
          ≡ answers_grounded ∷ []))
    ⊎ ((has_usable_context live_settings toy_rows ≡ false)
        × (outcomes (stream_answer live_settings model (codes "room") toy_rows).steps
            ≡ answers_refused ∷ [])
        × (token_texts (stream_answer live_settings model (codes "room") toy_rows).steps
            ≡ no_context_answer ∷ []))
stream_answer-outcomes_example =
    stream_answer-outcomes live_settings model (codes "room") toy_rows outcomes_run

usable_run : has_usable_context live_settings toy_rows ≡ true
unfolding has_usable_context
usable_run = refl
