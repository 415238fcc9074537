-- ===== src/Answer/Refusal.antt =====
-- When an answer is refused, and what the counters say of it.
use safe_shield.Prelude.{
  subst, arith, inl, le→leb, inr, is_empty, Bool-cases, ◌≤◌, ◌+◌, ◌∙◌, not, false, ◌*◌, ap, ◌&&◌,
  ◌⊎◌, refl, true, [], none, some, ◌∷◌, ◌≡◌, ◌++◌, Text, Bool, Option, List, ℕ,
}
use safe_shield.Rag.Retrieve.{retrieve, Observation, RetrievedChunk, Embed, Postgres}
use safe_shield.Answer.Synthesize.{
  openai_errors_chat, answer_ttft, no_context_answer, openai_tokens_completion, build_user_prompt,
  openai_tokens_prompt, answer_duration, answers_refused, counted, has_usable_context,
  delta_content, answers_grounded, answers_error, yielded, stream_answer, streaming, rejected,
  usage_steps, token_steps, Step, Frame, outcome, Metric, Completion, relay,
}
use safe_shield.Config.{is_set, Settings}
use safe_shield.Corpus.{Tables}
use safe_shield.Prelude.Effects.{ok, Error}
use safe_shield.Auth.Models.{is_some}
use safe_shield.Answer.Chat.{token_texts}
use safe_shield.Rag.Score.{score_one}
use safe_shield.Rag.Fusion.{rows-IsFused, le-score}
use safe_shield.Rag.Order.{In}

module _ {V : Type 0} (pg : Postgres V) (s : Settings) (embed : Embed V) (t : Tables V)
    (text : Text) (uid doc : Option ℕ) (rows : List RetrievedChunk) (seen : Option Observation)
    (returned : retrieve pg s embed t text uid doc none none ≡ ok (rows, seen))
    (bound : s.min_retrieval_score * (s.rrf_k + s.retrieval_candidates) ≤ score_one) where
  usable :
      (found : List RetrievedChunk)
      → found ≡ rows
      → has_usable_context s found ≡ not (is_empty found)
  unfolding has_usable_context
  usable [] same = refl
  usable (c ∷ cs) same = le→leb s.min_retrieval_score c.score (
      le-score s.min_retrieval_score s.rrf_k s.retrieval_candidates c
        (rows-IsFused pg s embed t text uid doc none none rows seen returned c
          (subst (In c) same (inl refl)))
        bound)

  -- Where the threshold times rrf_k plus the candidates is at most 1, as in the default settings
  -- (0.01 times 90), every chunk that a ranking returns passes the threshold: an answer is refused
  -- only if retrieval found no chunk at all.
  pub has_usable_context-retrieve : has_usable_context s rows ≡ not (is_empty rows)
  has_usable_context-retrieve = usable rows refl

-- The outcomes that are counted.
abbrev pub outcomes : List Step → List Metric
outcomes [] = []
outcomes (yielded t ∷ rest) = outcomes rest
outcomes (counted answers_refused ∷ rest) = answers_refused ∷ outcomes rest
outcomes (counted answers_error ∷ rest) = answers_error ∷ outcomes rest
outcomes (counted answers_grounded ∷ rest) = answers_grounded ∷ outcomes rest
outcomes (counted _ ∷ rest) = outcomes rest

outcomes-append : (a b : List Step) → outcomes (a ++ b) ≡ outcomes a ++ outcomes b
outcomes-append [] b = refl
outcomes-append (yielded t ∷ a) b = outcomes-append a b
outcomes-append (counted answers_refused ∷ a) b = ap (◌∷◌ answers_refused) (outcomes-append a b)
outcomes-append (counted answers_error ∷ a) b = ap (◌∷◌ answers_error) (outcomes-append a b)
outcomes-append (counted answers_grounded ∷ a) b = ap (◌∷◌ answers_grounded) (outcomes-append a b)
outcomes-append (counted answer_duration ∷ a) b = outcomes-append a b
outcomes-append (counted answer_ttft ∷ a) b = outcomes-append a b
outcomes-append (counted openai_errors_chat ∷ a) b = outcomes-append a b
outcomes-append (counted (openai_tokens_prompt n) ∷ a) b = outcomes-append a b
outcomes-append (counted (openai_tokens_completion n) ∷ a) b = outcomes-append a b

outcomes-usage :
    (u : Option (ℕ × ℕ)) (rest : List Step) → outcomes (usage_steps u ++ rest) ≡ outcomes rest
outcomes-usage none rest = refl
outcomes-usage (some (p, c)) rest = refl

outcomes-token :
    (first : Bool) (content : Option Text) (rest : List Step)
    → outcomes (token_steps first content ++ rest) ≡ outcomes rest
outcomes-token first none rest = refl
outcomes-token true (some t) rest = refl
outcomes-token false (some t) rest = refl

outcomes-relay : (first : Bool) (frames : List Frame) → outcomes (relay first frames) ≡ []
unfolding relay
outcomes-relay first [] = refl
outcomes-relay first (f ∷ frames) =
    let content = delta_content f.choices in
    let next = first && not (is_some content) in
    outcomes-usage f.usage (token_steps first content ++ relay next frames)
    ∙ outcomes-token first content (relay next frames)
    ∙ outcomes-relay next frames

-- The outcome that a completed, rejected or broken completion should be counted under.
abbrev pub expected : Completion → List Metric
expected (rejected e) = answers_error ∷ []
expected (streaming frames none) = answers_grounded ∷ []
expected (streaming frames (some e)) = []

outcomes-outcome : (c : Completion) → outcomes (outcome c).steps ≡ expected c
unfolding outcome
outcomes-outcome (rejected e) = refl
outcomes-outcome (streaming frames (some e)) = outcomes-relay true frames
outcomes-outcome (streaming frames none) =
    outcomes-append (relay true frames) (counted answers_grounded ∷ counted answer_duration ∷ [])
    ∙ ap (λ front. front ++ (answers_grounded ∷ [])) (outcomes-relay true frames)

module _ (s : Settings) (create : Text → Completion) (question : Text)
    (chunks : List RetrievedChunk) where
  failed_outcome :
      (c : Completion)
      → (outcome c).failure ≡ none
      → outcomes (outcome c).steps ≡ answers_grounded ∷ []
  unfolding outcome
  failed_outcome (rejected e) h = cc
  failed_outcome (streaming frames (some e)) h = cc
  failed_outcome (streaming frames none) h = outcomes-outcome (streaming frames none)

  -- An answer that comes to its end is counted once, as grounded if the context was usable and as
  -- refused if not; a refusal is the one fixed sentence.
  pub stream_answer-outcomes :
      (stream_answer s create question chunks).failure ≡ none
      → ((has_usable_context s chunks ≡ true)
          × (outcomes (stream_answer s create question chunks).steps ≡ answers_grounded ∷ []))
        ⊎ ((has_usable_context s chunks ≡ false)
            × (outcomes (stream_answer s create question chunks).steps ≡ answers_refused ∷ [])
            × (token_texts (stream_answer s create question chunks).steps ≡ no_context_answer ∷ []))
  unfolding stream_answer
  stream_answer-outcomes h = elim (Bool-cases (has_usable_context s chunks)) [
    | inr e ↦ inr (e, rw e refl, rw e refl)
    | inl e ↦ elim (Bool-cases (is_set s.openai_api_key)) [
      | inr k ↦ absurd (ground arith)
      | inl k ↦ inl (
        e,
        rw e (
            rw k (failed_outcome (create (build_user_prompt question chunks)) (rw k at rw e at h))),
      )
    ]
  ]

  -- With a usable context and an API key, a stream that the model breaks off ends in the model's
  -- exception, and no outcome at all is counted.
  pub stream_answer-broken :
      (frames : List Frame) (e : Error)
      → has_usable_context s chunks ≡ true
      → is_set s.openai_api_key ≡ true
      → create (build_user_prompt question chunks) ≡ streaming frames (some e)
      → (outcomes (stream_answer s create question chunks).steps ≡ [])
        × ((stream_answer s create question chunks).failure ≡ some e)
  unfolding stream_answer outcome
  stream_answer-broken frames e usable key broke =
      rw usable (rw key (rw broke (outcomes-relay true frames, refl)))
