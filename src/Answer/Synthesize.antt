-- ===== src/Answer/Synthesize.antt =====
-- backend/app/rag/synthesize.py. A generator is the list of what it yields and counts, in order,
-- with the exception that ended it, if one did. The model behind the chat client is a parameter; the
-- values of timers are left out.
use safe_shield.Prelude.{
  zero, ◌%◌, ◌/◌, ◌+◌, true, none, is_empty, take, ltb, ◌&&◌, some, leb, join, not, strip, suc,
  ◌++◌, if◌then◌else◌, false, map, codes, [], Bool, List, Option, Text, ◌∷◌, ℕ,
}
use safe_shield.Config.{is_set, Settings}
use safe_shield.Rag.Retrieve.{numbered, RetrievedChunk}
use safe_shield.Prelude.Effects.{runtime, Error}
use safe_shield.Auth.Models.{is_some}

pub record Citation : Type 0 where
  pub index : ℕ
  pub document_id : ℕ
  pub filename : Text
  pub page_no : ℕ
  pub section_path : Text
  pub excerpt : Text

abbrev pub cite : ℕ → RetrievedChunk × ℕ → Citation
cite excerpt_chars (c, i) = record {
  index = i;
  document_id = c.document_id;
  filename = c.filename;
  page_no = c.page_no;
  section_path = c.section_path;
  excerpt = strip (take excerpt_chars c.body);
}

unfoldable pub build_citations : ℕ → List RetrievedChunk → List Citation
build_citations excerpt_chars chunks = map (cite excerpt_chars) (numbered 1 chunks)

-- `str(n)`: a number below ten is one digit.
abbrev pub digits : ℕ → ℕ → Text → Text
digits zero n rest = rest
digits (suc fuel) n rest = elim (ltb n 10) [
  | true ↦ (48 + n) ∷ rest
  | false ↦ digits fuel (n / 10) ((48 + n % 10) ∷ rest)
]

abbrev pub decimal : ℕ → Text
decimal n = digits (suc n) n []

abbrev pub where_found : RetrievedChunk → Text
where_found c =
    c.filename
    ++ (codes ", page "
        ++ (decimal c.page_no
            ++ (if is_empty c.section_path then [] else codes ", section: " ++ c.section_path)))

-- One numbered excerpt.
abbrev pub excerpt_block : RetrievedChunk × ℕ → Text
excerpt_block (c, i) =
    codes "[" ++ (decimal i ++ (codes "] (" ++ (where_found c ++ (codes ")\n" ++ c.body))))

abbrev pub excerpt_blocks : List RetrievedChunk → List Text
excerpt_blocks chunks = map excerpt_block (numbered 1 chunks)

abbrev pub build_user_prompt : Text → List RetrievedChunk → Text
build_user_prompt question chunks =
    codes "Excerpts from the policy documents:\n\n"
    ++ (join (codes "\n\n") (excerpt_blocks chunks) ++ (codes "\n\n---\n\nQuestion: " ++ question))

abbrev pub no_context_answer : Text
no_context_answer = codes "I couldn't find this in the provided documents."

unfoldable pub has_usable_context : Settings → List RetrievedChunk → Bool
has_usable_context s [] = false
has_usable_context s (c ∷ cs) = leb s.min_retrieval_score c.score

-- One frame of the upstream stream: its usage, and the delta of each choice.
pub record Frame : Type 0 where
  pub usage : Option (ℕ × ℕ)
  pub choices : List (Option (Option Text))

-- What the chat client answers: an exception, or frames and the exception that broke them off.
pub data Completion : Type 0 where
  rejected : Error → Completion
  streaming : List Frame → Option Error → Completion

-- The Prometheus series that `stream_answer` touches.
pub data Metric : Type 0 where
  answers_refused answers_error answers_grounded : Metric
  answer_duration answer_ttft openai_errors_chat : Metric
  openai_tokens_prompt openai_tokens_completion : ℕ → Metric

pub data Step : Type 0 where
  yielded : Text → Step
  counted : Metric → Step

pub record Stream : Type 0 where
  pub steps : List Step
  pub failure : Option Error

abbrev pub usage_steps : Option (ℕ × ℕ) → List Step
usage_steps none = []
usage_steps (some (prompt, completion)) =
    counted (openai_tokens_prompt prompt) ∷ counted (openai_tokens_completion completion) ∷ []

-- `event.choices[0].delta.content`, where there is some.
abbrev pub delta_content : List (Option (Option Text)) → Option Text
delta_content (some (some content) ∷ rest) = if is_empty content then none else some content
delta_content _ = none

abbrev pub token_steps : Bool → Option Text → List Step
token_steps first_token none = []
token_steps first_token (some content) =
    if first_token then counted answer_ttft ∷ yielded content ∷ [] else yielded content ∷ []

-- `async for event in stream`
unfoldable pub relay : Bool → List Frame → List Step
relay first_token [] = []
relay first_token (event ∷ rest) =
    let content = delta_content event.choices in
    usage_steps event.usage
    ++ (token_steps first_token content ++ relay (first_token && not (is_some content)) rest)

unfoldable pub outcome : Completion → Stream
unfolding relay
outcome (rejected e) = record {
  steps = counted openai_errors_chat ∷ counted answers_error ∷ [];
  failure = some e;
}
outcome (streaming frames (some e)) = record { steps = relay true frames; failure = some e }
outcome (streaming frames none) = record {
  steps = relay true frames ++ (counted answers_grounded ∷ counted answer_duration ∷ []);
  failure = none;
}

unfoldable pub stream_answer : Settings → (Text → Completion) → Text → List RetrievedChunk → Stream
unfolding has_usable_context outcome
stream_answer s create question chunks =
    if not (has_usable_context s chunks)
    then record {
      steps = counted answers_refused ∷ counted answer_duration ∷ yielded no_context_answer ∷ [];
      failure = none;
    }
    else if not (is_set s.openai_api_key)
    then record {
      steps = [];
      failure = some (runtime (codes "OPENAI_API_KEY is not set; cannot generate answers"));
    }
    else outcome (create (build_user_prompt question chunks))
