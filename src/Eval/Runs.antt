-- ===== src/Eval/Runs.antt =====
-- `judge_faithfulness` and `run` of backend/eval/run_eval.py.
use safe_shield.Prelude.{
  strip, map, not, take, ◌&&◌, is_empty, join, if◌then◌else◌, keep, starts_with, ◌∷◌, ◌++◌, [],
  some, Bool, codes, none, Text, List, Option, ℕ,
}
use safe_shield.Eval.Cases.{new_result, Case, CaseResult, score_retrieval, Numbers}
use safe_shield.Rag.Retrieve.{numbered, Observation, Embed, retrieve, RetrievedChunk, Postgres}
use safe_shield.Answer.Synthesize.{
  Step, counted, Completion, no_context_answer, yielded, decimal, stream_answer, has_usable_context,
  Stream,
}
use safe_shield.Prelude.Effects.{ok, err, Result}
use safe_shield.Documents.Files.{or_text}
use safe_shield.Config.{Settings}
use safe_shield.Extract.Lines.{contains}
use safe_shield.Corpus.{Tables}
use safe_shield.Extract.Regex.{differ}

-- What the harness calls: the retrieval and the chat client as in the service, and the judge.
pub record Harness (V : Type 0) : Type 0 where
  pub postgres : Postgres V
  pub settings : Settings
  pub embed : Embed V
  pub tables : Tables V
  pub create : Text → Completion
  -- the content of the judge's first choice, or an exception of the client
  pub judge : Text → Result (Option Text)
  -- `json.loads`, as the verdict and the reason in it
  pub loads : Text → Option (Option Text × Option Text)
  pub lower : Text → Text
  pub elapsed_ms : Case → ℕ

-- `"".join(...)` of what a stream yields
abbrev pub yielded_text : List Step → Text
yielded_text [] = []
yielded_text (yielded t ∷ steps) = t ++ yielded_text steps
yielded_text (counted m ∷ steps) = yielded_text steps

abbrev pub answer_of : Stream → Result Text
answer_of stream = elim stream.failure [ none ↦ ok (yielded_text stream.steps) | some e ↦ err e ]

abbrev pub judged_excerpt : RetrievedChunk × ℕ → Text
judged_excerpt (h, i) = codes "[" ++ (decimal i ++ (codes "] " ++ take 900 h.body))

-- The user message of the judge.
abbrev pub judge_message : Text → List RetrievedChunk → Text
judge_message answer hits =
    codes "EXCERPTS:\n"
    ++ (join (codes "\n\n") (map judged_excerpt (numbered 1 hits))
        ++ (codes "\n\nANSWER:\n" ++ answer))

abbrev pub text_or : Option Text → Text → Text
text_or none other = other
text_or (some text) other = text

-- `content or "{}"`
abbrev pub content_or_empty : Option Text → Text
content_or_empty content = or_text (text_or content []) (codes "{}")

abbrev pub verdict_of : Option (Option Text × Option Text) → Text × Text
verdict_of none = (codes "unknown", codes "judge returned malformed JSON")
verdict_of (some (verdict, reason)) = (text_or verdict (codes "unknown"), text_or reason [])

module _ {V : Type 0} (h : Harness V) where
  abbrev pub replied : Result (Option Text) → Result (Text × Text)
  replied (err e) = err e
  replied (ok content) = ok (verdict_of (h.loads (content_or_empty content)))

  unfoldable pub judge_faithfulness : Text → List RetrievedChunk → Result (Text × Text)
  judge_faithfulness answer hits = replied (h.judge (judge_message answer hits))

  abbrev pub occurs : Text → Text → Bool
  occurs answer term = contains (h.lower term) (h.lower answer)

  -- Every term, where there are terms.
  abbrev pub all_found : List Text → List Text → Option Bool
  all_found [] missing = none
  all_found (t ∷ ts) missing = some (is_empty missing)

  module _ {F : Type 0} (nu : Numbers F) where
    abbrev pub with_answer : Text → CaseResult F → CaseResult F
    with_answer answer result =
        let refused = starts_with (take 30 no_context_answer) (strip answer) in
        record result {
          answer = answer;
          refused = refused;
          refusal_correct = some (not (differ refused result.should_refuse));
        }

    abbrev pub with_terms : Case → CaseResult F → CaseResult F
    with_terms case result =
        let missing = keep (λ t. not (occurs result.answer t)) case.expect_terms in
        record result {
          terms_found = keep (occurs result.answer) case.expect_terms;
          terms_missing = missing;
          term_ok = all_found case.expect_terms missing;
        }

    abbrev pub with_verdict : Result (Text × Text) → CaseResult F → Result (CaseResult F)
    with_verdict (err e) result = err e
    with_verdict (ok (verdict, reason)) result =
        ok (record result { faithful = some verdict; faithfulness_reason = reason })

    unfoldable pub judged : List RetrievedChunk → CaseResult F → Result (CaseResult F)
    unfolding has_usable_context judge_faithfulness
    judged top result =
        if has_usable_context h.settings top && not result.refused
        then with_verdict (judge_faithfulness result.answer top) result
        else ok result

    abbrev pub answered :
        Case → List RetrievedChunk → Result Text → CaseResult F → Result (CaseResult F)
    answered case top (err e) result = err e
    answered case top (ok answer) result =
        let given = with_answer answer result in
        if given.should_refuse then ok given else judged top (with_terms case given)

    abbrev pub timed : Case → Result (CaseResult F) → Result (CaseResult F)
    timed case (err e) = err e
    timed case (ok result) = ok (record result { latency_ms = h.elapsed_ms case })

    unfoldable pub with_hits :
        Bool → Case → Result (List RetrievedChunk × Option Observation) → Result (CaseResult F)
    unfolding score_retrieval stream_answer judged
    with_hits retrieval_only case (err e) = err e
    with_hits retrieval_only case (ok (hits, observed)) =
        let scored = score_retrieval nu h.lower case hits (new_result nu case) in
        let top = take h.settings.retrieval_top_k hits in
        timed case (
          if retrieval_only
          then ok scored
          else answered case top (answer_of (stream_answer h.settings h.create case.question top))
              scored)

    -- One round of the loop.
    unfoldable pub run_case : Bool → Case → Result (CaseResult F)
    unfolding retrieve with_hits
    run_case retrieval_only case =
        with_hits retrieval_only case
          (retrieve h.postgres h.settings h.embed h.tables case.question none none (some 10) none)

    abbrev pub followed :
        Result (CaseResult F) → Result (List (CaseResult F)) → Result (List (CaseResult F))
    followed (err e) rest = err e
    followed (ok result) (err e) = err e
    followed (ok result) (ok results) = ok (result ∷ results)

    -- `run`, over the cases that were loaded.
    unfoldable pub run : Bool → List Case → Result (List (CaseResult F))
    unfolding run_case
    run retrieval_only [] = ok []
    run retrieval_only (case ∷ cases) =
        followed (run_case retrieval_only case) (run retrieval_only cases)
