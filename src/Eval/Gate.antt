-- ===== src/Eval/Gate.antt =====
-- The comparisons and `main` of backend/eval/run_eval.py. The files are a baseline, if one is
-- committed, and the results written so far.
use safe_shield.Prelude.{
  [], keep, ◌&&◌, ◌∷◌, false, is_empty, exists_in, if◌then◌else◌, not, some, true, none, Text, Bool,
  List, Option, ℕ,
}
use safe_shield.Eval.Cases.{CaseResult, Numbers}
use safe_shield.Eval.Summary.{
  refusal_accuracy, mrr, term_accuracy, summarise, faithfulness, recall_at_5, Key, Summary,
}
use safe_shield.Prelude.Effects.{ok, err, Result}
use safe_shield.Config.{is_set}

-- The metrics of `TOLERANCE`, in its order.
abbrev pub compared : List Key
compared = recall_at_5 ∷ mrr ∷ faithfulness ∷ refusal_accuracy ∷ term_accuracy ∷ []

-- `TOLERANCE`, in hundredths.
abbrev pub tolerance : Key → ℕ
tolerance faithfulness = 10
tolerance term_accuracy = 10
tolerance refusal_accuracy = 1
tolerance _ = 5

abbrev pub is_answer_metric : Key → Bool
is_answer_metric faithfulness = true
is_answer_metric term_accuracy = true
is_answer_metric refusal_accuracy = true
is_answer_metric _ = false

pub record Arguments : Type 0 where
  pub save : Bool
  pub check : Bool
  pub retrieval_only : Bool
  pub smoke : Bool

pub record Payload (F : Type 0) : Type 0 where
  pub git_sha : Text
  pub model : Text
  pub embedding_model : Text
  pub summary : Summary F
  pub cases : List (CaseResult F)

pub record EvalFiles (F : Type 0) : Type 0 where
  pub baseline : Option (Summary F)
  pub results : List (Payload F)

-- The literals and the commit that a run stamps its results with.
pub record Stamp : Type 0 where
  pub git_sha : Text
  pub model : Text
  pub embedding_model : Text

-- Every answerable question retrieves something.
unfoldable pub check_smoke : {F : Type 0} → List (CaseResult F) → ℕ
check_smoke results =
    if is_empty (keep (λ r. is_empty r.retrieved) (keep (λ r. not r.should_refuse) results))
    then 0
    else 1

-- `merged`, from the summary of the baseline.
abbrev pub keep_answers : {F : Type 0} → Summary F → Summary F → Summary F
keep_answers base summary key =
    if is_answer_metric key
    then base key
    else elim (summary key) [ none ↦ base key | some x ↦ some x ]

abbrev pub merged : {F : Type 0} → Bool → Option (Summary F) → Summary F → Summary F
merged true (some base) summary = keep_answers base summary
merged _ _ summary = summary

module _ {F : Type 0} (nu : Numbers F) where
  -- `summary.get(metric, 0.0)`
  abbrev pub value_of : Summary F → Key → F
  value_of summary key = elim (summary key) [ none ↦ nu.naught | some x ↦ x ]

  abbrev pub is_regression : Summary F → Summary F → Key → Bool
  is_regression base summary key =
      nu.below (nu.minus (value_of summary key) (value_of base key))
        (nu.negated (nu.hundredths (tolerance key)))

  -- Not measured by a run of the retrieval only.
  abbrev pub is_measured : Bool → Key → Bool
  is_measured retrieval_only key = not (retrieval_only && is_answer_metric key)

  unfoldable pub check_against_baseline : Summary F → Bool → Option (Summary F) → ℕ
  check_against_baseline summary retrieval_only none = 0
  check_against_baseline summary retrieval_only (some base) =
      if exists_in (λ key. is_measured retrieval_only key && is_regression base summary key)
        compared
      then 1
      else 0

  unfoldable pub saved : Stamp → Bool → List (CaseResult F) → EvalFiles F → EvalFiles F
  unfolding summarise
  saved stamp retrieval_only results files = record {
    baseline = some (merged retrieval_only files.baseline (summarise nu results));
    results =
        record {
          git_sha = stamp.git_sha;
          model = stamp.model;
          embedding_model = stamp.embedding_model;
          summary = summarise nu results;
          cases = results;
        }
        ∷ files.results;
  }

  unfoldable pub exit_code : Arguments → List (CaseResult F) → EvalFiles F → ℕ
  unfolding check_smoke summarise check_against_baseline
  exit_code args results files =
      if args.smoke
      then check_smoke results
      else if args.check
      then check_against_baseline (summarise nu results) args.retrieval_only files.baseline
      else 0

  -- What follows the run of the cases.
  unfoldable pub concluded :
      Arguments → Stamp → Result (List (CaseResult F)) → EvalFiles F → Result ℕ × EvalFiles F
  unfolding exit_code saved
  concluded args stamp (err e) files = (err e, files)
  concluded args stamp (ok results) files =
      let after = if args.save then saved stamp args.retrieval_only results files else files in
      (ok (exit_code args results after), after)

  -- `main`, where `runs` is `run` on the loaded cases.
  unfoldable pub main :
      Arguments
      → Stamp
      → Option Text
      → (Bool → Result (List (CaseResult F)))
      → EvalFiles F
      → Result ℕ × EvalFiles F
  unfolding concluded
  main args stamp api_key runs files =
      if args.save && args.check
      then (ok 2, files)
      else if not args.retrieval_only && not (is_set api_key)
      then (ok 2, files)
      else concluded args stamp (runs args.retrieval_only) files
