-- ===== src/Eval/Rounds.antt =====
-- Saving a baseline and checking against it.
use safe_shield.Prelude.{
  inr, inl, ap, ◌∙◌, ◌⊎◌, sym, true-false, refl, ◌≡◌, none, ◌&&◌, List, some, not, false, true,
  Text, Option, Bool, ℕ,
}
use safe_shield.Eval.Cases.{CaseResult, Numbers}
use safe_shield.Eval.Gate.{
  check_against_baseline, EvalFiles, is_measured, is_answer_metric, merged, saved, exit_code, Stamp,
  concluded, main, Arguments,
}
use safe_shield.Eval.Summary.{
  cases, recall_at_5, recall_at_5_content, content_scored_cases, recall_at_10, mrr, faithfulness,
  unfaithful_count, term_accuracy, refusal_accuracy, refusal_cases, median_latency_ms, Key, Summary,
  summarise,
}
use safe_shield.Prelude.Effects.{ok, Result}
use safe_shield.Config.{is_set}
use safe_shield.Eval.Regression.{Holds, reading, check_against_baseline-Approves, Approves}

-- The command lines of a run that saves, and of one that checks.
abbrev pub saving : Bool → Arguments
saving retrieval_only = record {
  save = true;
  check = false;
  retrieval_only = retrieval_only;
  smoke = false;
}

abbrev pub checking : Bool → Arguments
checking retrieval_only = record {
  save = false;
  check = true;
  retrieval_only = retrieval_only;
  smoke = false;
}

module _ {F : Type 0} (nu : Numbers F) where
  -- A run that checks can go on: it needs no key, or has one.
  abbrev pub CanRun : Bool → Option Text → Type 0
  CanRun retrieval_only api_key = (not retrieval_only && not (is_set api_key)) ≡ false

  main-checking :
      (retrieval_only : Bool) (stamp : Stamp) (api_key : Option Text)
      → (runs : Bool → Result (List (CaseResult F))) → (files : EvalFiles F)
      → CanRun retrieval_only api_key
      → main nu (checking retrieval_only) stamp api_key runs files
        ≡ concluded nu (checking retrieval_only) stamp (runs retrieval_only) files
  unfolding main
  main-checking retrieval_only stamp api_key runs files can = rw can refl

  main-saving :
      (retrieval_only : Bool) (stamp : Stamp) (api_key : Option Text)
      → (runs : Bool → Result (List (CaseResult F))) → (files : EvalFiles F)
      → CanRun retrieval_only api_key
      → main nu (saving retrieval_only) stamp api_key runs files
        ≡ concluded nu (saving retrieval_only) stamp (runs retrieval_only) files
  unfolding main
  main-saving retrieval_only stamp api_key runs files can = rw can refl

  -- A checking run changes no file. It ends 0 exactly if there is no baseline, or recall at 5 and the
  -- mean reciprocal rank are below it by no more than 0.05 and, where the run was not of the
  -- retrieval only, faithfulness and term accuracy by no more than 0.10 and refusal accuracy by no
  -- more than 0.01; else it ends 1. It needs an API key, unless it is of the retrieval only.
  pub main-Approves :
      (retrieval_only : Bool) (stamp : Stamp) (api_key : Option Text)
      → (runs : Bool → Result (List (CaseResult F)))
      → (files : EvalFiles F) (results : List (CaseResult F)) → CanRun retrieval_only api_key
      → runs retrieval_only ≡ ok results
      → ((main nu (checking retrieval_only) stamp api_key runs files ≡ (ok 0, files))
          × Approves nu retrieval_only files.baseline (summarise nu results))
        ⊎ ((main nu (checking retrieval_only) stamp api_key runs files ≡ (ok 1, files))
            × (¬ Approves nu retrieval_only files.baseline (summarise nu results)))
  unfolding concluded exit_code
  main-Approves retrieval_only stamp api_key runs files results can ran =
      let code = check_against_baseline nu (summarise nu results) retrieval_only files.baseline in
      let ends : main nu (checking retrieval_only) stamp api_key runs files ≡ (ok code, files) =
        main-checking retrieval_only stamp api_key runs files can
        ∙ ap (λ r. concluded nu (checking retrieval_only) stamp r files) ran in
      elim (check_against_baseline-Approves nu (summarise nu results) retrieval_only
        files.baseline) [
          | inl (zero_code, good) ↦ inl (ends ∙ ap (λ n. (ok n, files)) zero_code, good)
          | inr (one_code, bad) ↦ inr (ends ∙ ap (λ n. (ok n, files)) one_code, bad)
        ]

  -- What a run of the retrieval only measures is in its summary, and so is what a full run has.
  merged-measured :
      (retrieval_only : Bool) (base : Option (Summary F)) (results : List (CaseResult F))
      (key : Key)
      → is_measured nu retrieval_only key ≡ true
      → merged retrieval_only base (summarise nu results) key ≡ summarise nu results key
  unfolding summarise
  merged-measured false base results key h = refl
  merged-measured true none results key h = refl
  merged-measured true (some base) results cases h = refl
  merged-measured true (some base) results recall_at_5 h = refl
  merged-measured true (some base) results recall_at_5_content h = refl
  merged-measured true (some base) results content_scored_cases h = refl
  merged-measured true (some base) results recall_at_10 h = refl
  merged-measured true (some base) results mrr h = refl
  merged-measured true (some base) results faithfulness h = absurd (true-false (sym h))
  merged-measured true (some base) results unfaithful_count h = refl
  merged-measured true (some base) results term_accuracy h = absurd (true-false (sym h))
  merged-measured true (some base) results refusal_accuracy h = absurd (true-false (sym h))
  merged-measured true (some base) results refusal_cases h = refl
  merged-measured true (some base) results median_latency_ms h = refl

  -- Without a key of its own, a run of the retrieval only leaves the answer metrics as they are.
  abbrev pub KeepsAnswers : Bool → Option (Summary F) → Option (Summary F) → Type 0
  KeepsAnswers true (some base) (some after) =
      (key : Key) → is_answer_metric key ≡ true → after key ≡ base key
  KeepsAnswers _ _ _ = Unit {0}

  merged-KeepsAnswers :
      (retrieval_only : Bool) (base : Option (Summary F)) (summary : Summary F)
      → KeepsAnswers retrieval_only base (some (merged retrieval_only base summary))
  merged-KeepsAnswers false none summary = tt
  merged-KeepsAnswers false (some base) summary = tt
  merged-KeepsAnswers true none summary = tt
  merged-KeepsAnswers true (some base) summary = λ key h. rw h refl

  -- Where a number less itself is below no negative tolerance, a baseline that a run saved approves
  -- of the same results: the check that follows ends 0. A run of the retrieval only that saves keeps
  -- the answer metrics of the baseline that there was.
  pub main-saving-checking :
      (retrieval_only : Bool) (stamp : Stamp) (api_key : Option Text)
      → (runs : Bool → Result (List (CaseResult F)))
      → (files : EvalFiles F) (results : List (CaseResult F))
      → ((x : F) (n : ℕ) → nu.below (nu.minus x x) (nu.negated (nu.hundredths n)) ≡ false)
      → CanRun retrieval_only api_key
      → runs retrieval_only ≡ ok results
      → (after : EvalFiles F) × (main nu (saving retrieval_only) stamp api_key runs files
          ≡ (ok 0, after))
        × (main nu (checking retrieval_only) stamp api_key runs after ≡ (ok 0, after))
        × KeepsAnswers retrieval_only files.baseline after.baseline
  unfolding concluded exit_code saved
  main-saving-checking retrieval_only stamp api_key runs files results level can ran =
      let after = saved nu stamp retrieval_only results files in
      (
        after,
        main-saving retrieval_only stamp api_key runs files can
            ∙ ap (λ r. concluded nu (saving retrieval_only) stamp r files) ran,
        elim (main-Approves retrieval_only stamp api_key runs after results can ran) [
          | inl (ends, good) ↦ ends
          | inr (ends, bad) ↦ absurd (bad (good_enough retrieval_only files.baseline))
        ],
        merged-KeepsAnswers retrieval_only files.baseline (summarise nu results),
      )
    where
      level_holds :
          (base : Summary F) (key : Key) (n : ℕ)
          → base key ≡ summarise nu results key
          → Holds nu base (summarise nu results) key n
      level_holds base key n same =
          ap
            (λ v.
              nu.below (nu.minus (reading nu (summarise nu results key)) (reading nu v))
                (nu.negated (nu.hundredths n)))
            same
          ∙ level (reading nu (summarise nu results key)) n

      good_enough :
          (retrieval_only : Bool) (base : Option (Summary F))
          → Approves nu retrieval_only
              (some (merged retrieval_only base (summarise nu results)))
              (summarise nu results)
      good_enough true base =
          let level_at = λ (key : Key) (h : is_measured nu true key ≡ true).
            level_holds (merged true base (summarise nu results)) key 5
              (merged-measured true base results key h) in
          (level_at recall_at_5 refl, level_at mrr refl)
      good_enough false base =
          let level_at = λ (key : Key) (n : ℕ). level_holds (summarise nu results) key n refl in
          (
            (level_at recall_at_5 5, level_at mrr 5),
            (level_at faithfulness 10, level_at refusal_accuracy 1, level_at term_accuracy 10),
          )
