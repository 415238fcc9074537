-- ===== src/Eval/Tests.antt =====
-- Concrete runs of the gate, on the toy corpus. A number is a difference of two counts of
-- ten-thousandths, and quotients are rounded down to 0 or 1.
use safe_shield.Prelude.{
  ltb, length, ◌⊎◌, leb, ◌/◌, ◌+◌, none, [], refl, codes, ◌∷◌, true, arith, if◌then◌else◌, ◌*◌,
  some, false, ◌≡◌, Bool, List, ℕ,
}
use safe_shield.Eval.Gate.{Stamp, main, EvalFiles}
use safe_shield.Eval.Ranks.{score_retrieval-HasScores, test_of, HasScores}
use safe_shield.Eval.Summary.{answered_anyway, retrieval_miss, reasons, summarise}
use safe_shield.Eval.Bounds.{IsRounded}
use safe_shield.Eval.Runs.{run, Harness}
use safe_shield.Eval.Cases.{new_result, score_retrieval, by_content, CaseResult, Numbers, Case}
use safe_shield.Eval.Rounds.{main-Approves, main-saving-checking, KeepsAnswers, saving, checking}
use safe_shield.Prelude.Effects.{runtime, ok, Result}
use safe_shield.Rag.Tests.{toy_tables, shared_row, own_row, toy_embed, toy_postgres}
use safe_shield.Config.{default_settings}
use safe_shield.Eval.Regression.{Approves}
use safe_shield.Answer.Synthesize.{rejected}

abbrev Difference : Type 0
Difference = ℕ × ℕ

abbrev one_if : Bool → Difference
one_if b = if b then (10000, 0) else (0, 0)

abbrev total : List Difference → ℕ
total [] = 0
total (x ∷ xs) = x.0 + total xs

abbrev toy_numbers : Numbers Difference
toy_numbers = record {
  naught = (0, 0);
  whole = λ n. (10000 * n, 0);
  hundredths = λ n. (100 * n, 0);
  inverse = λ rank. (10000 / rank, 0);
  ratio = λ n d. one_if (leb d n);
  mean = λ xs. (total xs / length xs, 0);
  minus = λ x y. (x.0 + y.1, y.0 + x.1);
  negated = λ x. (x.1, x.0);
  below = λ x y. ltb (x.0 + y.1) (y.0 + x.1);
}

abbrev toy_case : Case
toy_case = record {
  id = codes "room-rent";
  question = codes "room";
  should_refuse = false;
  expect_content = codes "oom" ∷ [];
  expect_sources = [];
  expect_terms = [];
}

abbrev toy_harness : Harness ℕ
toy_harness = record {
  postgres = toy_postgres;
  settings = default_settings;
  embed = toy_embed;
  tables = toy_tables;
  create = λ prompt. rejected (runtime prompt);
  judge = λ message. ok none;
  loads = λ text. none;
  lower = λ text. text;
  elapsed_ms = λ case. 7;
}

-- The anonymous caller of the harness sees the shared chunk only.
abbrev toy_result : CaseResult Difference
toy_result = record {
  id = codes "room-rent";
  question = codes "room";
  should_refuse = false;
  hit_at_5 = true;
  hit_at_10 = true;
  reciprocal_rank = (10000, 0);
  retrieved = codes "p.pdf" ∷ [];
  dense_and_sparse = 1;
  scoring = by_content;
  answer = [];
  refused = false;
  refusal_correct = none;
  terms_found = [];
  terms_missing = [];
  term_ok = none;
  faithful = none;
  faithfulness_reason = [];
  latency_ms = 7;
}

run_run : run toy_harness toy_numbers true (toy_case ∷ []) ≡ ok (toy_result ∷ [])
unfolding run
run_run = refl

-- The laws of rounded quotients can hold.
toy_IsRounded : IsRounded toy_numbers
toy_IsRounded = record {
  ratio_le = λ n m d h. ground (arith, h);
  ratio_one = λ n d h. ground (arith, h);
  naught_naught = refl;
  naught_one = refl;
}

score_retrieval-HasScores_example :
    HasScores toy_numbers (test_of (λ t. t) (codes "oom" ∷ []) []) (own_row ∷ shared_row ∷ []) (
      score_retrieval toy_numbers
        (λ t. t)
        toy_case
        (own_row ∷ shared_row ∷ [])
        (new_result toy_numbers toy_case))
score_retrieval-HasScores_example =
    score_retrieval-HasScores toy_numbers (λ t. t) toy_case (own_row ∷ shared_row ∷ [])

abbrev toy_stamp : Stamp
toy_stamp = record { git_sha = codes "a1"; model = codes "m"; embedding_model = codes "e" }

abbrev toy_runs : Bool → Result (List (CaseResult Difference))
toy_runs retrieval_only = ok (toy_result ∷ [])

-- A baseline that no run reaches: a reciprocal rank of 2.
abbrev high_baseline : EvalFiles Difference
high_baseline = record { baseline = some (λ key. some (20000, 0)); results = [] }

main-Approves_example :
    ((main toy_numbers (checking true) toy_stamp none toy_runs high_baseline
        ≡ (ok 0, high_baseline))
      × Approves toy_numbers true high_baseline.baseline (summarise toy_numbers (toy_result ∷ [])))
    ⊎ ((main toy_numbers (checking true) toy_stamp none toy_runs high_baseline
          ≡ (ok 1, high_baseline))
        × (¬ Approves toy_numbers true high_baseline.baseline
            (summarise toy_numbers (toy_result ∷ []))))
main-Approves_example =
    main-Approves toy_numbers true toy_stamp none toy_runs high_baseline (toy_result ∷ []) refl refl

regression_run :
    main toy_numbers (checking true) toy_stamp none toy_runs high_baseline ≡ (ok 1, high_baseline)
unfolding main
regression_run = refl

level :
    (x : Difference) (n : ℕ)
    → toy_numbers.below (toy_numbers.minus x x) (toy_numbers.negated (toy_numbers.hundredths n))
      ≡ false
level (a, b) n = ground arith

main-saving-checking_example :
    (after : EvalFiles Difference) × (main toy_numbers
        (saving true)
        toy_stamp
        none
        toy_runs
        high_baseline
      ≡ (ok 0, after))
    × (main toy_numbers (checking true) toy_stamp none toy_runs after ≡ (ok 0, after))
    × KeepsAnswers toy_numbers true high_baseline.baseline after.baseline
main-saving-checking_example =
    main-saving-checking toy_numbers true toy_stamp none toy_runs high_baseline (toy_result ∷ [])
      level refl refl

-- A refusal case that was answered is also listed with a retrieval miss.
refusal_run :
    reasons
      (record toy_result { should_refuse = true; hit_at_5 = false; refusal_correct = some false })
    ≡ retrieval_miss ∷ answered_anyway ∷ []
refusal_run = refl
