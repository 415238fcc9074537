-- ===== src/Eval/Regression.antt =====
-- When the gate fails.
use safe_shield.Prelude.{
  arith, ℕ, none, ◌⊎◌, some, Option, refl, ◌∙◌, ap, inl, false, true, ◌≡◌, Bool,
}
use safe_shield.Eval.Cases.{Numbers}
use safe_shield.Eval.Summary.{
  recall_at_5, mrr, faithfulness, refusal_accuracy, term_accuracy, Key, Summary,
}
use safe_shield.Eval.Gate.{tolerance, value_of, check_against_baseline, is_regression}

module _ {F : Type 0} (nu : Numbers F) where
  -- What a summary says of a metric, naught where it says nothing.
  abbrev pub reading : Option F → F
  reading none = nu.naught
  reading (some x) = x

  -- The metric is not below the baseline by more than so many hundredths.
  abbrev pub Holds : Summary F → Summary F → Key → ℕ → Type 0
  Holds base summary key hundredths =
      nu.below (nu.minus (reading (summary key)) (reading (base key)))
        (nu.negated (nu.hundredths hundredths))
      ≡ false

  -- The two metrics of retrieval may fall by five hundredths.
  abbrev pub RetrievalHolds : Summary F → Summary F → Type 0
  RetrievalHolds base summary = Holds base summary recall_at_5 5 × Holds base summary mrr 5

  -- Faithfulness and term accuracy may fall by ten hundredths, refusal accuracy by one.
  abbrev pub AnswersHold : Summary F → Summary F → Type 0
  AnswersHold base summary =
      Holds base summary faithfulness 10
      × Holds base summary refusal_accuracy 1
      × Holds base summary term_accuracy 10

  -- What the gate wants of a summary. A run of the retrieval only has no answer metrics.
  abbrev pub Approves : Bool → Option (Summary F) → Summary F → Type 0
  Approves retrieval_only none summary = Unit {0}
  Approves true (some base) summary = RetrievalHolds base summary
  Approves false (some base) summary = RetrievalHolds base summary × AnswersHold base summary

  reading_lem : (v : Option F) → elim v [ none ↦ nu.naught | some x ↦ x ] ≡ reading v
  reading_lem none = refl
  reading_lem (some x) = refl

  falls_lem :
      (base summary : Summary F) (key : Key)
      → is_regression nu base summary key
        ≡ nu.below
            (nu.minus (reading (summary key)) (reading (base key)))
            (nu.negated (nu.hundredths (tolerance key)))
  falls_lem base summary key =
      ap
        (λ now.
          nu.below (nu.minus now (value_of nu base key))
            (nu.negated (nu.hundredths (tolerance key))))
        (reading_lem (summary key))
      ∙ ap
          (λ was.
            nu.below (nu.minus (reading (summary key)) was)
              (nu.negated (nu.hundredths (tolerance key))))
          (reading_lem (base key))

  pub check_against_baseline-Approves :
      (summary : Summary F) (retrieval_only : Bool) (baseline : Option (Summary F))
      → ((check_against_baseline nu summary retrieval_only baseline ≡ 0)
          × Approves retrieval_only baseline summary)
        ⊎ ((check_against_baseline nu summary retrieval_only baseline ≡ 1)
            × (¬ Approves retrieval_only baseline summary))
  unfolding check_against_baseline
  check_against_baseline-Approves summary retrieval_only none = inl (refl, tt)
  check_against_baseline-Approves summary true (some base) =
      ground (arith, falls_lem base summary recall_at_5, falls_lem base summary mrr)
  check_against_baseline-Approves summary false (some base) = ground (
    arith,
    falls_lem base summary recall_at_5,
    falls_lem base summary mrr,
    falls_lem base summary faithfulness,
    falls_lem base summary refusal_accuracy,
    falls_lem base summary term_accuracy,
  )
