-- ===== src/Eval/Summary.antt =====
-- `summarise` of backend/eval/run_eval.py, and the failing cases of its report.
use safe_shield.Prelude.{
  ◌+◌, ◌-◌, ◌==◌, ◌%◌, take, if◌then◌else◌, ◌||◌, ◌++◌, codes, ◌&&◌, ◌/◌, zero, length, true,
  text_eq, is_empty, [], count_where, not, keep, some, map, leb, get_elem?, suc, false, none, ◌∷◌,
  Text, Bool, List, Option, ℕ,
}
use safe_shield.Eval.Cases.{unscored, by_document, by_content, CaseResult, Numbers}
use safe_shield.Rag.Order.{sort_by}
use safe_shield.Eval.Runs.{text_or}
use safe_shield.Auth.Models.{is_some}

pub data Key : Type 0 where
  cases recall_at_5 recall_at_5_content content_scored_cases recall_at_10 mrr : Key
  faithfulness unfaithful_count term_accuracy refusal_accuracy refusal_cases : Key
  median_latency_ms : Key

-- A dictionary of the numbers of a run.
abbrev pub Summary : Type 0 → Type 0
Summary F = Key → Option F

abbrev pub is_scored : {F : Type 0} → CaseResult F → Bool
is_scored r = elim r.scoring [ by_content ↦ true | by_document ↦ true | unscored ↦ false ]

abbrev pub is_strict : {F : Type 0} → CaseResult F → Bool
is_strict r = elim r.scoring [ by_content ↦ true | by_document ↦ false | unscored ↦ false ]

-- `if r.faithful`
abbrev pub is_judged : {F : Type 0} → CaseResult F → Bool
is_judged r = not (is_empty (text_or r.faithful []))

abbrev pub is_verdict : {F : Type 0} → Text → CaseResult F → Bool
is_verdict verdict r = elim r.faithful [ none ↦ false | some v ↦ text_eq v verdict ]

-- `bool(x)` and `x is False`, of an optional Boolean
abbrev pub is_true : Option Bool → Bool
is_true none = false
is_true (some b) = b

abbrev pub is_false : Option Bool → Bool
is_false none = false
is_false (some b) = not b

abbrev pub middle_of : List ℕ → ℕ → ℕ
middle_of ordered i = elim (get_elem? ordered i) [ none ↦ 0 | some n ↦ n ]

-- `int(statistics.median(values))`, and 0 for none
unfoldable pub median_of : List ℕ → ℕ
unfolding sort_by
median_of values =
    let ordered = sort_by leb values in
    let mid = length ordered / 2 in
    if length ordered % 2 == 1
    then middle_of ordered mid
    else (middle_of ordered (mid - 1) + middle_of ordered mid) / 2

module _ {F : Type 0} (nu : Numbers F) where
  -- `frac`
  abbrev pub frac : ℕ → ℕ → F
  frac n zero = nu.naught
  frac n (suc d) = nu.ratio n (suc d)

  abbrev pub mean_or_naught : List F → F
  mean_or_naught [] = nu.naught
  mean_or_naught (x ∷ xs) = nu.mean (x ∷ xs)

  abbrev pub answerable : List (CaseResult F) → List (CaseResult F)
  answerable results = keep (λ r. not r.should_refuse) results

  abbrev pub scored : List (CaseResult F) → List (CaseResult F)
  scored results = keep is_scored (answerable results)

  abbrev pub share : (CaseResult F → Bool) → List (CaseResult F) → F
  share p rs = frac (count_where p rs) (length rs)

  unfoldable pub summarise : List (CaseResult F) → Summary F
  unfolding median_of
  summarise results cases = some (nu.whole (length results))
  summarise results recall_at_5 = some (share (λ r. r.hit_at_5) (scored results))
  summarise results recall_at_5_content =
      some (share (λ r. r.hit_at_5) (keep is_strict (scored results)))
  summarise results content_scored_cases =
      some (nu.whole (length (keep is_strict (scored results))))
  summarise results recall_at_10 = some (share (λ r. r.hit_at_10) (scored results))
  summarise results mrr = some (mean_or_naught (map (λ r. r.reciprocal_rank) (scored results)))
  summarise results faithfulness =
      some (share (is_verdict (codes "faithful")) (keep is_judged (answerable results)))
  summarise results unfaithful_count = some (
      nu.whole
        (count_where (is_verdict (codes "unfaithful")) (keep is_judged (answerable results))))
  summarise results term_accuracy =
      some (share (λ r. is_true r.term_ok) (keep (λ r. is_some r.term_ok) (answerable results)))
  summarise results refusal_accuracy =
      some (share (λ r. is_true r.refusal_correct) (keep (λ r. is_some r.refusal_correct) results))
  summarise results refusal_cases = some (nu.whole (length (keep (λ r. r.should_refuse) results)))
  summarise results median_latency_ms =
      some (nu.whole (median_of (map (λ r. r.latency_ms) results)))

-- The cases that `report` lists as failing, and the reasons it gives for one.
abbrev pub is_problem : {F : Type 0} → CaseResult F → Bool
is_problem r =
    (not (is_empty r.retrieved) && not r.hit_at_5 && not r.should_refuse)
    || is_verdict (codes "unfaithful") r
    || is_false r.term_ok
    || is_false r.refusal_correct

pub data Reason : Type 0 where
  retrieval_miss : Reason
  missing : List Text → Reason
  unfaithful : Text → Reason
  answered_anyway refused_anyway : Reason

abbrev pub reason_if : Bool → Reason → List Reason
reason_if true reason = reason ∷ []
reason_if false reason = []

abbrev pub reasons : {F : Type 0} → CaseResult F → List Reason
reasons r =
    reason_if (not (is_empty r.retrieved) && not r.hit_at_5) retrieval_miss
    ++ (reason_if (is_false r.term_ok) (missing r.terms_missing)
        ++ (reason_if (is_verdict (codes "unfaithful") r)
              (unfaithful (take 70 r.faithfulness_reason))
            ++ reason_if (is_false r.refusal_correct)
                (if r.should_refuse then answered_anyway else refused_anyway)))

unfoldable pub report : {F : Type 0} → List (CaseResult F) → List (Text × List Reason)
report results = map (λ r. (r.id, reasons r)) (keep is_problem results)
