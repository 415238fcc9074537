-- ===== src/Eval/Bounds.antt =====
-- The recall of a run.
use safe_shield.Prelude.{
  if◌then◌else◌, refl, All-keep, zero, length, suc, count_where, ◌≤◌, false, sym, not, [],
  true-false, ◌&&◌, ◌∷◌, map, subst, none, take, arith, All, some, Bool, List, true, Option, ◌≡◌,
  Text, ℕ,
}
use safe_shield.Eval.Cases.{
  holds_anchor, is_expected, first_rank, with_retrieved, new_result, score_by_document,
  score_by_anchor, score_retrieval, with_rank, Case, Numbers, CaseResult,
}
use safe_shield.Eval.Runs.{
  answered, followed, run_case, with_answer, judge_faithfulness, with_terms, answer_of,
  with_verdict, timed, judged, run, with_hits, Harness,
}
use safe_shield.Prelude.Effects.{ok, err, Result}
use safe_shield.Rag.Retrieve.{retrieve, Observation, RetrievedChunk}
use safe_shield.Answer.Synthesize.{stream_answer, has_usable_context}
use safe_shield.Eval.Summary.{
  share, answerable, is_scored, scored, recall_at_10, recall_at_5, frac, summarise,
}

-- A hit at 5 is a hit at 10.
abbrev pub IsNested : {F : Type 0} → CaseResult F → Type 0
IsNested r = r.hit_at_5 ≡ true → r.hit_at_10 ≡ true

module _ {F : Type 0} (nu : Numbers F) where
  with_rank-IsNested :
      (rank : Option ℕ) (r : CaseResult F) → IsNested r → IsNested (with_rank nu rank r)
  with_rank-IsNested none r h = h
  with_rank-IsNested (some rank) r h = λ e. ground (arith, e)

  module _ (lower : Text → Text) where
    score_by_anchor-IsNested :
        (anchors expected : List Text) (hits : List RetrievedChunk) (r : CaseResult F)
        → IsNested r
        → IsNested (score_by_anchor nu lower anchors expected hits r)
    unfolding score_by_anchor score_by_document
    score_by_anchor-IsNested [] [] hits r h = h
    score_by_anchor-IsNested [] (e ∷ es) hits r h =
        with_rank-IsNested (first_rank (is_expected lower (e ∷ es)) 1 hits) _ h
    score_by_anchor-IsNested (a ∷ more) expected hits r h =
        with_rank-IsNested (first_rank (holds_anchor lower (a ∷ more)) 1 hits) _ h

    score_retrieval-IsNested :
        (case : Case) (hits : List RetrievedChunk)
        → IsNested (score_retrieval nu lower case hits (new_result nu case))
    unfolding score_retrieval
    score_retrieval-IsNested case hits =
        score_by_anchor-IsNested (map lower case.expect_content) (map lower case.expect_sources)
          hits (with_retrieved hits (new_result nu case)) (λ e. absurd (true-false (sym e)))

module _ {V : Type 0} (h : Harness V) {F : Type 0} (nu : Numbers F) where
  abbrev IsNestedResult : Result (CaseResult F) → Type 0
  IsNestedResult (err e) = Unit {0}
  IsNestedResult (ok r) = IsNested r

  with_verdict-IsNested :
      (verdict : Result (Text × Text)) (r : CaseResult F)
      → IsNested r
      → IsNestedResult (with_verdict h nu verdict r)
  with_verdict-IsNested (err e) r k = tt
  with_verdict-IsNested (ok (verdict, reason)) r k = k

  if-IsNested :
      (b : Bool) (x y : Result (CaseResult F))
      → IsNestedResult x
      → IsNestedResult y
      → IsNestedResult (if b then x else y)
  if-IsNested true x y k l = k
  if-IsNested false x y k l = l

  judged-IsNested :
      (top : List RetrievedChunk) (r : CaseResult F)
      → IsNested r
      → IsNestedResult (judged h nu top r)
  unfolding judged
  judged-IsNested top r k =
      let verdict = judge_faithfulness h r.answer top in
      if-IsNested (has_usable_context h.settings top && not r.refused) (with_verdict h nu verdict r)
        (ok r) (with_verdict-IsNested verdict r k) k

  answered-IsNested :
      (case : Case) (top : List RetrievedChunk) (answer : Result Text) (r : CaseResult F)
      → IsNested r
      → IsNestedResult (answered h nu case top answer r)
  answered-IsNested case top (err e) r k = tt
  answered-IsNested case top (ok answer) r k =
      let given = with_answer h nu answer r in
      if-IsNested given.should_refuse (ok given) (judged h nu top (with_terms h nu case given)) k
        (judged-IsNested top (with_terms h nu case given) k)

  timed-IsNested :
      (case : Case) (r : Result (CaseResult F))
      → IsNestedResult r
      → IsNestedResult (timed h nu case r)
  timed-IsNested case (err e) k = tt
  timed-IsNested case (ok r) k = k

  with_hits-IsNested :
      (retrieval_only : Bool) (case : Case)
      → (found : Result (List RetrievedChunk × Option Observation))
      → IsNestedResult (with_hits h nu retrieval_only case found)
  unfolding with_hits
  with_hits-IsNested retrieval_only case (err e) = tt
  with_hits-IsNested true case (ok (hits, observed)) = score_retrieval-IsNested nu h.lower case hits
  with_hits-IsNested false case (ok (hits, observed)) =
      let scored = score_retrieval nu h.lower case hits (new_result nu case) in
      let top = take h.settings.retrieval_top_k hits in
      let answer = answer_of (stream_answer h.settings h.create case.question top) in
      timed-IsNested case (answered h nu case top answer scored)
        (answered-IsNested case top answer scored (score_retrieval-IsNested nu h.lower case hits))

  run_case-IsNested :
      (retrieval_only : Bool) (case : Case) → IsNestedResult (run_case h nu retrieval_only case)
  unfolding run_case
  run_case-IsNested retrieval_only case =
      with_hits-IsNested retrieval_only case
        (retrieve h.postgres h.settings h.embed h.tables case.question none none (some 10) none)

  abbrev NestedResults : Result (List (CaseResult F)) → Type 0
  NestedResults (err e) = Unit {0}
  NestedResults (ok results) = All IsNested results

  followed-IsNested :
      (r : Result (CaseResult F)) (rest : Result (List (CaseResult F)))
      → IsNestedResult r
      → NestedResults rest
      → NestedResults (followed h nu r rest)
  followed-IsNested (err e) rest k l = tt
  followed-IsNested (ok r) (err e) k l = tt
  followed-IsNested (ok r) (ok results) k l = (k, l)

  run-NestedResults :
      (retrieval_only : Bool) (cases : List Case) → NestedResults (run h nu retrieval_only cases)
  unfolding run
  run-NestedResults retrieval_only [] = tt
  run-NestedResults retrieval_only (case ∷ cases) =
      followed-IsNested (run_case h nu retrieval_only case) (run h nu retrieval_only cases)
        (run_case-IsNested retrieval_only case) (run-NestedResults retrieval_only cases)

  run-IsNested :
      (retrieval_only : Bool) (cases : List Case) (results : List (CaseResult F))
      → run h nu retrieval_only cases ≡ ok results
      → All IsNested results
  run-IsNested retrieval_only cases results e =
      subst NestedResults e (run-NestedResults retrieval_only cases)

count_where-le :
    {A : Type 0} (p q : A → Bool) (xs : List A)
    → All (λ x. p x ≡ true → q x ≡ true) xs
    → count_where p xs ≤ count_where q xs
count_where-le p q [] h = omega arith
count_where-le p q (x ∷ xs) (k, h) = ground (arith, k, count_where-le p q xs h)

count_where-length : {A : Type 0} (p : A → Bool) (xs : List A) → count_where p xs ≤ length xs
count_where-length p [] = omega arith
count_where-length p (x ∷ xs) = ground (arith, count_where-length p xs)

-- What the rounded quotients of the arithmetic keep.
pub record IsRounded {F : Type 0} (nu : Numbers F) : Type 0 where
  pub ratio_le : (n m d : ℕ) → n ≤ m → nu.below (nu.ratio m (suc d)) (nu.ratio n (suc d)) ≡ false
  pub ratio_one : (n d : ℕ) → n ≤ suc d → nu.below (nu.whole 1) (nu.ratio n (suc d)) ≡ false
  pub naught_naught : nu.below nu.naught nu.naught ≡ false
  pub naught_one : nu.below (nu.whole 1) nu.naught ≡ false

module _ {F : Type 0} (nu : Numbers F) (laws : IsRounded nu) where
  frac-le : (n m d : ℕ) → n ≤ m → nu.below (frac nu m d) (frac nu n d) ≡ false
  frac-le n m zero h = laws.naught_naught
  frac-le n m (suc d) h = laws.ratio_le n m d h

  frac-one : (n d : ℕ) → n ≤ d → nu.below (nu.whole 1) (frac nu n d) ≡ false
  frac-one n zero h = laws.naught_one
  frac-one n (suc d) h = laws.ratio_one n d h

  -- The recall at 5 of a run is not above the recall at 10, and neither is above 1, given that the
  -- rounded quotients of the arithmetic keep the order of their numerators and do not exceed 1 where
  -- the numerator does not exceed the denominator.
  pub summarise-recall :
      {V : Type 0} (h : Harness V) (retrieval_only : Bool) (cases : List Case)
      → (results : List (CaseResult F)) → run h nu retrieval_only cases ≡ ok results
      → (at_5 : F) × (at_10 : F) × (summarise nu results recall_at_5 ≡ some at_5)
        × (summarise nu results recall_at_10 ≡ some at_10)
        × (nu.below at_10 at_5 ≡ false)
        × (nu.below (nu.whole 1) at_5 ≡ false)
        × (nu.below (nu.whole 1) at_10 ≡ false)
  unfolding summarise
  summarise-recall h retrieval_only cases results e =
      let rs = scored nu results in
      let nested = All-keep IsNested is_scored (answerable nu results) (
        All-keep IsNested (λ r. not r.should_refuse) results
          (run-IsNested h nu retrieval_only cases results e)) in
      (
        share nu (λ r. r.hit_at_5) rs,
        share nu (λ r. r.hit_at_10) rs,
        refl,
        refl,
        frac-le _ _ (length rs) (count_where-le (λ r. r.hit_at_5) (λ r. r.hit_at_10) rs nested),
        frac-one _ (length rs) (count_where-length (λ r. r.hit_at_5) rs),
        frac-one _ (length rs) (count_where-length (λ r. r.hit_at_10) rs),
      )
