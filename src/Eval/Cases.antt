-- ===== src/Eval/Cases.antt =====
-- `CaseResult` and `score_retrieval` of backend/eval/run_eval.py.
use safe_shield.Prelude.{
  suc, if◌then◌else◌, leb, codes, ◌&&◌, text_eq, count_where, some, map, ◌∷◌, exists_in, ◌++◌, none,
  [], Text, Bool, List, false, Option, ℕ,
}
use safe_shield.Rag.Retrieve.{RetrievedChunk}
use safe_shield.Auth.Models.{is_some}
use safe_shield.Extract.Lines.{contains}

-- The arithmetic on floats.
pub record Numbers (F : Type 0) : Type 0 where
  pub naught : F
  pub whole : ℕ → F
  -- the literal n / 100
  pub hundredths : ℕ → F
  -- `1.0 / rank`
  pub inverse : ℕ → F
  -- `round(n / d, 4)` and `round(statistics.mean(values), 4)`
  pub ratio : ℕ → ℕ → F
  pub mean : List F → F
  pub minus : F → F → F
  pub negated : F → F
  -- `<`
  pub below : F → F → Bool

-- One entry of the golden set.
pub record Case : Type 0 where
  pub id : Text
  pub question : Text
  pub should_refuse : Bool
  pub expect_content : List Text
  pub expect_sources : List Text
  pub expect_terms : List Text

-- content | document | none
pub data Scoring : Type 0 where
  by_content by_document unscored : Scoring

pub record CaseResult (F : Type 0) : Type 0 where
  pub id : Text
  pub question : Text
  pub should_refuse : Bool
  pub hit_at_5 : Bool
  pub hit_at_10 : Bool
  pub reciprocal_rank : F
  pub retrieved : List Text
  pub dense_and_sparse : ℕ
  pub scoring : Scoring
  pub answer : Text
  pub refused : Bool
  pub refusal_correct : Option Bool
  pub terms_found : List Text
  pub terms_missing : List Text
  pub term_ok : Option Bool
  pub faithful : Option Text
  pub faithfulness_reason : Text
  pub latency_ms : ℕ

-- The rank from `n` on of the first hit that passes the test.
unfoldable pub first_rank : {A : Type 0} → (A → Bool) → ℕ → List A → Option ℕ
first_rank p n [] = none
first_rank p n (x ∷ xs) = if p x then some n else first_rank p (suc n) xs

-- `h.dense_rank and h.sparse_rank`, with ranks that are never 0
abbrev pub found_by_both : RetrievedChunk → Bool
found_by_both h = is_some h.dense_rank && is_some h.sparse_rank

module _ {F : Type 0} (nu : Numbers F) where
  -- A result as the data class makes it.
  abbrev pub new_result : Case → CaseResult F
  new_result case = record {
    id = case.id;
    question = case.question;
    should_refuse = case.should_refuse;
    hit_at_5 = false;
    hit_at_10 = false;
    reciprocal_rank = nu.naught;
    retrieved = [];
    dense_and_sparse = 0;
    scoring = unscored;
    answer = [];
    refused = false;
    refusal_correct = none;
    terms_found = [];
    terms_missing = [];
    term_ok = none;
    faithful = none;
    faithfulness_reason = [];
    latency_ms = 0;
  }

  abbrev pub with_rank : Option ℕ → CaseResult F → CaseResult F
  with_rank none result = result
  with_rank (some rank) result = record result {
    reciprocal_rank = nu.inverse rank;
    hit_at_5 = leb rank 5;
    hit_at_10 = leb rank 10;
  }

module _ (lower : Text → Text) where
  abbrev pub holds_anchor : List Text → RetrievedChunk → Bool
  holds_anchor anchors h =
      let haystack = lower (h.section_path ++ (codes " " ++ h.body)) in
      exists_in (λ a. contains a haystack) anchors

  abbrev pub is_expected : List Text → RetrievedChunk → Bool
  is_expected expected h = exists_in (text_eq (lower h.filename)) expected

module _ {F : Type 0} where
  abbrev pub with_retrieved : List RetrievedChunk → CaseResult F → CaseResult F
  with_retrieved hits result = record result {
    retrieved = map (λ h. h.filename) hits;
    dense_and_sparse = count_where found_by_both hits;
  }

module _ {F : Type 0} (nu : Numbers F) (lower : Text → Text) where
  -- The fall-back, without anchors.
  unfoldable pub score_by_document : List Text → List RetrievedChunk → CaseResult F → CaseResult F
  unfolding first_rank
  score_by_document [] hits result = result
  score_by_document (e ∷ es) hits result =
      with_rank nu (first_rank (is_expected lower (e ∷ es)) 1 hits)
        (record result { scoring = by_document })

  unfoldable pub score_by_anchor :
      List Text → List Text → List RetrievedChunk → CaseResult F → CaseResult F
  unfolding first_rank score_by_document
  score_by_anchor [] expected hits result = score_by_document expected hits result
  score_by_anchor (a ∷ more) expected hits result =
      with_rank nu (first_rank (holds_anchor lower (a ∷ more)) 1 hits)
        (record result { scoring = by_content })

  unfoldable pub score_retrieval : Case → List RetrievedChunk → CaseResult F → CaseResult F
  unfolding score_by_anchor
  score_retrieval case hits result =
      score_by_anchor (map lower case.expect_content) (map lower case.expect_sources) hits
        (with_retrieved hits result)
