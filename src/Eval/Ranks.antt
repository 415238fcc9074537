-- ===== src/Eval/Ranks.antt =====
-- What the scores of one case say about its hits.
use safe_shield.Prelude.{
  [], sym, inr, subst, arith, refl, inl, ◌+◌, Bool-cases, length, ap, leb, suc, ◌++◌, ◌⊎◌, false,
  true, none, map, ◌≡◌, All, some, ◌∷◌, Option, Text, List, Bool, ℕ,
}
use safe_shield.Eval.Cases.{
  by_content, holds_anchor, by_document, is_expected, with_retrieved, with_rank, new_result,
  score_by_document, Case, CaseResult, score_retrieval, score_by_anchor, first_rank, Numbers,
}
use safe_shield.Rag.Retrieve.{RetrievedChunk}

module _ {A : Type 0} (p : A → Bool) where
  -- Where the first hit that passes stands, if one does.
  abbrev pub FirstAt : List A → Option ℕ → Type 0
  FirstAt xs none = All (λ x. p x ≡ false) xs
  FirstAt xs (some rank) =
      (front : List A) × (x : A) × (back : List A) × (xs ≡ front ++ (x ∷ back))
      × All (λ y. p y ≡ false) front
      × (p x ≡ true)
      × (rank ≡ 1 + length front)

  -- The same, counted from `n` on.
  abbrev Counted : ℕ → List A → Option ℕ → Type 0
  Counted n xs none = All (λ x. p x ≡ false) xs
  Counted n xs (some rank) =
      (front : List A) × (x : A) × (back : List A) × (xs ≡ front ++ (x ∷ back))
      × All (λ y. p y ≡ false) front
      × (p x ≡ true)
      × (rank ≡ n + length front)

  counted_later :
      (n : ℕ) (x : A) (xs : List A) (r : Option ℕ)
      → p x ≡ false
      → Counted (suc n) xs r
      → Counted n (x ∷ xs) r
  counted_later n x xs none e h = (e, h)
  counted_later n x xs (some rank) e (front, y, back, split, none_before, here, at) =
      (x ∷ front, y, back, ap (◌∷◌ x) split, (e, none_before), here, omega (arith, at))

  first_rank-Counted : (n : ℕ) (xs : List A) → Counted n xs (first_rank p n xs)
  unfolding first_rank
  first_rank-Counted n [] = tt
  first_rank-Counted n (x ∷ xs) = elim (Bool-cases (p x)) [
    | inl e ↦
        subst (Counted n (x ∷ xs)) (sym (first_rank-here n x xs e))
          ([], x, xs, refl, tt, e, omega arith)
    | inr e ↦
        subst (Counted n (x ∷ xs)) (sym (first_rank-there n x xs e))
          (counted_later n x xs (first_rank p (suc n) xs) e (first_rank-Counted (suc n) xs))
  ]
    where
      first_rank-here :
          (m : ℕ) (y : A) (ys : List A) → p y ≡ true → first_rank p m (y ∷ ys) ≡ some m
      first_rank-here m y ys e = rw e refl

      first_rank-there :
          (m : ℕ) (y : A) (ys : List A)
          → p y ≡ false
          → first_rank p m (y ∷ ys) ≡ first_rank p (suc m) ys
      first_rank-there m y ys e = rw e refl

  pub first_rank-FirstAt : (xs : List A) → FirstAt xs (first_rank p 1 xs)
  first_rank-FirstAt xs = same (first_rank p 1 xs) (first_rank-Counted 1 xs)
    where
      same : (r : Option ℕ) → Counted 1 xs r → FirstAt xs r
      same none h = h
      same (some rank) h = h

module _ (lower : Text → Text) where
  -- The test that a case has for its hits: a phrase of the clause, else a file name, else none.
  abbrev pub test_of : List Text → List Text → Option (RetrievedChunk → Bool)
  test_of [] [] = none
  test_of [] (e ∷ es) = some (is_expected lower (e ∷ es))
  test_of (a ∷ more) expected = some (holds_anchor lower (a ∷ more))

module _ {F : Type 0} (nu : Numbers F) where
  -- A result that has the scores of the first hit that passes: none of its kind, or its rank's.
  abbrev pub HasScores :
      Option (RetrievedChunk → Bool) → List RetrievedChunk → CaseResult F → Type 0
  HasScores none hits result = (result.hit_at_5 ≡ false) × (result.hit_at_10 ≡ false)
  HasScores (some test) hits result =
      ((All (λ h. test h ≡ false) hits)
        × (result.hit_at_5 ≡ false)
        × (result.hit_at_10 ≡ false)
        × (result.reciprocal_rank ≡ nu.naught))
      ⊎ ((rank : ℕ) × FirstAt test hits (some rank)
          × (result.hit_at_5 ≡ leb rank 5)
          × (result.hit_at_10 ≡ leb rank 10)
          × (result.reciprocal_rank ≡ nu.inverse rank))

  with_rank-HasScores :
      (test : RetrievedChunk → Bool) (hits : List RetrievedChunk) (result : CaseResult F)
      → result.hit_at_5 ≡ false
      → result.hit_at_10 ≡ false
      → result.reciprocal_rank ≡ nu.naught
      → (r : Option ℕ) → FirstAt test hits r
      → HasScores (some test) hits (with_rank nu r result)
  with_rank-HasScores test hits result a b c none h = inl (h, a, b, c)
  with_rank-HasScores test hits result a b c (some rank) h = inr (rank, h, refl, refl, refl)

module _ {F : Type 0} (nu : Numbers F) (lower : Text → Text) where
  score_by_anchor-HasScores :
      (anchors expected : List Text) (hits : List RetrievedChunk) (result : CaseResult F)
      → result.hit_at_5 ≡ false
      → result.hit_at_10 ≡ false
      → result.reciprocal_rank ≡ nu.naught
      → HasScores nu
          (test_of lower anchors expected)
          hits
          (score_by_anchor nu lower anchors expected hits result)
  unfolding score_by_anchor score_by_document
  score_by_anchor-HasScores [] [] hits result a b c = (a, b)
  score_by_anchor-HasScores [] (e ∷ es) hits result a b c =
      let test = is_expected lower (e ∷ es) in
      with_rank-HasScores nu test hits (record result { scoring = by_document }) a b c
        (first_rank test 1 hits) (first_rank-FirstAt test hits)
  score_by_anchor-HasScores (x ∷ more) expected hits result a b c =
      let test = holds_anchor lower (x ∷ more) in
      with_rank-HasScores nu test hits (record result { scoring = by_content }) a b c
        (first_rank test 1 hits) (first_rank-FirstAt test hits)

  -- A fresh result of a case, scored on the hits of its question, counts the first hit that has one
  -- of the phrases of the case, or without phrases the first of one of its files: the reciprocal rank
  -- is that of this hit, and it is a hit at 5 or 10 exactly if the rank is at most 5 or 10. Without
  -- such a hit, or with nothing expected, the case has no hit.
  pub score_retrieval-HasScores :
      (case : Case) (hits : List RetrievedChunk)
      → HasScores nu
          (test_of lower (map lower case.expect_content) (map lower case.expect_sources))
          hits
          (score_retrieval nu lower case hits (new_result nu case))
  unfolding score_retrieval
  score_retrieval-HasScores case hits =
      score_by_anchor-HasScores (map lower case.expect_content) (map lower case.expect_sources) hits
        (with_retrieved hits (new_result nu case)) refl refl refl
