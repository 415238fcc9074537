-- ===== src/Chunker/Overlap.antt =====
-- What a second flush makes of the overlap that the first one left. The loop over a long sentence
-- flushes after its last piece, so the next flush finds the overlap alone.
use safe_shield.Prelude.{◌∙◌, ap, refl, [], ltb, ◌∷◌, false, none, ◌≡◌, strip, is_empty, Text}
use safe_shield.Chunker.Chunks.{
  chunk_of, min_tokens, count_tokens, overlap_tokens, body_of, reset_with_overlap, tail_tokens,
  appended, Progress, flush, Tokenizer,
}
use safe_shield.Chunker.Headings.{path}
use safe_shield.Rag.Retrieve.{or_default}

module _ (tk : Tokenizer) where
  overlap_body :
      (t : Text) → is_empty (strip t) ≡ false → body_of (reset_with_overlap tk t) ≡ strip t
  overlap_body [] h = refl
  overlap_body (c ∷ cs) h = refl

  overlap_page : (t : Text) → (reset_with_overlap tk t).page ≡ none
  overlap_page [] = refl
  overlap_page (c ∷ cs) = refl

  -- A flush of a state whose text is long enough to stand alone.
  flush_long :
      (st : Progress)
      → is_empty (body_of st.acc) ≡ false
      → ltb (count_tokens tk (body_of st.acc)) min_tokens ≡ false
      → flush tk st ≡ appended tk st (body_of st.acc)
  unfolding flush
  flush_long st some_text long = rw some_text (rw long refl)

  abbrev pub overlap_of : Progress → Text
  overlap_of st = tail_tokens tk (body_of st.acc) overlap_tokens

  -- Two flushes with nothing added in between, of a text of 40 tokens or more whose overlap has as
  -- many, give two chunks: the second holds the overlap again, on page 1 whatever the page of the
  -- first.
  pub flush-flush :
      (st : Progress)
      → is_empty (body_of st.acc) ≡ false
      → ltb (count_tokens tk (body_of st.acc)) min_tokens ≡ false
      → is_empty (strip (overlap_of st)) ≡ false
      → ltb (count_tokens tk (strip (overlap_of st))) min_tokens ≡ false
      → (flush tk (flush tk st)).chunks
        ≡ chunk_of tk (path st.headings) (strip (overlap_of st)) 1
          ∷ chunk_of tk (path st.headings) (body_of st.acc) (or_default st.acc.page 1)
          ∷ st.chunks
  unfolding appended
  flush-flush st some_text long some_overlap long_overlap =
      let next = appended tk st (body_of st.acc) in
      let same = overlap_body (overlap_of st) some_overlap in
      ap (λ x. (flush tk x).chunks) (flush_long st some_text long)
      ∙ ap (λ x. x.chunks)
          (flush_long next (ap is_empty same ∙ some_overlap)
            (ap (λ t. ltb (count_tokens tk t) min_tokens) same ∙ long_overlap))
      ∙ ap
          (λ t.
            chunk_of tk (path st.headings) t
              (or_default (reset_with_overlap tk (overlap_of st)).page 1)
            ∷ next.chunks)
          same
      ∙ ap
          (λ p.
            chunk_of tk (path st.headings) (strip (overlap_of st)) (or_default p 1) ∷ next.chunks)
          (overlap_page (overlap_of st))
