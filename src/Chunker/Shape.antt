-- ===== src/Chunker/Shape.antt =====
-- What every chunk is, whatever the blocks: composed and counted as it says, and of a page that the
-- blocks have.
use mathlib.Core.List.{reverse-cons}
use safe_shield.Prelude.{
  All-append, ap, arith, leb, ◌≢◌, length, zero, refl, drop, strip, sym, ◌⊎◌, [], inl, subst, some,
  ltb, is_empty, none, All-keep, inr, reverse, Bool-cases, ◌∷◌, ◌≡◌, All, suc, Option, List, Text,
  ℕ,
}
use safe_shield.Chunker.Chunks.{
  paragraph, table, merged_body, is_full, start, heading, min_tokens, has_text, body_of,
  count_tokens, max_tokens, target_tokens, overlap_tokens, reset, compose, truncate_to_tokens,
  BlockKind, page_or, with_heading, chunk_of, tail_tokens, reset_with_overlap, with_added, Block,
  Progress, appended, add_block, chunk_blocks, add_blocks, add_sentence, hard_split, flush_small,
  add_sentences, flush, Chunk, add_kind, Tokenizer,
}
use safe_shield.Rag.Retrieve.{or_default}
use safe_shield.Rag.Order.{In-All, All-In, In-keep, In}
use safe_shield.Chunker.Sentences.{split_sentences}

module _ (tk : Tokenizer) where
  -- The content is the breadcrumb and the body, and its tokens are counted.
  pub record IsComposed (c : Chunk) : Type 0 where
    pub content : c.content ≡ compose c.section_path c.body
    pub token_count : c.token_count ≡ count_tokens tk c.content

  chunk_of-IsComposed : (p body : Text) (n : ℕ) → IsComposed (chunk_of tk p body n)
  chunk_of-IsComposed p body n = record { content = refl; token_count = refl }

module _ (tk : Tokenizer) (P : ℕ → Type 0) (first : P 1) where
  -- A chunk whose page is one of the allowed ones.
  abbrev pub IsFrom : Chunk → Type 0
  IsFrom c = IsComposed tk c × P c.page_no

  abbrev IsPage : Option ℕ → Type 0
  IsPage page = (page ≡ none) ⊎ ((n : ℕ) × (page ≡ some n) × P n)

  record IsKept (st : Progress) : Type 0 where
    chunks : All IsFrom st.chunks
    page : IsPage st.acc.page

  or_default-page : (page : Option ℕ) → IsPage page → P (or_default page 1)
  or_default-page none h = first
  or_default-page (some zero) h = first
  or_default-page (some (suc n)) (inl e) = absurd (cc)
  or_default-page (some (suc n)) (inr (m, e, p)) = let same : suc n ≡ m = cc in subst P (sym same) p

  reset_with_overlap-page : (overlap : Text) → IsPage (reset_with_overlap tk overlap).page
  reset_with_overlap-page [] = inl refl
  reset_with_overlap-page (c ∷ cs) = inl refl

  reset-IsKept : (st : Progress) → All IsFrom st.chunks → IsKept (reset tk st)
  reset-IsKept st h = record { chunks = h; page = inl refl }

  appended-IsKept : (st : Progress) (body : Text) → IsKept st → IsKept (appended tk st body)
  unfolding appended
  appended-IsKept st body k = record {
    chunks = ((chunk_of-IsComposed tk _ _ _, or_default-page st.acc.page k.page), k.chunks);
    page = reset_with_overlap-page (tail_tokens tk body overlap_tokens);
  }

  flush_small-IsKept :
      (st : Progress) (body : Text) (cs : List Chunk)
      → cs ≡ st.chunks
      → IsKept st
      → IsKept (flush_small tk st body cs)
  unfolding flush_small
  flush_small-IsKept st body [] same k = appended-IsKept st body k
  flush_small-IsKept st body (prev ∷ earlier) same k =
      let old = subst (All IsFrom) (sym same) k.chunks in
      elim (Bool-cases
        (leb (count_tokens tk (compose prev.section_path (merged_body prev body))) max_tokens)) [
          | inl e ↦ rw e (record {
            chunks = ((chunk_of-IsComposed tk _ _ _, old.0.1), old.1);
            page = inl refl;
          })
          | inr e ↦ rw e (appended-IsKept st body k)
        ]

  flush-IsKept : (st : Progress) → IsKept st → IsKept (flush tk st)
  unfolding flush
  flush-IsKept st k = elim (Bool-cases (is_empty (body_of st.acc))) [
    | inl e ↦ rw e (reset-IsKept st k.chunks)
    | inr e ↦ elim (Bool-cases (ltb (count_tokens tk (body_of st.acc)) min_tokens)) [
      | inl f ↦ rw e (rw f (flush_small-IsKept st (body_of st.acc) st.chunks refl k))
      | inr f ↦ rw e (rw f (appended-IsKept st (body_of st.acc) k))
    ]
  ]

  page_or-IsPage : (page : Option ℕ) (n : ℕ) → IsPage page → P n → IsPage (page_or page n)
  page_or-IsPage none n h p = inr (n, refl, p)
  page_or-IsPage (some m) n h p = h

  with_added-IsKept :
      (text : Text) (n tokens : ℕ) (st : Progress)
      → P n
      → IsKept st
      → IsKept (with_added text n tokens st)
  with_added-IsKept text n tokens st p k = record {
    chunks = k.chunks;
    page = page_or-IsPage st.acc.page n k.page p;
  }

  hard_split-IsKept :
      (fuel n : ℕ) (remaining : Text) (st : Progress)
      → P n
      → IsKept st
      → IsKept (hard_split tk fuel n remaining st)
  unfolding hard_split
  hard_split-IsKept zero n remaining st p k = k
  hard_split-IsKept (suc fuel) n [] st p k = k
  hard_split-IsKept (suc fuel) n (c ∷ cs) st p k =
      let piece = truncate_to_tokens tk (c ∷ cs) target_tokens in
      hard_split-IsKept fuel n (strip (drop (length piece) (c ∷ cs)))
        (flush tk (with_added piece n (count_tokens tk piece) st)) p
        (flush-IsKept _ (with_added-IsKept piece n (count_tokens tk piece) st p k))

  add_sentence-IsKept :
      (n : ℕ) (st : Progress) (sentence : Text)
      → P n
      → IsKept st
      → IsKept (add_sentence tk n st sentence)
  unfolding add_sentence
  add_sentence-IsKept n st sentence p k =
      elim (Bool-cases (ltb max_tokens (count_tokens tk sentence))) [
        | inl e ↦ rw e (
            hard_split-IsKept (length sentence) n sentence (reset tk (flush tk st)) p
              (reset-IsKept (flush tk st) (flush-IsKept st k).chunks))
        | inr e ↦ elim (Bool-cases (is_full st (count_tokens tk sentence))) [
          | inl f ↦ rw e (rw f (with_added-IsKept sentence n _ (flush tk st) p (flush-IsKept st k)))
          | inr f ↦ rw e (rw f (with_added-IsKept sentence n _ st p k))
        ]
      ]

  add_sentences-IsKept :
      (n : ℕ) (st : Progress) (sentences : List Text)
      → P n
      → IsKept st
      → IsKept (add_sentences tk n st sentences)
  unfolding add_sentences
  add_sentences-IsKept n st [] p k = k
  add_sentences-IsKept n st (sentence ∷ rest) p k =
      add_sentences-IsKept n (add_sentence tk n st sentence) rest p
        (add_sentence-IsKept n st sentence p k)

  add_kind-IsKept :
      (kind : BlockKind) (st : Progress) (block : Block)
      → P block.page_no
      → IsKept st
      → IsKept (add_kind tk kind st block)
  unfolding add_kind with_heading
  add_kind-IsKept heading st block p k = record {
    chunks = (flush-IsKept st k).chunks;
    page = inl refl;
  }
  add_kind-IsKept table st block p k = record {
    chunks = ((chunk_of-IsComposed tk _ _ _, p), (flush-IsKept st k).chunks);
    page = inl refl;
  }
  add_kind-IsKept paragraph st block p k =
      add_sentences-IsKept block.page_no st (split_sentences block.text) p k

  add_block-IsKept :
      (st : Progress) (block : Block) → P block.page_no → IsKept st → IsKept (add_block tk st block)
  unfolding add_block
  add_block-IsKept st block p k = add_kind-IsKept block.kind st block p k

  add_blocks-IsKept :
      (st : Progress) (blocks : List Block)
      → All (λ b. P b.page_no) blocks
      → IsKept st
      → IsKept (add_blocks tk st blocks)
  unfolding add_blocks
  add_blocks-IsKept st [] ps k = k
  add_blocks-IsKept st (block ∷ rest) (p, ps) k =
      add_blocks-IsKept (add_block tk st block) rest ps (add_block-IsKept st block p k)

  All-reverse : (cs : List Chunk) → All IsFrom cs → All IsFrom (reverse cs)
  All-reverse [] h = tt
  All-reverse (c ∷ cs) (x, h) =
      subst (All IsFrom) (sym (reverse-cons c cs))
        (All-append IsFrom (reverse cs) (c ∷ []) (All-reverse cs h) (x, tt))

  pub chunk_blocks-IsFrom :
      (blocks : List Block) → All (λ b. P b.page_no) blocks → All IsFrom (chunk_blocks tk blocks)
  unfolding chunk_blocks
  chunk_blocks-IsFrom blocks ps =
      All-keep IsFrom has_text (reverse (flush tk (add_blocks tk start blocks)).chunks) (
        All-reverse (flush tk (add_blocks tk start blocks)).chunks
          (flush-IsKept (add_blocks tk start blocks)
            (add_blocks-IsKept start blocks ps (record { chunks = tt; page = inl refl }))).chunks)

module _ (tk : Tokenizer) where
  chunk_blocks-has_text :
      (blocks : List Block) (c : Chunk) → In c (chunk_blocks tk blocks) → strip c.body ≢ []
  unfolding chunk_blocks
  chunk_blocks-has_text blocks c i e =
      let (_, test) =
        In-keep has_text c (reverse (flush tk (add_blocks tk start blocks)).chunks) i in
      ground (arith, ap (λ t. is_empty t) e)

  -- Every chunk of a document has a text, its content is its section's path and that text, its
  -- tokens are counted, and its page is 1 or the page of a block.
  pub chunk_blocks-IsComposed :
      (blocks : List Block) (c : Chunk)
      → In c (chunk_blocks tk blocks)
      → IsComposed tk c
        × (strip c.body ≢ [])
        × ((c.page_no ≡ 1) ⊎ ((b : Block) × In b blocks × (b.page_no ≡ c.page_no)))
  chunk_blocks-IsComposed blocks c i =
      let P = λ (n : ℕ). (n ≡ 1) ⊎ ((b : Block) × In b blocks × (b.page_no ≡ n)) in
      let (shape, page) =
        All-In (λ x. IsComposed tk x × P x.page_no) (chunk_blocks tk blocks) c
          (chunk_blocks-IsFrom tk P (inl refl) blocks
            (In-All (λ b. P b.page_no) blocks (λ b j. inr (b, j, refl))))
          i in
      (shape, chunk_blocks-has_text blocks c i, page)
