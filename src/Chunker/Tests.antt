-- ===== src/Chunker/Tests.antt =====
-- Concrete runs of the chunker, with a token for each character.
use safe_shield.Prelude.{
  inl, sym, subst, arith, refl, ◌⊎◌, ◌∷◌, [], ◌≢◌, codes, strip, ◌≡◌, List, Text,
}
use safe_shield.Chunker.Shape.{chunk_blocks-IsComposed, IsComposed}
use safe_shield.Chunker.Chunks.{
  paragraph, start, heading, Block, with_added, Chunk, Progress, hard_split, chunk_blocks,
  Tokenizer,
}
use safe_shield.Chunker.Headings.{top, opened, push-above, above, path, Nested, push}
use safe_shield.Chunker.Solid.{split_sentences-solid, all_solid}
use safe_shield.Chunker.Sentences.{split_sentences}
use safe_shield.Chunker.Fuel.{hard_split_enough}
use safe_shield.Rag.Order.{In}

abbrev pub letters : Tokenizer
letters = record { encode = λ t. t; decode = λ t. t }

abbrev pub two_blocks : List Block
two_blocks =
    record { kind = heading; text = codes "Cover"; page_no = 3; level = 1 }
    ∷ record { kind = paragraph; text = codes "We pay. You ask."; page_no = 4; level = 0 }
    ∷ []

abbrev only_chunk : Chunk
only_chunk = record {
  content = codes "Cover\n\nWe pay. You ask.";
  body = codes "We pay. You ask.";
  page_no = 4;
  section_path = codes "Cover";
  token_count = 23;
}

chunk_run : chunk_blocks letters two_blocks ≡ only_chunk ∷ []
unfolding chunk_blocks path
chunk_run = refl

chunk_blocks-IsComposed_example :
    IsComposed letters only_chunk
    × (strip only_chunk.body ≢ [])
    × ((only_chunk.page_no ≡ 1)
        ⊎ ((b : Block) × In b two_blocks × (b.page_no ≡ only_chunk.page_no)))
chunk_blocks-IsComposed_example =
    chunk_blocks-IsComposed letters two_blocks only_chunk
      (subst (In only_chunk) (sym chunk_run) (inl refl))

push-above_example :
    Nested (push 2 (codes "Limits") (push 1 (codes "Cover") []))
    × (push 2 (codes "Waiting") (push 2 (codes "Limits") (push 1 (codes "Cover") []))
        ≡ (2, codes "Waiting") ∷ above 2 (push 2 (codes "Limits") (push 1 (codes "Cover") [])))
push-above_example =
    push-above 2 (codes "Waiting") (push 2 (codes "Limits") (push 1 (codes "Cover") []))
      (opened 2 (codes "Limits") (push 1 (codes "Cover") []) (opened 1 (codes "Cover") [] top))

split_sentences-solid_example :
    all_solid (split_sentences (codes "We pay.  You ask: now")) ≡ codes "Wepay.Youask:now"
split_sentences-solid_example = split_sentences-solid (codes "We pay.  You ask: now")

hard_split_enough_example :
    hard_split letters 3 4 (codes "abc") start ≡ hard_split letters 9 4 (codes "abc") start
hard_split_enough_example =
    hard_split_enough letters (λ c cs e. cc) (λ n ns e. cc) 3 9 4 (codes "abc") start (omega arith)
      (omega arith)

abbrev long_text : Text
long_text = codes "The waiting period is thirty days from the start of the policy."

abbrev long_state : Progress
long_state = with_added long_text 7 63 start
