-- ===== src/Chunker/Chunks.antt =====
-- The accumulator and `chunk_blocks` of backend/app/rag/chunk.py.
use safe_shield.Prelude.{
  reverse, zero, ◌&&◌, ◌-◌, ◌+◌, take, drop, codes, join, not, leb, suc, ◌∷◌, keep, length, strip,
  some, ◌++◌, none, ltb, is_empty, Option, Text, if◌then◌else◌, Bool, List, [], ℕ,
}
use safe_shield.Chunker.Headings.{path, Stack, push}
use safe_shield.Chunker.Sentences.{split_sentences}
use safe_shield.Rag.Retrieve.{or_default}

pub data BlockKind : Type 0 where
  heading paragraph table : BlockKind

pub record Block : Type 0 where
  pub kind : BlockKind
  pub text : Text
  pub page_no : ℕ
  pub level : ℕ

pub record Chunk : Type 0 where
  pub content : Text
  pub body : Text
  pub page_no : ℕ
  pub section_path : Text
  pub token_count : ℕ

-- `encode(text, disallowed_special=())` and `decode`
pub record Tokenizer : Type 0 where
  pub encode : Text → List ℕ
  pub decode : List ℕ → Text

abbrev pub target_tokens : ℕ
target_tokens = 700

abbrev pub max_tokens : ℕ
max_tokens = 1100

abbrev pub min_tokens : ℕ
min_tokens = 40

abbrev pub overlap_tokens : ℕ
overlap_tokens = 100

pub record Accumulator : Type 0 where
  pub parts : List Text
  pub tokens : ℕ
  pub page : Option ℕ

pub record Progress : Type 0 where
  -- the last chunk first
  pub chunks : List Chunk
  pub headings : Stack
  pub acc : Accumulator

abbrev pub compose : Text → Text → Text
compose section_path body =
    if is_empty section_path then body else section_path ++ (codes "\n\n" ++ body)

abbrev pub empty_accumulator : Accumulator
empty_accumulator = record { parts = []; tokens = 0; page = none }

abbrev pub page_or : Option ℕ → ℕ → Option ℕ
page_or none page_no = some page_no
page_or (some p) page_no = some p

-- `add`, which the source calls with the number of tokens of the text.
abbrev pub add : Text → ℕ → ℕ → Accumulator → Accumulator
add text page_no tokens acc = record {
  parts = acc.parts ++ (text ∷ []);
  tokens = acc.tokens + tokens;
  page = page_or acc.page page_no;
}

abbrev pub body_of : Accumulator → Text
body_of acc = strip (join (codes " ") acc.parts)

abbrev pub start : Progress
start = record { chunks = []; headings = []; acc = empty_accumulator }

abbrev pub merged_body : Chunk → Text → Text
merged_body prev body = strip (prev.body ++ (codes " " ++ body))

abbrev pub with_added : Text → ℕ → ℕ → Progress → Progress
with_added text page_no tokens st = record {
  chunks = st.chunks;
  headings = st.headings;
  acc = add text page_no tokens st.acc;
}

abbrev pub is_full : Progress → ℕ → Bool
is_full st tokens = ltb target_tokens (st.acc.tokens + tokens) && leb min_tokens st.acc.tokens

abbrev pub has_text : Chunk → Bool
has_text c = not (is_empty (strip c.body))

module _ (tk : Tokenizer) where
  abbrev pub count_tokens : Text → ℕ
  count_tokens text = length (tk.encode text)

  abbrev pub truncate_to_tokens : Text → ℕ → Text
  truncate_to_tokens text limit =
      let tokens = tk.encode text in
      if leb (length tokens) limit then text else tk.decode (take limit tokens)

  abbrev pub tail_tokens : Text → ℕ → Text
  tail_tokens text limit =
      let tokens = tk.encode text in
      if leb (length tokens) limit then text else tk.decode (drop (length tokens - limit) tokens)

  abbrev pub reset_with_overlap : Text → Accumulator
  reset_with_overlap overlap =
      if is_empty overlap
      then empty_accumulator
      else record { parts = overlap ∷ []; tokens = count_tokens overlap; page = none }

  abbrev pub reset : Progress → Progress
  reset st = record { chunks = st.chunks; headings = st.headings; acc = reset_with_overlap [] }

  abbrev pub chunk_of : Text → Text → ℕ → Chunk
  chunk_of section_path body page_no = record {
    content = compose section_path body;
    body = body;
    page_no = page_no;
    section_path = section_path;
    token_count = count_tokens (compose section_path body);
  }

  -- The chunk of its own that a flush appends.
  unfoldable pub appended : Progress → Text → Progress
  appended st body = record {
    chunks = chunk_of (path st.headings) body (or_default st.acc.page 1) ∷ st.chunks;
    headings = st.headings;
    acc = reset_with_overlap (tail_tokens body overlap_tokens);
  }

  abbrev pub merged : Chunk → Text → Chunk
  merged prev body = chunk_of prev.section_path (merged_body prev body) prev.page_no

  -- Too small to stand alone: into the previous chunk, if there is one and the result fits.
  unfoldable pub flush_small : Progress → Text → List Chunk → Progress
  unfolding appended
  flush_small st body [] = appended st body
  flush_small st body (prev ∷ earlier) =
      if leb (count_tokens (compose prev.section_path (merged_body prev body))) max_tokens
      then record {
        chunks = merged prev body ∷ earlier;
        headings = st.headings;
        acc = reset_with_overlap [];
      }
      else appended st body

  unfoldable pub flush : Progress → Progress
  unfolding flush_small appended
  flush st =
      let body = body_of st.acc in
      if is_empty body
      then reset st
      else if ltb (count_tokens body) min_tokens
      then flush_small st body st.chunks
      else appended st body

  -- `while remaining:`, on fuel.
  unfoldable pub hard_split : ℕ → ℕ → Text → Progress → Progress
  unfolding flush
  hard_split zero page_no remaining st = st
  hard_split (suc fuel) page_no [] st = st
  hard_split (suc fuel) page_no (c ∷ cs) st =
      let piece = truncate_to_tokens (c ∷ cs) target_tokens in
      hard_split fuel page_no (strip (drop (length piece) (c ∷ cs)))
        (flush (with_added piece page_no (count_tokens piece) st))

  unfoldable pub add_sentence : ℕ → Progress → Text → Progress
  unfolding flush hard_split
  add_sentence page_no st sentence =
      let tokens = count_tokens sentence in
      if ltb max_tokens tokens
      then hard_split (length sentence) page_no sentence (reset (flush st))
      else with_added sentence page_no tokens (if is_full st tokens then flush st else st)

  unfoldable pub add_sentences : ℕ → Progress → List Text → Progress
  unfolding add_sentence
  add_sentences page_no st [] = st
  add_sentences page_no st (sentence ∷ rest) =
      add_sentences page_no (add_sentence page_no st sentence) rest

  unfoldable pub with_heading : ℕ → Text → Progress → Progress
  unfolding push
  with_heading level text st = record {
    chunks = st.chunks;
    headings = push level text st.headings;
    acc = st.acc;
  }

  abbrev pub with_table : Text → ℕ → Progress → Progress
  with_table text page_no st = record {
    chunks = chunk_of (path st.headings) (truncate_to_tokens text max_tokens) page_no ∷ st.chunks;
    headings = st.headings;
    acc = st.acc;
  }

  unfoldable pub add_kind : BlockKind → Progress → Block → Progress
  unfolding flush with_heading add_sentences split_sentences
  add_kind heading st block = with_heading block.level block.text (reset (flush st))
  add_kind table st block = with_table block.text block.page_no (reset (flush st))
  add_kind paragraph st block = add_sentences block.page_no st (split_sentences block.text)

  unfoldable pub add_block : Progress → Block → Progress
  unfolding add_kind
  add_block st block = add_kind block.kind st block

  unfoldable pub add_blocks : Progress → List Block → Progress
  unfolding add_block
  add_blocks st [] = st
  add_blocks st (block ∷ rest) = add_blocks (add_block st block) rest

  unfoldable pub chunk_blocks : List Block → List Chunk
  unfolding add_blocks flush
  chunk_blocks blocks = keep has_text (reverse (flush (add_blocks start blocks)).chunks)
