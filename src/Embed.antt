-- ===== src/Embed.antt =====
-- backend/app/rag/embed.py: batches of texts to the embedding API, and the choice of the provider.
-- The API is a parameter.
pub mod Order
pub mod Proofs
pub mod Answers
pub mod Fake
mod Tests
use safe_shield.Prelude.{
  zero, drop, leb, ◌==◌, take, none, map, ◌++◌, length, ◌∷◌, suc, some, codes, if◌then◌else◌, [],
  Text, Option, List, ℕ,
}
use safe_shield.Prelude.Effects.{ok, err, runtime, Result, Error}
use safe_shield.Config.{is_prod, is_set, Settings}
use safe_shield.Rag.Order.{sort_by}
use safe_shield.Answer.Synthesize.{decimal}

-- `response.data` and the tokens used, or an exception.
pub record Response (V : Type 0) : Type 0 where
  -- the index and the embedding of each item
  pub items : List (ℕ × V)
  pub total_tokens : Option ℕ

-- What the counters of core/metrics.py show.
pub data Counted : Type 0 where
  embedding_errors : Counted
  embedding_tokens : ℕ → Counted

abbrev pub usage_counted : Option ℕ → List Counted
usage_counted none = []
usage_counted (some n) = embedding_tokens n ∷ []

abbrev pub count_mismatch : ℕ → ℕ → Error
count_mismatch got expected = runtime (
    codes "Embedding count mismatch: got "
    ++ (decimal got ++ (codes ", expected " ++ decimal expected)))

-- `texts[start : start + size]` for each start, on fuel.
unfoldable pub batches : ℕ → ℕ → List Text → List (List Text)
batches zero size texts = []
batches (suc fuel) size [] = []
batches (suc fuel) size (t ∷ ts) = take size (t ∷ ts) ∷ batches fuel size (drop size (t ∷ ts))

module _ {V : Type 0} (create : List Text → Result (Response V)) where
  -- `sorted(response.data, key=lambda d: d.index)`
  unfoldable pub ordered : Response V → List V
  unfolding sort_by
  ordered r = map (λ d. d.1) (sort_by (λ a b. leb a.0 b.0) r.items)

  abbrev pub collect :
      List V → List Counted → Result (List V) × List Counted → Result (List V) × List Counted
  collect front counted (ok rest, more) = (ok (front ++ rest), counted ++ more)
  collect front counted (err e, more) = (err e, counted ++ more)

  -- What one response adds to those of the later batches.
  unfoldable pub requested :
      Result (Response V) → Result (List V) × List Counted → Result (List V) × List Counted
  unfolding ordered
  requested (err e) later = (err e, embedding_errors ∷ [])
  requested (ok response) later =
      collect (ordered response) (usage_counted response.total_tokens) later

  -- One request after the other; the first that fails ends the loop.
  unfoldable pub request_all : List (List Text) → Result (List V) × List Counted
  unfolding requested
  request_all [] = (ok [], [])
  request_all (batch ∷ rest) = requested (create batch) (request_all rest)

  abbrev pub checked : ℕ → Result (List V) × List Counted → Result (List V) × List Counted
  checked expected (err e, counted) = (err e, counted)
  checked expected (ok out, counted) =
      if length out == expected
      then (ok out, counted)
      else (err (count_mismatch (length out) expected), counted)

  -- `range` refuses a step of zero.
  unfoldable pub embed : ℕ → List Text → Result (List V) × List Counted
  unfolding batches request_all
  embed batch_size [] = (ok [], [])
  embed batch_size (t ∷ ts) =
      if batch_size == 0
      then (err (runtime (codes "range() arg 3 must not be zero")), [])
      else checked (length (t ∷ ts)) (request_all (batches (length (t ∷ ts)) batch_size (t ∷ ts)))

-- The fake provider maps each text.
abbrev pub fake_embed : {V : Type 0} → (Text → V) → List Text → Result (List V) × List Counted
fake_embed one texts = (ok (map one texts), [])

pub data Provider : Type 0 where
  openai_embeddings : ℕ → Provider
  fake_embeddings : Provider

abbrev pub missing_key : Error
missing_key = runtime (
    codes "OPENAI_API_KEY is not set and ENV=prod. Refusing to fall back to "
    ++ (codes "FakeEmbeddings: it would index the corpus with deterministic noise "
        ++ codes "and report every document as ready."))

unfoldable pub get_embedding_provider : Settings → Result Provider
get_embedding_provider s =
    if is_set s.openai_api_key
    then ok (openai_embeddings s.embedding_batch_size)
    else if is_prod s.env
    then err missing_key
    else ok fake_embeddings
